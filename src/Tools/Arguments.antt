-- ===== src/Tools/Arguments.antt =====
-- The loop over argv: what each option keeps, the loop keeps, and it has rounds enough.
use vector_clock_good.Common.{
  ℕ, zero, suc, ◌≤◌, ◌≡◌, refl, arith, Bool, true, false, if◌then◌else◌, List, [], ◌∷◌, length,
  Bytes,
}
use vector_clock_good.Tools.{
  Parsed, parsed, usage, failed, Next, onward, stop_usage, stop_failed, value_then, resume,
  args_loop, parse_args,
}

-- Options that go on have `P`, with at most `n` arguments left.
abbrev pub Keeps : {A : Type 0} → (A → Type 0) → ℕ → Next A → Type 0
Keeps P n (onward o rest) = P o × (length rest ≤ n)
Keeps P n stop_usage = Unit {0}
Keeps P n stop_failed = Unit {0}

-- Options that were parsed have `P`.
abbrev pub Holds : {A : Type 0} → (A → Type 0) → Parsed A → Type 0
Holds P (parsed o) = P o
Holds P usage = Unit {0}
Holds P failed = Unit {0}

-- The loop over argv without a bound: `Ends option o args r` is a run of it that ends, from the options
-- `o` and the arguments `args` left, with the result `r`.
pub data Ends {A : Type 0} (option : A → Bytes → List Bytes → Next A)
    : A → List Bytes → Parsed A → Type 0 where
  at_end : (o : A) → Ends option o [] (parsed o)
  at_usage :
      (o : A) (arg : Bytes) (rest : List Bytes)
      → option o arg rest ≡ stop_usage
      → Ends option o (arg ∷ rest) usage
  at_error :
      (o : A) (arg : Bytes) (rest : List Bytes)
      → option o arg rest ≡ stop_failed
      → Ends option o (arg ∷ rest) failed
  after :
      (o : A) (arg : Bytes) (rest : List Bytes) (next : A) (left : List Bytes) (r : Parsed A)
      → option o arg rest ≡ onward next left
      → Ends option next left r
      → Ends option o (arg ∷ rest) r

module _ {A : Type 0} (P : A → Type 0) where
  pub Keeps-if :
      (n : ℕ) (b : Bool) (x y : Next A)
      → (b ≡ true → Keeps P n x)
      → (b ≡ false → Keeps P n y)
      → Keeps P n (if b then x else y)
  Keeps-if n true x y h k = h refl
  Keeps-if n false x y h k = k refl

  pub Keeps-value_then :
      (args : List Bytes) (f : Bytes → List Bytes → Next A)
      → ((v : Bytes) (rest : List Bytes)
          → length rest ≤ length args
          → Keeps P (length args) (f v rest))
      → Keeps P (length args) (value_then args f)
  Keeps-value_then [] f h = tt
  Keeps-value_then (v ∷ rest) f h = h v rest (omega arith)

  abbrev pub IsKept : (A → Bytes → List Bytes → Next A) → Type 0
  IsKept option =
      (o : A) (arg : Bytes) (rest : List Bytes) → P o → Keeps P (length rest) (option o arg rest)

  module _ (option : A → Bytes → List Bytes → Next A) (keeps : IsKept option) where
    resume-Holds :
        (n : ℕ) (loop : A → List Bytes → Parsed A) (next : Next A)
        → Keeps P n next
        → ((o : A) (rest : List Bytes) → P o → length rest ≤ n → Holds P (loop o rest))
        → Holds P (resume loop next)
    resume-Holds n loop (onward o rest) (p, l) h = h o rest p l
    resume-Holds n loop stop_usage k h = tt
    resume-Holds n loop stop_failed k h = tt

    resume-same :
        (n : ℕ) (loop other : A → List Bytes → Parsed A) (next : Next A)
        → Keeps P n next
        → ((o : A) (rest : List Bytes) → P o → length rest ≤ n → loop o rest ≡ other o rest)
        → resume loop next ≡ resume other next
    resume-same n loop other (onward o rest) (p, l) h = h o rest p l
    resume-same n loop other stop_usage k h = refl
    resume-same n loop other stop_failed k h = refl

    args_loop-Holds :
        (fuel : ℕ) (o : A) (args : List Bytes) → P o → Holds P (args_loop option fuel o args)
    unfolding args_loop
    args_loop-Holds fuel o [] p = p
    args_loop-Holds zero o (arg ∷ args) p = tt
    args_loop-Holds (suc fuel) o (arg ∷ args) p =
        resume-Holds (length args) (args_loop option fuel) (option o arg args) (keeps o arg args p)
          (λ o rest p l. args_loop-Holds fuel o rest p)

    args_loop-same :
        (fuel more : ℕ) (o : A) (args : List Bytes)
        → P o
        → length args ≤ fuel
        → length args ≤ more
        → args_loop option fuel o args ≡ args_loop option more o args
    unfolding args_loop
    args_loop-same fuel more o [] p h k = refl
    args_loop-same zero more o (arg ∷ args) p h k = absurd (omega arith)
    args_loop-same (suc fuel) zero o (arg ∷ args) p h k = absurd (omega arith)
    args_loop-same (suc fuel) (suc more) o (arg ∷ args) p h k =
        resume-same (length args) (args_loop option fuel) (args_loop option more)
          (option o arg args) (keeps o arg args p)
          (λ o rest p l. args_loop-same fuel more o rest p (omega arith) (omega arith))

    pub parse_args-Holds : (o : A) (args : List Bytes) → P o → Holds P (parse_args option o args)
    unfolding parse_args
    parse_args-Holds o args p = args_loop-Holds (length args) o args p

    -- More rounds than there are arguments change nothing.
    pub args_loop_enough :
        (fuel : ℕ) (o : A) (args : List Bytes)
        → P o
        → length args ≤ fuel
        → args_loop option fuel o args ≡ parse_args option o args
    unfolding parse_args
    args_loop_enough fuel o args p h = args_loop-same fuel (length args) o args p h (omega arith)

    resume-Ends :
        (fuel : ℕ) (o : A) (arg : Bytes) (args : List Bytes) (next : Next A)
        → option o arg args ≡ next
        → Keeps P (length args) next
        → ((o' : A) (left : List Bytes)
            → P o'
            → length left ≤ length args
            → Ends option o' left (args_loop option fuel o' left))
        → Ends option o (arg ∷ args) (resume (args_loop option fuel) next)
    resume-Ends fuel o arg args (onward o' left) e (p, l) h =
        after o arg args o' left (args_loop option fuel o' left) e (h o' left p l)
    resume-Ends fuel o arg args stop_usage e k h = at_usage o arg args e
    resume-Ends fuel o arg args stop_failed e k h = at_error o arg args e

    -- With as many rounds as there are arguments, or more, the result is that of a run that ends.
    pub args_loop-Ends :
        (fuel : ℕ) (o : A) (args : List Bytes)
        → P o
        → length args ≤ fuel
        → Ends option o args (args_loop option fuel o args)
    unfolding args_loop
    args_loop-Ends fuel o [] p h = at_end o
    args_loop-Ends zero o (arg ∷ args) p h = absurd (omega arith)
    args_loop-Ends (suc fuel) o (arg ∷ args) p h =
        resume-Ends fuel o arg args (option o arg args) refl (keeps o arg args p)
          (λ o' left q l. args_loop-Ends fuel o' left q (omega arith))
