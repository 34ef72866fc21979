-- ===== src/Entry/Json/Braces.antt =====
-- Cutting an object out of a printed entry.
use mathlib.Core.List.{append_assoc, append-nil}
use vector_clock_good.Common.{
  ℕ, zero, suc, ◌+◌, ◌-◌, ◌≡◌, ◌≢◌, refl, sym, ap, ◌∙◌, none, List, [], ◌∷◌, ◌++◌, arith, ltb,
  Bytes, codes, length, Bool-cases, inl, inr, print_nat, print-IsDigit, IsDigit, All, All-append,
  All-map, is_print,
}
use vector_clock_good.Clock.{VectorClock, cell}
use vector_clock_good.Clock.Json.{node_label, member}
use vector_clock_good.Clock.Json.Printed.{listing, separator}
use vector_clock_good.Entry.{MetadataPair}
use vector_clock_good.Entry.Json.{
  escape_byte, escape_loop, escaped_size, json_escape, bracket_loop, skip_object,
}
use vector_clock_good.Entry.Json.Printed.{lead, pair_text, pairs_text}

-- A byte that opens or closes no object.
pub record IsInner (c : ℕ) : Type 0 where
  pub no_left : c ≢ b'{'
  pub no_right : c ≢ b'}'

bracket_loop_next :
    (c : ℕ) (s read : Bytes)
    → IsInner c
    → bracket_loop b'{' b'}' 1 (c ∷ s) read ≡ bracket_loop b'{' b'}' 1 s (read ++ c ∷ [])
unfolding bracket_loop
bracket_loop_next c s read p = ground (arith, p.no_left, p.no_right)

-- From inside an object, a text without braces is read up to the brace behind it.
bracket_loop_lem :
    (s rest read : Bytes)
    → All IsInner s
    → bracket_loop b'{' b'}' 1 (s ++ b'}' ∷ rest) read ≡ ((read ++ s) ++ codes "}", rest)
unfolding bracket_loop
bracket_loop_lem [] rest read p = ap (λ r. (r ++ codes "}", rest)) (sym (append-nil read))
bracket_loop_lem (c ∷ s) rest read (p, q) =
    bracket_loop_next c (s ++ b'}' ∷ rest) read p
    ∙ bracket_loop_lem s rest (read ++ c ∷ []) q
    ∙ ap (λ r. (r ++ codes "}", rest)) (append_assoc read (c ∷ []) s)

pub skip_object_lem :
    (s rest : Bytes)
    → All IsInner s
    → skip_object (b'{' ∷ (s ++ b'}' ∷ rest)) ≡ (b'{' ∷ (s ++ codes "}"), rest)
unfolding skip_object bracket_loop
skip_object_lem s rest p = bracket_loop_lem s rest (codes "{") p

digit-IsInner : (c : ℕ) → IsDigit c → IsInner c
digit-IsInner c h = omega (arith, h.high)

print-IsInner : (n : ℕ) → All IsInner (print_nat n)
print-IsInner n = All-map digit-IsInner (print_nat n) (print-IsDigit n)

member-IsInner : (vc : VectorClock) (i : ℕ) → All IsInner (member none vc i)
unfolding member node_label
member-IsInner vc i = (
  omega arith,
  All-append IsInner (codes "node-" ++ print_nat i) (codes "\":" ++ print_nat (cell vc i))
      (All-append IsInner (codes "node-") (print_nat i) (omega arith) (print-IsInner i))
      (All-append IsInner (codes "\":") (print_nat (cell vc i)) (omega arith)
        (print-IsInner (cell vc i))),
)

separator-IsInner : (n : ℕ) → All IsInner (separator n)
separator-IsInner zero = tt
separator-IsInner (suc n) = omega arith

-- The members of a clock, without the brace behind them.
inside : VectorClock → ℕ → ℕ → Bytes
inside vc zero i = []
inside vc (suc n) i = member none vc i ++ (separator n ++ inside vc n (i + 1))

inside-listing : (vc : VectorClock) (n i : ℕ) → listing none vc n i ≡ inside vc n i ++ codes "}"
unfolding inside
inside-listing vc zero i = refl
inside-listing vc (suc n) i =
    ap (λ s. member none vc i ++ (separator n ++ s)) (inside-listing vc n (i + 1))
    ∙ simp append_assoc

inside-IsInner : (vc : VectorClock) (n i : ℕ) → All IsInner (inside vc n i)
unfolding inside
inside-IsInner vc zero i = tt
inside-IsInner vc (suc n) i =
    All-append IsInner (member none vc i) (separator n ++ inside vc n (i + 1)) (member-IsInner vc i)
      (All-append IsInner (separator n) (inside vc n (i + 1)) (separator-IsInner n)
        (inside-IsInner vc n (i + 1)))

-- The text of a clock is cut out of what follows.
pub skip_clock :
    (vc : VectorClock) (n : ℕ) (rest : Bytes)
    → skip_object (b'{' ∷ (listing none vc n 0 ++ rest)) ≡ (b'{' ∷ listing none vc n 0, rest)
skip_clock vc n rest =
    ap (λ s. skip_object (b'{' ∷ (s ++ rest))) (inside-listing vc n 0)
    ∙ ap (λ s. skip_object (b'{' ∷ s)) (append_assoc (inside vc n 0) (codes "}") rest)
    ∙ skip_object_lem (inside vc n 0) rest (inside-IsInner vc n 0)
    ∙ ap (λ s. (b'{' ∷ s, rest)) (sym (inside-listing vc n 0))

-- A pair whose texts have no braces.
pub record IsBraceless (p : MetadataPair) : Type 0 where
  pub key : All IsInner p.key
  pub value : All IsInner p.value

escape_byte-IsInner : (c : ℕ) → IsInner c → All IsInner (escape_byte c)
unfolding escape_byte is_print
escape_byte-IsInner c h = ground (arith, h.no_left, h.no_right)

escape_loop-IsInner :
    (size : ℕ) (src dst : Bytes)
    → All IsInner src
    → All IsInner dst
    → All IsInner (escape_loop size src dst)
unfolding escape_loop
escape_loop-IsInner size [] dst h k = k
escape_loop-IsInner size (c ∷ src) dst (h, hs) k = elim (Bool-cases (ltb (length dst) (size - 2))) [
  | inl b ↦
      rw (escape_loop, b)
        (escape_loop-IsInner size src (dst ++ escape_byte c) hs
          (All-append IsInner dst (escape_byte c) k (escape_byte-IsInner c h)))
  | inr b ↦ rw (escape_loop, b) k
]

string-IsInner :
    (s : Bytes) (t : Bytes)
    → All IsInner s
    → All IsInner t
    → All IsInner (b'"' ∷ (json_escape s ++ t))
unfolding json_escape
string-IsInner s t h k = (
  omega arith,
  All-append IsInner (json_escape s) t (escape_loop-IsInner escaped_size s [] h tt) k,
)

lead-IsInner : (i : ℕ) → All IsInner (lead i)
lead-IsInner i = elim (Bool-cases (ltb 0 i)) [ inl b ↦ rw b (omega arith) | inr b ↦ rw b tt ]

pub pairs-IsInner :
    (i : ℕ) (ps : List MetadataPair) → All IsBraceless ps → All IsInner (pairs_text i ps)
pairs-IsInner i [] h = tt
pairs-IsInner i (p ∷ ps) (h, hs) =
    let key = string-IsInner p.key (codes "\":") h.key (omega arith) in
    let value = string-IsInner p.value (codes "\"") h.value (omega arith) in
    All-append IsInner (lead i) (pair_text p ++ pairs_text (i + 1) ps) (lead-IsInner i) (
      All-append IsInner (pair_text p) (pairs_text (i + 1) ps)
        (All-append IsInner (b'"' ∷ (json_escape p.key ++ codes "\":"))
          (b'"' ∷ (json_escape p.value ++ codes "\"")) key value)
        (pairs-IsInner (i + 1) ps hs))
