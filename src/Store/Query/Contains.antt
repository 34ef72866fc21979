-- ===== src/Store/Query/Contains.antt =====
-- Which strings contain a keyword, and what a query finds.
use vector_clock_good.Common.{
  ℕ, ◌-◌, ◌≤◌, zero, suc, ◌≡◌, refl, sym, ap, ◌∙◌, ◌↔◌, inl, inr, true, false, Option, List, [],
  ◌∷◌, ◌++◌, map, ltb, ◌==◌, if◌then◌else◌, length, length-append, take, Bytes, strcmp-eq,
  str_case_eq, to_lower, pos, arith, Bool-cases,
}
use vector_clock_good.Entry.{LogEntry}
use vector_clock_good.Store.{LogStore}
use vector_clock_good.Store.Query.{
  Query, contains_loop, str_contains, match_query, query_loop, query,
}

-- The entries that match.
abbrev pub matching : Option Query → List LogEntry → List LogEntry
matching q [] = []
matching q (e ∷ es) = if match_query e q then e ∷ matching q es else matching q es

take-zero {ℓ} : {A : Type ℓ} (n : ℕ) (xs : List A) → n ≡ 0 → take n xs ≡ []
take-zero n xs h = rw h refl

append_nil {ℓ} : {A : Type ℓ} (xs : List A) → xs ++ [] ≡ xs
append_nil [] = refl
append_nil (x ∷ xs) = ap (λ ys. x ∷ ys) (append_nil xs)

append_assoc {ℓ} : {A : Type ℓ} (xs ys zs : List A) → (xs ++ ys) ++ zs ≡ xs ++ (ys ++ zs)
append_assoc [] ys zs = refl
append_assoc (x ∷ xs) ys zs = ap (λ l. x ∷ l) (append_assoc xs ys zs)

take-cons {ℓ} :
    {A : Type ℓ} (n : ℕ) (x : A) (xs rs : List A) (m : ℕ)
    → n ≡ suc m
    → rs ++ take n (x ∷ xs) ≡ (rs ++ x ∷ []) ++ take m xs
take-cons n x xs rs m h = rw (h, append_assoc rs (x ∷ []) (take m xs)) refl

pub take-nil : (n : ℕ) → take {A = LogEntry} n [] ≡ []
take-nil zero = refl
take-nil (suc n) = refl

room :
    (n : ℕ) (rs : List LogEntry) (e : LogEntry)
    → ltb (length rs) n ≡ true
    → length (rs ++ e ∷ []) ≤ n
room n rs e h = rw (length-append rs (e ∷ [])) (ground arith)

room_suc :
    (n : ℕ) (rs : List LogEntry) (e : LogEntry)
    → ltb (length rs) n ≡ true
    → n - length rs ≡ suc (n - length (rs ++ e ∷ []))
room_suc n rs e h = rw (length-append rs (e ∷ [])) (ground arith)

no_room : (n : ℕ) (rs : List LogEntry) → ltb (length rs) n ≡ false → n - length rs ≡ 0
no_room n rs h = ground arith

query_loop-matching :
    (q : Option Query) (n : ℕ) (es rs : List LogEntry)
    → length rs ≤ n
    → query_loop q n es rs ≡ rs ++ take (n - length rs) (matching q es)
unfolding query_loop
query_loop-matching q n [] rs h = sym (ap (λ l. rs ++ l) (take-nil (n - length rs)) ∙ append_nil rs)
query_loop-matching q n (e ∷ es) rs h = elim (Bool-cases (ltb (length rs) n)) [
  | inl lt ↦ elim (Bool-cases (match_query e q)) [
    | inl m ↦
        rw (lt, m)
          (query_loop-matching q n es (rs ++ e ∷ []) (room n rs e lt)
            ∙ sym (
                take-cons (n - length rs) e (matching q es) rs (n - length (rs ++ e ∷ []))
                  (room_suc n rs e lt)))
    | inr m ↦ rw (lt, m) (query_loop-matching q n es rs h)
  ]
  | inr ge ↦
      rw
        (
          ge,
          take-zero (n - length rs) (if match_query e q then e ∷ matching q es else matching q es)
              (no_room n rs ge),
        )
        (sym (append_nil rs))
]

sub_zero : (n : ℕ) → n - length {A = LogEntry} [] ≡ n
sub_zero n = omega arith

-- A query answers the matching entries in the order of the store, the first `max_count` of them.
pub query-matching :
    (s : LogStore) (q : Option Query) (max_count : ℕ)
    → query s q (pos max_count) ≡ take max_count (matching q s.entries)
unfolding query
query-matching s q max_count =
    query_loop-matching q max_count s.entries [] (omega arith)
    ∙ ap (λ n. take n (matching q s.entries)) (sub_zero max_count)

length-map : (s : Bytes) → length (map to_lower s) ≡ length s
length-map [] = refl
length-map (c ∷ s) = ap suc (length-map s)

str_case_eq-map : (s t : Bytes) → str_case_eq s t ≡ true → map to_lower s ≡ map to_lower t
unfolding str_case_eq
str_case_eq-map s t h = strcmp-eq (map to_lower s) (map to_lower t) (ground arith)

str_case_eq-length : (s t : Bytes) → str_case_eq s t ≡ true → length s ≡ length t
str_case_eq-length s t h = sym (length-map s) ∙ ap length (str_case_eq-map s t h) ∙ length-map t

take-append : (s t : Bytes) (n : ℕ) → n ≡ length s → take n (s ++ t) ≡ s
take-append [] t n h = rw h refl
take-append (c ∷ s) t n h = rw h (ap (λ l. c ∷ l) (take-append s t (length s) refl))

take_drop : (n : ℕ) (s : Bytes) → (t : Bytes) × (s ≡ take n s ++ t)
take_drop zero s = (s, refl)
take_drop (suc n) [] = ([], refl)
take_drop (suc n) (c ∷ s) = let (t, h) = take_drop n s in (t, ap (λ l. c ∷ l) h)

-- A part of `haystack` equals `needle` up to case.
pub Occurs : Bytes → Bytes → Type 0
Occurs haystack needle =
    (before : Bytes) × (part : Bytes) × (after : Bytes) × (haystack ≡ before ++ (part ++ after))
    × (str_case_eq part needle ≡ true)

contains_loop-Occurs : (h n : Bytes) → contains_loop h n ≡ true → Occurs h n
unfolding contains_loop Occurs
contains_loop-Occurs [] n e = absurd (ground arith)
contains_loop-Occurs (c ∷ p) n e = elim (Bool-cases (str_case_eq (take (length n) (c ∷ p)) n)) [
  | inl here ↦
      let (t, split) = take_drop (length n) (c ∷ p) in ([], take (length n) (c ∷ p), t, split, here)
  | inr there ↦
      let (b, m, a, split, same) = contains_loop-Occurs p n (ground (arith, there)) in
      (c ∷ b, m, a, ap (λ l. c ∷ l) split, same)
]

Occurs-contains_loop :
    (b m a n : Bytes)
    → str_case_eq m n ≡ true
    → (length n == 0) ≡ false
    → contains_loop (b ++ (m ++ a)) n ≡ true
unfolding contains_loop
Occurs-contains_loop [] [] a n h e = absurd (let l = str_case_eq-length [] n h in ground arith)
Occurs-contains_loop [] (c ∷ m) a n h e =
    let l = str_case_eq-length (c ∷ m) n h in rw (take-append (c ∷ m) a (length n) (sym l), h) refl
Occurs-contains_loop (c ∷ b) m a n h e = ground (arith, Occurs-contains_loop b m a n h e)

empty-Occurs : (h n : Bytes) → (length n == 0) ≡ true → Occurs h n
unfolding Occurs str_case_eq
empty-Occurs h [] e = ([], [], h, refl, refl)
empty-Occurs h (c ∷ n) e = absurd (ground arith)

-- `str_contains` finds the keyword exactly where a part of the text equals it up to case.
pub str_contains-iff_Occurs :
    (haystack needle : Bytes) → str_contains haystack needle ≡ true ↔ Occurs haystack needle
unfolding str_contains Occurs
str_contains-iff_Occurs h n = elim (Bool-cases (length n == 0)) [
  | inl e ↦ rw e ((λ _. empty-Occurs h n e), λ _. refl)
  | inr e ↦ rw e (
    contains_loop-Occurs h n,
    λ (b, m, a, split, same).
        ap (λ l. contains_loop l n) split ∙ Occurs-contains_loop b m a n same e,
  )
]
