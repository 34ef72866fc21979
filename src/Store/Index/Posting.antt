-- ===== src/Store/Index/Posting.antt =====
-- What the words of one entry leave in the dictionary of `store_build_index`.
use vector_clock_good.Common.{
  ℕ, suc, ◌≤◌, ◌≡◌, refl, sym, ap, ◌∙◌, inl, inr, Bool, true, false, ◌&&◌, ◌||◌, List, [], ◌∷◌,
  ◌++◌, ltb, ◌==◌, if◌then◌else◌, length, arith, Bytes, str_eq, strcmp-eq, Bool-cases, strcmp-flip,
}
use vector_clock_good.Entry.{LogEntry}
use vector_clock_good.Store.{IndexEntry}
use vector_clock_good.Store.Dedup.{any}
use vector_clock_good.Store.Index.{
  add_once, ends_with, add_term, find_term, or_empty, clean_term, index_tokens, words,
}
use vector_clock_good.Store.Index.Merge.{Rising, mem, mem-append}

-- The indices under a word of the dictionary.
abbrev pub posting : List IndexEntry → Bytes → List ℕ
posting dict t = or_empty (find_term dict t)

-- The token is the word `t` once it is normalised, and is not empty then.
abbrev pub is_word : Bytes → Bytes → Bool
is_word t token = ltb 0 (length (clean_term token)) && str_eq (clean_term token) t

abbrev pub has_word : LogEntry → Bytes → Bool
has_word e t = any (is_word t) (words e)

ends_with-mem : (pl : List ℕ) (i : ℕ) → ends_with pl i ≡ true → mem i pl ≡ true
ends_with-mem [] i h = absurd (ground arith)
ends_with-mem (x ∷ []) i h = ground arith
ends_with-mem (x ∷ (y ∷ ys)) i h = ground (arith, ends_with-mem (y ∷ ys) i h)

add_once-mem : (pl : List ℕ) (i j : ℕ) → mem j (add_once pl i) ≡ (mem j pl || j == i)
add_once-mem pl i j = elim (Bool-cases (ends_with pl i)) [
  | inl e ↦ rw e (present pl i j (ends_with-mem pl i e))
  | inr e ↦ rw e (mem-append j pl (i ∷ []) ∙ ground arith)
]
  where
    same : (i j : ℕ) → (j == i) ≡ true → j ≡ i
    same i j h = ground arith

    present : (pl : List ℕ) (i j : ℕ) → mem i pl ≡ true → mem j pl ≡ (mem j pl || j == i)
    present pl i j h = elim (Bool-cases (j == i)) [
      | inl e ↦ rw (e, same i j e, h) refl
      | inr e ↦ ground (arith, e)
    ]

snoc-Rising : (lo i : ℕ) (pl : List ℕ) → Rising lo i pl → Rising lo (suc i) (pl ++ i ∷ [])
snoc-Rising lo i [] r = (r, omega arith)
snoc-Rising lo i (x ∷ xs) (a, r) = (a, snoc-Rising (suc x) i xs r)

pub raise-Rising : (lo i : ℕ) (pl : List ℕ) → Rising lo i pl → Rising lo (suc i) pl
raise-Rising lo i [] r = omega arith
raise-Rising lo i (x ∷ xs) (a, r) = (a, raise-Rising (suc x) i xs r)

tight-Rising :
    (lo i : ℕ) (x : ℕ) (xs : List ℕ)
    → ends_with (x ∷ xs) i ≡ false
    → Rising lo (suc i) (x ∷ xs)
    → Rising lo i (x ∷ xs)
tight-Rising lo i x [] h (a, r) = (a, below)
  where
    below : suc x ≤ i
    below = ground arith
tight-Rising lo i x (y ∷ ys) h (a, r) = (a, tight-Rising (suc x) i y ys h r)

add_once-Rising : (i : ℕ) (pl : List ℕ) → Rising 0 (suc i) pl → Rising 0 (suc i) (add_once pl i)
add_once-Rising i [] r = (omega arith, omega arith)
add_once-Rising i (x ∷ xs) r = elim (Bool-cases (ends_with (x ∷ xs) i)) [
  | inl e ↦ rw e r
  | inr e ↦ rw e (snoc-Rising 0 i (x ∷ xs) (tight-Rising 0 i x xs e r))
]

str_eq-eq : (s t : Bytes) → str_eq s t ≡ true → s ≡ t
str_eq-eq s t h = strcmp-eq s t (ground arith)

str_eq-apart : (s w : Bytes) → str_eq s w ≡ false → str_eq w s ≡ false
str_eq-apart s w h = ground (arith, strcmp-flip s w)

-- What `add_term` changes is the list of its word.
posting-add_term :
    (dict : List IndexEntry) (w : Bytes) (i : ℕ) (t : Bytes)
    → posting (add_term dict w i) t
      ≡ (if str_eq w t then add_once (posting dict t) i else posting dict t)
unfolding add_term find_term
posting-add_term [] w i t = ground arith
posting-add_term (d ∷ ds) w i t = elim (Bool-cases (str_eq d.term w)) [
  | inl e ↦ rw (e, sym (str_eq-eq d.term w e)) (ground arith)
  | inr e ↦ elim (Bool-cases (str_eq d.term t)) [
    | inl f ↦ rw (e, f, ap (str_eq w) (sym (str_eq-eq d.term t f)) ∙ str_eq-apart d.term w e) refl
    | inr f ↦ rw (e, f) (posting-add_term ds w i t)
  ]
]

-- Every list of the dictionary rises.
unfoldable pub IsRising : ℕ → List IndexEntry → Type 0
IsRising hi dict = (t : Bytes) → Rising 0 hi (posting dict t)

add_term-IsRising :
    (dict : List IndexEntry) (w : Bytes) (i : ℕ)
    → IsRising (suc i) dict
    → IsRising (suc i) (add_term dict w i)
unfolding IsRising
add_term-IsRising dict w i r t = rw (posting-add_term dict w i t) (go (str_eq w t))
  where
    go : (b : Bool) → Rising 0 (suc i) (if b then add_once (posting dict t) i else posting dict t)
    go true = add_once-Rising i (posting dict t) (r t)
    go false = r t

-- One token leaves a dictionary that knows it.
add_token-mem :
    (dict : List IndexEntry) (i : ℕ) (token t : Bytes) (j : ℕ)
    → mem j (
        posting
          (if ltb 0 (length (clean_term token)) then add_term dict (clean_term token) i else dict)
          t)
      ≡ (mem j (posting dict t) || (is_word t token && j == i))
add_token-mem dict i token t j = elim (Bool-cases (ltb 0 (length (clean_term token)))) [
  | inl e ↦ rw (e, posting-add_term dict (clean_term token) i t) (go (str_eq (clean_term token) t))
  | inr e ↦ rw e (ground arith)
]
  where
    go :
        (b : Bool)
        → mem j (if b then add_once (posting dict t) i else posting dict t)
          ≡ (mem j (posting dict t) || (b && j == i))
    go true = add_once-mem (posting dict t) i j
    go false = ground arith

or_and : (a p q x : Bool) → ((a || (p && x)) || (q && x)) ≡ (a || ((p || q) && x))
or_and a p q x = ground arith

pub index_tokens-mem :
    (dict : List IndexEntry) (i : ℕ) (ts : List Bytes) (t : Bytes) (j : ℕ)
    → mem j (posting (index_tokens dict i ts) t)
      ≡ (mem j (posting dict t) || (any (is_word t) ts && j == i))
unfolding index_tokens
index_tokens-mem dict i [] t j = ground arith
index_tokens-mem dict i (token ∷ ts) t j =
    index_tokens-mem
      (if ltb 0 (length (clean_term token)) then add_term dict (clean_term token) i else dict) i ts
      t j
    ∙ ap (λ b. b || (any (is_word t) ts && j == i)) (add_token-mem dict i token t j)
    ∙ or_and (mem j (posting dict t)) (is_word t token) (any (is_word t) ts) (j == i)

pub index_tokens-IsRising :
    (dict : List IndexEntry) (i : ℕ) (ts : List Bytes)
    → IsRising (suc i) dict
    → IsRising (suc i) (index_tokens dict i ts)
unfolding index_tokens
index_tokens-IsRising dict i [] r = r
index_tokens-IsRising dict i (token ∷ ts) r =
    elim (Bool-cases (ltb 0 (length (clean_term token)))) [
      | inl e ↦ rw e (
          index_tokens-IsRising (add_term dict (clean_term token) i) i ts
            (add_term-IsRising dict (clean_term token) i r))
      | inr e ↦ rw e (index_tokens-IsRising dict i ts r)
    ]
