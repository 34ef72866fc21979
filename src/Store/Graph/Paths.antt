-- ===== src/Store/Graph/Paths.antt =====
-- The edges of the graph are the steps of the causal order: they are its covering pairs, and their
-- paths reach whatever happened later.
use vector_clock_good.Common.{
  ℕ, zero, suc, ◌+◌, ◌≤◌, ◌<◌, ◌≡◌, ◌↔◌, inl, inr, refl, sym, ap, ◌∙◌, Bool, true, false, ◌&&◌,
  List, arith, ◌==◌, if◌then◌else◌, length, get_or, Bool-cases,
}
use vector_clock_good.Clock.{Relation, happens_before, equal, happens_after, concurrent}
use vector_clock_good.Clock.Order.{before_trans, before_irrefl}
use vector_clock_good.Entry.{LogEntry}
use vector_clock_good.Entry
use vector_clock_good.Store.Graph.{precedes, is_before, is_direct, is_edge}

is_before_lem : (r : Relation) → is_before r ≡ true → r ≡ happens_before
is_before_lem equal h = absurd (cc)
is_before_lem happens_before h = refl
is_before_lem happens_after h = absurd (cc)
is_before_lem concurrent h = absurd (cc)

precedes_trans :
    (es : List LogEntry) (i j k : ℕ)
    → precedes es i j ≡ true
    → precedes es j k ≡ true
    → precedes es i k ≡ true
unfolding precedes
precedes_trans es i j k h q = ap is_before (
    before_trans (get_or es i Entry.blank).vc (get_or es j Entry.blank).vc
      (get_or es k Entry.blank).vc (is_before_lem _ h) (is_before_lem _ q))

precedes_irrefl : (es : List LogEntry) (i : ℕ) → precedes es i i ≡ false
unfolding precedes
precedes_irrefl es i = ap is_before (before_irrefl (get_or es i Entry.blank).vc)

-- An entry among the `n` from `k` lies between the two.
abbrev Between : ℕ → ℕ → List LogEntry → ℕ → ℕ → Type 0
Between n k es i j =
    (m : ℕ) × (k ≤ m) × (m < k + n) × (precedes es i m ≡ true) × (precedes es m j ≡ true)

Between-of :
    (n k : ℕ) (es : List LogEntry) (i j : ℕ) → is_direct n k es i j ≡ false → Between n k es i j
unfolding is_direct
Between-of zero k es i j h = absurd (cc)
Between-of (suc n) k es i j h = elim (Bool-cases (precedes es i k && precedes es k j)) [
  | inl b ↦ (k, omega arith, omega arith, ground arith, ground arith)
  | inr b ↦
      let (m, p, q, r, s) = Between-of n (k + 1) es i j (ground arith) in
      (m, omega arith, omega arith, r, s)
]

none_here :
    (n k : ℕ) (es : List LogEntry) (i j : ℕ)
    → is_direct (suc n) k es i j ≡ true
    → precedes es i k ≡ true
    → precedes es k j ≡ false
unfolding is_direct
none_here n k es i j h r = elim (Bool-cases (k == i)) [
  | inl b ↦
      let same : k ≡ i = ground arith in
      absurd (cc (precedes_irrefl es i, ap (λ x. precedes es i x) same, r))
  | inr b ↦ elim (Bool-cases (k == j)) [
    | inl c ↦
        let same : k ≡ j = ground arith in ap (λ x. precedes es x j) same ∙ precedes_irrefl es j
    | inr c ↦ ground arith
  ]
]

none_between :
    (n k : ℕ) (es : List LogEntry) (i j m : ℕ)
    → is_direct n k es i j ≡ true
    → k ≤ m
    → m < k + n
    → precedes es i m ≡ true
    → precedes es m j ≡ false
unfolding is_direct
none_between zero k es i j m h p q r = absurd (omega arith)
none_between (suc n) k es i j m h p q r = elim (Bool-cases (k == m)) [
  | inl b ↦
      let here : k ≡ m = ground arith in
      ap (λ x. precedes es x j) (sym here) ∙ none_here n k es i j h (rw here r)
  | inr b ↦ none_between n (k + 1) es i j m (ground arith) (ground arith) (omega arith) r
]

-- Of the `n` numbers from `k`, how many pass the test.
abbrev count : ℕ → ℕ → (ℕ → Bool) → ℕ
count zero k p = 0
count (suc n) k p = (if p k then 1 else 0) + count n (k + 1) p

count_mono :
    (n k : ℕ) (p q : ℕ → Bool) → ((x : ℕ) → p x ≡ true → q x ≡ true) → count n k p ≤ count n k q
count_mono zero k p q h = omega arith
count_mono (suc n) k p q h = ground (arith, count_mono n (k + 1) p q h, h k)

count_less :
    (n k m : ℕ) (p q : ℕ → Bool)
    → ((x : ℕ) → p x ≡ true → q x ≡ true)
    → k ≤ m
    → m < k + n
    → p m ≡ false
    → q m ≡ true
    → count n k p < count n k q
count_less zero k m p q h a b c d = absurd (omega arith)
count_less (suc n) k m p q h a b c d = elim (Bool-cases (k == m)) [
  | inl e ↦
      let here : k ≡ m = ground arith in
      rw (ap p here ∙ c, ap q here ∙ d) (omega (arith, count_mono n (k + 1) p q h))
  | inr e ↦ ground (arith, count_less n (k + 1) m p q h, h k)
]

is_edge-precedes : (es : List LogEntry) (i j : ℕ) → is_edge es i j ≡ true → precedes es i j ≡ true
unfolding is_edge
is_edge-precedes es i j h = ground arith

edge_of_direct :
    (es : List LogEntry) (i j : ℕ)
    → precedes es i j ≡ true
    → is_direct (length es) 0 es i j ≡ true
    → is_edge es i j ≡ true
unfolding is_edge
edge_of_direct es i j h d = elim (Bool-cases (i == j)) [
  | inl b ↦
      let same : i ≡ j = ground arith in
      absurd (cc (precedes_irrefl es i, ap (λ x. precedes es i x) same, h))
  | inr b ↦ ground arith
]

-- The edge from `i` to `j` is written exactly when entry `i` happens before entry `j` and no entry of
-- the store lies between them.
pub is_edge-iff_cover :
    (es : List LogEntry) (i j : ℕ)
    → (is_edge es i j ≡ true) ↔ (
        (precedes es i j ≡ true)
        × ((m : ℕ) → m < length es → precedes es i m ≡ true → precedes es m j ≡ false))
unfolding is_edge
is_edge-iff_cover es i j = (
  λ h. (
    is_edge-precedes es i j h,
    λ m b r. none_between (length es) 0 es i j m (ground arith) (omega arith) (omega arith) r,
  ),
  λ (h, none). elim (Bool-cases (is_direct (length es) 0 es i j)) [
    | inl d ↦ edge_of_direct es i j h d
    | inr d ↦
        let (m, a, b, r, s) = Between-of (length es) 0 es i j d in
        absurd (cc (none m (omega arith) r, s))
  ],
)

-- A path of edges that are written.
pub data Route (es : List LogEntry) : ℕ → ℕ → Type 0 where
  step : {i j : ℕ} → is_edge es i j ≡ true → Route es i j
  join : {i j k : ℕ} → Route es i j → Route es j k → Route es i k

Route-precedes : (es : List LogEntry) {i j : ℕ} → Route es i j → precedes es i j ≡ true
Route-precedes es (step {i} {j} h) = is_edge-precedes es i j h
Route-precedes es (join {i} {j} {k} r s) =
    precedes_trans es i j k (Route-precedes es r) (Route-precedes es s)

abbrev between : List LogEntry → ℕ → ℕ → ℕ → Bool
between es i j m = precedes es i m && precedes es m j

precedes-Route :
    (fuel : ℕ) (es : List LogEntry) (i j : ℕ)
    → count (length es) 0 (between es i j) < fuel
    → precedes es i j ≡ true
    → Route es i j
precedes-Route zero es i j f h = absurd (omega arith)
precedes-Route (suc fuel) es i j f h = elim (Bool-cases (is_direct (length es) 0 es i j)) [
  | inl d ↦ step (edge_of_direct es i j h d)
  | inr d ↦
      let (m, a, b, r, s) = Between-of (length es) 0 es i j d in
      let both : between es i j m ≡ true = rw (r, s) refl in
      let left =
        count_less (length es) 0 m (between es i m) (between es i j)
          (λ x u. ground (arith, precedes_trans es x m j)) a b
          (ground (arith, precedes_irrefl es m)) both in
      let right =
        count_less (length es) 0 m (between es m j) (between es i j)
          (λ x u. ground (arith, precedes_trans es i m x)) a b
          (ground (arith, precedes_irrefl es m)) both in
      join (precedes-Route fuel es i m (omega arith) r) (precedes-Route fuel es m j (omega arith) s)
]

-- In the graph, a path of edges leads from entry `i` to entry `j` exactly when `i` happens before `j`:
-- leaving out the edges that are no direct ones loses nothing.
pub route-iff_precedes : (es : List LogEntry) (i j : ℕ) → Route es i j ↔ (precedes es i j ≡ true)
route-iff_precedes es i j = (
  λ r. Route-precedes es r,
  λ h. precedes-Route (suc (count (length es) 0 (between es i j))) es i j (omega arith) h,
)
