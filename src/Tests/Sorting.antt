-- ===== src/Tests/Sorting.antt =====
-- An insertion sort that does what the C library documents of `qsort`, and the sorts of a small store.
use mathlib.Core.List.{Perm}
use mathlib.Core.List.Perm
use vector_clock_good.Common.{
  ℕ, ◌<◌, some, ◌↔◌, codes, ◌≡◌, ◌≢◌, ◌⊎◌, inl, inr, refl, sym, ap, ◌∙◌, Bool, true, false, List,
  [], ◌∷◌, if◌then◌else◌, Ordering, arith, All, Bool-cases,
}
use vector_clock_good.Clock
use vector_clock_good.Clock.{Relation, happens_before}
use vector_clock_good.Entry.{LogEntry, compare_by_time}
use vector_clock_good.Store.Sort.{Comparator, sort_causal}
use vector_clock_good.Store.Sort.Sorted.{
  IsConsistent, IsSorted, IsQsort, IsCausal, sort_causal-IsCausal,
}
use vector_clock_good.Entry
use vector_clock_good.Entry.Order.{compare-flip}
use vector_clock_good.Store.Index.{build_index, query_by_index, query_indices}
use vector_clock_good.Store.Index.Stale.{stale_index}
use vector_clock_good.Store.Graph.{precedes, is_edge}
use vector_clock_good.Store.Graph.Paths.{Route, is_edge-iff_cover, route-iff_precedes}
use vector_clock_good.Tests.{clock, store, first, second, apart}

-- An event that happened after `second`.
abbrev third : LogEntry
third = record second { vc = clock 1 2 }

abbrev is_gt : Ordering → Bool
is_gt Ordering.lt = false
is_gt Ordering.eq = false
is_gt Ordering.gt = true

abbrev insert : Comparator → LogEntry → List LogEntry → List LogEntry
insert cmp x [] = x ∷ []
insert cmp x (y ∷ ys) =
    let rest = insert cmp x ys in if is_gt (cmp x y) then y ∷ rest else x ∷ (y ∷ ys)

abbrev pub insertion_sort : Comparator → List LogEntry → List LogEntry
insertion_sort cmp [] = []
insertion_sort cmp (x ∷ xs) = insert cmp x (insertion_sort cmp xs)

insert-perm :
    (cmp : Comparator) (x : LogEntry) (ys : List LogEntry) → Perm (x ∷ ys) (insert cmp x ys)
insert-perm cmp x [] = Perm.refl _
insert-perm cmp x (y ∷ ys) = elim (Bool-cases (is_gt (cmp x y))) [
  | inl b ↦ rw b (Perm.trans (Perm.swap y x ys) (Perm.cons y (insert-perm cmp x ys)))
  | inr b ↦ rw b (Perm.refl _)
]

sort-perm : (cmp : Comparator) (xs : List LogEntry) → Perm xs (insertion_sort cmp xs)
sort-perm cmp [] = Perm.refl _
sort-perm cmp (x ∷ xs) =
    Perm.trans (Perm.cons x (sort-perm cmp xs)) (insert-perm cmp x (insertion_sort cmp xs))

All-insert :
    (Q : LogEntry → Type 0) (cmp : Comparator) (x : LogEntry) (ys : List LogEntry)
    → Q x
    → All Q ys
    → All Q (insert cmp x ys)
All-insert Q cmp x [] p h = (p, tt)
All-insert Q cmp x (y ∷ ys) p (q, h) = elim (Bool-cases (is_gt (cmp x y))) [
  | inl b ↦ rw b (q, All-insert Q cmp x ys p h)
  | inr b ↦ rw b (p, (q, h))
]

All-sort :
    (Q : LogEntry → Type 0) (cmp : Comparator) (xs : List LogEntry)
    → All Q xs
    → All Q (insertion_sort cmp xs)
All-sort Q cmp [] h = tt
All-sort Q cmp (x ∷ xs) (p, h) = All-insert Q cmp x (insertion_sort cmp xs) p (All-sort Q cmp xs h)

module _ (P : LogEntry → Type 0) (cmp : Comparator) (c : IsConsistent P cmp) where
  not_gt_trans :
      (x y z : LogEntry)
      → P x
      → P y
      → P z
      → cmp x y ≢ Ordering.gt
      → cmp y z ≢ Ordering.gt
      → cmp x z ≢ Ordering.gt
  not_gt_trans x y z p q r h k = ground (
    arith,
    c.trans x y z p q r,
    c.ties x y z p q r,
    c.flips y z q r,
    c.ties z y x r q p,
    c.flips x y p q,
    c.flips z x r p,
  )

  All-not_gt :
      (x y : LogEntry) (zs : List LogEntry)
      → P x
      → P y
      → All P zs
      → cmp x y ≢ Ordering.gt
      → All (λ z. cmp y z ≢ Ordering.gt) zs
      → All (λ z. cmp x z ≢ Ordering.gt) zs
  All-not_gt x y [] p q r h k = tt
  All-not_gt x y (z ∷ zs) p q (r, rs) h (k, ks) =
      (not_gt_trans x y z p q r h k, All-not_gt x y zs p q rs h ks)

  insert-IsSorted :
      (x : LogEntry) (ys : List LogEntry)
      → P x
      → All P ys
      → IsSorted cmp ys
      → IsSorted cmp (insert cmp x ys)
  insert-IsSorted x [] p r h = (tt, tt)
  insert-IsSorted x (y ∷ ys) p (q, r) (k, h) = elim (Bool-cases (is_gt (cmp x y))) [
    | inl b ↦ rw b (
      All-insert (λ z. cmp y z ≢ Ordering.gt) cmp x ys (ground (arith, c.flips x y p q)) k,
      insert-IsSorted x ys p r h,
    )
    | inr b ↦
        let small : cmp x y ≢ Ordering.gt = ground arith in
        rw b ((small, All-not_gt x y ys p q r small k), (k, h))
  ]

  sort-IsSorted : (xs : List LogEntry) → All P xs → IsSorted cmp (insertion_sort cmp xs)
  sort-IsSorted [] h = tt
  sort-IsSorted (x ∷ xs) (p, h) =
      insert-IsSorted x (insertion_sort cmp xs) p (All-sort P cmp xs h) (sort-IsSorted xs h)

pub insertion_sort-IsQsort : IsQsort insertion_sort
insertion_sort-IsQsort = record {
  permutes = λ P cmp es c h. sort-perm cmp es;
  sorts = λ P cmp es c h. sort-IsSorted P cmp c es h;
}

-- The second event happened after the first, and has the earlier time.
abbrev Known : LogEntry → Type 0
Known e = (e ≡ first) ⊎ (e ≡ second)

-- Of `first` and `second` only the first comes before the second.
lt-Known :
    (a b : LogEntry)
    → Known a
    → Known b
    → Entry.compare a b ≡ Ordering.lt
    → (a ≡ first) × (b ≡ second)
unfolding Entry.compare Clock.compare
lt-Known a b (inl p) (inl q) h = let k = rw (p, q) at h in absurd (cc)
lt-Known a b (inl p) (inr q) h = (p, q)
lt-Known a b (inr p) (inl q) h = let k = rw (p, q) at h in absurd (cc)
lt-Known a b (inr p) (inr q) h = let k = rw (p, q) at h in absurd (cc)

-- Entries of the two that tie are the same.
eq-Known : (a b : LogEntry) → Known a → Known b → Entry.compare a b ≡ Ordering.eq → a ≡ b
unfolding Entry.compare Clock.compare
eq-Known a b (inl p) (inl q) h = p ∙ sym q
eq-Known a b (inl p) (inr q) h = let k = rw (p, q) at h in absurd (cc)
eq-Known a b (inr p) (inl q) h = let k = rw (p, q) at h in absurd (cc)
eq-Known a b (inr p) (inr q) h = p ∙ sym q

second-not-first : second ≢ first
second-not-first h = let k = ap (λ (e : LogEntry). e.timestamp) h in omega (arith, k)

Known-IsConsistent : IsConsistent Known Entry.compare
Known-IsConsistent = record {
  flips = λ a b p q. compare-flip a b;
  trans = λ a b c p q r h k.
      let (x, y) = lt-Known a b p q h in
      let (z, w) = lt-Known b c q r k in absurd (second-not-first (sym y ∙ z));
  ties = λ a b c p q r h. ap (λ e. Entry.compare e c) (eq-Known a b p q h);
}

sort_causal-IsCausal_example :
    Perm
      (second ∷ (first ∷ []))
      (sort_causal insertion_sort (store (second ∷ (first ∷ [])))).entries
    × IsCausal (sort_causal insertion_sort (store (second ∷ (first ∷ [])))).entries
sort_causal-IsCausal_example =
    sort_causal-IsCausal insertion_sort Known (store (second ∷ (first ∷ []))) insertion_sort-IsQsort
      Known-IsConsistent (inr refl, (inl refl, tt))

stale_index_example :
    (query_by_index (build_index (store (apart ∷ (first ∷ [])))) (some (codes "disk")) true 10
      ≡ apart ∷ [])
    × (query_by_index
          (sort_causal insertion_sort (build_index (store (apart ∷ (first ∷ [])))))
          (some (codes "disk"))
          true
          10
        ≡ first ∷ [])
unfolding Entry.compare Clock.compare build_index query_indices
stale_index_example =
    stale_index insertion_sort (store (apart ∷ (first ∷ []))) apart first (some (codes "disk")) true
      10 refl refl refl

-- A chain of three events.
abbrev chain : List LogEntry
chain = first ∷ (second ∷ (third ∷ []))

is_edge-iff_cover_example : (is_edge chain 0 2 ≡ true) ↔ (
    (precedes chain 0 2 ≡ true)
    × ((m : ℕ) → m < 3 → precedes chain 0 m ≡ true → precedes chain m 2 ≡ false))
is_edge-iff_cover_example = is_edge-iff_cover chain 0 2

route-iff_precedes_example : Route chain 0 2 ↔ (precedes chain 0 2 ≡ true)
route-iff_precedes_example = route-iff_precedes chain 0 2
