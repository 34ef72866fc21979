-- ===== src/Store/Dedup/Events.antt =====
-- Which events the kept entries of the store stand for, and what a failed allocation loses.
use vector_clock_good.Common.{
  ℕ, ◌≡◌, refl, ap, ◌∙◌, ◌≤◌, Bool, true, false, ◌||◌, some, List, [], ◌∷◌, ◌++◌, arith, ◌==◌,
  if◌then◌else◌, length, Bytes, strcmp_refl, Bool-cases, inl, inr, All, All-append,
}
use vector_clock_good.Clock.{VectorClock}
use vector_clock_good.Clock.Order.{before_irrefl}
use vector_clock_good.Entry.{LogEntry, node_id_max_len}
use vector_clock_good.Store.{
  Buckets, LogStore, IndexEntry, dedup_hash_create, init, in_chain, insert_node, calculate_hash,
  dedup_hash_check_and_insert, expand, append, append_new,
}
use vector_clock_good.Store.Dedup.{any, same_event, distinct_by, append_all}
use vector_clock_good.Store.Dedup.Distinct.{IsTidy, take-all, append_all-distinct}

or_false : (a b : Bool) → (a || b) ≡ false → (a ≡ false) × (b ≡ false)
or_false a b h = ground arith

eq_refl : (n : ℕ) → (n == n) ≡ true
eq_refl n = ground arith

-- The node id fits the array of the table.
abbrev pub HasNodeId : LogEntry → Type 0
HasNodeId e = length e.node_id ≤ node_id_max_len

-- No entry is the same event as one before it.
abbrev pub Apart : List LogEntry → Type 0
Apart [] = Unit
Apart (x ∷ xs) = All (λ y. same_event y x ≡ false) xs × Apart xs

abbrev pub Covers : List LogEntry → LogEntry → Type 0
Covers kept e = any (same_event e) kept ≡ true

any-All :
    (e : LogEntry) (kept : List LogEntry)
    → any (same_event e) kept ≡ false
    → All (λ x. same_event e x ≡ false) kept
any-All e [] h = tt
any-All e (x ∷ xs) h =
    let (p, q) = or_false (same_event e x) (any (same_event e) xs) h in (p, any-All e xs q)

Apart-snoc :
    (xs : List LogEntry) (e : LogEntry)
    → Apart xs
    → All (λ x. same_event e x ≡ false) xs
    → Apart (xs ++ e ∷ [])
Apart-snoc [] e a h = (tt, tt)
Apart-snoc (x ∷ xs) e a h =
    (All-append (λ y. same_event y x ≡ false) xs (e ∷ []) a.0 (h.0, tt), Apart-snoc xs e a.1 h.1)

distinct-Apart : (kept es : List LogEntry) → Apart kept → Apart (distinct_by same_event kept es)
distinct-Apart kept [] a = a
distinct-Apart kept (e ∷ es) a = elim (Bool-cases (any (same_event e) kept)) [
  | inl d ↦ rw d (distinct-Apart kept es a)
  | inr d ↦ rw d (distinct-Apart (kept ++ e ∷ []) es (Apart-snoc kept e a (any-All e kept d)))
]

any-left {ℓ} :
    {A : Type ℓ} (p : A → Bool) (xs ys : List A) → any p xs ≡ true → any p (xs ++ ys) ≡ true
any-left p (x ∷ xs) ys h = ground (arith, any-left p xs ys)
any-left p [] ys h = ground arith

any-last {ℓ} :
    {A : Type ℓ} (p : A → Bool) (xs : List A) (y : A) → p y ≡ true → any p (xs ++ y ∷ []) ≡ true
any-last p [] y h = ground arith
any-last p (x ∷ xs) y h = ground (arith, any-last p xs y)

distinct-keeps :
    (p : LogEntry → Bool) (kept es : List LogEntry)
    → any p kept ≡ true
    → any p (distinct_by same_event kept es) ≡ true
distinct-keeps p kept [] h = h
distinct-keeps p kept (e ∷ es) h = elim (Bool-cases (any (same_event e) kept)) [
  | inl d ↦ rw d (distinct-keeps p kept es h)
  | inr d ↦ rw d (distinct-keeps p (kept ++ e ∷ []) es (any-left p kept (e ∷ []) h))
]

same_event_refl : (e : LogEntry) → same_event e e ≡ true
same_event_refl e = rw (strcmp_refl e.node_id, before_irrefl e.vc) refl

distinct-Covers :
    (kept es r : List LogEntry) → r ≡ distinct_by same_event kept es → All (Covers r) es
distinct-Covers kept [] r q = tt
distinct-Covers kept (e ∷ es) r q =
    let next : Bool → List LogEntry =
      λ b. distinct_by same_event (if b then kept else kept ++ e ∷ []) es in
    elim (Bool-cases (any (same_event e) kept)) [
      | inl d ↦
          let q' = q ∙ ap next d in
          (
            ap (any (same_event e)) q' ∙ distinct-keeps (same_event e) kept es d,
            distinct-Covers kept es r q',
          )
      | inr d ↦
          let q' = q ∙ ap next d in
          let last = any-last (same_event e) kept e (same_event_refl e) in
          (
            ap (any (same_event e)) q' ∙ distinct-keeps (same_event e) (kept ++ e ∷ []) es last,
            distinct-Covers (kept ++ e ∷ []) es r q',
          )
    ]

module _ (memory : VectorClock → Bytes) where
  -- An initialised store that is given memory for every call, and entries of a system of one number of
  -- nodes, whose node ids fit the table and whose unused clock cells are zero, holds no two entries
  -- with the same node id and equal clocks, and every entry that arrived has the node id and a clock
  -- equal to that of one that is held.
  pub append_all-Apart :
      (n : ℕ) (index : List IndexEntry) (s : LogStore) (es : List LogEntry)
      → init index true (dedup_hash_create true) ≡ some s
      → All (IsTidy n) es
      → Apart (append_all memory s es).entries × All (Covers (append_all memory s es).entries) es
  append_all-Apart n index s es h hs =
      rw (append_all-distinct memory n index s es h hs)
        (distinct-Apart [] es tt, distinct-Covers [] es _ refl)

  -- The chain of an inserted node has the node.
  chain-inserted :
      (h : Buckets) (e : LogEntry)
      → HasNodeId e
      → let i = calculate_hash memory e.node_id e.vc in
        in_chain (insert_node i e.node_id e.vc h i) e.node_id e.vc ≡ true
  unfolding insert_node in_chain
  chain-inserted h e n =
      rw
        (
          eq_refl (calculate_hash memory e.node_id e.vc),
          take-all 63 e.node_id (omega arith),
          strcmp_refl e.node_id,
          before_irrefl e.vc,
        )
        refl

  append-refused :
      (s : LogStore) (e : LogEntry) (h : Buckets)
      → s.dedup_hash ≡ some h
      → s.capacity ≤ length s.entries
      → in_chain (h (calculate_hash memory e.node_id e.vc)) e.node_id e.vc ≡ false
      → append memory true false s e ≡ (
        false,
        record s {
          dedup_hash = some (insert_node (calculate_hash memory e.node_id e.vc) e.node_id e.vc h);
        },
      )
  unfolding append dedup_hash_check_and_insert append_new expand
  append-refused s e h t full new = rw (t, new) (ground arith)

  retry-duplicate :
      (s : LogStore) (e : LogEntry) (h : Buckets)
      → s.dedup_hash ≡ some h
      → in_chain (h (calculate_hash memory e.node_id e.vc)) e.node_id e.vc ≡ true
      → ((append memory true true s e).0 ≡ true)
        × ((append memory true true s e).1.entries ≡ s.entries)
  unfolding append dedup_hash_check_and_insert
  retry-duplicate s e h t old = rw (t, old) (refl, refl)

  -- An entry whose append fails, since a full store gets no memory to grow, is in the table all the
  -- same: appending it again answers success and stores nothing.
  pub append_retry :
      (s : LogStore) (e : LogEntry) (h : Buckets)
      → s.dedup_hash ≡ some h
      → s.capacity ≤ length s.entries
      → HasNodeId e
      → in_chain (h (calculate_hash memory e.node_id e.vc)) e.node_id e.vc ≡ false
      → let failed = append memory true false s e in
        let retried = append memory true true failed.1 e in
        (failed.0 ≡ false) × (retried.0 ≡ true) × (retried.1.entries ≡ s.entries)
  append_retry s e h t full n new =
      let table = insert_node (calculate_hash memory e.node_id e.vc) e.node_id e.vc h in
      let retried =
        retry-duplicate (record s { dedup_hash = some table }) e table refl
          (chain-inserted h e n) in
      rw (append-refused s e h t full new) (refl, retried.0, retried.1)
