-- ===== src/Store/Dedup/Distinct.antt =====
-- The duplicate table against its specification: an entry for each event.
use vector_clock_good.Common.{
  ℕ, zero, suc, ◌≡◌, refl, ap, ◌∙◌, ◌≤◌, true, some, List, [], ◌∷◌, ◌++◌, arith, if◌then◌else◌,
  length, take, get_or, str_eq, Bytes, strcmp-eq, Bool-cases, inl, inr, All, All-append, if_any,
}
use vector_clock_good.Clock
use vector_clock_good.Clock.{
  VectorClock, Relation, equal, happens_before, happens_after, concurrent, max_nodes,
}
use vector_clock_good.Clock.View.{at}
use vector_clock_good.Clock.Compare.{compare-Verdicts}
use vector_clock_good.Entry.{LogEntry, node_id_max_len}
use vector_clock_good.Store.{
  LogStore, IndexEntry, dedup_hash_create, init, is_equal, calculate_hash,
}
use vector_clock_good.Store.Dedup.{
  any, same_event, collides, distinct_by, distinct, append_all, append_all-collides,
}

pub take-all {ℓ} : {A : Type ℓ} (n : ℕ) (xs : List A) → length xs ≤ n → take n xs ≡ xs
take-all zero [] h = refl
take-all (suc n) [] h = refl
take-all zero (x ∷ xs) h = absurd (omega arith)
take-all (suc n) (x ∷ xs) h = ap (λ ys. x ∷ ys) (take-all n xs (omega arith))

-- An entry of a system of `n` nodes, as the agents and the parser make them: its node id fits the array
-- of the table, its clock has `n` nodes, and the cells that its clock does not use are zero.
pub record IsTidy (n : ℕ) (e : LogEntry) : Type 0 where
  pub node_id : length e.node_id ≤ node_id_max_len
  pub cells : length e.vc.clocks ≡ max_nodes
  pub nodes : e.vc.node_count ≡ n
  pub unused : (i : ℕ) → n ≤ i → get_or e.vc.clocks i 0 ≡ 0

cells-eq :
    (xs ys : List ℕ) → length xs ≡ length ys → ((i : ℕ) → get_or xs i 0 ≡ get_or ys i 0) → xs ≡ ys
cells-eq [] [] l h = refl
cells-eq [] (y ∷ ys) l h = absurd (omega arith)
cells-eq (x ∷ xs) [] l h = absurd (omega arith)
cells-eq (x ∷ xs) (y ∷ ys) l h = rw (h 0, cells-eq xs ys (omega arith) (λ i. h (suc i))) refl

is_equal-equal : (r : Relation) → is_equal r ≡ true → r ≡ equal
is_equal-equal equal h = refl
is_equal-equal happens_before h = absurd (cc)
is_equal-equal happens_after h = absurd (cc)
is_equal-equal concurrent h = absurd (cc)

same_event-parts :
    (e k : LogEntry)
    → same_event e k ≡ true
    → (k.node_id ≡ e.node_id) × (Clock.compare (some k.vc) (some e.vc) ≡ equal)
same_event-parts e k h =
    let both : (str_eq k.node_id e.node_id ≡ true)
        × (is_equal (Clock.compare (some k.vc) (some e.vc)) ≡ true) =
      ground arith in
    (strcmp-eq k.node_id e.node_id (ground arith), is_equal-equal _ both.1)

-- Tidy entries of one event have the same clock, cell for cell.
same_event-eq :
    (n : ℕ) (e k : LogEntry)
    → IsTidy n e
    → IsTidy n k
    → same_event e k ≡ true
    → (k.node_id ≡ e.node_id) × (k.vc ≡ e.vc)
unfolding at
same_event-eq n e k p q h =
    let (ids, same) = same_event-parts e k h in
    let (below, above) = (compare-Verdicts k.vc e.vc).on_equal.0 same in
    let counts : k.vc.node_count ≡ e.vc.node_count = omega (arith, p.nodes, q.nodes) in
    let clocks : k.vc.clocks ≡ e.vc.clocks =
      cells-eq k.vc.clocks e.vc.clocks (omega (arith, p.cells, q.cells)) (λ i.
        ground (arith, below.below i, above.below i, p.unused i, q.unused i, p.nodes, q.nodes)) in
    (ids, rw (counts, clocks) refl)

module _ (memory : VectorClock → Bytes) where
  -- The table agrees with the specification on entries of one system.
  collides-same_event :
      (n : ℕ) (e k : LogEntry) → IsTidy n e → IsTidy n k → collides memory e k ≡ same_event e k
  collides-same_event n e k p q = elim (Bool-cases (same_event e k)) [
    | inl b ↦
        let (ids, vcs) = same_event-eq n e k p q b in
        rw
          (
            ap (λ i. calculate_hash memory i k.vc) ids,
            ap (λ v. calculate_hash memory e.node_id v) vcs,
            take-all 63 k.node_id (omega (arith, q.node_id)),
          )
          (rw b (ground arith))
    | inr b ↦ rw (take-all 63 k.node_id (omega (arith, q.node_id)), b) (ground arith)
  ]

  any-collides :
      (n : ℕ) (e : LogEntry) (kept : List LogEntry)
      → IsTidy n e
      → All (IsTidy n) kept
      → any (collides memory e) kept ≡ any (same_event e) kept
  any-collides n e [] p h = refl
  any-collides n e (k ∷ kept) p (q, h) =
      rw (collides-same_event n e k p q, any-collides n e kept p h) refl

  distinct_by-collides :
      (n : ℕ) (kept es : List LogEntry)
      → All (IsTidy n) kept
      → All (IsTidy n) es
      → distinct_by (collides memory) kept es ≡ distinct_by same_event kept es
  distinct_by-collides n kept [] h k = refl
  distinct_by-collides n kept (e ∷ es) h (p, k) = rw (any-collides n e kept p h) (
      distinct_by-collides n (if any (same_event e) kept then kept else kept ++ e ∷ []) es
        (if_any (All (IsTidy n)) (any (same_event e) kept) kept (kept ++ e ∷ []) h
          (All-append (IsTidy n) kept (e ∷ []) h (p, tt)))
        k)

  -- An initialised store that is given memory for every call, and entries of a system of one number of
  -- nodes, whose node ids fit the table and whose unused clock cells are zero, keeps exactly the first
  -- entry of each event, in the order of arrival, where two entries are of one event if they have the
  -- same node id and clocks that `vc_compare` calls equal.
  pub append_all-distinct :
      (n : ℕ) (index : List IndexEntry) (s : LogStore) (es : List LogEntry)
      → init index true (dedup_hash_create true) ≡ some s
      → All (IsTidy n) es
      → (append_all memory s es).entries ≡ distinct es
  append_all-distinct n index s es h t =
      append_all-collides memory index s es h ∙ distinct_by-collides n [] es tt t
