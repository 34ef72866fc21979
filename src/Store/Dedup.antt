-- ===== src/Store/Dedup.antt =====
-- What `store_append` keeps of the entries that arrive, while memory is given.
pub mod Distinct
pub mod Events
use vector_clock_good.Common.{
  ℕ, ◌≡◌, refl, ap, ◌∙◌, sym, ◌<◌, ◌≤◌, Bool, true, false, ◌&&◌, ◌||◌, Option, none, some, List, [],
  ◌∷◌, ◌++◌, arith, leb, ◌==◌, if◌then◌else◌, length, take, Bytes, str_eq, strcmp, Bool-cases,
  length-append, ◌⊎◌, inl, inr,
}
use vector_clock_good.Clock
use vector_clock_good.Clock.{VectorClock}
use vector_clock_good.Entry.{LogEntry}
use vector_clock_good.Store.{
  HashNode, append_new, Buckets, LogStore, IndexEntry, dedup_hash_create, init, is_equal, in_chain,
  insert_node, calculate_hash, dedup_hash_check_and_insert, expand, append, store_init_capacity,
}

abbrev pub any {ℓ} : {A : Type ℓ} → (A → Bool) → List A → Bool
any p [] = false
any p (x ∷ xs) = p x || any p xs

any-append {ℓ} :
    {A : Type ℓ} (p : A → Bool) (xs : List A) (x : A) → any p (xs ++ x ∷ []) ≡ (p x || any p xs)
any-append p [] x = refl
any-append p (y ∷ xs) x = ground (arith, any-append p xs x)

-- A new entry stands behind the others, and the table stays.
append_new-entries :
    (s : LogStore) (e : LogEntry)
    → ((append_new true s e).1.dedup_hash ≡ s.dedup_hash)
      × ((append_new true s e).1.entries ≡ s.entries ++ e ∷ [])
unfolding append_new expand
append_new-entries s e = ground arith

-- An entry is kept unless `same` holds of it and an entry that was kept before.
abbrev pub distinct_by :
    (LogEntry → LogEntry → Bool) → List LogEntry → List LogEntry → List LogEntry
distinct_by same kept [] = kept
distinct_by same kept (e ∷ es) =
    distinct_by same (if any (same e) kept then kept else kept ++ e ∷ []) es

-- Two entries are of one event: the same node id, and clocks that are equal.
abbrev pub same_event : LogEntry → LogEntry → Bool
same_event e k = str_eq k.node_id e.node_id && is_equal (Clock.compare (some k.vc) (some e.vc))

-- The specification: the first entry of each event.
abbrev pub distinct : List LogEntry → List LogEntry
distinct es = distinct_by same_event [] es

module _ (memory : VectorClock → Bytes) where
  -- The node that `e` leaves in the table lies in chain `i` and answers to this node id and clock.
  abbrev stands_for : ℕ → Bytes → VectorClock → LogEntry → Bool
  stands_for i node_id vc e =
      i == calculate_hash memory e.node_id e.vc
      && (str_eq (take 63 e.node_id) node_id && is_equal (Clock.compare (some e.vc) (some vc)))

  -- The kept entry `k` makes `e` a duplicate in the table: same bucket, same node, equal clocks.
  abbrev pub collides : LogEntry → LogEntry → Bool
  collides e k = stands_for (calculate_hash memory e.node_id e.vc) e.node_id e.vc k

  -- The entries in the order of their arrival, with memory for every call.
  abbrev pub append_all : LogStore → List LogEntry → LogStore
  append_all s [] = s
  append_all s (e ∷ es) = append_all (append memory true true s e).1 es

  -- The chains hold one node for each kept entry.
  record Tracks (h : Buckets) (kept : List LogEntry) : Type 0 where
    found :
        (i : ℕ) (node_id : Bytes) (vc : VectorClock)
        → in_chain (h i) node_id vc ≡ any (stands_for i node_id vc) kept

  in_chain-insert_node :
      (h : Buckets) (e : LogEntry) (i : ℕ) (node_id : Bytes) (vc : VectorClock)
      → in_chain (insert_node (calculate_hash memory e.node_id e.vc) e.node_id e.vc h i) node_id vc
        ≡ (stands_for i node_id vc e || in_chain (h i) node_id vc)
  unfolding insert_node in_chain
  in_chain-insert_node h e i node_id vc = ground arith

  insert_node-Tracks :
      (h : Buckets) (kept : List LogEntry) (e : LogEntry)
      → Tracks h kept
      → Tracks
          (insert_node (calculate_hash memory e.node_id e.vc) e.node_id e.vc h)
          (kept ++ e ∷ [])
  insert_node-Tracks h kept e t = record {
    found = λ i node_id vc.
        in_chain-insert_node h e i node_id vc
        ∙ ap (λ b. stands_for i node_id vc e || b) (t.found i node_id vc)
        ∙ sym (any-append (stands_for i node_id vc) kept e);
  }

  -- The store holds `kept`, and its table tracks it.
  record Holds (s : LogStore) (kept : List LogEntry) : Type 0 where
    table : Buckets
    is_table : s.dedup_hash ≡ some table
    tracks : Tracks table kept
    is_kept : s.entries ≡ kept

  append-duplicate :
      (s : LogStore) (kept : List LogEntry) (e : LogEntry)
      → Holds s kept
      → any (collides e) kept ≡ true
      → Holds (append memory true true s e).1 kept
  unfolding append dedup_hash_check_and_insert
  append-duplicate s kept e t d =
      let found = t.tracks.found (calculate_hash memory e.node_id e.vc) e.node_id e.vc ∙ d in
      record {
        table = t.table;
        is_table = rw (t.is_table, found) refl;
        tracks = t.tracks;
        is_kept = rw (t.is_table, found) t.is_kept;
      }

  append-new :
      (s : LogStore) (kept : List LogEntry) (e : LogEntry)
      → Holds s kept
      → any (collides e) kept ≡ false
      → Holds (append memory true true s e).1 (kept ++ e ∷ [])
  unfolding append dedup_hash_check_and_insert
  append-new s kept e t d =
      let found = t.tracks.found (calculate_hash memory e.node_id e.vc) e.node_id e.vc ∙ d in
      let table = insert_node (calculate_hash memory e.node_id e.vc) e.node_id e.vc t.table in
      let (is_table, is_kept) = append_new-entries (record s { dedup_hash = some table }) e in
      record {
        table = table;
        is_table = rw (t.is_table, found) is_table;
        tracks = insert_node-Tracks t.table kept e t.tracks;
        is_kept = rw (t.is_table, found) (is_kept ∙ ap (λ es. es ++ e ∷ []) t.is_kept);
      }

  append_all-Holds :
      (s : LogStore) (kept es : List LogEntry)
      → Holds s kept
      → (append_all s es).entries ≡ distinct_by collides kept es
  append_all-Holds s kept [] t = t.is_kept
  append_all-Holds s kept (e ∷ es) t = elim (Bool-cases (any (collides e) kept)) [
    | inl d ↦
        rw d
          (append_all-Holds (append memory true true s e).1 kept es (append-duplicate s kept e t d))
    | inr d ↦ rw d (
        append_all-Holds (append memory true true s e).1 (kept ++ e ∷ []) es
          (append-new s kept e t d))
  ]

  -- What the table decides, hash and all.
  pub append_all-collides :
      (index : List IndexEntry) (s : LogStore) (es : List LogEntry)
      → init index true (dedup_hash_create true) ≡ some s
      → (append_all s es).entries ≡ distinct_by collides [] es
  unfolding init dedup_hash_create in_chain
  append_all-collides index s es h = append_all-Holds s [] es (record {
    table = λ i. [];
    is_table = ground arith;
    tracks = record { found = λ i node_id vc. refl };
    is_kept = ground arith;
  })
