-- ===== src/Store.antt =====
-- src/store.c and include/store.h: the log store of the query tool. An array that grows is the list of
-- its cells in use, so `count` is its length. `allocated` says whether a `malloc` gives memory.
pub mod Dedup
pub mod Query
pub mod Index
pub mod Sort
pub mod Load
pub mod Graph
pub mod Compressed
pub mod Stats
use vector_clock_good.Common.{
  ℕ, zero, suc, ◌+◌, ◌*◌, ◌/◌, ◌%◌, ◌^◌, Bool, true, false, ◌&&◌, Option, none, some, List, [], ◌∷◌,
  ◌++◌, leb, ◌==◌, if◌then◌else◌, length, take, Bytes, str_eq, strcmp,
}
use vector_clock_good.Clock
use vector_clock_good.Clock.{
  VectorClock, Relation, equal, happens_before, happens_after, concurrent,
}
use vector_clock_good.Entry.{LogEntry}

-- `hash_node_t`, without its link: a chain is a list.
pub record HashNode : Type 0 where
  pub node_id : Bytes
  pub vc : VectorClock

-- The chains of `dedup_hash_t`, by bucket
abbrev pub Buckets : Type 0
Buckets = ℕ → List HashNode

-- `index_entry_t`, with its `posting_list_t` as the list of the indices
pub record IndexEntry : Type 0 where
  pub term : Bytes
  pub posting : List ℕ

-- `log_store_t`
pub record LogStore : Type 0 where
  pub entries : List LogEntry
  pub capacity : ℕ
  pub sorted : Bool
  pub index : List IndexEntry
  pub dedup_hash : Option Buckets

abbrev pub store_init_capacity : ℕ
store_init_capacity = 1024

abbrev pub dedup_hash_size : ℕ
dedup_hash_size = 65536

-- `dedup_hash_create`
unfoldable pub dedup_hash_create : Bool → Option Buckets
dedup_hash_create allocated = if allocated then some (λ i. []) else none

-- `store_init`, for the index that the memory holds; none where the source returns -1.
unfoldable pub init : List IndexEntry → Bool → Option Buckets → Option LogStore
init index false dedup_hash = none
init index true none = none
init index true (some h) = some record {
  entries = [];
  capacity = store_init_capacity;
  sorted = false;
  index = index;
  dedup_hash = some h;
}

unfoldable pub cleanup : LogStore → LogStore
cleanup s = record s { entries = []; capacity = 0; dedup_hash = none }

unfoldable pub index_cleanup : LogStore → LogStore
index_cleanup s = record s { index = [] }

-- `store_expand`; true where it returns 0.
unfoldable pub expand : Bool → LogStore → Bool × LogStore
expand allocated s =
    if allocated then (true, record s { capacity = s.capacity * 2 }) else (false, s)

-- Exclusive or of the lowest `n` bits.
unfoldable pub xor : ℕ → ℕ → ℕ → ℕ
xor zero a b = 0
xor (suc n) a b = (a + b) % 2 + 2 * xor n (a / 2) (b / 2)

unfoldable pub fnv : ℕ → Bytes → ℕ
unfolding xor
fnv hash [] = hash
fnv hash (b ∷ bs) = fnv ((xor 32 hash b * 16777619) % 2 ^ 32) bs

abbrev pub is_equal : Relation → Bool
is_equal equal = true
is_equal happens_before = false
is_equal happens_after = false
is_equal concurrent = false

unfoldable pub in_chain : List HashNode → Bytes → VectorClock → Bool
unfolding strcmp Clock.compare
in_chain [] node_id vc = false
in_chain (n ∷ ns) node_id vc =
    if str_eq n.node_id node_id && is_equal (Clock.compare (some n.vc) (some vc))
    then true
    else in_chain ns node_id vc

-- A node at the head of its chain.
unfoldable pub insert_node : ℕ → Bytes → VectorClock → Buckets → Buckets
insert_node i node_id vc h j =
    if j == i then record { node_id = take 63 node_id; vc = vc } ∷ h j else h j

-- The copy behind the entries, if there is room.
abbrev add_entry : LogEntry → Bool × LogStore → Bool × LogStore
add_entry e (false, s) = (false, s)
add_entry e (true, s) = (true, record s { entries = s.entries ++ e ∷ []; sorted = false })

-- The rest of `store_append`, for an entry that is no duplicate.
unfoldable pub append_new : Bool → LogStore → LogEntry → Bool × LogStore
unfolding expand
append_new expanded s e =
    add_entry e (if leb s.capacity (length s.entries) then expand expanded s else (true, s))

-- `memory` is how a clock lies in memory: the bytes of the struct, its padding among them.
module _ (memory : VectorClock → Bytes) where
  unfoldable pub calculate_hash : Bytes → VectorClock → ℕ
  unfolding fnv
  calculate_hash node_id vc = fnv (fnv 2166136261 node_id) (memory vc) % dedup_hash_size

  -- True for a duplicate.
  unfoldable pub dedup_hash_check_and_insert :
      Bool → Option Buckets → Bytes → VectorClock → Bool × Option Buckets
  unfolding calculate_hash in_chain insert_node
  dedup_hash_check_and_insert allocated none node_id vc = (false, none)
  dedup_hash_check_and_insert allocated (some h) node_id vc =
      let i = calculate_hash node_id vc in
      if in_chain (h i) node_id vc
      then (true, some h)
      else (false, if allocated then some (insert_node i node_id vc h) else some h)

  -- `store_append`; true where it returns 0. `expanded` says whether the `realloc` gives memory.
  unfoldable pub append : Bool → Bool → LogStore → LogEntry → Bool × LogStore
  unfolding dedup_hash_check_and_insert append_new
  append allocated expanded s e =
      let checked = dedup_hash_check_and_insert allocated s.dedup_hash e.node_id e.vc in
      let s' : LogStore = record s { dedup_hash = checked.1 } in
      if checked.0 then (true, s') else append_new expanded s' e
