-- ===== src/Clock.antt =====
-- src/vector_clock.c and include/vector_clock.h: the vector clock and its operations. The object
-- behind a pointer is a value; where NULL gets an answer of its own, the argument is an Option.
pub mod View
pub mod Compare
pub mod Order
pub mod Json
use vector_clock_good.Common.{
  ℕ, zero, suc, ◌+◌, ◌-◌, ◌%◌, ◌^◌, ℤ, pos, negsuc, Bool, true, false, ◌&&◌, ◌||◌, Option, none,
  some, List, ◌++◌, ltb, leb, ◌==◌, if◌then◌else◌, get_or, set, drop, replicate, copy_prefix, Bytes,
  codes,
}

-- `vc_relation_t`
pub data Relation : Type 0 where
  equal happens_before happens_after concurrent : Relation

-- `vector_clock_t`: `clocks` holds `max_nodes` cells, of which the first `node_count` are in use.
pub record VectorClock : Type 0 where
  pub node_count : ℕ
  pub clocks : List ℕ

abbrev pub max_nodes : ℕ
max_nodes = 32

-- A cell of the array `clocks`.
abbrev pub cell : VectorClock → ℕ → ℕ
cell vc i = get_or vc.clocks i 0

-- What `memset` of the whole struct leaves.
abbrev pub zeroed : VectorClock
zeroed = record { node_count = 0; clocks = replicate max_nodes 0 }

unfoldable pub init : VectorClock → ℤ → VectorClock
init vc (negsuc n) = zeroed
init vc (pos n) =
    if n == 0 || ltb max_nodes n
    then zeroed
    else record { node_count = n; clocks = replicate n 0 ++ drop n vc.clocks }

unfoldable pub increment : VectorClock → ℤ → VectorClock
increment vc (negsuc i) = vc
increment vc (pos i) =
    if leb vc.node_count i
    then vc
    else record vc { clocks = set vc.clocks i ((cell vc i + 1) % 2 ^ 64) }

abbrev pub smaller : ℕ → ℕ → ℕ
smaller m n = if ltb m n then m else n

-- The loop of `vc_merge`, with the rounds left and the index.
unfoldable pub merge_loop : ℕ → ℕ → List ℕ → List ℕ → List ℕ
merge_loop zero i src dst = dst
merge_loop (suc n) i src dst =
    merge_loop n (i + 1) src
      (if ltb (get_or dst i 0) (get_or src i 0) then set dst i (get_or src i 0) else dst)

unfoldable pub merge : VectorClock → VectorClock → VectorClock
merge dst src = record dst {
  clocks = merge_loop (smaller dst.node_count src.node_count) 0 src.clocks dst.clocks;
}

-- The flags of `vc_compare`.
pub record Flags : Type 0 where
  pub a_le_b : Bool
  pub b_le_a : Bool

unfoldable pub compare_step : ℕ → VectorClock → VectorClock → Flags → Flags
compare_step i a b f = record {
  a_le_b = if ltb (cell b i) (cell a i) then false else f.a_le_b;
  b_le_a = if ltb (cell a i) (cell b i) then false else f.b_le_a;
}

-- The loop over the nodes that both clocks have.
unfoldable pub compare_loop : ℕ → ℕ → VectorClock → VectorClock → Flags → Flags
compare_loop zero i a b f = f
compare_loop (suc n) i a b f = compare_loop n (i + 1) a b (compare_step i a b f)

-- The loop over the nodes that one clock has in addition, which breaks at a positive cell.
unfoldable pub extra_loop : ℕ → ℕ → VectorClock → Bool → Bool
extra_loop zero i vc flag = flag
extra_loop (suc n) i vc flag = elim (ltb 0 (cell vc i)) [
  | true ↦ false
  | false ↦ extra_loop n (i + 1) vc flag
]

unfoldable pub relation_of : Bool → Bool → Relation
relation_of a_le_b b_le_a =
    if a_le_b && b_le_a
    then equal
    else if b_le_a
    then happens_after
    else if a_le_b
    then happens_before
    else concurrent

-- `vc_compare` up to the verdict, on pointers that are not NULL.
unfoldable pub flags : VectorClock → VectorClock → Flags
flags a b =
    let count = smaller a.node_count b.node_count in
    let f : Flags = compare_loop count 0 a b (record { a_le_b = true; b_le_a = true }) in
    record {
      a_le_b =
          if ltb count a.node_count
          then extra_loop (a.node_count - count) count a f.a_le_b
          else f.a_le_b;
      b_le_a =
          if ltb count b.node_count
          then extra_loop (b.node_count - count) count b f.b_le_a
          else f.b_le_a;
    }

unfoldable pub compare : Option VectorClock → Option VectorClock → Relation
unfolding flags relation_of compare_loop compare_step extra_loop
compare none b = concurrent
compare (some a) none = concurrent
compare (some a) (some b) = relation_of (flags a b).a_le_b (flags a b).b_le_a

unfoldable pub copy : VectorClock → VectorClock → VectorClock
copy dst src = record {
  node_count = src.node_count;
  clocks = copy_prefix src.node_count src.clocks dst.clocks;
}

unfoldable pub is_valid : Option VectorClock → Bool
is_valid none = false
is_valid (some vc) = if vc.node_count == 0 || ltb max_nodes vc.node_count then false else true

unfoldable pub relation_str : Relation → Bytes
relation_str equal = codes "EQUAL"
relation_str happens_before = codes "HAPPENS_BEFORE"
relation_str happens_after = codes "HAPPENS_AFTER"
relation_str concurrent = codes "CONCURRENT"
