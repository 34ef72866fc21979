-- ===== src/Store/Graph.antt =====
-- The edges of the graph that `store_export_dot` writes, and the tallies of `store_get_stats`.
pub mod Paths
use vector_clock_good.Common.{
  ℕ, zero, suc, ◌+◌, Bool, true, false, not, ◌&&◌, ◌||◌, some, List, [], ◌∷◌, ◌++◌, ◌==◌,
  if◌then◌else◌, length, get_or, Bytes, str_eq, strcmp,
}
use vector_clock_good.Clock
use vector_clock_good.Clock.{Relation, equal, happens_before, happens_after, concurrent}
use vector_clock_good.Entry.{LogEntry}
use vector_clock_good.Entry

abbrev pub is_before : Relation → Bool
is_before equal = false
is_before happens_before = true
is_before happens_after = false
is_before concurrent = false

-- Entry `i` happens before entry `j`.
unfoldable pub precedes : List LogEntry → ℕ → ℕ → Bool
unfolding Clock.compare
precedes es i j =
    is_before
      (Clock.compare (some (get_or es i Entry.blank).vc) (some (get_or es j Entry.blank).vc))

-- The loop over `k`: no entry among the `n` from `k` lies between `i` and `j`.
unfoldable pub is_direct : ℕ → ℕ → List LogEntry → ℕ → ℕ → Bool
is_direct zero k es i j = true
is_direct (suc n) k es i j =
    let rest = is_direct n (k + 1) es i j in
    if k == i || k == j then rest else if precedes es i k && precedes es k j then false else rest

-- Whether the edge from `i` to `j` is written.
unfoldable pub is_edge : List LogEntry → ℕ → ℕ → Bool
is_edge es i j = not (i == j) && (precedes es i j && is_direct (length es) 0 es i j)

-- An edge that is written, and whether it is drawn as one between two nodes.
pub record Edge : Type 0 where
  pub from : ℕ
  pub to : ℕ
  pub across : Bool

abbrev edge : List LogEntry → ℕ → ℕ → Edge
edge es i j = record {
  from = i;
  to = j;
  across = not (str_eq (get_or es i Entry.blank).node_id (get_or es j Entry.blank).node_id);
}

-- The inner loop, over `j`.
unfoldable pub edges_from : ℕ → ℕ → List LogEntry → ℕ → List Edge
unfolding is_edge strcmp
edges_from zero j es i = []
edges_from (suc n) j es i =
    let rest = edges_from n (j + 1) es i in if is_edge es i j then edge es i j ∷ rest else rest

unfoldable pub edges_loop : ℕ → ℕ → List LogEntry → List Edge
unfolding edges_from
edges_loop zero i es = []
edges_loop (suc n) i es = edges_from (length es) 0 es i ++ edges_loop n (i + 1) es

-- The edges in the order in which they are written.
unfoldable pub edges : List LogEntry → List Edge
unfolding edges_loop
edges es = edges_loop (length es) 0 es
