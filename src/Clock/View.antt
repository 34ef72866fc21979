-- ===== src/Clock/View.antt =====
-- What a vector clock stands for: a count for each node, zero past `node_count`; and what each
-- operation that writes a clock does to it.
use vector_clock_good.Common.{
  ℕ, zero, suc, ◌+◌, ◌%◌, ◌^◌, ◌≤◌, ◌<◌, ◌≡◌, refl, ℤ, pos, negsuc, arith, length, set, get_or, ltb,
  leb, ◌==◌, ◌&&◌, if◌then◌else◌, List, length-set, length-append, length-replicate, length-take,
  length-drop, get_or-set_self, get_or-set_ne, get_or-copy_prefix, replicate, take, ◌++◌, drop,
  Bool-cases, inl, inr,
}
use vector_clock_good.Clock.{
  VectorClock, max_nodes, cell, zeroed, init, increment, merge, merge_loop, copy, smaller,
}

-- The count of node `i`.
unfoldable pub at : VectorClock → ℕ → ℕ
at vc i = if ltb i vc.node_count then get_or vc.clocks i 0 else 0

-- The array has its 32 cells, and no more of them are in use.
pub record IsWellFormed (vc : VectorClock) : Type 0 where
  pub cells : length vc.clocks ≡ max_nodes
  pub within : vc.node_count ≤ max_nodes

pub get_or-set :
    (xs : List ℕ) (i j v : ℕ)
    → i < length xs
    → get_or (set xs i v) j 0 ≡ (if i == j then v else get_or xs j 0)
get_or-set xs i j v h = ground (arith, get_or-set_self xs i v 0, get_or-set_ne xs i j v 0)

pub length-merge_loop : (n i : ℕ) (s d : List ℕ) → length (merge_loop n i s d) ≡ length d
unfolding merge_loop
length-merge_loop zero i s d = refl
length-merge_loop (suc n) i s d = ground (
  arith,
  length-merge_loop n (i + 1) s d,
  length-set d i (get_or s i 0),
  length-merge_loop n (i + 1) s (set d i (get_or s i 0)),
)

abbrev pub greater : ℕ → ℕ → ℕ
greater x y = if ltb x y then y else x

get_or-merge_loop :
    (n i j : ℕ) (s d : List ℕ)
    → i + n ≤ length d
    → get_or (merge_loop n i s d) j 0
      ≡ (if leb i j && ltb j (i + n) then greater (get_or d j 0) (get_or s j 0) else get_or d j 0)
unfolding merge_loop
get_or-merge_loop zero i j s d h = ground arith
get_or-merge_loop (suc n) i j s d h = elim (Bool-cases (ltb (get_or d i 0) (get_or s i 0))) [
  | inl e ↦
      rw
        (
          e,
          get_or-merge_loop n (i + 1) j s (set d i (get_or s i 0)) (rw length-set (omega arith)),
          get_or-set d i j (get_or s i 0) (omega arith),
        )
        (ground arith)
  | inr e ↦ rw (e, get_or-merge_loop n (i + 1) j s d (omega arith)) (ground arith)
]

-- Merging takes the greater count of each node that the destination has.
pub at-merge :
    (d s : VectorClock) (j : ℕ)
    → IsWellFormed d
    → at (merge d s) j ≡ (if ltb j d.node_count then greater (at d j) (at s j) else 0)
unfolding at merge
at-merge d s j w =
    rw (get_or-merge_loop (smaller d.node_count s.node_count) 0 j s.clocks d.clocks (ground arith))
      (ground arith)

pub merge-IsWellFormed :
    {d : VectorClock} (s : VectorClock) → IsWellFormed d → IsWellFormed (merge d s)
unfolding merge
merge-IsWellFormed {d} s w = record { cells = rw length-merge_loop w.cells; within = w.within }

-- Merging keeps `node_count`.
pub node_count-merge : (d s : VectorClock) → (merge d s).node_count ≡ d.node_count
unfolding merge
node_count-merge d s = refl

-- Only the count of the node that moves changes, and it goes up by one, unless it wraps.
pub at-increment :
    (vc : VectorClock) (i j : ℕ)
    → IsWellFormed vc
    → i < vc.node_count
    → at (increment vc (pos i)) j ≡ (if i == j then (at vc i + 1) % 2 ^ 64 else at vc j)
unfolding at increment
at-increment vc i j w h =
    ground (arith, get_or-set vc.clocks i j ((get_or vc.clocks i 0 + 1) % 2 ^ 64))

-- A node id out of range changes nothing.
pub increment_out_of_range :
    (vc : VectorClock) (i : ℕ) → vc.node_count ≤ i → increment vc (pos i) ≡ vc
unfolding increment
increment_out_of_range vc i h = ground arith

pub node_count-increment :
    (vc : VectorClock) (i : ℕ) → (increment vc (pos i)).node_count ≡ vc.node_count
unfolding increment
node_count-increment vc i = ground arith

pub increment-IsWellFormed :
    {vc : VectorClock} (i : ℤ) → IsWellFormed vc → IsWellFormed (increment vc i)
unfolding increment
increment-IsWellFormed (negsuc i) w = w
increment-IsWellFormed {vc} (pos i) w =
    ground (arith, length-set vc.clocks i ((get_or vc.clocks i 0 + 1) % 2 ^ 64))

get_or-replicate-append :
    (n i : ℕ) (ys : List ℕ) → i < n → get_or {A = ℕ} (replicate n 0 ++ ys) i 0 ≡ 0
get_or-replicate-append zero i ys h = absurd (omega arith)
get_or-replicate-append (suc n) zero ys h = refl
get_or-replicate-append (suc n) (suc i) ys h = get_or-replicate-append n i ys (omega arith)

at-zeroed : (i : ℕ) → at zeroed i ≡ 0
unfolding at
at-zeroed i = ground arith

-- A clock that is initialised is zero at every node, whatever the argument.
pub at-init : (vc : VectorClock) (n : ℤ) (i : ℕ) → at (init vc n) i ≡ 0
unfolding init at
at-init vc (negsuc n) i = ground arith
at-init vc (pos n) i = ground (arith, get_or-replicate-append n i (drop n vc.clocks))

pub init-IsWellFormed :
    (vc : VectorClock) (n : ℤ) → length vc.clocks ≡ max_nodes → IsWellFormed (init vc n)
unfolding init
init-IsWellFormed vc (negsuc n) h = record { cells = refl; within = omega arith }
init-IsWellFormed vc (pos n) h = ground (
  arith,
  length-append (replicate n 0) (drop n vc.clocks),
  length-replicate {A = ℕ} n 0,
  length-drop n vc.clocks,
)

-- A copy stands for the same counts.
pub at-copy : (d s : VectorClock) (i : ℕ) → IsWellFormed s → at (copy d s) i ≡ at s i
unfolding copy at
at-copy d s i w = ground (arith, get_or-copy_prefix s.node_count i s.clocks d.clocks 0)

pub copy-IsWellFormed :
    {d s : VectorClock} → IsWellFormed d → IsWellFormed s → IsWellFormed (copy d s)
unfolding copy
copy-IsWellFormed {d} {s} w v = ground (
  arith,
  length-append (take s.node_count s.clocks) (drop s.node_count d.clocks),
  length-take s.node_count s.clocks,
  length-drop s.node_count d.clocks,
)

pub at-cell : (c : VectorClock) (i : ℕ) → i < c.node_count → at c i ≡ cell c i
unfolding at
at-cell c i h = ground arith
