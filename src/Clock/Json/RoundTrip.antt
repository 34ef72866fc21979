-- ===== src/Clock/Json/RoundTrip.antt =====
-- Reading the text of a clock gives the clock back.
use mathlib.Core.Path.{subst}
use vector_clock_good.Common.{
  ℕ, zero, suc, ◌+◌, ◌≤◌, ◌<◌, ◌≡◌, refl, sym, ap, ◌∙◌, none, some, List, [], ◌∷◌, ◌++◌, arith, ltb,
  leb, ◌&&◌, if◌then◌else◌, Bytes, length, get_or, set, length-append, length-set, strcmp_refl,
  print_nat,
}
use vector_clock_good.Clock.{VectorClock, cell, max_nodes}
use vector_clock_good.Clock.View.{at, IsWellFormed, get_or-set}
use vector_clock_good.Clock.Json.{
  node_label, member, to_json, expect, place_numbered, place_all, parse_members, from_json,
}
use vector_clock_good.Clock.Json.Read.{member_text, entries, length-entries, Fits64, members_lem}
use vector_clock_good.Clock.Json.Printed.{listing, separator, to_json-listing}

place_label :
    (count i v : ℕ) (clocks : List ℕ)
    → place_numbered count i (node_label i, v) clocks ≡ set clocks i v
unfolding place_numbered
place_label count i v clocks = rw (strcmp_refl (node_label i)) refl

place_all_end : (count i : ℕ) (clocks : List ℕ) → place_all none count i [] clocks ≡ clocks
unfolding place_all
place_all_end count i clocks = refl

place_all_next :
    (count i : ℕ) (m : Bytes × ℕ) (ms : List (Bytes × ℕ)) (clocks : List ℕ)
    → place_all none count i (m ∷ ms) clocks
      ≡ place_all none count (i + 1) ms (place_numbered count i m clocks)
unfolding place_all
place_all_next count i m ms clocks = refl

-- Placing the entries of the nodes from `i` fills the cells from `i`.
place_all-entries :
    (count n i j : ℕ) (vc : VectorClock) (clocks : List ℕ)
    → i + n ≤ length clocks
    → get_or (place_all none count i (entries vc n i) clocks) j 0
      ≡ (if leb i j && ltb j (i + n) then cell vc j else get_or clocks j 0)
place_all-entries count zero i j vc clocks h = rw (place_all_end count i clocks) (ground arith)
place_all-entries count (suc n) i j vc clocks h =
    rw
      (
        place_all_next count i (node_label i, cell vc i) (entries vc n (i + 1)) clocks,
        place_label count i (cell vc i) clocks,
        place_all-entries count n (i + 1) j vc (set clocks i (cell vc i))
            (rw length-set (omega arith)),
        get_or-set clocks i j (cell vc i) (omega arith),
      )
      (grind arith)

member_starts : (vc : VectorClock) (i : ℕ) → 1 ≤ length (member none vc i)
unfolding member
member_starts vc i = omega arith

-- There are more bytes than members.
length-listing : (vc : VectorClock) (n i : ℕ) → n < length (listing none vc n i)
length-listing vc zero i = omega arith
length-listing vc (suc n) i =
    let rest = listing none vc n (i + 1) in
    omega (
      arith,
      length-append (member none vc i) (separator n ++ rest),
      length-append (separator n) rest,
      length-listing vc n (i + 1),
      member_starts vc i,
    )

parse_members_lem :
    (dst vc : VectorClock) (n : ℕ)
    → vc.node_count ≡ n
    → n ≤ max_nodes
    → Fits64 vc
    → parse_members dst (listing none vc n 0) none
      ≡ some (record { node_count = n; clocks = place_all none n 0 (entries vc n 0) dst.clocks })
unfolding parse_members expect
parse_members_lem dst vc n e h w =
    rw
      (
        members_lem (length (listing none vc n 0)) n 0 vc [] w (length-listing vc n 0) (omega arith)
            (omega arith) refl,
        length-entries vc n 0,
      )
      refl

from_json_empty :
    (dst vc : VectorClock)
    → from_json dst (b'{' ∷ listing none vc 0 0) none ≡ some (record dst { node_count = 0 })
unfolding from_json
from_json_empty dst vc = refl

from_json_members :
    (dst : VectorClock) (s : Bytes)
    → from_json dst (b'{' ∷ (b'"' ∷ s)) none ≡ parse_members dst (b'"' ∷ s) none
unfolding from_json
from_json_members dst s = refl

IsReadBack : VectorClock → VectorClock → Bytes → Type 0
IsReadBack dst vc text =
    (read : VectorClock) × (from_json dst text none ≡ some read)
    × (read.node_count ≡ vc.node_count)
    × ((j : ℕ) → at read j ≡ at vc j)

read_back :
    (dst vc : VectorClock) (n : ℕ)
    → vc.node_count ≡ n
    → IsWellFormed vc
    → IsWellFormed dst
    → Fits64 vc
    → IsReadBack dst vc (b'{' ∷ listing none vc n 0)
unfolding IsReadBack at
read_back dst vc zero e w v f =
    (record dst { node_count = 0 }, from_json_empty dst vc, sym e, λ j. ground arith)
read_back dst vc (suc n) e w v f =
    let start = member_text vc 0 (separator n ++ listing none vc n 1) in
    (
      record {
        node_count = suc n;
        clocks = place_all none (suc n) 0 (entries vc (suc n) 0) dst.clocks;
      },
      ap (λ s. from_json dst (b'{' ∷ s) none) start
          ∙ from_json_members dst (
              node_label 0
              ++ (b'"' ∷ (b':' ∷ (print_nat (cell vc 0) ++ (separator n ++ listing none vc n 1)))))
          ∙ ap (λ s. parse_members dst s none) (sym start)
          ∙ parse_members_lem dst vc (suc n) e (omega (arith, w.within)) f,
      sym e,
      λ j.
          (rw
            (place_all-entries (suc n) (suc n) 0 j vc dst.clocks (omega (arith, v.cells, w.within)))
            (ground arith)),
    )

-- The printed clock is read back.
pub from_json-listing :
    (dst vc : VectorClock)
    → IsWellFormed vc
    → IsWellFormed dst
    → Fits64 vc
    → (read : VectorClock) × (from_json dst (b'{' ∷ listing none vc vc.node_count 0) none
        ≡ some read)
      × (read.node_count ≡ vc.node_count)
      × ((j : ℕ) → at read j ≡ at vc j)
unfolding IsReadBack
from_json-listing dst vc w v f = read_back dst vc vc.node_count refl w v f

-- A clock that `vc_to_json` prints without names, into a buffer that is large enough, is read by
-- `vc_from_json` into any clock as the same counts for the same number of nodes, when the counts
-- fit 64 bits.
pub from_json-to_json :
    (dst vc : VectorClock) (size : ℕ) (text : Bytes)
    → IsWellFormed vc
    → IsWellFormed dst
    → Fits64 vc
    → to_json vc none size ≡ some text
    → (read : VectorClock) × (from_json dst text none ≡ some read)
      × (read.node_count ≡ vc.node_count)
      × ((j : ℕ) → at read j ≡ at vc j)
unfolding IsReadBack
from_json-to_json dst vc size text w v f h =
    subst (IsReadBack dst vc) (sym (to_json-listing vc none size text h))
      (read_back dst vc vc.node_count refl w v f)
