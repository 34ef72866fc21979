-- ===== src/Agent/Stamps.antt =====
-- What a line does to the agent's clock.
use vector_clock_good.Common.{
  ℕ, ◌+◌, ◌^◌, ◌≤◌, ◌<◌, ◌≡◌, refl, ◌∙◌, ℤ, pos, Option, none, some, Bytes, List, [], ◌∷◌, arith,
  length, length-set, get_or, set, ltb, ◌==◌, Bool-cases, inl, inr,
}
use vector_clock_good.Clock.{VectorClock, max_nodes}
use vector_clock_good.Clock.View.{
  node_count-increment, at, IsWellFormed, get_or-set, at-increment, increment-IsWellFormed,
}
use vector_clock_good.Entry.{LogEntry}
use vector_clock_good.Agent.Line.{to_uint64, Stamp, parse_vc, vc_numbers, is_blank_line, parse_line}
use vector_clock_good.Agent.State.{merge_others, has_numbers, take_in, tick}

length-merge_others :
    (i own : ℕ) (vs : List ℤ) (clocks : List ℕ)
    → length (merge_others i own vs clocks) ≡ length clocks
unfolding merge_others
length-merge_others i own [] clocks = refl
length-merge_others i own (v ∷ vs) clocks = elim (Bool-cases (i == own)) [
  | inl b ↦ rw b (length-merge_others (i + 1) own vs clocks)
  | inr b ↦ elim (Bool-cases (ltb (get_or clocks i 0) (to_uint64 v))) [
    | inl l ↦
        rw (b, l)
          (length-merge_others (i + 1) own vs (set clocks i (to_uint64 v))
            ∙ length-set clocks i (to_uint64 v))
    | inr l ↦ rw (b, l) (length-merge_others (i + 1) own vs clocks)
  ]
]

-- No count goes down, and the own one stays.
get_or-merge_others :
    (i own j : ℕ) (vs : List ℤ) (clocks : List ℕ)
    → i + length vs ≤ length clocks
    → (get_or clocks j 0 ≤ get_or (merge_others i own vs clocks) j 0)
      × (get_or (merge_others i own vs clocks) own 0 ≡ get_or clocks own 0)
unfolding merge_others
get_or-merge_others i own j [] clocks h = (omega arith, refl)
get_or-merge_others i own j (v ∷ vs) clocks h = elim (Bool-cases (i == own)) [
  | inl b ↦ rw b (get_or-merge_others (i + 1) own j vs clocks (omega arith))
  | inr b ↦ elim (Bool-cases (ltb (get_or clocks i 0) (to_uint64 v))) [
    | inl l ↦
        let clocks' = set clocks i (to_uint64 v) in
        let (up, kept) =
          get_or-merge_others (i + 1) own j vs clocks' (rw length-set (omega arith)) in
        rw (b, l)
          (
            ground (arith, up, get_or-set clocks i j (to_uint64 v)),
            kept ∙ ground (arith, get_or-set clocks i own (to_uint64 v)),
          )
    | inr l ↦ rw (b, l) (get_or-merge_others (i + 1) own j vs clocks (omega arith))
  ]
]

take_in_lem :
    (own j : ℕ) (parsed : List ℤ) (vc : VectorClock)
    → IsWellFormed vc
    → length parsed ≤ max_nodes
    → IsWellFormed (take_in own parsed vc)
      × ((take_in own parsed vc).node_count ≡ vc.node_count)
      × (at vc j ≤ at (take_in own parsed vc) j)
      × (at (take_in own parsed vc) own ≡ at vc own)
unfolding take_in at
take_in_lem own j parsed vc w h = elim (Bool-cases (has_numbers parsed)) [
  | inl b ↦
      let (up, kept) = get_or-merge_others 0 own j parsed vc.clocks (omega (arith, w.cells)) in
      rw b (
        record { cells = length-merge_others 0 own parsed vc.clocks ∙ w.cells; within = w.within },
        refl,
        ground arith,
        ground arith,
      )
  | inr b ↦ rw b (w, refl, omega arith, refl)
]

-- A line takes the own count up by one, and no other down.
pub tick_lem :
    (own j : ℕ) (parsed : List ℤ) (vc : VectorClock)
    → IsWellFormed vc
    → length parsed ≤ max_nodes
    → own < vc.node_count
    → at vc own + 1 < 2 ^ 64
    → IsWellFormed (tick own parsed vc)
      × ((tick own parsed vc).node_count ≡ vc.node_count)
      × (at vc j ≤ at (tick own parsed vc) j)
      × (at (tick own parsed vc) own ≡ at vc own + 1)
unfolding tick
tick_lem own j parsed vc w h r fits =
    let (w', n, up, kept) = take_in_lem own j parsed vc w h in
    let c = take_in own parsed vc in
    (
      increment-IsWellFormed (pos own) w',
      node_count-increment c own ∙ n,
      ground (arith, at-increment c own j w'),
      ground (arith, at-increment c own own w'),
    )

length-vc_numbers : (m : Option (ℤ × (ℤ × ℤ))) → length (vc_numbers m) ≡ 3
length-vc_numbers none = refl
length-vc_numbers (some (a, (b, c))) = refl

-- What holds of every entry and every three numbers holds of the result of a line.
pub parse_line-any :
    (P : Option (LogEntry × List ℤ) → Type 0) (mktime : Stamp → ℤ) (now : ℕ) (line : Bytes)
    → P none
    → ((e : LogEntry) (parsed : List ℤ) → length parsed ≤ max_nodes → P (some (e, parsed)))
    → P (parse_line mktime now line)
unfolding parse_line
parse_line-any P mktime now line h k = elim (Bool-cases (is_blank_line line)) [
  | inl b ↦ rw b h
  | inr b ↦ rw b (k _ _ (omega (arith, length-vc_numbers (parse_vc line))))
]
