-- ===== src/Server/Buffer.antt =====
-- The causal buffer as a list: its comparison, insertion, and the tests of the flush.
pub mod Scan
pub mod Ready
pub mod Insert
use vector_clock_good.Server.State.{BufferNode, Server}
use vector_clock_good.Common.{
  ℕ, zero, suc, ◌+◌, ◌-◌, ◌%◌, ◌^◌, Bool, true, false, some, List, [], ◌∷◌, Ordering, is_lt, ltb,
  ◌==◌, if◌then◌else◌, strcmp,
}
use vector_clock_good.Clock
use vector_clock_good.Clock.{
  VectorClock, Relation, equal, happens_before, happens_after, concurrent, cell,
}
use vector_clock_good.Entry.{LogEntry}

-- `log_entry_compare_causal`
unfoldable pub compare_causal : LogEntry → LogEntry → Ordering
unfolding strcmp
compare_causal a b =
    let tie =
      (if a.timestamp == b.timestamp
        then strcmp a.node_id b.node_id
        else if ltb a.timestamp b.timestamp
        then Ordering.lt
        else Ordering.gt) in
    elim (Clock.compare (some a.vc) (some b.vc)) [
      | happens_before ↦ Ordering.lt
      | happens_after ↦ Ordering.gt
      | equal ↦ tie
      | concurrent ↦ tie
    ]

-- The walk from a node that the new one does not precede: on while the next node is not after it.
unfoldable pub insert_behind : BufferNode → List BufferNode → List BufferNode
unfolding compare_causal
insert_behind new [] = new ∷ []
insert_behind new (n ∷ ns) =
    if is_lt (compare_causal new.entry n.entry) then new ∷ n ∷ ns else n ∷ insert_behind new ns

unfoldable pub insert_sorted : BufferNode → List BufferNode → List BufferNode
unfolding insert_behind
insert_sorted new [] = new ∷ []
insert_sorted new (n ∷ ns) =
    if is_lt (compare_causal new.entry n.entry) then new ∷ n ∷ ns else n ∷ insert_behind new ns

-- `allocated` says whether `malloc` gives a node; `now` is the time of arrival.
unfoldable pub insert_to_buffer : Bool → ℕ → Server → LogEntry → Server
unfolding insert_sorted
insert_to_buffer false now s e = s
insert_to_buffer true now s e = record s {
  buffer = insert_sorted (record { entry = e; arrival_time = now }) s.buffer;
  buffer_count = s.buffer_count + 1;
}

-- The int `increments`, as its 32 bits: the 64-bit differences are added modulo 2 ^ 32.
unfoldable pub increments_loop : ℕ → ℕ → VectorClock → VectorClock → ℕ → ℕ
increments_loop zero i e c acc = acc
increments_loop (suc n) i e c acc =
    increments_loop n (i + 1) e c
      (if ltb (cell c i) (cell e i) then (acc + (cell e i - cell c i)) % 2 ^ 32 else acc)

unfoldable pub increments : VectorClock → VectorClock → ℕ
unfolding increments_loop
increments e c = increments_loop c.node_count 0 e c 0

-- `rel == VC_EQUAL || rel == VC_HAPPENS_BEFORE`
unfoldable pub is_known : Relation → Bool
is_known equal = true
is_known happens_before = true
is_known happens_after = false
is_known concurrent = false

unfoldable pub is_stale : VectorClock → LogEntry → Bool
unfolding is_known
is_stale committed e = is_known (Clock.compare (some e.vc) (some committed))

unfoldable pub is_ready : VectorClock → LogEntry → Bool
unfolding increments
is_ready committed e = increments e.vc committed == 1

-- What the inner loop does at the node where it breaks, with the list that it has unlinked it from.
pub data Found : Type 0 where
  nothing : Found
  stale : BufferNode → List BufferNode → Found
  ready : BufferNode → List BufferNode → Found

abbrev pub behind : BufferNode → Found → Found
behind n nothing = nothing
behind n (stale m ns) = stale m (n ∷ ns)
behind n (ready m ns) = ready m (n ∷ ns)

-- The inner loop of `server_flush_causal_buffer`.
unfoldable pub scan : VectorClock → List BufferNode → Found
unfolding is_stale is_ready
scan committed [] = nothing
scan committed (n ∷ ns) =
    if is_stale committed n.entry
    then stale n ns
    else if is_ready committed n.entry
    then ready n ns
    else behind n (scan committed ns)
