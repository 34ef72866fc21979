-- ===== src/Server/Buffer/Insert.antt =====
-- Insertion into the causal buffer.
use vector_clock_good.Common.{List, [], ◌∷◌, is_lt, Bool-cases, inl, inr}
use vector_clock_good.Server.State.{BufferNode}
use vector_clock_good.Server.Buffer.{compare_causal, insert_behind, insert_sorted}
use vector_clock_good.Server.Buffer.Scan.{Inserted, here, there}

insert_behind-Inserted :
    (n : BufferNode) (ms : List BufferNode) → Inserted n ms (insert_behind n ms)
unfolding insert_behind
insert_behind-Inserted n [] = here
insert_behind-Inserted n (m ∷ ms) = elim (Bool-cases (is_lt (compare_causal n.entry m.entry))) [
  | inl e ↦ rw e here
  | inr e ↦ rw e (there (insert_behind-Inserted n ms))
]

-- Insertion adds the new node and keeps the others in their order.
pub insert-Inserted : (n : BufferNode) (ms : List BufferNode) → Inserted n ms (insert_sorted n ms)
unfolding insert_sorted
insert-Inserted n [] = here
insert-Inserted n (m ∷ ms) = elim (Bool-cases (is_lt (compare_causal n.entry m.entry))) [
  | inl e ↦ rw e here
  | inr e ↦ rw e (there (insert_behind-Inserted n ms))
]
