-- ===== src/Agent/Order.antt =====
-- The entries of an agent in the causal order.
use vector_clock_good.Common.{
  ℕ, ◌+◌, ◌%◌, ◌^◌, ◌≤◌, ◌<◌, ◌≡◌, refl, sym, ℤ, some, List, [], ◌∷◌, ◌++◌, arith, length,
  length-append, All, All-append,
}
use vector_clock_good.Clock.{VectorClock, Relation, happens_before, max_nodes}
use vector_clock_good.Clock
use vector_clock_good.Clock.View.{at, IsWellFormed, at-copy}
use vector_clock_good.Clock.Compare.{Leq, compare-Verdicts}
use vector_clock_good.Clock.Order.{Leq-trans}
use vector_clock_good.Entry.{LogEntry}
use vector_clock_good.Agent.State.{Agent, node_index, tick}
use vector_clock_good.Agent.Stamps.{tick_lem}
use vector_clock_good.Agent.Run.{System, stamped, advanced}

-- The first entry happens before the second and has the lower number.
abbrev pub Precedes : LogEntry → LogEntry → Type 0
Precedes e f = (Clock.compare (some e.vc) (some f.vc) ≡ happens_before) × (e.seq < f.seq)

-- Every entry precedes those behind it.
abbrev pub IsOrdered : List LogEntry → Type 0
IsOrdered [] = Unit {0}
IsOrdered (e ∷ es) = All (Precedes e) es × IsOrdered es

-- The entry was made by an agent of the index whose clock and next number are now these.
pub record IsBelow (own : ℕ) (vc : VectorClock) (seq : ℕ) (e : LogEntry) : Type 0 where
  pub below : Leq e.vc vc
  pub earlier : e.seq < seq
  pub count : at e.vc own ≡ e.seq + 1

-- The agent counts its entries: its own count is the number of them, and they are in causal order.
pub record IsStamping (own : ℕ) (a : Agent) : Type 0 where
  pub index : node_index a.config.node_id ≡ own
  pub well_formed : IsWellFormed a.vc
  pub in_range : own < a.vc.node_count
  pub numbered : a.seq ≡ length a.made
  pub counted : at a.vc own ≡ length a.made
  pub made_below : All (IsBelow own a.vc a.seq) a.made
  pub ordered : IsOrdered a.made

IsOrdered-append :
    (es : List LogEntry) (f : LogEntry)
    → IsOrdered es
    → All (λ e. Precedes e f) es
    → IsOrdered (es ++ f ∷ [])
IsOrdered-append [] f h k = (tt, tt)
IsOrdered-append (e ∷ es) f (q, h) (p, k) =
    (All-append _ es (f ∷ []) q (p, tt), IsOrdered-append es f h k)

below-Precedes :
    (own : ℕ) (vc : VectorClock) (seq : ℕ) (es : List LogEntry) (f : LogEntry)
    → All (IsBelow own vc seq) es
    → Leq vc f.vc
    → seq ≡ f.seq
    → at f.vc own ≡ seq + 1
    → All (λ e. Precedes e f) es
below-Precedes own vc seq [] f h l s c = tt
below-Precedes own vc seq (e ∷ es) f (b, h) l s c = (
  (
    (compare-Verdicts e.vc f.vc).on_before.1
        (Leq-trans b.below l, λ back. omega (arith, back.below own, b.count, b.earlier, c)),
    omega (arith, b.earlier, s),
  ),
  below-Precedes own vc seq es f h l s c,
)

IsBelow-weaken :
    (own : ℕ) (vc vc' : VectorClock) (seq seq' : ℕ) (es : List LogEntry)
    → Leq vc vc'
    → seq ≤ seq'
    → All (IsBelow own vc seq) es
    → All (IsBelow own vc' seq') es
IsBelow-weaken own vc vc' seq seq' [] l s h = tt
IsBelow-weaken own vc vc' seq seq' (e ∷ es) l s (b, h) = (
  record { below = Leq-trans b.below l; earlier = omega (arith, b.earlier); count = b.count },
  IsBelow-weaken own vc vc' seq seq' es l s h,
)

-- An agent that has made one more entry.
abbrev extended : Agent → VectorClock → LogEntry → Agent
extended a v f = record a { vc = v; seq = (a.seq + 1) % 2 ^ 64; made = a.made ++ f ∷ [] }

-- A clock that an agent may go on to: its own count goes up by one, and no other down.
record IsNext (own : ℕ) (vc v : VectorClock) : Type 0 where
  well_formed : IsWellFormed v
  same_nodes : v.node_count ≡ vc.node_count
  above : Leq vc v
  own_count : at v own ≡ at vc own + 1

tick-IsNext :
    (own : ℕ) (parsed : List ℤ) (vc : VectorClock)
    → IsWellFormed vc
    → length parsed ≤ max_nodes
    → own < vc.node_count
    → at vc own + 1 < 2 ^ 64
    → IsNext own vc (tick own parsed vc)
tick-IsNext own parsed vc w p r fits =
    let (well_formed, same_nodes, up, own_count) = tick_lem own own parsed vc w p r fits in
    record {
      well_formed = well_formed;
      same_nodes = same_nodes;
      above = record { below = λ j. (tick_lem own j parsed vc w p r fits).2 };
      own_count = own_count;
    }

extended-IsStamping :
    (own : ℕ) (a : Agent) (v : VectorClock) (f : LogEntry)
    → length a.made + 1 < 2 ^ 64
    → IsNext own a.vc v
    → f.seq ≡ a.seq
    → ((j : ℕ) → at f.vc j ≡ at v j)
    → IsStamping own a
    → IsStamping own (extended a v f)
extended-IsStamping own a v f h n s c k =
    let seq' : (a.seq + 1) % 2 ^ 64 ≡ a.seq + 1 = omega (arith, k.numbered) in
    let up : Leq a.vc f.vc = record { below = λ j. omega (arith, n.above.below j, c j) } in
    let own_f : at f.vc own ≡ a.seq + 1 =
      omega (arith, c own, n.own_count, k.counted, k.numbered) in
    record {
      index = k.index;
      well_formed = n.well_formed;
      in_range = omega (arith, k.in_range, n.same_nodes);
      numbered = omega (arith, seq', k.numbered, length-append a.made (f ∷ []));
      counted = omega (arith, n.own_count, k.counted, length-append a.made (f ∷ []));
      made_below =
          All-append _ a.made (f ∷ [])
            (IsBelow-weaken own a.vc v a.seq ((a.seq + 1) % 2 ^ 64) a.made n.above
              (omega (arith, seq')) k.made_below)
            (
              record {
                below = record { below = λ j. omega (arith, c j) };
                earlier = omega (arith, seq', s);
                count = omega (arith, own_f, s);
              },
              tt,
            );
      ordered =
          IsOrdered-append a.made f k.ordered
            (below-Precedes own a.vc a.seq a.made f k.made_below up (sym s) own_f);
    }

module _ (sys : System) where
  stamped-at :
      (a : Agent) (e : LogEntry) (parsed : List ℤ) (j : ℕ)
      → IsWellFormed (tick (node_index a.config.node_id) parsed a.vc)
      → at (stamped sys a e parsed).vc j ≡ at (tick (node_index a.config.node_id) parsed a.vc) j
  unfolding stamped
  stamped-at a e parsed j w = at-copy e.vc (tick (node_index a.config.node_id) parsed a.vc) j w

  pub advanced-IsStamping :
      (own : ℕ) (a : Agent) (e : LogEntry) (parsed : List ℤ)
      → length parsed ≤ max_nodes
      → length a.made + 1 < 2 ^ 64
      → IsStamping own a
      → IsStamping own (advanced sys a e parsed)
  unfolding advanced
  advanced-IsStamping own a e parsed p h k =
      let next : IsNext own a.vc (tick (node_index a.config.node_id) parsed a.vc) =
        rw k.index
          (tick-IsNext own parsed a.vc k.well_formed p k.in_range (omega (arith, k.counted))) in
      extended-IsStamping own a (tick (node_index a.config.node_id) parsed a.vc)
        (stamped sys a e parsed) h next refl (λ j. stamped-at a e parsed j next.well_formed) k
