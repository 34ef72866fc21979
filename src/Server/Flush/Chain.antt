-- ===== src/Server/Flush/Chain.antt =====
-- The entries of a gap-free chain, waiting in any order, are all written by one flush.
use mathlib.Core.Logic.{∥∥₁_elim}
use mathlib.Core.List.{Perm, Permᴰ, append-nil}
use mathlib.Core.List.Perm
use native.Mathlib.Nat.{ℕ_set}
use vector_clock_good.Common.{
  gather, ℕ, suc, ◌≤◌, ◌≡◌, refl, ap, ◌∙◌, true, not, ◌||◌, List, [], ◌∷◌, ◌++◌, map, arith, length,
  length-append, ◌==◌, All, All-append, All-append_left, All-perm, Bool-cases, inl, inr,
}
use vector_clock_good.Clock
use vector_clock_good.Clock.{VectorClock, cell}
use vector_clock_good.Clock.View.{at, IsWellFormed, merge-IsWellFormed}
use vector_clock_good.Clock.Compare.{Leq}
use vector_clock_good.Clock.Order.{merge_lub}
use vector_clock_good.Entry.{LogEntry}
use vector_clock_good.Server.State.{BufferNode, Server, Answer}
use vector_clock_good.Server.Buffer.{is_stale, is_ready}
use vector_clock_good.Server.Buffer.Ready.{steps, steps-zero, is_ready-steps}
use vector_clock_good.Server.Buffer.Scan.{IsQuiet, is_stale-iff_Leq}
use vector_clock_good.Server.Flush.{flush_causal_buffer}
use vector_clock_good.Server.Flush.Events.{
  Event, subject, advance, written, Fits, IsCausal, Runs, Runs-IsCausal,
}
use vector_clock_good.Server.Flush.Outcome.{lines, IsUsable}
use vector_clock_good.Server.Flush.Lines.{line, Outcome-lines}
use native.Mathlib.Bridge.{le_prop}
use mathlib.Core.Bool.{Bool-set}
use vector_clock_good.Server.Flush.Drain.{Ready, entries, flush-Flushed, nil_of_length}
use vector_clock_good.Server.Flush.Total.{total_mono, steps_anti}
use vector_clock_good.Server.Flush.Advance.{
  IsChain, HasNodes, IsNear, merged, total-merged, advance_mono, node_count-advance, subject-Leq,
  total-advance, length-written, written-all,
}

length-permᴰ : {xs ys : List LogEntry} → Permᴰ xs ys → length xs ≡ length ys
length-permᴰ Permᴰ.nil = refl
length-permᴰ (Permᴰ.cons e d) = ap suc (length-permᴰ d)
length-permᴰ (Permᴰ.swap e f) = refl
length-permᴰ (Permᴰ.trans d f) = length-permᴰ d ∙ length-permᴰ f

length-perm : {xs ys : List LogEntry} → Perm xs ys → length xs ≡ length ys
length-perm p = ∥∥₁_elim p (ℕ_set _ _) length-permᴰ

zero_steps-Leq :
    (e c : VectorClock) → e.node_count ≡ c.node_count → steps c.node_count 0 e c ≡ 0 → Leq e c
unfolding at
zero_steps-Leq e c q h = record { below = λ i. ground (arith, steps-zero c.node_count 0 e c h i) }

-- The committed clock has taken the entry in, or is more than one step behind it.
abbrev Settled : VectorClock → LogEntry → Type 0
Settled c e = (is_stale c e || not (is_ready c e)) ≡ true

Settled-Leq :
    (p c : VectorClock) (e : LogEntry)
    → Leq p c
    → c.node_count ≡ p.node_count
    → e.vc.node_count ≡ p.node_count
    → steps p.node_count 0 e.vc p ≡ 1
    → Settled c e
    → Leq e.vc c
Settled-Leq p c e l n q one h = elim (Bool-cases (is_stale c e)) [
  | inl b ↦ (is_stale-iff_Leq c e).0 b
  | inr b ↦ elim (Bool-cases (steps c.node_count 0 e.vc c == 0)) [
    | inl z ↦ zero_steps-Leq e.vc c (omega arith) (ground arith)
    | inr z ↦
        let few : steps c.node_count 0 e.vc c ≤ 1 = omega (
          arith,
          steps_anti p.node_count 0 e.vc p c l (omega arith) n,
          ap (λ (m : ℕ). steps m 0 e.vc c) n,
        ) in
        let ready = (is_ready-steps c e (omega arith)).1 (ground arith) in
        absurd (ground (arith, ready))
  ]
]

chain-Leq :
    (p c : VectorClock) (es : List LogEntry)
    → IsWellFormed p
    → Leq p c
    → c.node_count ≡ p.node_count
    → HasNodes p.node_count es
    → IsChain p es
    → All (Settled c) es
    → Leq (merged p es) c
unfolding Clock.merge
chain-Leq p c [] w l n q h k = l
chain-Leq p c (e ∷ es) w l n (q, qs) (one, h) (k, ks) =
    chain-Leq (Clock.merge p e.vc) c es (merge-IsWellFormed e.vc w)
      ((merge_lub p e.vc w (omega arith)).2 c l (Settled-Leq p c e l n q one k)) n qs h ks

IsQuiet-Settled :
    (c : VectorClock) (ns : List BufferNode) → IsQuiet c ns → All (Settled c) (entries ns)
IsQuiet-Settled c [] q = tt
IsQuiet-Settled c (n ∷ ns) ((a, b), q) = (rw (a, b) refl, IsQuiet-Settled c ns q)

Leq-Settled : (c : VectorClock) (es : List LogEntry) → All (λ e. Leq e.vc c) es → All (Settled c) es
Leq-Settled c [] h = tt
Leq-Settled c (e ∷ es) (l, h) = (rw ((is_stale-iff_Leq c e).1 l) refl, Leq-Settled c es h)

length-entries : (ns : List BufferNode) → length (entries ns) ≡ length ns
length-entries [] = refl
length-entries (n ∷ ns) = ap suc (length-entries ns)

nodes-Fits : (n : ℕ) (es : List LogEntry) → HasNodes n es → Fits n es
nodes-Fits n [] h = tt
nodes-Fits n (e ∷ es) (q, h) = (omega arith, nodes-Fits n es h)

-- Events that run from the committed clock `c` on the entries of a chain write all of them, if what
-- they leave is quiet.
pub run_chain :
    (c : VectorClock) (es : List LogEntry) (evs : List Event) (ns : List BufferNode)
    → IsWellFormed c
    → HasNodes c.node_count es
    → IsNear c es
    → IsChain c es
    → Runs Ready c evs
    → IsQuiet (advance c evs) ns
    → Perm es (map subject evs ++ entries ns)
    → (ns ≡ []) × Perm es (written evs) × IsCausal (written evs)
run_chain c es evs ns w n near h runs quiet kept =
    let left = map subject evs in
    let nodes : HasNodes c.node_count left =
      All-append_left _ left (entries ns) (All-perm _ (λ e. ℕ_set _ _) kept n) in
    let nears : IsNear c left =
      All-append_left _ left (entries ns) (All-perm _ (λ e. le_prop) kept near) in
    let settled : All (Settled (advance c evs)) es =
      All-perm _ (λ e. Bool-set _ _) (Perm.symm kept)
        (All-append _ left (entries ns)
          (Leq-Settled (advance c evs) left (subject-Leq c evs w nodes runs))
          (IsQuiet-Settled (advance c evs) ns quiet)) in
    let above =
      chain-Leq c (advance c evs) es w (advance_mono c evs w nodes) (node_count-advance c evs) n h
        settled in
    let taken = total-advance c evs w nodes nears runs in
    let same = length-perm kept in
    let parts = length-append left (entries ns) in
    let enough : length es ≤ length (written evs) = omega (
      arith,
      taken,
      total-merged c es w n h,
      total_mono c.node_count 0 (merged c es) (advance c evs) above,
    ) in
    let all = written-all evs (omega (arith, same, parts)) in
    let empty =
      nil_of_length ns (omega (arith, same, parts, length-written evs, length-entries ns)) in
    (
      empty,
      rw (all, ← append-nil left, ← ap entries empty) kept,
      Runs-IsCausal Ready c evs w (rw all (nodes-Fits c.node_count left nodes)) runs,
    )

-- If the buffer holds, in any order, the entries of a chain in which each is one step ahead of the
-- committed clock with those before it, of the nodes of that clock and within the range of the 32-bit
-- count, and the log file of each day can be opened, then one flush empties the buffer, and what it
-- adds to the disk are the lines of these entries, once each and in causal order: there are events
-- whose written entries are those of the buffer, as often, in an order in which none comes after one
-- that it equals or happened before, whose lines are added to the disk in that order (an entry whose
-- JSON text does not fit 4096 bytes has none), and which the committed clock takes in.
pub flush_chain :
    (env : ℕ → Answer) (s : Server) (es : List LogEntry)
    → ((n : ℕ) → IsUsable (env n))
    → IsWellFormed s.committed_vc
    → HasNodes s.committed_vc.node_count es
    → IsNear s.committed_vc es
    → IsChain s.committed_vc es
    → Perm es (entries s.buffer)
    → let t = flush_causal_buffer env s in
      (evs : List Event) × (t.buffer ≡ [])
      × Perm es (written evs)
      × IsCausal (written evs)
      × (t.committed_vc ≡ advance s.committed_vc evs)
      × (lines t ≡ lines s ++ gather line (written evs))
flush_chain env s es usable w n near h p =
    let f = flush-Flushed env s in
    let t = flush_causal_buffer env s in
    let (empty, all, causal) =
      run_chain s.committed_vc es f.events t.buffer w n near h f.outcome.runs
        (rw f.outcome.committed at f.quiet) (Perm.trans p f.kept) in
    (
      f.events,
      empty,
      all,
      causal,
      f.outcome.committed,
      Outcome-lines env s t f.events usable f.outcome,
    )
