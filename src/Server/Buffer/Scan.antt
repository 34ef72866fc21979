-- ===== src/Server/Buffer/Scan.antt =====
-- What the inner loop of the flush finds.
use vector_clock_good.Common.{
  All, ℕ, ◌+◌, ◌≤◌, ◌≡◌, ◌↔◌, refl, true, false, List, [], ◌∷◌, arith, length, Bool-cases, inl, inr,
}
use vector_clock_good.Clock.{
  VectorClock, Relation, equal, happens_before, happens_after, concurrent,
}
use vector_clock_good.Clock.Compare.{Leq, Verdicts, compare-Verdicts}
use vector_clock_good.Entry.{LogEntry}
use vector_clock_good.Server.State.{BufferNode}
use vector_clock_good.Server.Buffer.{
  is_known, is_stale, is_ready, Found, nothing, stale, ready, behind, scan,
}

-- The list `ms` is `ns` with the node `n` put in somewhere.
pub data Inserted (n : BufferNode) : List BufferNode → List BufferNode → Type 0 where
  here : {ns : List BufferNode} → Inserted n ns (n ∷ ns)
  there :
      {m : BufferNode} {ns ms : List BufferNode} → Inserted n ns ms → Inserted n (m ∷ ns) (m ∷ ms)

pub length-Inserted :
    {n : BufferNode} {ns ms : List BufferNode} → Inserted n ns ms → length ms ≡ length ns + 1
length-Inserted here = omega arith
length-Inserted (there i) = omega (arith, length-Inserted i)

module _ (P : BufferNode → Type 0) where
  pub All-Inserted :
      {n : BufferNode} {ns ms : List BufferNode} → Inserted n ns ms → P n → All P ns → All P ms
  All-Inserted here p h = (p, h)
  All-Inserted (there i) p (q, h) = (q, All-Inserted i p h)

  pub All-Inserted_inv :
      {n : BufferNode} {ns ms : List BufferNode} → Inserted n ns ms → All P ms → All P ns
  All-Inserted_inv here (p, h) = h
  All-Inserted_inv (there i) (q, h) = (q, All-Inserted_inv i h)

-- The node came in the time from `low` to `high`.
pub record IsWithin (low high : ℕ) (n : BufferNode) : Type 0 where
  pub after : low ≤ n.arrival_time
  pub before : n.arrival_time ≤ high

-- Nothing that waits is known already or next.
abbrev pub IsQuiet : VectorClock → List BufferNode → Type 0
IsQuiet c = All (λ n. (is_stale c n.entry ≡ false) × (is_ready c n.entry ≡ false))

abbrev pub ScanFacts : VectorClock → List BufferNode → Found → Type 0
ScanFacts c ms nothing = IsQuiet c ms
ScanFacts c ms (stale n ns) = Inserted n ns ms × (is_stale c n.entry ≡ true)
ScanFacts c ms (ready n ns) =
    Inserted n ns ms × (is_stale c n.entry ≡ false) × (is_ready c n.entry ≡ true)

behind-ScanFacts :
    (c : VectorClock) (n : BufferNode) (ms : List BufferNode) (f : Found)
    → is_stale c n.entry ≡ false
    → is_ready c n.entry ≡ false
    → ScanFacts c ms f
    → ScanFacts c (n ∷ ms) (behind n f)
behind-ScanFacts c n ms nothing s r h = ((s, r), h)
behind-ScanFacts c n ms (stale m ns) s r (i, h) = (there i, h)
behind-ScanFacts c n ms (ready m ns) s r (i, h, k) = (there i, h, k)

pub scan-ScanFacts : (c : VectorClock) (ms : List BufferNode) → ScanFacts c ms (scan c ms)
unfolding scan
scan-ScanFacts c [] = tt
scan-ScanFacts c (n ∷ ms) = elim (Bool-cases (is_stale c n.entry)) [
  | inl s ↦ rw s (here, s)
  | inr s ↦ elim (Bool-cases (is_ready c n.entry)) [
    | inl r ↦ rw (s, r) (here, s, r)
    | inr r ↦ rw (s, r) (behind-ScanFacts c n ms (scan c ms) s r (scan-ScanFacts c ms))
  ]
]

stale_of_relation : {P Q : Type 0} (r : Relation) → Verdicts r P Q → (is_known r ≡ true) ↔ P
unfolding is_known
stale_of_relation equal v = (λ h. (v.on_equal.0 refl).0, λ h. refl)
stale_of_relation happens_before v = (λ h. (v.on_before.0 refl).0, λ h. refl)
stale_of_relation happens_after v = (λ h. absurd (cc), λ h. absurd ((v.on_after.0 refl).0 h))
stale_of_relation concurrent v = (λ h. absurd (cc), λ h. absurd ((v.on_concurrent.0 refl).0 h))

-- An entry is dropped exactly when the committed clock knows every event that it counts.
pub is_stale-iff_Leq : (c : VectorClock) (e : LogEntry) → (is_stale c e ≡ true) ↔ Leq e.vc c
unfolding is_stale
is_stale-iff_Leq c e = stale_of_relation _ (compare-Verdicts e.vc c)
