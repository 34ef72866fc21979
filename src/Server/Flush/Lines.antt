-- ===== src/Server/Flush/Lines.antt =====
-- The lines of events whose writes all succeed: those of the entries.
use mathlib.Core.Bool.{false≢true}
use vector_clock_good.Common.{
  All, gather, ◌<◌, ◌≡◌, refl, arith, Bool, true, false, Option, none, some, List, [], ◌∷◌, ◌++◌,
  length, Bytes, ltb, Bool-cases, inl, inr, ℕ, ap, ◌∙◌,
}
use vector_clock_good.Clock.{VectorClock}
use vector_clock_good.Entry.{LogEntry}
use vector_clock_good.Entry.Json as EntryJson
use vector_clock_good.Server.State.{Server, Answer}
use vector_clock_good.Server.Flush.Events.{Event, wrote, discarded, written}
use vector_clock_good.Server.Flush.Outcome.{
  lines, line_of, line_if, lines_of, Recorded, IsUsable, Outcome,
}

-- The line of an entry, if it has a text.
abbrev pub line : LogEntry → List Bytes
line e = line_of (EntryJson.to_json e 4096)

no_line :
    (o : Option Bytes)
    → ((text : Bytes) → o ≡ some text → 0 < length text → false ≡ true)
    → [] ≡ line_of o
no_line none r = refl
no_line (some text) r = elim (Bool-cases (ltb 0 (length text))) [
  | inl b ↦ absurd (false≢true (r text refl (ground arith)))
  | inr b ↦ rw b refl
]

pub Recorded-line : (b : Bool) (e : LogEntry) → Recorded (wrote b e) → line_if b e ≡ line e
Recorded-line true e r = refl
Recorded-line false e r = no_line (EntryJson.to_json e 4096) r

-- When every write of an entry that has a text succeeds, the lines are those of the entries.
pub lines_of-Recorded :
    (evs : List Event) → All Recorded evs → lines_of evs ≡ gather line (written evs)
unfolding written
lines_of-Recorded [] h = refl
lines_of-Recorded (wrote b e ∷ evs) (r, h) = rw (Recorded-line b e r, lines_of-Recorded evs h) refl
lines_of-Recorded (discarded e ∷ evs) (r, h) = lines_of-Recorded evs h

-- With log files that can be opened, what an outcome adds to the disk are the lines of its entries.
pub Outcome-lines :
    {Q : VectorClock → LogEntry → Type 0} (env : ℕ → Answer) (s t : Server) (evs : List Event)
    → ((n : ℕ) → IsUsable (env n))
    → Outcome env Q s evs t
    → lines t ≡ lines s ++ gather line (written evs)
Outcome-lines env s t evs usable o =
    o.on_disk ∙ ap (λ l. lines s ++ l) (lines_of-Recorded evs (o.recorded usable))
