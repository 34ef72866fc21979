-- ===== src/Server/Run/Served.antt =====
-- The rounds of the server as events.
use mathlib.Core.List.{append_assoc, map-append, Perm}
use mathlib.Core.List.Perm
use vector_clock_good.Common.{
  ℕ, ◌≡◌, refl, Bool, true, false, Option, none, some, List, [], ◌∷◌, ◌++◌, map, length, Bytes,
  Bool-cases, inl, inr, ◌==◌, if◌then◌else◌, perm_rotate,
}
use vector_clock_good.Clock.{VectorClock}
use vector_clock_good.Entry.{LogEntry}
use vector_clock_good.Entry.Json as EntryJson
use vector_clock_good.Server.State.{Server, Answer, Round}
use vector_clock_good.Server.Buffer.{insert_to_buffer}
use vector_clock_good.Server.Buffer.Insert.{insert-Inserted}
use vector_clock_good.Server.Buffer.Scan.{IsQuiet}
use vector_clock_good.Server.Flush.{flush_causal_buffer}
use vector_clock_good.Server.Flush.Events.{Event, subject}
use vector_clock_good.Server.Flush.Outcome.{Outcome, Outcome-nil, Outcome-append}
use vector_clock_good.Server.Flush.Drain.{Ready, entries, perm-Inserted, flush-Flushed}
use vector_clock_good.Server.Run.{accept, receive, c_string, counted}

abbrev taken : Bool → Option LogEntry → List LogEntry
taken allocated none = []
taken allocated (some e) = if allocated then e ∷ [] else []

abbrev pub arrived : Bool → Option Bytes → List LogEntry
arrived allocated none = []
arrived allocated (some bytes) =
    if length bytes == 0 then [] else taken allocated (EntryJson.from_json (c_string bytes))

-- The entries that a round puts into the buffer: the one of its datagram, if that parses and a node
-- is allocated.
unfoldable pub arrivals_of : Round → List LogEntry
arrivals_of r = arrived r.allocated r.datagram

unfoldable pub arrivals : List Round → List LogEntry
unfolding arrivals_of
arrivals [] = []
arrivals (r ∷ rs) = arrivals_of r ++ arrivals rs

module _ (env : ℕ → Answer) where
  -- What rounds make of `s`; `Q` is what held of an entry when it was written.
  pub record Served (Q : VectorClock → LogEntry → Type 0) (arrived : List LogEntry) (s t : Server)
      : Type 0 where
    pub events : List Event
    pub outcome : Outcome env Q s events t
    pub kept : Perm (arrived ++ entries s.buffer) (map subject events ++ entries t.buffer)
    pub quiet : IsQuiet t.committed_vc t.buffer

  pub Served-trans :
      {Q : VectorClock → LogEntry → Type 0} {s t u : Server} (xs ys : List LogEntry)
      → Served Q xs s t
      → Served Q ys t u
      → Served Q (xs ++ ys) s u
  Served-trans {Q} {s} {t} {u} xs ys a b = record {
    events = a.events ++ b.events;
    outcome = Outcome-append env a.events b.events a.outcome b.outcome;
    kept =
        rw
          (
            append_assoc xs ys (entries s.buffer),
            map-append subject a.events b.events,
            append_assoc (map subject a.events) (map subject b.events) (entries u.buffer),
          )
          (Perm.trans (perm_rotate xs ys (entries s.buffer)) (
            Perm.trans (Perm.append_left ys a.kept) (
              Perm.trans (perm_rotate ys (map subject a.events) (entries t.buffer))
                (Perm.append_left (map subject a.events) b.kept))));
    quiet = b.quiet;
  }

  pub Served-nil :
      (Q : VectorClock → LogEntry → Type 0) (s t : Server)
      → t.committed_vc ≡ s.committed_vc
      → t.disk ≡ s.disk
      → t.buffer ≡ s.buffer
      → IsQuiet s.committed_vc s.buffer
      → Served Q [] s t
  Served-nil Q s t c d b q = record {
    events = [];
    outcome = Outcome-nil env s t c d;
    kept = rw b (Perm.refl _);
    quiet = rw (c, b) q;
  }

  Served-flush :
      (xs : List LogEntry) (s m : Server)
      → m.committed_vc ≡ s.committed_vc
      → m.disk ≡ s.disk
      → Perm (xs ++ entries s.buffer) (entries m.buffer)
      → Served Ready xs s (flush_causal_buffer env m)
  Served-flush xs s m c d p =
      let f = flush-Flushed env m in
      record {
        events = f.events;
        outcome = Outcome-append env [] f.events (Outcome-nil env s m c d) f.outcome;
        kept = Perm.trans p f.kept;
        quiet = f.quiet;
      }

  accept-Served :
      (allocated : Bool) (now : ℕ) (s : Server) (o : Option LogEntry)
      → IsQuiet s.committed_vc s.buffer
      → Served Ready (taken allocated o) s (accept env allocated now s o)
  unfolding accept insert_to_buffer
  accept-Served allocated now s none q = Served-nil Ready s _ refl refl refl q
  accept-Served false now s (some e) q =
      Served-flush [] s (insert_to_buffer false now s e) refl refl (Perm.refl _)
  accept-Served true now s (some e) q =
      Served-flush (e ∷ []) s (insert_to_buffer true now s e) refl refl
        (Perm.symm (perm-Inserted (insert-Inserted _ s.buffer)))

  pub receive-Served :
      (r : Round) (s : Server)
      → IsQuiet s.committed_vc s.buffer
      → Served Ready (arrivals_of r) s (receive env r s r.datagram)
  unfolding receive arrivals_of
  receive-Served r s q = go r.datagram
    where
      go : (o : Option Bytes) → Served Ready (arrived r.allocated o) s (receive env r s o)
      go none = Served-nil Ready s s refl refl refl q
      go (some bytes) = elim (Bool-cases (length bytes == 0)) [
        | inl e ↦ rw e (Served-nil Ready s s refl refl refl q)
        | inr e ↦ rw e (
            Served-trans [] (taken r.allocated (EntryJson.from_json (c_string bytes)))
              (Served-nil Ready s (counted s bytes) refl refl refl q)
              (accept-Served r.allocated r.arrival (counted s bytes)
                (EntryJson.from_json (c_string bytes)) q))
      ]
