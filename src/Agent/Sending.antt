-- ===== src/Agent/Sending.antt =====
-- An agent whose datagrams all go out: what it sends are the texts of the entries that it makes.
use mathlib.Core.List.{append_assoc, append-nil}
use mathlib.Core.Path.{subst}
use vector_clock_good.Common.{
  All, ℕ, ◌+◌, ◌^◌, ◌<◌, ◌≡◌, ◌⊎◌, inl, inr, refl, sym, ap, ◌∙◌, pos, Bool, true, none, Bytes, List,
  [], ◌∷◌, ◌++◌, map, if◌then◌else◌,
}
use vector_clock_good.Clock
use vector_clock_good.Clock.{VectorClock, cell}
use vector_clock_good.Clock.View.{increment-IsWellFormed, IsWellFormed}
use vector_clock_good.Entry.{LogEntry}
use vector_clock_good.Entry.Json.Printed.{entry_text}
use vector_clock_good.Entry.Json.Reprint.{IsSent}
use vector_clock_good.Agent.Line.{parse_vc, vc_numbers}
use vector_clock_good.Agent.State.{Agent, node_index}
use vector_clock_good.Agent.Run.{
  System, send_log, stamped, advanced, process_parsed, process_line, process_lines,
}
use vector_clock_good.Agent.Flow.{IsBare}
use vector_clock_good.Agent.Keeps.{process_line_next, process_lines_next, process_lines_end}
use vector_clock_good.Agent.Delivery.{tick_plain}
use vector_clock_good.Agent.Texts.{
  IsParsed, parse_line_bare, IsBounded, increment-IsBounded, stamped-IsSent, sent-text,
}

-- A line that became the entry `e`, whose text was sent.
record Sends (a b : Agent) (e : LogEntry) : Type 0 where
  config : b.config ≡ a.config
  vc : b.vc ≡ Clock.increment a.vc (pos (node_index a.config.node_id))
  made : b.made ≡ a.made ++ e ∷ []
  sent : b.sent ≡ a.sent ++ entry_text e ∷ []
  is_sent : IsSent e

module _ (sys : System) where
  send-Sends :
      (a : Agent) (e : LogEntry)
      → IsParsed e
      → IsWellFormed a.vc
      → IsBounded a.vc
      → Sends a
          (send_log true (advanced sys a e (vc_numbers none)) (stamped sys a e (vc_numbers none))).1
          (stamped sys a e (vc_numbers none))
  unfolding send_log advanced
  send-Sends a e p w b =
      let own = node_index a.config.node_id in
      let x = stamped sys a e (vc_numbers none) in
      let is_sent =
        stamped-IsSent sys a e p (increment-IsWellFormed (pos own) w)
          (increment-IsBounded a.vc own w b) in
      rw (sent-text x is_sent) (record {
        config = refl;
        vc = tick_plain own a.vc;
        made = refl;
        sent = refl;
        is_sent = is_sent;
      })

  SendsOne : Agent → Agent → Type 0
  SendsOne a b = (b ≡ a) ⊎ ((e : LogEntry) × Sends a b e)

  -- A line is passed over, or becomes an entry that is sent.
  process_line-Sends :
      (a : Agent) (line : Bytes)
      → parse_vc line ≡ none
      → sys.delivers a.seq ≡ true
      → sys.now a.seq < 2 ^ 64
      → IsWellFormed a.vc
      → IsBounded a.vc
      → SendsOne a (process_line sys a line).1
  unfolding SendsOne
  process_line-Sends a line n d t w b =
      subst (λ (r : Bool × Agent). SendsOne a r.1) (sym (process_line_next sys a line))
        (parse_line_bare (λ m. SendsOne a (process_parsed sys a m).1) sys.mktime (sys.now a.seq)
          line n t (inl refl)
          (λ e p. inr (stamped sys a e (vc_numbers none), rw d (send-Sends a e p w b))))

  unfoldable pub SendsAll : ℕ → Agent → List Bytes → Type 0
  SendsAll count a lines =
      let b = (process_lines sys count a lines).1 in
      (es : List LogEntry) × (b.made ≡ a.made ++ es)
      × (b.sent ≡ a.sent ++ map entry_text es)
      × All IsSent es

  pub lines-Sends :
      (count : ℕ) (a : Agent) (lines : List Bytes)
      → ((n : ℕ) → sys.delivers n ≡ true)
      → ((n : ℕ) → sys.now n < 2 ^ 64)
      → All IsBare lines
      → IsWellFormed a.vc
      → IsBounded a.vc
      → SendsAll count a lines
  unfolding SendsAll SendsOne
  lines-Sends count a [] d t q w b = (
    [],
    rw (process_lines_end sys count a) (sym (append-nil a.made)),
    rw (process_lines_end sys count a) (sym (append-nil a.sent)),
    tt,
  )
  lines-Sends count a (line ∷ lines) d t (bare, q) w b =
      let done = process_line sys a line in
      let count' = (if done.0 then count + 1 else count) in
      let next = process_lines_next sys count a line lines in
      elim (process_line-Sends a line bare (d a.seq) (t a.seq) w b) [
        | inl s ↦
            let (es, m, o, h) = lines-Sends count' done.1 lines d t q (rw s w) (rw s b) in
            (
              es,
              rw next (m ∙ ap (λ (x : Agent). x.made ++ es) s),
              rw next (o ∙ ap (λ (x : Agent). x.sent ++ map entry_text es) s),
              h,
            )
        | inr (e, s) ↦
            let own = node_index a.config.node_id in
            let (es, m, o, h) =
              lines-Sends count' done.1 lines d t q (rw s.vc (increment-IsWellFormed (pos own) w))
                (rw s.vc (increment-IsBounded a.vc own w b)) in
            (
              e ∷ es,
              rw next (m ∙ ap (λ x. x ++ es) s.made ∙ append_assoc a.made (e ∷ []) es),
              rw next (
                  o
                  ∙ ap (λ x. x ++ map entry_text es) s.sent
                  ∙ append_assoc a.sent (entry_text e ∷ []) (map entry_text es)),
              (s.is_sent, h),
            )
      ]
