-- ===== src/Agent/Delivery.antt =====
-- The entries of lines that carry no clock, as the server takes them in.
use mathlib.Core.Path.{subst}
use vector_clock_good.Common.{
  ℕ, ◌≡◌, ◌⊎◌, inl, inr, refl, sym, ℤ, pos, Bool, true, false, Option, none, some, Bytes, List, [],
  ◌∷◌, ◌++◌, Bool-cases,
}
use vector_clock_good.Clock
use vector_clock_good.Clock.{VectorClock}
use vector_clock_good.Clock.View.{at, IsWellFormed, at-copy}
use vector_clock_good.Entry.{LogEntry}
use vector_clock_good.Agent.Line.{Stamp, parse_vc, vc_numbers, is_blank_line, parse_line}
use vector_clock_good.Agent.State.{Agent, node_index, take_in, tick}
use vector_clock_good.Agent.Run.{
  System, send_log, sent_text, stamped, advanced, process_parsed, process_line,
}
use vector_clock_good.Agent.Keeps.{process_line_next}

-- What a line without a clock leaves as it was.
pub record IsSame (a b : Agent) : Type 0 where
  pub config : b.config ≡ a.config
  pub vc : b.vc ≡ a.vc
  pub made : b.made ≡ a.made

-- Or the entry that it becomes, one event of the agent on.
pub record IsEvent (a b : Agent) (e : LogEntry) : Type 0 where
  pub config : b.config ≡ a.config
  pub vc : b.vc ≡ Clock.increment a.vc (pos (node_index a.config.node_id))
  pub made : b.made ≡ a.made ++ e ∷ []
  pub same_nodes : e.vc.node_count ≡ b.vc.node_count
  pub counts : IsWellFormed b.vc → (j : ℕ) → at e.vc j ≡ at b.vc j

unfoldable pub Step : Agent → Agent → Type 0
Step a b = IsSame a b ⊎ ((e : LogEntry) × IsEvent a b e)

parse_line_plain :
    (P : Option (LogEntry × List ℤ) → Type 0) (mktime : Stamp → ℤ) (now : ℕ) (line : Bytes)
    → parse_vc line ≡ none
    → P none
    → ((e : LogEntry) → P (some (e, vc_numbers none)))
    → P (parse_line mktime now line)
unfolding parse_line
parse_line_plain P mktime now line n h k = elim (Bool-cases (is_blank_line line)) [
  | inl b ↦ rw b h
  | inr b ↦ rw (b, n) (k _)
]

pub tick_plain :
    (own : ℕ) (vc : VectorClock) → tick own (vc_numbers none) vc ≡ Clock.increment vc (pos own)
unfolding tick take_in
tick_plain own vc = refl

module _ (sys : System) where
  sent_text-Step :
      (delivers : Bool) (a b : Agent) (text : Option Bytes)
      → Step a b
      → Step a (sent_text delivers b text).1
  unfolding Step
  sent_text-Step delivers a b none s = s
  sent_text-Step false a b (some text) s = s
  sent_text-Step true a b (some text) (inl s) =
      inl (record { config = s.config; vc = s.vc; made = s.made })
  sent_text-Step true a b (some text) (inr (e, s)) = inr (
    e,
    record {
      config = s.config;
      vc = s.vc;
      made = s.made;
      same_nodes = s.same_nodes;
      counts = s.counts;
    },
  )

  send_log-Step :
      (delivers : Bool) (a b : Agent) (e : LogEntry) → Step a b → Step a (send_log delivers b e).1
  unfolding send_log
  send_log-Step delivers a b e s = sent_text-Step delivers a b _ s

  advanced-Step : (a : Agent) (e : LogEntry) → Step a (advanced sys a e (vc_numbers none))
  unfolding Step advanced stamped Clock.copy
  advanced-Step a e =
      let own = node_index a.config.node_id in
      inr (
        stamped sys a e (vc_numbers none),
        record {
          config = refl;
          vc = tick_plain own a.vc;
          made = refl;
          same_nodes = refl;
          counts = λ w j. at-copy e.vc (tick own (vc_numbers none) a.vc) j w;
        },
      )

  pub process_line-Step :
      (a : Agent) (line : Bytes) → parse_vc line ≡ none → Step a (process_line sys a line).1
  unfolding Step
  process_line-Step a line n =
      subst (λ (r : Bool × Agent). Step a r.1) (sym (process_line_next sys a line))
        (parse_line_plain (λ m. Step a (process_parsed sys a m).1) sys.mktime (sys.now a.seq) line n
          (inl (record { config = refl; vc = refl; made = refl }))
          (λ e.
            send_log-Step (sys.delivers a.seq) a (advanced sys a e (vc_numbers none))
              (stamped sys a e (vc_numbers none)) (advanced-Step a e)))
