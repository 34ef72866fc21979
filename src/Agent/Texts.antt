-- ===== src/Agent/Texts.antt =====
-- The entries that an agent makes of lines without clocks have texts that fit the datagram.
use mathlib.Core.Path.{subst}
use vector_clock_good.Common.{
  ℕ, ◌^◌, ◌≤◌, ◌<◌, ◌≡◌, inl, inr, refl, sym, ap, ◌∙◌, arith, ℤ, pos, Option, none, some, Bytes,
  List, [], length, length-take, Bool-cases, ltb,
}
use vector_clock_good.Clock
use vector_clock_good.Clock.{VectorClock, cell}
use vector_clock_good.Clock.View.{
  at, at-cell, at-copy, at-increment, increment_out_of_range, copy-IsWellFormed, IsWellFormed,
}
use vector_clock_good.Clock.Json.Read.{Fits64}
use vector_clock_good.Entry
use vector_clock_good.Entry.{LogEntry, log_message_max_len, node_id_max_len}
use vector_clock_good.Entry.Json as EntryJson
use vector_clock_good.Entry.Json.Printed.{entry_text, to_json-text}
use vector_clock_good.Entry.Json.Fits.{to_json_entry-Prints}
use vector_clock_good.Entry.Json.Reprint.{IsSent}
use vector_clock_good.Agent.Line.{
  Stamp, Parts, parse_vc, vc_numbers, is_blank_line, time_or, entry_of, parse_content, parse_line,
}
use vector_clock_good.Agent.State.{Agent, node_index}
use vector_clock_good.Agent.Run.{System, max_entry_size, stamped}
use vector_clock_good.Agent.Delivery.{tick_plain}

-- What `agent_parse_line` gives.
pub record IsParsed (e : LogEntry) : Type 0 where
  pub message : length e.message ≤ log_message_max_len
  pub timestamp : e.timestamp < 2 ^ 64
  pub metadata : e.metadata ≡ []
  pub vc : e.vc ≡ Clock.zeroed

time_or-fits :
    (mktime : Stamp → ℤ) (now : ℕ) (o : Option Stamp) → now < 2 ^ 64 → time_or mktime now o < 2 ^ 64
time_or-fits mktime now none h = h
time_or-fits mktime now (some t) h = omega arith

entry_of-IsParsed :
    (mktime : Stamp → ℤ) (now : ℕ) (p : Parts) → now < 2 ^ 64 → IsParsed (entry_of mktime now p)
unfolding Entry.init
entry_of-IsParsed mktime now p h = record {
  message = omega (arith, length-take log_message_max_len p.message);
  timestamp = time_or-fits mktime now p.stamp h;
  metadata = refl;
  vc = refl;
}

pub parse_line_bare :
    (P : Option (LogEntry × List ℤ) → Type 0) (mktime : Stamp → ℤ) (now : ℕ) (line : Bytes)
    → parse_vc line ≡ none
    → now < 2 ^ 64
    → P none
    → ((e : LogEntry) → IsParsed e → P (some (e, vc_numbers none)))
    → P (parse_line mktime now line)
unfolding parse_line
parse_line_bare P mktime now line n fits h k = elim (Bool-cases (is_blank_line line)) [
  | inl b ↦ rw b h
  | inr b ↦ rw (b, n) (k _ (entry_of-IsParsed mktime now (parse_content line) fits))
]

-- Each count fits 64 bits.
abbrev pub IsBounded : VectorClock → Type 0
IsBounded vc = (i : ℕ) → at vc i < 2 ^ 64

pub increment-IsBounded :
    (vc : VectorClock) (own : ℕ)
    → IsWellFormed vc
    → IsBounded vc
    → IsBounded (Clock.increment vc (pos own))
increment-IsBounded vc own w h i = elim (Bool-cases (ltb own vc.node_count)) [
  | inl b ↦
      subst (λ n. n < 2 ^ 64) (sym (at-increment vc own i w (ground arith))) (ground (arith, h i))
  | inr b ↦ rw (increment_out_of_range vc own (ground arith)) (h i)
]

pub bounded-Fits64 : (vc : VectorClock) → IsBounded vc → Fits64 vc
bounded-Fits64 vc h i l = omega (arith, at-cell vc i l, h i)

zeroed-IsWellFormed : IsWellFormed Clock.zeroed
zeroed-IsWellFormed = record { cells = refl; within = omega arith }

pub stamped-IsSent :
    (sys : System) (a : Agent) (e : LogEntry)
    → IsParsed e
    → IsWellFormed (Clock.increment a.vc (pos (node_index a.config.node_id)))
    → IsBounded (Clock.increment a.vc (pos (node_index a.config.node_id)))
    → IsSent (stamped sys a e (vc_numbers none))
unfolding stamped
stamped-IsSent sys a e p w b =
    let own = node_index a.config.node_id in
    let v = Clock.increment a.vc (pos own) in
    let well : IsWellFormed (Clock.copy e.vc v) =
      copy-IsWellFormed {d = e.vc} (rw p.vc zeroed-IsWellFormed) w in
    let bounded : IsBounded (Clock.copy e.vc v) = λ i. rw (at-copy e.vc v i w) (b i) in
    rw (tick_plain own a.vc) (record {
      well_formed = well;
      fits = bounded-Fits64 (Clock.copy e.vc v) bounded;
      printable = record {
        node_id = omega (arith, length-take node_id_max_len a.config.node_id);
        timestamp = p.timestamp;
        message = p.message;
        metadata = rw p.metadata tt;
      };
      plain = p.metadata;
    })

-- The text of an entry that is sent fits the buffer.
pub sent-text : (e : LogEntry) → IsSent e → EntryJson.to_json e max_entry_size ≡ some (entry_text e)
sent-text e h =
    let p =
      to_json_entry-Prints max_entry_size (omega arith) e h.well_formed.within h.fits h.printable
        h.plain in
    p.result ∙ ap some (to_json-text e max_entry_size p.text p.result)
