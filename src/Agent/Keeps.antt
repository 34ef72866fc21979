-- ===== src/Agent/Keeps.antt =====
-- The agent keeps counting its entries, line by line and poll by poll.
use mathlib.Core.Path.{subst}
use vector_clock_good.Common.{
  ℕ, ◌+◌, ◌^◌, ◌≤◌, ◌<◌, ◌≡◌, refl, sym, ℤ, Bool, true, false, Option, none, some, Bytes, List, [],
  ◌∷◌, ◌++◌, arith, length, length-append, drop, ltb, if◌then◌else◌, if_any, fgets_lines,
  length-fgets_lines, length-drop,
}
use vector_clock_good.Entry.{LogEntry, log_message_max_len}
use vector_clock_good.Agent.Line.{parse_line}
use vector_clock_good.Agent.State.{Agent}
use vector_clock_good.Agent.Stamps.{parse_line-any}
use vector_clock_good.Agent.Run.{
  System, Poll, send_log, sent_text, process_parsed, process_changed, polls_loop, stamped, advanced,
  process_line, process_lines, process_new_lines, check_file_changed, poll,
}
use vector_clock_good.Agent.Order.{IsStamping, advanced-IsStamping}

-- The bytes of the files that the polls read.
abbrev pub volume : List Poll → ℕ
volume [] = 0
volume (p ∷ ps) = length p.contents + volume ps

module _ (sys : System) where
  -- A step to a state of the invariant that makes at most `n` entries.
  abbrev Makes : ℕ → ℕ → Agent → Agent → Type 0
  Makes own n a b = IsStamping own b × (length b.made ≤ length a.made + n)

  -- The file and the network are no part of the invariant.
  pub kept-IsStamping :
      (own : ℕ) (a : Agent) (log_fp running : Bool) (last_offset : ℕ) (sent : List Bytes)
      → IsStamping own a
      → IsStamping own
          (record a { log_fp = log_fp; running = running; last_offset = last_offset; sent = sent })
  kept-IsStamping own a log_fp running last_offset sent k = record {
    index = k.index;
    well_formed = k.well_formed;
    in_range = k.in_range;
    numbered = k.numbered;
    counted = k.counted;
    made_below = k.made_below;
    ordered = k.ordered;
  }

  sent_text-Makes :
      (own n : ℕ) (delivers : Bool) (a b : Agent) (text : Option Bytes)
      → Makes own n a b
      → Makes own n a (sent_text delivers b text).1
  sent_text-Makes own n delivers a b none k = k
  sent_text-Makes own n true a b (some text) (k, l) =
      (kept-IsStamping own b b.log_fp b.running b.last_offset (b.sent ++ text ∷ []) k, l)
  sent_text-Makes own n false a b (some text) k = k

  send_log-Makes :
      (own n : ℕ) (delivers : Bool) (a b : Agent) (e : LogEntry)
      → Makes own n a b
      → Makes own n a (send_log delivers b e).1
  unfolding send_log
  send_log-Makes own n delivers a b e k = sent_text-Makes own n delivers a b _ k

  length-advanced :
      (a : Agent) (e : LogEntry) (parsed : List ℤ)
      → length (advanced sys a e parsed).made ≡ length a.made + 1
  unfolding advanced
  length-advanced a e parsed = length-append a.made (stamped sys a e parsed ∷ [])

  pub process_line_next :
      (a : Agent) (line : Bytes)
      → process_line sys a line ≡ process_parsed sys a (parse_line sys.mktime (sys.now a.seq) line)
  unfolding process_line
  process_line_next a line = refl

  process_line-Makes :
      (own : ℕ) (a : Agent) (line : Bytes)
      → length a.made + 1 < 2 ^ 64
      → IsStamping own a
      → Makes own 1 a (process_line sys a line).1
  process_line-Makes own a line h k =
      subst (λ r. Makes own 1 a r.1) (sym (process_line_next a line))
        (parse_line-any (λ m. Makes own 1 a (process_parsed sys a m).1) sys.mktime (sys.now a.seq)
          line (k, omega arith)
          (λ e parsed p.
            send_log-Makes own 1 (sys.delivers a.seq) a (advanced sys a e parsed)
              (stamped sys a e parsed)
              (
                advanced-IsStamping sys own a e parsed p h k,
                omega (arith, length-advanced a e parsed),
              )))

  pub process_lines_next :
      (count : ℕ) (a : Agent) (line : Bytes) (lines : List Bytes)
      → let done = process_line sys a line in
        process_lines sys count a (line ∷ lines)
        ≡ process_lines sys (if done.0 then count + 1 else count) done.1 lines
  unfolding process_lines
  process_lines_next count a line lines = refl

  pub process_lines_end : (count : ℕ) (a : Agent) → process_lines sys count a [] ≡ (count, a)
  unfolding process_lines
  process_lines_end count a = refl

  process_lines-Makes :
      (own count : ℕ) (a : Agent) (lines : List Bytes)
      → length a.made + length lines < 2 ^ 64
      → IsStamping own a
      → Makes own (length lines) a (process_lines sys count a lines).1
  process_lines-Makes own count a [] h k = rw (process_lines_end count a) (k, omega arith)
  process_lines-Makes own count a (line ∷ lines) h k =
      let done = process_line sys a line in
      let (k', l) = process_line-Makes own a line (omega arith) k in
      let (k'', m) =
        process_lines-Makes own (if done.0 then count + 1 else count) done.1 lines
          (omega (arith, l)) k' in
      rw (process_lines_next count a line lines) (k'', omega (arith, l, m))

  process_new_lines-Makes :
      (own : ℕ) (contents : Bytes) (a : Agent)
      → length a.made + length contents < 2 ^ 64
      → IsStamping own a
      → Makes own (length contents) a (process_new_lines sys contents a).1
  unfolding process_new_lines
  process_new_lines-Makes own contents a h k =
      let news = drop a.last_offset contents in
      let lines = fgets_lines log_message_max_len news in
      let few = length-fgets_lines log_message_max_len news in
      let fewer = length-drop a.last_offset contents in
      let (k', l) = process_lines-Makes own 0 a lines (omega (arith, few, fewer)) k in
      let c = (process_lines sys 0 a lines).1 in
      if_any (λ (r : Option ℕ × Agent). Makes own (length contents) a r.1) a.log_fp _ _
        (
          kept-IsStamping own c c.log_fp c.running (c.last_offset + length news) c.sent k',
          omega (arith, few, fewer, l),
        )
        (k, omega arith)

  check-Makes :
      (own : ℕ) (p : Poll) (a : Agent)
      → IsStamping own a
      → Makes own 0 a (check_file_changed sys p a).1
  unfolding check_file_changed
  check-Makes own p a k =
      if_any (λ (r : Bool × Agent). Makes own 0 a r.1) a.log_fp _ _
        (if_any (λ (r : Bool × Agent). Makes own 0 a r.1) (ltb a.last_offset (length p.contents)) _
          _ (k, omega arith)
          (if_any (λ (r : Bool × Agent). Makes own 0 a r.1) (ltb (length p.contents) a.last_offset)
            _ _ (kept-IsStamping own a a.log_fp a.running 0 a.sent k, omega arith)
            (k, omega arith)))
        (if_any (λ (r : Bool × Agent). Makes own 0 a r.1) p.opens _ _
          (kept-IsStamping own a true a.running 0 a.sent k, omega arith) (k, omega arith))

  changed-Makes :
      (own : ℕ) (contents : Bytes) (a : Agent) (r : Bool × Agent)
      → length a.made + length contents < 2 ^ 64
      → Makes own 0 a r.1
      → Makes own (length contents) a (process_changed sys contents r)
  changed-Makes own contents a (true, b) h (k, l) =
      let (k', m) = process_new_lines-Makes own contents b (omega arith) k in (k', omega arith)
  changed-Makes own contents a (false, b) h (k, l) = (k, omega arith)

  poll-Makes :
      (own : ℕ) (p : Poll) (a : Agent)
      → length a.made + length p.contents < 2 ^ 64
      → IsStamping own a
      → Makes own (length p.contents) a (poll sys p a)
  unfolding poll
  poll-Makes own p a h k =
      changed-Makes own p.contents a (check_file_changed sys p a) h (check-Makes own p a k)

  pub polls_loop-IsStamping :
      (own : ℕ) (ps : List Poll) (a : Agent)
      → length a.made + volume ps < 2 ^ 64
      → IsStamping own a
      → IsStamping own (polls_loop sys ps a)
  polls_loop-IsStamping own [] a h k = k
  polls_loop-IsStamping own (p ∷ ps) a h k =
      let (k', l) = poll-Makes own p a (omega arith) k in
      polls_loop-IsStamping own ps (poll sys p a) (omega arith) k'
