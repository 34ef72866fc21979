-- ===== src/Server/Flush/Outcome.antt =====
-- One step of a flush, or several, as events: their order, the committed clock, and what reaches the
-- disk.
use mathlib.Core.List.{append_assoc, append-nil, map-append}
use mathlib.Core.Bool.{false≢true}
use vector_clock_good.Common.{
  All, All-append, ◌&&◌, ◌<◌, str_eq, ℕ, ◌≡◌, refl, sym, ap, ◌∙◌, Bool, true, false, Option, none,
  some, List, [], ◌∷◌, ◌++◌, map, arith, ltb, if◌then◌else◌, length, Bytes, Bool-cases, inl, inr,
}
use vector_clock_good.Clock
use vector_clock_good.Clock.{VectorClock}
use vector_clock_good.Entry.{LogEntry}
use vector_clock_good.Entry.Json as EntryJson
use vector_clock_good.Server.State.{BufferNode, Server, Answer, is_open}
use vector_clock_good.Server.Disk.{open_log_file, write_text, when_open, write_entry_to_file}
use vector_clock_good.Server.Buffer.{is_stale}
use vector_clock_good.Server.Buffer.Scan.{is_stale-iff_Leq}
use vector_clock_good.Server.Flush.{drop_node, deliver}
use vector_clock_good.Server.Flush.Events.{
  Event, wrote, discarded, advance, written, Runs, advance-append, Runs-append,
}

-- The lines on the disk, in the order of writing.
abbrev pub lines : Server → List Bytes
lines s = map (λ p. p.1) s.disk

-- The line that an entry gives: its JSON text, unless that does not fit into 4096 bytes.
abbrev pub line_of : Option Bytes → List Bytes
line_of none = []
line_of (some text) = if ltb 0 (length text) then text ∷ [] else []

-- What a write that succeeded or failed adds.
abbrev pub line_if : Bool → LogEntry → List Bytes
line_if true e = line_of (EntryJson.to_json e 4096)
line_if false e = []

abbrev pub lines_of : List Event → List Bytes
lines_of [] = []
lines_of (wrote b e ∷ evs) = line_if b e ++ lines_of evs
lines_of (discarded e ∷ evs) = lines_of evs

lines_of-append : (xs ys : List Event) → lines_of (xs ++ ys) ≡ lines_of xs ++ lines_of ys
lines_of-append [] ys = refl
lines_of-append (wrote b e ∷ xs) ys =
    ap (λ l. line_if b e ++ l) (lines_of-append xs ys)
    ∙ sym (append_assoc (line_if b e) (lines_of xs) (lines_of ys))
lines_of-append (discarded e ∷ xs) ys = lines_of-append xs ys

-- A log file of the day can be opened.
pub record IsUsable (a : Answer) : Type 0 where
  pub has_directory : a.has_directory ≡ true
  pub has_file : a.has_file ≡ true

-- The write succeeded, if the entry has a text.
abbrev pub Recorded : Event → Type 0
Recorded (wrote b e) =
    (text : Bytes) → EntryJson.to_json e 4096 ≡ some text → 0 < length text → b ≡ true
Recorded (discarded e) = Unit {0}

when_open-true :
    (e : LogEntry) (r : Bool × Server) (text : Bytes)
    → r.0 ≡ true
    → EntryJson.to_json e 4096 ≡ some text
    → 0 < length text
    → (when_open e r).0 ≡ true
unfolding when_open write_text
when_open-true e (false, t) text o j l = absurd (false≢true o)
when_open-true e (true, t) text o j l =
    let b : ltb 0 (length text) ≡ true = ground arith in rw (j, b) refl

path_of_open : (o : Option Bytes) → is_open o ≡ true → (path : Bytes) × (o ≡ some path)
path_of_open none h = cc
path_of_open (some path) h = (path, refl)

write_text-lines :
    (o : Option Bytes) (t : Server) (path : Bytes)
    → t.log_fp ≡ some path
    → (lines (write_text o t).1 ≡ lines t ++ line_of o)
      × ((write_text o t).0 ≡ false → lines (write_text o t).1 ≡ lines t)
unfolding write_text
write_text-lines none t path p = (sym (append-nil (lines t)), λ f. refl)
write_text-lines (some text) t path p = elim (Bool-cases (ltb 0 (length text))) [
  | inl e ↦ rw (e, p) (map-append (λ p. p.1) t.disk ((path, text) ∷ []), λ f. absurd (cc))
  | inr e ↦ rw e (sym (append-nil (lines t)), λ f. refl)
]

when_open-lines :
    (e : LogEntry) (r : Bool × Server)
    → (r.0 ≡ true → is_open r.1.log_fp ≡ true)
    → lines (when_open e r).1 ≡ lines r.1 ++ line_if (when_open e r).0 e
unfolding when_open
when_open-lines e (false, t) h = sym (append-nil (lines t))
when_open-lines e (true, t) h =
    let (path, p) = path_of_open t.log_fp (h refl) in
    let (l, m) = write_text-lines (EntryJson.to_json e 4096) t path p in
    elim (Bool-cases (write_text (EntryJson.to_json e 4096) t).0) [
      | inl b ↦ rw b l
      | inr b ↦ rw b (m b ∙ sym (append-nil (lines t)))
    ]

module _ (env : ℕ → Answer) where
  pub write_keeps :
      (s : Server) (e : LogEntry)
      → let t = (write_entry_to_file env s e).1 in
        (t.committed_vc ≡ s.committed_vc)
        × (t.buffer ≡ s.buffer)
        × (t.buffer_count ≡ s.buffer_count)
        × (t.config ≡ s.config)
  unfolding write_entry_to_file
  write_keeps s e = ground arith

  pub open_lem :
      (s : Server)
      → ((open_log_file env s).0 ≡ true → is_open (open_log_file env s).1.log_fp ≡ true)
        × ((open_log_file env s).1.disk ≡ s.disk)
  unfolding open_log_file
  open_lem s = ground arith

  -- A write that succeeds adds the line of its entry, and one that fails adds nothing.
  pub write-lines :
      (s : Server) (e : LogEntry)
      → lines (write_entry_to_file env s e).1 ≡ lines s ++ line_if (write_entry_to_file env s e).0 e
  unfolding write_entry_to_file
  write-lines s e =
      let (q, d) = open_lem s in
      when_open-lines e (open_log_file env s) q
      ∙ ap (λ l. map (λ p. p.1) l ++ line_if (when_open e (open_log_file env s)).0 e) d

  open_usable : (s : Server) → ((n : ℕ) → IsUsable (env n)) → (open_log_file env s).0 ≡ true
  unfolding open_log_file
  open_usable s u =
      elim (Bool-cases (is_open s.log_fp && str_eq s.current_date (env s.calls).today)) [
        | inl b ↦ rw b refl
        | inr b ↦ rw (b, (u s.calls).has_directory, (u s.calls).has_file) refl
      ]

  pub write-Recorded :
      (s : Server) (e : LogEntry)
      → ((n : ℕ) → IsUsable (env n))
      → Recorded (wrote (write_entry_to_file env s e).0 e)
  unfolding write_entry_to_file
  write-Recorded s e u text = when_open-true e (open_log_file env s) text (open_usable s u)

  -- What came of a state `s`: the events `evs`, then `t`. `Q` is what held of an entry when it was
  -- written.
  pub record Outcome (Q : VectorClock → LogEntry → Type 0) (s : Server) (evs : List Event)
      (t : Server) : Type 0 where
    pub runs : Runs Q s.committed_vc evs
    pub committed : t.committed_vc ≡ advance s.committed_vc evs
    pub recorded : ((n : ℕ) → IsUsable (env n)) → All Recorded evs
    pub on_disk : lines t ≡ lines s ++ lines_of evs

  module _ {Q : VectorClock → LogEntry → Type 0} where
    pub Outcome-nil :
        (s t : Server) → t.committed_vc ≡ s.committed_vc → t.disk ≡ s.disk → Outcome Q s [] t
    unfolding advance written
    Outcome-nil s t c d = record {
      runs = tt;
      committed = c;
      recorded = λ u. tt;
      on_disk = ap (map (λ p. p.1)) d ∙ sym (append-nil (lines s));
    }

    pub Outcome-append :
        {s t u : Server} (xs ys : List Event)
        → Outcome Q s xs t
        → Outcome Q t ys u
        → Outcome Q s (xs ++ ys) u
    Outcome-append {s} {t} {u} xs ys a b = record {
      runs = Runs-append Q s.committed_vc xs ys a.runs (rw a.committed at b.runs);
      committed =
          b.committed
          ∙ ap (λ c. advance c ys) a.committed
          ∙ sym (advance-append s.committed_vc xs ys);
      recorded = λ u. All-append Recorded xs ys (a.recorded u) (b.recorded u);
      on_disk =
          b.on_disk
          ∙ ap (λ l. l ++ lines_of ys) a.on_disk
          ∙ append_assoc (lines s) (lines_of xs) (lines_of ys)
          ∙ ap (λ l. lines s ++ l) (sym (lines_of-append xs ys));
    }

    pub drop-Outcome :
        (s : Server) (n : BufferNode) (ns : List BufferNode)
        → is_stale s.committed_vc n.entry ≡ true
        → Outcome Q s (discarded n.entry ∷ []) (drop_node s ns)
    unfolding drop_node advance written
    drop-Outcome s n ns h = record {
      runs = ((is_stale-iff_Leq s.committed_vc n.entry).0 h, tt);
      committed = refl;
      recorded = λ u. (tt, tt);
      on_disk = sym (append-nil (lines s));
    }

    pub deliver-Outcome :
        (s : Server) (n : BufferNode) (ns : List BufferNode)
        → is_stale s.committed_vc n.entry ≡ false
        → Q s.committed_vc n.entry
        → Outcome Q s
            (wrote (write_entry_to_file env s n.entry).0 n.entry ∷ [])
            (deliver env s n ns)
    unfolding deliver drop_node advance written
    deliver-Outcome s n ns h q = record {
      runs = (λ l. false≢true (sym h ∙ (is_stale-iff_Leq s.committed_vc n.entry).1 l), q, tt);
      committed = ap (λ c. Clock.merge c n.entry.vc) (write_keeps s n.entry).0;
      recorded = λ u. (write-Recorded s n.entry u, tt);
      on_disk =
          write-lines s n.entry
          ∙ ap (λ l. lines s ++ l)
              (sym (append-nil (line_if (write_entry_to_file env s n.entry).0 n.entry)));
    }
