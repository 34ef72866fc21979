-- ===== src/Server/Run/Wire.antt =====
-- Printed entries that arrive as datagrams reach the disk as lines.
use mathlib.Core.List.{append-nil, Perm}
use mathlib.Core.Path.{subst}
use vector_clock_good.Common.{
  All, All-map, gather, gather-perm, gather-append, ℕ, ◌+◌, ◌^◌, ◌<◌, ◌≡◌, refl, sym, ap, ◌∙◌,
  arith, Bool, true, false, Option, none, some, List, [], ◌∷◌, ◌++◌, map, length, Bytes, ◌==◌, ltb,
}
use vector_clock_good.Clock.View.{IsWellFormed}
use vector_clock_good.Entry.{LogEntry}
use vector_clock_good.Entry.Json.Printed.{entry_text}
use vector_clock_good.Entry.Json.Fields.{read_entry}
use vector_clock_good.Entry.Json.RoundTrip.{from_json-text, read_entry-IsReadBack}
use vector_clock_good.Entry.Json.Nonzero.{IsNonzero, entry_text-IsNonzero}
use vector_clock_good.Entry.Json.Reprint.{IsSent, to_json-read_entry}
use vector_clock_good.Server.State.{Server, Answer, Round}
use vector_clock_good.Server.Flush.Events.{written, IsCausal}
use vector_clock_good.Server.Flush.Outcome.{lines, lines_of, IsUsable}
use vector_clock_good.Server.Flush.Lines.{line, lines_of-Recorded}
use vector_clock_good.Server.Flush.Advance.{IsChain, HasNodes, IsNear}
use vector_clock_good.Server.Flush.Like.{IsLike, Alike, IsChain-Alike, HasNodes-Alike, IsNear-Alike}
use vector_clock_good.Server.Run.{c_string, run}
use vector_clock_good.Server.Run.Served.{arrived, arrivals_of, arrivals}
use vector_clock_good.Server.Run.InTime.{Timely, run-InTime}

abbrev datagram_of : Option Bytes → List Bytes
datagram_of none = []
datagram_of (some text) = text ∷ []

-- The datagrams that the rounds receive.
abbrev pub received : List Round → List Bytes
received [] = []
received (r ∷ rs) = datagram_of r.datagram ++ received rs

-- Every node of the buffer can be had.
abbrev pub IsAllocated : List Round → Type 0
IsAllocated = All (λ r. r.allocated ≡ true)

-- The entry that a datagram becomes.
abbrev read_of : Bytes → List LogEntry
read_of text = arrived true (some text)

c_string-IsNonzero : (s : Bytes) → IsNonzero s → c_string s ≡ s
unfolding c_string
c_string-IsNonzero [] h = refl
c_string-IsNonzero (c ∷ s) (p, h) = ground (arith, c_string-IsNonzero s h)

round-received :
    (allocated : Bool) (o : Option Bytes)
    → allocated ≡ true
    → arrived allocated o ≡ gather read_of (datagram_of o)
round-received allocated none a = refl
round-received allocated (some text) a = rw a (sym (append-nil (read_of text)))

arrivals-received : (rs : List Round) → IsAllocated rs → arrivals rs ≡ gather read_of (received rs)
unfolding arrivals arrivals_of
arrivals-received [] h = refl
arrivals-received (r ∷ rs) (a, h) =
    rw (round-received r.allocated r.datagram a, arrivals-received rs h)
      (sym (gather-append read_of (datagram_of r.datagram) (received rs)))

read_of-text : (e : LogEntry) → IsSent e → read_of (entry_text e) ≡ read_entry e ∷ []
read_of-text e h =
    let long : (length (entry_text e) == 0) ≡ false = ground arith in
    rw
      (
        long,
        c_string-IsNonzero (entry_text e) (entry_text-IsNonzero e h.plain),
        from_json-text e h.printable,
      )
      refl

gather-texts :
    (es : List LogEntry) → All IsSent es → gather read_of (map entry_text es) ≡ map read_entry es
gather-texts [] h = refl
gather-texts (e ∷ es) (s, h) =
    ap (λ x. x ++ gather read_of (map entry_text es)) (read_of-text e s)
    ∙ ap (λ x. read_entry e ∷ x) (gather-texts es h)

sent-IsLike : (e : LogEntry) → IsSent e → IsLike e.vc (read_entry e).vc
sent-IsLike e s =
    let r = read_entry-IsReadBack e s.well_formed s.fits in
    record { same_nodes = r.node_count; counts = r.counts }

alike : (es : List LogEntry) → All IsSent es → Alike read_entry es
alike = All-map sent-IsLike

line-text : (e : LogEntry) → IsSent e → line (read_entry e) ≡ entry_text e ∷ []
line-text e h =
    let long : ltb 0 (length (entry_text e)) ≡ true = ground arith in
    rw (to_json-read_entry e h, long) refl

gather-lines :
    (es : List LogEntry) → All IsSent es → gather line (map read_entry es) ≡ map entry_text es
gather-lines [] h = refl
gather-lines (e ∷ es) (s, h) = rw (line-text e s, gather-lines es h) refl

-- If the buffer is empty, the server's clock never goes back during a run that lasts no longer than
-- the timeout, a node of the buffer can always be had and the log file of each day can be opened; and
-- if the datagrams that arrive are, in any order, the texts of a chain of entries without metadata in
-- which each is one step ahead of the committed clock with those before it, of the nodes of that clock
-- and within the range of the 32-bit count, whose clocks are well-formed and fit 64 bits as their
-- timestamps do, and whose texts fit their arrays: then the buffer ends empty, the entries read from
-- the datagrams are written once each and in causal order, and what is added to the disk are their
-- lines, which are the datagrams, once each.
pub run_over_wire :
    (env : ℕ → Answer) (rs : List Round) (s : Server) (es : List LogEntry) (start : ℕ)
    → s.buffer ≡ []
    → start + s.config.timeout_ms < 2 ^ 64
    → Timely start (start + s.config.timeout_ms) rs
    → IsAllocated rs
    → ((n : ℕ) → IsUsable (env n))
    → IsWellFormed s.committed_vc
    → All IsSent es
    → HasNodes s.committed_vc.node_count es
    → IsNear s.committed_vc es
    → IsChain s.committed_vc es
    → Perm (map entry_text es) (received rs)
    → let t = run env rs s in
      (ws : List LogEntry) × (ls : List Bytes) × (t.buffer ≡ [])
      × Perm (map read_entry es) ws
      × IsCausal ws
      × (lines t ≡ lines s ++ ls)
      × (ls ≡ gather line ws)
      × Perm (map entry_text es) ls
run_over_wire env rs s es start empty fits time room usable w sent n near h p =
    let c = s.committed_vc in
    let same : IsLike c c = record { same_nodes = refl; counts = λ j. refl } in
    let likes = alike es sent in
    let arrive : Perm (map read_entry es) (arrivals rs) =
      rw (arrivals-received rs room, ← gather-texts es sent) (gather-perm read_of p) in
    let t =
      run-InTime env rs s (map read_entry es) start empty fits time w
        (HasNodes-Alike read_entry c.node_count es likes n)
        (IsNear-Alike read_entry c es likes n near)
        (IsChain-Alike read_entry c c es w w same n likes h) arrive in
    let o = t.served.outcome in
    (
      written t.served.events,
      lines_of t.served.events,
      t.empty,
      t.all,
      t.causal,
      o.on_disk,
      lines_of-Recorded t.served.events (o.recorded usable),
      subst (λ ls. Perm (map entry_text es) ls)
          (sym (lines_of-Recorded t.served.events (o.recorded usable)))
          (subst (λ ls. Perm ls (gather line (written t.served.events))) (gather-lines es sent)
            (gather-perm line t.all)),
    )
