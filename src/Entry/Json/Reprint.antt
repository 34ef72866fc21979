-- ===== src/Entry/Json/Reprint.antt =====
-- Printing an entry that was read gives its text again.
use mathlib.Core.List.{append_assoc, append-nil}
use vector_clock_good.Common.{
  ℕ, zero, suc, ◌+◌, ◌<◌, ◌≤◌, ◌≡◌, refl, sym, ap, ◌∙◌, none, some, [], ◌∷◌, ◌++◌, arith, Bytes,
  length, is_print,
}
use vector_clock_good.Clock.{VectorClock, cell}
use vector_clock_good.Clock.View.{at-cell, at, IsWellFormed}
use vector_clock_good.Clock.Json.{member}
use vector_clock_good.Clock.Json.Printed.{listing}
use vector_clock_good.Clock.Json.Read.{Fits64}
use vector_clock_good.Entry.{LogEntry, log_message_max_len}
use vector_clock_good.Entry.Json.{escape_byte, json_escape, to_json}
use vector_clock_good.Entry.Json.Escape.{escaped, kept, kept_byte, kept-length, json_escape-escaped}
use vector_clock_good.Entry.Json.Printed.{entry_text, to_json-text}
use vector_clock_good.Entry.Json.Fields.{IsPrintable, read_entry}
use vector_clock_good.Entry.Json.Fits.{to_json_entry-Prints}
use vector_clock_good.Entry.Json.RoundTrip.{read_entry-IsReadBack}

escaped-append : (s t : Bytes) → escaped (s ++ t) ≡ escaped s ++ escaped t
unfolding escaped
escaped-append [] t = refl
escaped-append (c ∷ s) t =
    ap (λ x. escape_byte c ++ x) (escaped-append s t)
    ∙ sym (append_assoc (escape_byte c) (escaped s) (escaped t))

escaped-kept_byte : (c : ℕ) → escaped (kept_byte c) ≡ escape_byte c
unfolding escaped kept_byte escape_byte is_print
escaped-kept_byte c = ground (arith, append-nil (escape_byte c))

-- What an escape drops has no text.
escaped-kept : (s : Bytes) → escaped (kept s) ≡ escaped s
unfolding kept escaped
escaped-kept [] = refl
escaped-kept (c ∷ s) =
    escaped-append (kept_byte c) (kept s) ∙ rw (escaped-kept_byte c, escaped-kept s) refl

json_escape-kept :
    (s : Bytes) → length s ≤ log_message_max_len → json_escape (kept s) ≡ json_escape s
json_escape-kept s h =
    json_escape-escaped (kept s) (omega (arith, kept-length s))
    ∙ escaped-kept s
    ∙ sym (json_escape-escaped s h)

listing-same :
    (a b : VectorClock) (n i : ℕ)
    → ((j : ℕ) → i ≤ j → j < i + n → cell a j ≡ cell b j)
    → listing none a n i ≡ listing none b n i
unfolding member
listing-same a b zero i h = refl
listing-same a b (suc n) i h =
    rw
      (
        h i (omega arith) (omega arith),
        listing-same a b n (i + 1) (λ j l k. h j (omega arith) (omega arith)),
      )
      refl

clock-same :
    (a b : VectorClock)
    → b.node_count ≡ a.node_count
    → ((j : ℕ) → at b j ≡ at a j)
    → listing none b b.node_count 0 ≡ listing none a a.node_count 0
clock-same a b n h =
    ap (λ k. listing none b k 0) n
    ∙ listing-same b a a.node_count 0
        (λ j l k. sym (at-cell b j (omega (arith, n))) ∙ h j ∙ at-cell a j (omega arith))

-- What an entry has that an agent sends.
pub record IsSent (e : LogEntry) : Type 0 where
  pub well_formed : IsWellFormed e.vc
  pub fits : Fits64 e.vc
  pub printable : IsPrintable e
  pub plain : e.metadata ≡ []

-- The text of an entry that was read is the text that it was read from.
reprint : (e : LogEntry) → IsSent e → entry_text (read_entry e) ≡ entry_text e
reprint e h =
    let r = read_entry-IsReadBack e h.well_formed h.fits in
    rw
      (
        json_escape-kept e.node_id (omega (arith, h.printable.node_id)),
        json_escape-kept e.message h.printable.message,
        clock-same e.vc (read_entry e).vc r.node_count r.counts,
        h.plain,
      )
      refl

read_entry-Fits64 : (e : LogEntry) → IsSent e → Fits64 (read_entry e).vc
read_entry-Fits64 e h i l =
    let r = read_entry-IsReadBack e h.well_formed h.fits in
    omega (
      arith,
      h.fits i (omega (arith, r.node_count)),
      r.counts i,
      at-cell (read_entry e).vc i l,
      at-cell e.vc i (omega (arith, r.node_count)),
    )

read_entry-IsPrintable : (e : LogEntry) → IsPrintable e → IsPrintable (read_entry e)
read_entry-IsPrintable e p = record {
  node_id = omega (arith, kept-length e.node_id, p.node_id);
  timestamp = p.timestamp;
  message = omega (arith, kept-length e.message, p.message);
  metadata = tt;
}

-- So it is printed as the same text.
pub to_json-read_entry :
    (e : LogEntry) → IsSent e → to_json (read_entry e) 4096 ≡ some (entry_text e)
to_json-read_entry e h =
    let r = read_entry-IsReadBack e h.well_formed h.fits in
    let p =
      to_json_entry-Prints 4096 (omega arith) (read_entry e)
        (omega (arith, r.node_count, h.well_formed.within)) (read_entry-Fits64 e h)
        (read_entry-IsPrintable e h.printable) refl in
    p.result ∙ ap some (to_json-text (read_entry e) 4096 p.text p.result ∙ reprint e h)
