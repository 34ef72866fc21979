-- ===== src/Clock/Json/Read.antt =====
-- What the loop over members reads from a printed clock.
use mathlib.Core.List.{append_assoc, append-nil}
use vector_clock_good.Common.{
  ℕ, zero, suc, ◌+◌, ◌-◌, ◌^◌, ◌≤◌, ◌<◌, ◌≡◌, refl, sym, ap, ◌∙◌, true, false, none, some, List, [],
  ◌∷◌, ◌++◌, arith, ltb, ◌==◌, if◌then◌else◌, Bytes, codes, length, length-append, print_nat,
  read-print, print-starts, print-IsPlain, print-length, starts_with_digit, skip_spaces, IsPlain,
  All, All-append, ◌>>=◌, ◌>>◌, guard,
}
use vector_clock_good.Clock.{VectorClock, cell, max_nodes}
use vector_clock_good.Clock.Json.{
  node_label, member, string_loop, parse_json_string, parse_json_number, expect, skip_comma,
  read_member, members,
}
use vector_clock_good.Clock.Json.Printed.{listing, separator}

string_loop_plain :
    (room c d : ℕ) (s buf : Bytes)
    → IsPlain c
    → string_loop (suc room) (c ∷ (d ∷ s)) buf ≡ string_loop room (d ∷ s) (buf ++ c ∷ [])
unfolding string_loop
string_loop_plain room c d s buf p =
    let less : suc room - 1 ≡ room = omega arith in
    rw less (ground (arith, p.no_quote, p.no_escape))

string_loop_end :
    (room : ℕ) (rest buf : Bytes) → string_loop room (b'"' ∷ rest) buf ≡ some (buf, rest)
unfolding string_loop
string_loop_end room [] buf = refl
string_loop_end room (d ∷ rest) buf = refl

-- A text without quotes and backslashes is read up to the quote behind it.
string_loop_lem :
    (room : ℕ) (s rest buf : Bytes)
    → All IsPlain s
    → length s ≤ room
    → string_loop room (s ++ b'"' ∷ rest) buf ≡ some (buf ++ s, rest)
string_loop_lem room [] rest buf p h =
    string_loop_end room rest buf ∙ ap (λ b. some (b, rest)) (sym (append-nil buf))
string_loop_lem zero (c ∷ s) rest buf p h = absurd (omega arith)
string_loop_lem (suc room) (c ∷ []) rest buf (p, q) h =
    string_loop_plain room c b'"' rest buf p ∙ string_loop_end room rest (buf ++ c ∷ [])
string_loop_lem (suc room) (c ∷ (d ∷ s)) rest buf (p, q) h =
    string_loop_plain room c d (s ++ b'"' ∷ rest) buf p
    ∙ string_loop_lem room (d ∷ s) rest (buf ++ c ∷ []) q (omega arith)
    ∙ ap (λ b. some (b, rest)) (append_assoc buf (c ∷ []) (d ∷ s))

node_label-IsPlain : (i : ℕ) → All IsPlain (node_label i)
unfolding node_label
node_label-IsPlain i =
    All-append IsPlain (codes "node-") (print_nat i) (omega arith) (print-IsPlain i)

node_label-length : (i : ℕ) → i < max_nodes → length (node_label i) ≤ 63
unfolding node_label
node_label-length i h = omega (arith, length-append (codes "node-") (print_nat i), print-length i)

parse_label :
    (i : ℕ) (rest : Bytes)
    → i < max_nodes
    → parse_json_string (b'"' ∷ (node_label i ++ b'"' ∷ rest)) 64 ≡ some (node_label i, rest)
unfolding parse_json_string
parse_label i rest h =
    string_loop_lem 63 (node_label i) rest [] (node_label-IsPlain i) (node_label-length i h)

parse_count :
    (n : ℕ) (rest : Bytes)
    → n < 2 ^ 64
    → starts_with_digit rest ≡ false
    → parse_json_number (print_nat n ++ rest) ≡ some (n, rest)
unfolding parse_json_number
parse_count n rest h k =
    rw ((print-starts n rest).1, (print-starts n rest).0, read-print n rest h k) refl

tail_starts :
    (vc : VectorClock) (n i : ℕ) → starts_with_digit (separator n ++ listing none vc n i) ≡ false
unfolding starts_with_digit
tail_starts vc zero i = refl
tail_starts vc (suc n) i = refl

tail-skip_comma :
    (vc : VectorClock) (n i : ℕ)
    → skip_comma (separator n ++ listing none vc n i) ≡ listing none vc n i
unfolding skip_comma member
tail-skip_comma vc zero i = refl
tail-skip_comma vc (suc n) i = refl

pub member_text :
    (vc : VectorClock) (i : ℕ) (rest : Bytes)
    → member none vc i ++ rest
      ≡ b'"' ∷ (node_label i ++ (b'"' ∷ (b':' ∷ (print_nat (cell vc i) ++ rest))))
unfolding member
member_text vc i rest =
    ap (λ s. b'"' ∷ s) (append_assoc (node_label i) (codes "\":" ++ print_nat (cell vc i)) rest)

expect_colon : (s : Bytes) → expect b':' (skip_spaces (b':' ∷ s)) ≡ some s
unfolding expect skip_spaces
expect_colon s = refl

read_member_lem :
    (vc : VectorClock) (n i : ℕ)
    → i < max_nodes
    → cell vc i < 2 ^ 64
    → read_member (listing none vc (suc n) i)
      ≡ some ((node_label i, cell vc i), listing none vc n (i + 1))
unfolding read_member
read_member_lem vc n i h w =
    let rest = separator n ++ listing none vc n (i + 1) in
    rw
      (
        member_text vc i rest,
        parse_label i (b':' ∷ (print_nat (cell vc i) ++ rest)) h,
        expect_colon (print_nat (cell vc i) ++ rest),
        (print-starts (cell vc i) rest).1,
        parse_count (cell vc i) rest w (tail_starts vc n (i + 1)),
        tail-skip_comma vc n (i + 1),
      )
      refl

members_next :
    (fuel c : ℕ) (s : Bytes) (read : List (Bytes × ℕ))
    → members (suc fuel) (c ∷ s) read ≡ (
        if c == b'}' then some (read, c ∷ s) else (do
          guard (ltb (length read) max_nodes)
          (m, s) ← read_member (c ∷ s)
          members fuel s (read ++ m ∷ [])))
unfolding members
members_next fuel c s read = refl

-- One round of the loop over members reads one node.
members_round :
    (fuel n i : ℕ) (vc : VectorClock) (read : List (Bytes × ℕ))
    → i < max_nodes
    → length read ≡ i
    → cell vc i < 2 ^ 64
    → members (suc fuel) (listing none vc (suc n) i) read
      ≡ members fuel (listing none vc n (i + 1)) (read ++ (node_label i, cell vc i) ∷ [])
members_round fuel n i vc read h l w =
    let rest = separator n ++ listing none vc n (i + 1) in
    let tail = node_label i ++ (b'"' ∷ (b':' ∷ (print_nat (cell vc i) ++ rest))) in
    let room : ltb (length read) max_nodes ≡ true = ground arith in
    ap (λ s. members (suc fuel) s read) (member_text vc i rest)
    ∙ members_next fuel b'"' tail read
    ∙ rw (room, ← member_text vc i rest, read_member_lem vc n i h w) refl

-- The keys and values of the nodes from `i`.
abbrev pub entries : VectorClock → ℕ → ℕ → List (Bytes × ℕ)
entries vc zero i = []
entries vc (suc n) i = (node_label i, cell vc i) ∷ entries vc n (i + 1)

pub length-entries : (vc : VectorClock) (n i : ℕ) → length (entries vc n i) ≡ n
length-entries vc zero i = refl
length-entries vc (suc n) i = ap suc (length-entries vc n (i + 1))

-- No count of the clock is out of range.
abbrev pub Fits64 : VectorClock → Type 0
Fits64 vc = (i : ℕ) → i < vc.node_count → cell vc i < 2 ^ 64

pub members_lem :
    (fuel n i : ℕ) (vc : VectorClock) (read : List (Bytes × ℕ))
    → Fits64 vc
    → n < fuel
    → i + n ≤ vc.node_count
    → vc.node_count ≤ max_nodes
    → length read ≡ i
    → members fuel (listing none vc n i) read ≡ some (read ++ entries vc n i, codes "}")
members_lem zero n i vc read w f h m l = absurd (omega arith)
members_lem (suc fuel) zero i vc read w f h m l =
    members_next fuel b'}' [] read ∙ ap (λ r. some (r, codes "}")) (sym (append-nil read))
members_lem (suc fuel) (suc n) i vc read w f h m l =
    members_round fuel n i vc read (omega arith) l (w i (omega arith))
    ∙ members_lem fuel n (i + 1) vc (read ++ (node_label i, cell vc i) ∷ []) w (omega arith)
        (omega arith) m (omega (arith, length-append read ((node_label i, cell vc i) ∷ [])))
    ∙ ap (λ r. some (r, codes "}"))
        (append_assoc read ((node_label i, cell vc i) ∷ []) (entries vc n (i + 1)))
