-- ===== src/Entry/Json/Rounds.antt =====
-- The loop over fields of `log_entry_from_json` ends, and has rounds enough.
use vector_clock_good.Common.{
  ℕ, zero, suc, ◌-◌, ◌≤◌, true, false, ◌≡◌, refl, ap, arith, Option, none, some, [], ◌∷◌, length,
  ◌==◌, if◌then◌else◌, Bytes, skip_spaces, ◌>>=◌, Bool-cases, inl, inr,
}
use vector_clock_good.Clock.Json.{expect, skip_comma}
use vector_clock_good.Entry.{LogEntry}
use vector_clock_good.Entry.Json.{parse_str, read_value, fields}
use vector_clock_good.Entry.Json.Shorter.{
  Leaves, skip_spaces-shorter, skip_comma-shorter, parse_str-Leaves, read_value-Leaves,
}

bind-same :
    {A : Type 0} (n : ℕ) (m : Option (A × Bytes)) (f g : A × Bytes → Option LogEntry)
    → Leaves n m
    → ((x : A × Bytes) → length x.1 ≤ n → f x ≡ g x)
    → (m >>= f) ≡ (m >>= g)
bind-same n none f g l h = refl
bind-same n (some x) f g l h = h x l

expect-same :
    (c : ℕ) (s : Bytes) (f g : Bytes → Option LogEntry)
    → ((t : Bytes) → length t ≤ length s → f t ≡ g t)
    → (expect c s >>= f) ≡ (expect c s >>= g)
unfolding expect
expect-same c [] f g h = refl
expect-same c (d ∷ s) f g h = elim (Bool-cases (d == c)) [
  | inl b ↦ rw b (h s (omega arith))
  | inr b ↦ rw b refl
]

-- Two numbers of rounds, neither below the length of the text, read the same entry.
fields_enough :
    (m n : ℕ) (e : LogEntry) (s : Bytes) → length s ≤ m → length s ≤ n → fields m e s ≡ fields n e s
unfolding fields
fields_enough m n e [] h k = refl
fields_enough zero n e (c ∷ s) h k = ground (arith, h)
fields_enough (suc m) zero e (c ∷ s) h k = ground (arith, k)
fields_enough (suc m) (suc n) e (c ∷ s) h k =
    ap (λ next. if c == b'}' then some e else next)
      (bind-same (length (c ∷ s) - 1) (parse_str (c ∷ s) 64) _ _ (parse_str-Leaves (c ∷ s) 64)
        (λ (key, s1) l1. expect-same b':' (skip_spaces s1) _ _ (λ s2 l2.
          bind-same (length (skip_spaces s2)) (read_value e key (skip_spaces s2)) _ _
            (read_value-Leaves e key (skip_spaces s2))
            (λ (e', s3) l3.
              let shorter : length (skip_comma s3) ≤ length s = omega (
                arith,
                l1,
                l2,
                l3,
                skip_comma-shorter s3,
                skip_spaces-shorter s2,
                skip_spaces-shorter s1,
              ) in
              fields_enough m n e' (skip_comma s3) (omega (arith, h, shorter))
                (omega (arith, k, shorter))))))

-- One round of the loop, behind the test for the closing brace: the entry with a field more and the text
-- behind the comma, or none where the source returns -1.
abbrev pub one_field : LogEntry → Bytes → Option (LogEntry × Bytes)
one_field e s = do
  (key, s) ← parse_str s 64
  s ← expect b':' (skip_spaces s)
  (e, s) ← read_value e key (skip_spaces s)
  some (e, skip_comma s)

-- The loop over fields without a bound: `Ends e s r` is a run of it that ends, from the entry `e` and
-- the text `s`, with the result `r`.
pub data Ends : LogEntry → Bytes → Option LogEntry → Type 0 where
  at_nul : (e : LogEntry) → Ends e [] (some e)
  at_brace : (e : LogEntry) (c : ℕ) (s : Bytes) → (c == b'}') ≡ true → Ends e (c ∷ s) (some e)
  at_error :
      (e : LogEntry) (c : ℕ) (s : Bytes)
      → (c == b'}') ≡ false
      → one_field e (c ∷ s) ≡ none
      → Ends e (c ∷ s) none
  after :
      (e : LogEntry) (c : ℕ) (s : Bytes) (e' : LogEntry) (s' : Bytes) (r : Option LogEntry)
      → (c == b'}') ≡ false
      → one_field e (c ∷ s) ≡ some (e', s')
      → Ends e' s' r
      → Ends e (c ∷ s) r
