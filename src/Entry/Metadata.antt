-- ===== src/Entry/Metadata.antt =====
-- The metadata of an entry as a map: a pair that is added is found, unless an older pair has its key.
use mathlib.Core.Option.{some-injective, some-ne-none}
use vector_clock_good.Common.{
  ◌≡◌, refl, ap, ◌∙◌, sym, ◌<◌, Option, none, some, List, [], ◌∷◌, ◌++◌, arith, leb, if◌then◌else◌,
  length, take, Bytes, Bool-cases, inl, inr, strcmp_refl,
}
use vector_clock_good.Entry.{
  LogEntry, MetadataPair, metadata_max_count, add_metadata, get_metadata, find_pair,
}

abbrev or_else : Option Bytes → Option Bytes → Option Bytes
or_else none r = r
or_else (some v) r = some v

find_pair-append :
    (ps qs : List MetadataPair) (key : Bytes)
    → find_pair (ps ++ qs) key ≡ or_else (find_pair ps key) (find_pair qs key)
unfolding find_pair
find_pair-append [] qs key = refl
find_pair-append (p ∷ ps) qs key = ground (arith, find_pair-append ps qs key)

find_pair-behind :
    (ps qs : List MetadataPair) (key : Bytes)
    → find_pair ps key ≡ none
    → find_pair (ps ++ qs) key ≡ find_pair qs key
find_pair-behind ps qs key m = find_pair-append ps qs key ∙ ap (λ o. or_else o (find_pair qs key)) m

find_pair-before :
    (ps qs : List MetadataPair) (key v : Bytes)
    → find_pair ps key ≡ some v
    → find_pair (ps ++ qs) key ≡ some v
find_pair-before ps qs key v m =
    find_pair-append ps qs key ∙ ap (λ o. or_else o (find_pair qs key)) m

-- The entry that a successful `add_metadata` leaves.
abbrev pub with_pair : LogEntry → Bytes → Bytes → LogEntry
with_pair e key value = record e {
  metadata = e.metadata ++ record { key = take 63 key; value = take 255 value } ∷ [];
}

find_pair-one :
    (key value : Bytes) → find_pair (record { key = key; value = value } ∷ []) key ≡ some value
unfolding find_pair
find_pair-one key value = rw (strcmp_refl key) refl

-- While fewer than eight pairs are stored, a pair whose key (cut to 63 bytes) is new is added behind
-- the others, and a lookup of that key finds its value (cut to 255 bytes).
pub add_metadata-get_metadata :
    (e : LogEntry) (key value : Bytes)
    → length e.metadata < metadata_max_count
    → get_metadata e (some (take 63 key)) ≡ none
    → (add_metadata e (some key) (some value) ≡ some (with_pair e key value))
      × (get_metadata (with_pair e key value) (some (take 63 key)) ≡ some (take 255 value))
unfolding add_metadata get_metadata
add_metadata-get_metadata e key value h m = (
  ground arith,
  find_pair-behind e.metadata _ (take 63 key) m ∙ find_pair-one (take 63 key) (take 255 value),
)

-- Adding a pair leaves what a lookup found before: an older pair hides a newer one with its key.
pub add_metadata_keeps :
    (e e' : LogEntry) (key value other v : Bytes)
    → add_metadata e (some key) (some value) ≡ some e'
    → get_metadata e (some other) ≡ some v
    → get_metadata e' (some other) ≡ some v
unfolding add_metadata get_metadata
add_metadata_keeps e e' key value other v a m =
    elim (Bool-cases (leb metadata_max_count (length e.metadata))) [
      | inl full ↦ absurd (
          some-ne-none _
            (sym (ap (λ b. if b then none else some (with_pair e key value)) (sym full) ∙ a)))
      | inr room ↦
          let same =
            some-injective _ _
              (ap (λ b. if b then none else some (with_pair e key value)) (sym room) ∙ a) in
          ap (λ x. find_pair x.metadata other) (sym same) ∙ find_pair-before e.metadata _ other v m
    ]
