-- ===== src/Entry/Json/Printed.antt =====
-- The text that `log_entry_to_json` leaves in the buffer.
use mathlib.Core.List.{append_assoc, append-nil}
use mathlib.Core.Option.{some-injective}
use vector_clock_good.Common.{
  ℕ, ◌+◌, ◌-◌, ◌≡◌, sym, ap, ◌∙◌, not, Option, none, some, List, [], ◌∷◌, ◌++◌, ltb, ◌==◌,
  if◌then◌else◌, Bytes, codes, length, emit, length-emit, bind-eq_some, Bool-cases, inl, inr, ◌>>=◌,
  guard, print_nat,
}
use vector_clock_good.Clock.Json as ClockJson
use vector_clock_good.Clock.Json.Printed.{listing, to_json-listing}
use vector_clock_good.Entry.{LogEntry, MetadataPair, log_level_str}
use vector_clock_good.Entry.Json.{json_escape, emit_metadata, metadata_part, to_json}

-- A comma in front of all pairs but the first.
abbrev pub lead : ℕ → Bytes
lead i = if ltb 0 i then codes "," else []

abbrev pub pair_text : MetadataPair → Bytes
pair_text p =
    (b'"' ∷ (json_escape p.key ++ codes "\":")) ++ (b'"' ∷ (json_escape p.value ++ codes "\""))

abbrev pub pairs_text : ℕ → List MetadataPair → Bytes
pairs_text i [] = []
pairs_text i (p ∷ ps) = lead i ++ (pair_text p ++ pairs_text (i + 1) ps)

abbrev pub metadata_text : List MetadataPair → Bytes
metadata_text [] = []
metadata_text (p ∷ ps) = codes ",\"metadata\":{" ++ (pairs_text 0 (p ∷ ps) ++ codes "}")

-- A step puts `x` behind `a`, and what follows puts `y` behind that.
step_then :
    (m : Option Bytes) (f : Bytes → Option Bytes) (a x y r : Bytes)
    → ((b : Bytes) → m ≡ some b → b ≡ a ++ x)
    → ((b : Bytes) → f b ≡ some r → r ≡ b ++ y)
    → (m >>= f) ≡ some r
    → r ≡ a ++ (x ++ y)
step_then m f a x y r first next h =
    let (b, p, h) = bind-eq_some m f h in
    next b h ∙ ap (λ z. z ++ y) (first b p) ∙ append_assoc a x y

emit_then :
    (size : ℕ) (x : Bytes) (f : Bytes → Option Bytes) (a y r : Bytes)
    → ((b : Bytes) → f b ≡ some r → r ≡ b ++ y)
    → (emit size x a >>= f) ≡ some r
    → r ≡ a ++ (x ++ y)
emit_then size x f a y r = step_then (emit size x a) f a x y r (λ b p. (length-emit size x a b p).0)

emit_last : (size : ℕ) (x a r : Bytes) → emit size x a ≡ some r → r ≡ a ++ x
emit_last size x a r h = (length-emit size x a r h).0

unchanged : (a r : Bytes) → some a ≡ some r → r ≡ a ++ []
unchanged a r h = sym (some-injective _ _ h) ∙ sym (append-nil a)

lead_lem :
    (i size : ℕ) (out r : Bytes)
    → (if ltb 0 i then emit size (codes ",") out else some out) ≡ some r
    → r ≡ out ++ lead i
lead_lem i size out r h = elim (Bool-cases (ltb 0 i)) [
  | inl b ↦ rw b (emit_last size (codes ",") out r (rw b at h))
  | inr b ↦ rw b (unchanged out r (rw b at h))
]

emit_metadata-text :
    (i : ℕ) (ps : List MetadataPair) (size : ℕ) (out r : Bytes)
    → emit_metadata i ps size out ≡ some r
    → r ≡ out ++ pairs_text i ps
unfolding emit_metadata
emit_metadata-text i [] size out r h = unchanged out r h
emit_metadata-text i (p ∷ ps) size out r h =
    let key = b'"' ∷ (json_escape p.key ++ codes "\":") in
    let value = b'"' ∷ (json_escape p.value ++ codes "\"") in
    let rest = pairs_text (i + 1) ps in
    step_then (if ltb 0 i then emit size (codes ",") out else some out) _ out (lead i)
      (key ++ (value ++ rest)) r (lead_lem i size out)
      (λ a.
        emit_then size key _ a (value ++ rest) r
          (λ b. emit_then size value _ b rest r (λ c. emit_metadata-text (i + 1) ps size c r)))
      h
    ∙ ap (λ z. out ++ (lead i ++ z)) (sym (append_assoc key value rest))

metadata_part-text :
    (ps : List MetadataPair) (size : ℕ) (out r : Bytes)
    → metadata_part ps size out ≡ some r
    → r ≡ out ++ metadata_text ps
metadata_part-text [] size out r h = unchanged out r h
metadata_part-text (p ∷ ps) size out r h =
    emit_then size (codes ",\"metadata\":{") _ out (pairs_text 0 (p ∷ ps) ++ codes "}") r
      (λ a.
        step_then (emit_metadata 0 (p ∷ ps) size a) _ a (pairs_text 0 (p ∷ ps)) (codes "}") r
          (emit_metadata-text 0 (p ∷ ps) size a) (λ b. emit_last size (codes "}") b r))
      h

-- The pieces of the text.
abbrev pub node_text : LogEntry → Bytes
node_text e = codes "\"node_id\":\"" ++ (json_escape e.node_id ++ codes "\"")

abbrev pub clock_text : LogEntry → Bytes
clock_text e = b'{' ∷ listing none e.vc e.vc.node_count 0

abbrev pub time_text : LogEntry → Bytes
time_text e = codes ",\"timestamp\":" ++ print_nat e.timestamp

abbrev pub level_text : LogEntry → Bytes
level_text e = codes ",\"level\":\"" ++ (log_level_str e.level ++ codes "\"")

abbrev pub message_text : LogEntry → Bytes
message_text e = codes ",\"message\":\"" ++ (json_escape e.message ++ codes "\"")

-- The pieces from one on.
abbrev pub ending : LogEntry → Bytes
ending e = metadata_text e.metadata ++ codes "}"

abbrev pub from_message : LogEntry → Bytes
from_message e = message_text e ++ ending e

abbrev pub from_level : LogEntry → Bytes
from_level e = level_text e ++ from_message e

abbrev pub from_timestamp : LogEntry → Bytes
from_timestamp e = time_text e ++ from_level e

abbrev pub from_clock : LogEntry → Bytes
from_clock e = codes ",\"vector_clock\":" ++ (clock_text e ++ from_timestamp e)

abbrev pub entry_text : LogEntry → Bytes
entry_text e = codes "{" ++ (node_text e ++ from_clock e)

-- What `log_entry_to_json` prints, if it fits the buffer.
pub to_json-text :
    (e : LogEntry) (size : ℕ) (r : Bytes) → to_json e size ≡ some r → r ≡ entry_text e
unfolding to_json
to_json-text e size r h =
    let (u, g, h) = bind-eq_some (guard (not (size == 0))) _ h in
    emit_then size (codes "{") _ [] _ r
      (λ o. emit_then size (node_text e) _ o (from_clock e) r (λ o.
        emit_then size (codes ",\"vector_clock\":") _ o (clock_text e ++ from_timestamp e) r (λ o k.
          let (vc, p, k) = bind-eq_some (ClockJson.to_json e.vc none (size - length o)) _ k in
          emit_then size (time_text e) _ (o ++ vc) (from_level e) r
            (λ o. emit_then size (level_text e) _ o (from_message e) r (λ o.
              emit_then size (message_text e) _ o (ending e) r (λ o.
                step_then (metadata_part e.metadata size o) _ o (metadata_text e.metadata)
                  (codes "}") r (metadata_part-text e.metadata size o)
                  (λ o. emit_last size (codes "}") o r))))
            k
          ∙ append_assoc o vc (from_timestamp e)
          ∙ ap (λ z. o ++ (z ++ from_timestamp e))
              (to_json-listing e.vc none (size - length o) vc p))))
      h
