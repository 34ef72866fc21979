-- ===== src/Clock/Json/Printed.antt =====
-- The text that `vc_to_json` leaves in the buffer.
use mathlib.Core.List.{append_assoc, append-nil}
use mathlib.Core.Option.{some-injective}
use vector_clock_good.Common.{
  ℕ, zero, suc, ◌+◌, ◌≡◌, sym, ap, ◌∙◌, not, some, [], ◌∷◌, ◌++◌, arith, ltb, ◌==◌, if◌then◌else◌,
  Bytes, codes, emit, length-emit, bind-eq_some, Bool-cases, inl, inr, guard,
}
use vector_clock_good.Clock.{VectorClock}
use vector_clock_good.Clock.Json.{Names, member, to_json_loop, to_json}

-- The comma in front of what is left, if anything is.
abbrev pub separator : ℕ → Bytes
separator zero = []
separator (suc n) = codes ","

-- The members from `i`, with the brace that closes the object.
abbrev pub listing : Names → VectorClock → ℕ → ℕ → Bytes
listing names vc zero i = codes "}"
listing names vc (suc n) i = member names vc i ++ (separator n ++ listing names vc n (i + 1))

abbrev lead : ℕ → ℕ → Bytes
lead i n = if ltb 0 i then separator n else []

lead_zero : (i : ℕ) → lead i 0 ≡ []
lead_zero i = ground arith

regroup : (a b c d : Bytes) → ((a ++ b) ++ c) ++ d ≡ a ++ (b ++ (c ++ d))
regroup a b c d = simp append_assoc

lead_suc : (i n : ℕ) → lead (i + 1) n ≡ separator n
lead_suc i n = ground arith

emit-lead :
    (i n size : ℕ) (out r : Bytes)
    → (if ltb 0 i then emit size (codes ",") out else some out) ≡ some r
    → r ≡ out ++ lead i (suc n)
emit-lead i n size out r h = elim (Bool-cases (ltb 0 i)) [
  | inl b ↦ rw b ((length-emit size (codes ",") out r (rw b at h)).0)
  | inr b ↦ rw b (sym (some-injective _ _ (rw b at h)) ∙ sym (append-nil out))
]

to_json_loop-listing :
    (n i : ℕ) (names : Names) (vc : VectorClock) (size : ℕ) (out r : Bytes)
    → to_json_loop n i names vc size out ≡ some r
    → r ++ codes "}" ≡ out ++ (lead i n ++ listing names vc n i)
unfolding to_json_loop
to_json_loop-listing zero i names vc size out r h =
    ap (λ x. x ++ codes "}") (sym (some-injective _ _ h))
    ∙ ap (λ x. out ++ (x ++ codes "}")) (sym (lead_zero i))
to_json_loop-listing (suc n) i names vc size out r h =
    let (o, p, h) = bind-eq_some (if ltb 0 i then emit size (codes ",") out else some out) _ h in
    let (o', p', h) = bind-eq_some (emit size (member names vc i) o) _ h in
    let ih = to_json_loop-listing n (i + 1) names vc size o' r h in
    let placed = emit-lead i n size out o p in
    let printed = (length-emit size (member names vc i) o o' p').0 in
    ih
    ∙ ap (λ x. x ++ (lead (i + 1) n ++ listing names vc n (i + 1)))
        (printed ∙ ap (λ x. x ++ member names vc i) placed)
    ∙ regroup out (lead i (suc n)) (member names vc i)
        (lead (i + 1) n ++ listing names vc n (i + 1))
    ∙ ap (λ x. out ++ (lead i (suc n) ++ (member names vc i ++ (x ++ listing names vc n (i + 1)))))
        (lead_suc i n)

-- What `vc_to_json` prints, if it fits the buffer.
pub to_json-listing :
    (vc : VectorClock) (names : Names) (size : ℕ) (r : Bytes)
    → to_json vc names size ≡ some r
    → r ≡ b'{' ∷ listing names vc vc.node_count 0
unfolding to_json
to_json-listing vc names size r h =
    let (u, g, h) = bind-eq_some (guard (not (size == 0))) _ h in
    let (o, p, h) = bind-eq_some (emit size (codes "{") []) _ h in
    let (o', p', h) = bind-eq_some (to_json_loop vc.node_count 0 names vc size o) _ h in
    (length-emit size (codes "}") o' r h).0
    ∙ to_json_loop-listing vc.node_count 0 names vc size o o' p'
    ∙ ap (λ x. x ++ listing names vc vc.node_count 0) ((length-emit size (codes "{") [] o p).0)
