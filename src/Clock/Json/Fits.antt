-- ===== src/Clock/Json/Fits.antt =====
-- The printed clock fits its buffer.
use mathlib.Core.Path.{subst}
use vector_clock_good.Common.{
  ℕ, zero, suc, ◌+◌, ◌*◌, ◌^◌, ◌≤◌, ◌<◌, ◌≡◌, refl, true, not, none, some, [], ◌++◌, arith, ltb,
  ◌==◌, if◌then◌else◌, Bytes, codes, length, length-append, print_nat, print-digits, print-small,
  emit, Prints, emit-Prints, bind-Prints, Bool-cases, inl, inr,
}
use vector_clock_good.Clock.{VectorClock, cell, max_nodes}
use vector_clock_good.Clock.Json.{node_label, member, to_json_loop, to_json}
use vector_clock_good.Clock.Json.Read.{Fits64}

-- `"node-31":` and a 64-bit number
member-length :
    (vc : VectorClock) (i : ℕ) → i < max_nodes → cell vc i < 2 ^ 64 → length (member none vc i) ≤ 30
unfolding member node_label
member-length vc i h w = omega (
  arith,
  length-append (codes "node-" ++ print_nat i) (codes "\":" ++ print_nat (cell vc i)),
  length-append (codes "\":") (print_nat (cell vc i)),
  print-digits (cell vc i) w,
  print-small i (omega arith),
)

comma-Prints :
    (i size : ℕ) (out : Bytes) (n : ℕ)
    → length out ≤ n
    → n + 1 < size
    → Prints (if ltb 0 i then emit size (codes ",") out else some out) (n + 1)
comma-Prints i size out n h k = elim (Bool-cases (ltb 0 i)) [
  | inl b ↦ rw b (emit-Prints size (codes ",") out (n + 1) (omega arith) k)
  | inr b ↦ rw b (record { text = out; result = refl; short = omega arith })
]

to_json_loop-Prints :
    (n i : ℕ) (vc : VectorClock) (size m : ℕ) (out : Bytes)
    → Fits64 vc
    → i + n ≤ vc.node_count
    → vc.node_count ≤ max_nodes
    → length out ≤ m
    → m + 31 * n < size
    → Prints (to_json_loop n i none vc size out) (m + 31 * n)
unfolding to_json_loop
to_json_loop-Prints zero i vc size m out w r l h k = record {
  text = out;
  result = refl;
  short = omega arith;
}
to_json_loop-Prints (suc n) i vc size m out w r l h k =
    let small = member-length vc i (omega arith) (w i (omega arith)) in
    bind-Prints _ _ (m + 1) (m + 31 * suc n) (comma-Prints i size out m h (omega arith)) (λ b p.
      bind-Prints _ _ (m + 31) (m + 31 * suc n)
        (emit-Prints size (member none vc i) b (m + 31) (omega (arith, small)) (omega arith))
        (λ c q.
          let same : m + 31 + 31 * n ≡ m + 31 * suc n = omega arith in
          subst (λ k. Prints (to_json_loop n (i + 1) none vc size c) k) same
            (to_json_loop-Prints n (i + 1) vc size (m + 31) c w (omega arith) l q (omega arith))))

-- A clock takes at most 31 bytes for each node, and two.
pub to_json-Prints :
    (vc : VectorClock) (size : ℕ)
    → vc.node_count ≤ max_nodes
    → Fits64 vc
    → 994 < size
    → Prints (to_json vc none size) 994
unfolding to_json
to_json-Prints vc size w f h =
    let some_room : not (size == 0) ≡ true = ground arith in
    rw some_room (
      bind-Prints _ _ 1 994 (emit-Prints size (codes "{") [] 1 (omega arith) (omega arith)) (λ b p.
        bind-Prints _ _ (1 + 31 * vc.node_count) 994
          (to_json_loop-Prints vc.node_count 0 vc size 1 b f (omega arith) w p (omega (arith, w)))
          (λ c q. emit-Prints size (codes "}") c 994 (omega (arith, w)) h)))
