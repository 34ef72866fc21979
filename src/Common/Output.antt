-- ===== src/Common/Output.antt =====
-- Failure as an Option, and `snprintf` into a buffer of a given size.
use Prim.Native.Nat.{ℕ, ◌+◌, ◌-◌, ◌≤◌, ◌<◌}
use mathlib.Core.Path.{◌≡◌, refl}
use mathlib.Core.List.{◌++◌}
use mathlib.Core.Bool.{Bool, true, false}
use mathlib.Core.Option.{Option, none, some}
use native.Mathlib.Omega.{arith}
use vector_clock_good.Common.Tests.{leb, if◌then◌else◌}
use vector_clock_good.Common.Arrays.{length, length-append}
use vector_clock_good.Common.Strings.{Bytes}

infixl 5 ◌>>=◌ ◌>>◌
abbrev pub ◌>>=◌ {ℓ κ} : {A : Type ℓ} {B : Type κ} → Option A → (A → Option B) → Option B
none >>= f = none
some a >>= f = f a

abbrev pub ◌>>◌ {ℓ} : {B : Type ℓ} → Option (Unit {0}) → Option B → Option B
m >> k = m >>= λ _. k

abbrev pub guard : Bool → Option (Unit {0})
guard true = some tt
guard false = none

-- The text `s` behind `out` in a buffer of `size` bytes; none where the source returns -1, because
-- the text and its NUL do not fit into what is left.
unfoldable pub emit : ℕ → Bytes → Bytes → Option Bytes
emit size s out = if leb (size - length out) (length s) then none else some (out ++ s)

pub emit-some :
    (size : ℕ) (s out : Bytes) → length out + length s < size → emit size s out ≡ some (out ++ s)
unfolding emit
emit-some size s out h = ground arith

pub length-emit :
    (size : ℕ) (s out r : Bytes) → emit size s out ≡ some r → (r ≡ out ++ s) × (length r < size)
unfolding emit
length-emit size s out r h = ground (arith, length-append out s)

-- A result of two steps is one of both.
pub bind-eq_some {ℓ κ} :
    {A : Type ℓ} {B : Type κ} (m : Option A) (f : A → Option B) {b : B}
    → (m >>= f) ≡ some b
    → (a : A) × (m ≡ some a) × (f a ≡ some b)
bind-eq_some none f h = cc
bind-eq_some (some a) f h = (a, refl, h)

-- Something is printed, of at most `n` bytes.
pub record Prints (m : Option Bytes) (n : ℕ) : Type 0 where
  pub text : Bytes
  pub result : m ≡ some text
  pub short : length text ≤ n

pub emit-Prints :
    (size : ℕ) (s out : Bytes) (n : ℕ)
    → length out + length s ≤ n
    → n < size
    → Prints (emit size s out) n
emit-Prints size s out n h k = record {
  text = out ++ s;
  result = emit-some size s out (omega arith);
  short = omega (arith, length-append out s);
}

pub bind-Prints :
    (m : Option Bytes) (f : Bytes → Option Bytes) (n k : ℕ)
    → Prints m n
    → ((b : Bytes) → length b ≤ n → Prints (f b) k)
    → Prints (m >>= f) k
bind-Prints m f n k p next =
    let q = next p.text p.short in
    record { text = q.text; result = rw (p.result, q.result) refl; short = q.short }
