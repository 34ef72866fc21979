-- ===== src/Common/Strings.antt =====
-- C strings, as the bytes before the NUL, and the functions of <string.h> and <ctype.h> in use.
use Prim.Native.Nat.{ℕ, ◌+◌, compare, Ordering}
use mathlib.Core.Bool.{Bool, ◌&&◌, ◌||◌}
use Prim.Native.Char.{code}
use Prim.Native.String.{String}
use mathlib.Core.Path.{◌≡◌, refl}
use mathlib.Core.List.{List, [], ◌∷◌, map}
use native.Mathlib.Omega.{arith}
use vector_clock_good.Common.Tests.{leb, ◌==◌, if◌then◌else◌, is_eq, flip}

abbrev pub Bytes : Type 0
Bytes = List ℕ

-- A string literal of the source.
abbrev pub codes : String → Bytes
codes String.[] = []
codes (String.◌∷◌ c s) = code c ∷ codes s

-- The sign of the first difference, the end counting as the byte 0.
unfoldable pub strcmp : Bytes → Bytes → Ordering
strcmp [] [] = Ordering.eq
strcmp [] (b ∷ t) = Ordering.lt
strcmp (a ∷ s) [] = Ordering.gt
strcmp (a ∷ s) (b ∷ t) = elim (compare a b) [
  | Ordering.lt ↦ Ordering.lt
  | Ordering.eq ↦ strcmp s t
  | Ordering.gt ↦ Ordering.gt
]

abbrev pub str_eq : Bytes → Bytes → Bool
str_eq s t = is_eq (strcmp s t)

unfoldable pub is_space : ℕ → Bool
is_space c = c == 32 || (leb 9 c && leb c 13)

unfoldable pub is_digit : ℕ → Bool
is_digit c = leb b'0' c && leb c b'9'

unfoldable pub is_print : ℕ → Bool
is_print c = leb 32 c && leb c 126

unfoldable pub is_upper : ℕ → Bool
is_upper c = leb b'A' c && leb c b'Z'

unfoldable pub is_lower : ℕ → Bool
is_lower c = leb b'a' c && leb c b'z'

unfoldable pub to_lower : ℕ → ℕ
unfolding is_upper
to_lower c = if is_upper c then c + 32 else c

unfoldable pub is_alnum : ℕ → Bool
unfolding is_digit is_upper is_lower
is_alnum c = is_digit c || is_upper c || is_lower c

-- `strcasecmp(s, t) == 0`
unfoldable pub str_case_eq : Bytes → Bytes → Bool
unfolding to_lower strcmp
str_case_eq s t = str_eq (map to_lower s) (map to_lower t)

pub strcmp_refl : (s : Bytes) → strcmp s s ≡ Ordering.eq
unfolding strcmp
strcmp_refl [] = refl
strcmp_refl (a ∷ s) = ground (arith, strcmp_refl s)

pub strcmp-eq : (s t : Bytes) → strcmp s t ≡ Ordering.eq → s ≡ t
unfolding strcmp
strcmp-eq [] [] h = refl
strcmp-eq [] (b ∷ t) h = ground arith
strcmp-eq (a ∷ s) [] h = ground arith
strcmp-eq (a ∷ s) (b ∷ t) h = ground (arith, strcmp-eq s t)

pub strcmp-flip : (s t : Bytes) → strcmp t s ≡ flip (strcmp s t)
unfolding strcmp
strcmp-flip [] [] = refl
strcmp-flip [] (b ∷ t) = refl
strcmp-flip (a ∷ s) [] = refl
strcmp-flip (a ∷ s) (b ∷ t) = ground (arith, strcmp-flip s t)

pub strcmp_trans :
    (s t u : Bytes) → strcmp s t ≡ Ordering.lt → strcmp t u ≡ Ordering.lt → strcmp s u ≡ Ordering.lt
unfolding strcmp
strcmp_trans [] [] u h k = ground arith
strcmp_trans [] (b ∷ t) [] h k = ground arith
strcmp_trans [] (b ∷ t) (c ∷ u) h k = refl
strcmp_trans (a ∷ s) [] u h k = ground arith
strcmp_trans (a ∷ s) (b ∷ t) [] h k = ground arith
strcmp_trans (a ∷ s) (b ∷ t) (c ∷ u) h k = ground (arith, strcmp_trans s t u)
