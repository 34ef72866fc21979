-- ===== src/Store/Index/Merge.antt =====
-- Intersection and union of posting lists, as operations on sets of indices.
use vector_clock_good.Common.{
  ℕ, zero, suc, ◌+◌, ◌<◌, ◌≤◌, ◌≡◌, refl, Bool, true, false, ◌&&◌, ◌||◌, List, [], ◌∷◌, ◌++◌, leb,
  ◌==◌, length, arith,
}
use vector_clock_good.Store.Index.{
  intersect_loop, intersect_posting_lists, union_loop, union_posting_lists,
}

-- The list rises strictly inside of [lo, hi).
abbrev pub Rising : ℕ → ℕ → List ℕ → Type 0
Rising lo hi [] = lo ≤ hi
Rising lo hi (x ∷ xs) = (lo ≤ x) × Rising (suc x) hi xs

abbrev pub mem : ℕ → List ℕ → Bool
mem i [] = false
mem i (x ∷ xs) = i == x || mem i xs

pub Rising-weaken : (lo lo' hi : ℕ) (xs : List ℕ) → lo' ≤ lo → Rising lo hi xs → Rising lo' hi xs
Rising-weaken lo lo' hi [] h r = omega arith
Rising-weaken lo lo' hi (x ∷ xs) h (a, r) = (omega arith, r)

pub mem-below : (i lo hi : ℕ) (xs : List ℕ) → Rising lo hi xs → i < lo → mem i xs ≡ false
mem-below i lo hi [] r h = refl
mem-below i lo hi (x ∷ xs) (a, r) h =
    let below = mem-below i (suc x) hi xs r (omega arith) in ground arith

pub Rising-bound : (lo hi : ℕ) (xs : List ℕ) → Rising lo hi xs → lo ≤ hi
Rising-bound lo hi [] r = r
Rising-bound lo hi (x ∷ xs) (a, r) = omega (arith, Rising-bound (suc x) hi xs r)

pub mem-append : (i : ℕ) (xs ys : List ℕ) → mem i (xs ++ ys) ≡ (mem i xs || mem i ys)
mem-append i [] ys = refl
mem-append i (x ∷ xs) ys = ground (arith, mem-append i xs ys)

-- How two heads compare, as the tests of the loops read it.
data Heads (x y : ℕ) : Type 0 where
  less : x < y → leb x y ≡ true → leb y x ≡ false → (x == y) ≡ false → Heads x y
  same : x ≡ y → leb x y ≡ true → leb y x ≡ true → (x == y) ≡ true → Heads x y
  more : y < x → leb x y ≡ false → leb y x ≡ true → (x == y) ≡ false → Heads x y

heads : (x y : ℕ) → Heads x y
heads x y = go (leb x y) (leb y x) refl refl
  where
    go : (p q : Bool) → leb x y ≡ p → leb y x ≡ q → Heads x y
    go true true e f = same (ground arith) e f (ground arith)
    go true false e f = less (ground arith) e f (ground arith)
    go false true e f = more (ground arith) e f (ground arith)
    go false false e f = absurd (ground arith)

-- A head below the other list is in none but its own.
outside : (x i hi : ℕ) (ys : List ℕ) → Rising (suc x) hi ys → (i == x && mem i ys) ≡ false
outside x i hi ys r = go (i == x) refl
  where
    go : (b : Bool) → (i == x) ≡ b → (b && mem i ys) ≡ false
    go true e = mem-below i (suc x) hi ys r (ground arith)
    go false e = refl

intersect_loop-mem :
    (n lo hi : ℕ) (a b : List ℕ) (i : ℕ)
    → length a + length b ≤ n
    → Rising lo hi a
    → Rising lo hi b
    → mem i (intersect_loop n a b) ≡ (mem i a && mem i b)
unfolding intersect_loop
intersect_loop-mem zero lo hi [] b i h r s = refl
intersect_loop-mem zero lo hi (x ∷ a) b i h r s = absurd (omega arith)
intersect_loop-mem (suc n) lo hi [] b i h r s = refl
intersect_loop-mem (suc n) lo hi (x ∷ a) [] i h r s = ground arith
intersect_loop-mem (suc n) lo hi (x ∷ a) (y ∷ b) i h r s = elim (heads x y) [
  | less l p q e ↦
      let rec = intersect_loop-mem n (suc x) hi a (y ∷ b) i (omega arith) r.1 (omega arith, s.1) in
      let out = outside x i hi (y ∷ b) (omega arith, s.1) in rw (p, q, e) (ground (arith, rec, out))
  | same l p q e ↦
      let rec =
        intersect_loop-mem n (suc x) hi a b i (omega arith) r.1
          (Rising-weaken (suc y) (suc x) hi b (omega arith) s.1) in
      rw (p, q, e) (ground (arith, rec))
  | more l p q e ↦
      let rec = intersect_loop-mem n (suc y) hi (x ∷ a) b i (omega arith) (omega arith, r.1) s.1 in
      let out = outside y i hi (x ∷ a) (omega arith, r.1) in rw (p, q, e) (ground (arith, rec, out))
]

intersect_loop-Rising :
    (n lo hi : ℕ) (a b : List ℕ)
    → lo ≤ hi
    → Rising lo hi a
    → Rising lo hi b
    → Rising lo hi (intersect_loop n a b)
unfolding intersect_loop
intersect_loop-Rising zero lo hi a b h r s = h
intersect_loop-Rising (suc n) lo hi [] b h r s = h
intersect_loop-Rising (suc n) lo hi (x ∷ a) [] h r s = h
intersect_loop-Rising (suc n) lo hi (x ∷ a) (y ∷ b) h r s = elim (heads x y) [
  | less l p q e ↦
      rw (p, q, e)
        (intersect_loop-Rising n lo hi a (y ∷ b) h
          (Rising-weaken (suc x) lo hi a (omega (arith, r.0)) r.1) s)
  | same l p q e ↦
      rw (p, q, e)
        (
          r.0,
          intersect_loop-Rising n (suc x) hi a b (Rising-bound (suc x) hi a r.1) r.1
              (Rising-weaken (suc y) (suc x) hi b (omega arith) s.1),
        )
  | more l p q e ↦
      rw (p, q, e)
        (intersect_loop-Rising n lo hi (x ∷ a) b h r
          (Rising-weaken (suc y) lo hi b (omega (arith, s.0)) s.1))
]

union_loop-mem : (n : ℕ) (a b : List ℕ) (i : ℕ) → mem i (union_loop n a b) ≡ (mem i a || mem i b)
unfolding union_loop
union_loop-mem zero a b i = mem-append i a b
union_loop-mem (suc n) [] b i = refl
union_loop-mem (suc n) (x ∷ a) [] i = ground arith
union_loop-mem (suc n) (x ∷ a) (y ∷ b) i = elim (heads x y) [
  | less l p q e ↦ rw (p, q) (ground (arith, union_loop-mem n a (y ∷ b) i))
  | same l p q e ↦ rw (p, q) (ground (arith, union_loop-mem n a b i))
  | more l p q e ↦ rw (p, q) (ground (arith, union_loop-mem n (x ∷ a) b i))
]

union_loop-Rising :
    (n lo hi : ℕ) (a b : List ℕ)
    → length a + length b ≤ n
    → Rising lo hi a
    → Rising lo hi b
    → Rising lo hi (union_loop n a b)
unfolding union_loop
union_loop-Rising zero lo hi [] b h r s = s
union_loop-Rising zero lo hi (x ∷ a) b h r s = absurd (omega arith)
union_loop-Rising (suc n) lo hi [] b h r s = s
union_loop-Rising (suc n) lo hi (x ∷ a) [] h r s = r
union_loop-Rising (suc n) lo hi (x ∷ a) (y ∷ b) h r s = elim (heads x y) [
  | less l p q e ↦
      rw (p, q) (r.0, union_loop-Rising n (suc x) hi a (y ∷ b) (omega arith) r.1 (omega arith, s.1))
  | same l p q e ↦
      rw (p, q)
        (
          r.0,
          union_loop-Rising n (suc x) hi a b (omega arith) r.1
              (Rising-weaken (suc y) (suc x) hi b (omega arith) s.1),
        )
  | more l p q e ↦
      rw (p, q) (s.0, union_loop-Rising n (suc y) hi (x ∷ a) b (omega arith) (omega arith, r.1) s.1)
]

-- The intersection of two lists that rise holds the indices of both, and rises.
pub intersect-mem :
    (lo hi : ℕ) (a b : List ℕ)
    → Rising lo hi a
    → Rising lo hi b
    → Rising lo hi (intersect_posting_lists a b)
      × ((i : ℕ) → mem i (intersect_posting_lists a b) ≡ (mem i a && mem i b))
unfolding intersect_posting_lists
intersect-mem lo hi a b r s = (
  intersect_loop-Rising (length a + length b) lo hi a b (Rising-bound lo hi a r) r s,
  λ i. intersect_loop-mem (length a + length b) lo hi a b i (omega arith) r s,
)

-- The union of two lists that rise holds the indices of either, each once, and rises.
pub union-mem :
    (lo hi : ℕ) (a b : List ℕ)
    → Rising lo hi a
    → Rising lo hi b
    → Rising lo hi (union_posting_lists a b)
      × ((i : ℕ) → mem i (union_posting_lists a b) ≡ (mem i a || mem i b))
unfolding union_posting_lists
union-mem lo hi a b r s = (
  union_loop-Rising (length a + length b) lo hi a b (omega arith) r s,
  λ i. union_loop-mem (length a + length b) a b i,
)
