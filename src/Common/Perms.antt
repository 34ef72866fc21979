-- ===== src/Common/Perms.antt =====
-- Permutations of concatenations, and predicates on all members of a list.
use mathlib.Core.Logic.{∥∥₁_elim, ∥∥₁_prop}
use mathlib.Core.HLevel.{×_prop, Unit-prop}
use mathlib.Core.List.{List, [], ◌∷◌, ◌++◌, Perm, Permᴰ, perm_middle, append_assoc}
use mathlib.Core.List.Perm
use mathlib.Core.Path.{◌≡◌, refl, sym, ap, ◌∙◌, subst}

abbrev pub All {ℓ κ} : {A : Type ℓ} → (A → Type κ) → List A → Type κ
All P [] = Unit
All P (x ∷ xs) = P x × All P xs

module _ {ℓ} {A : Type ℓ} where
  pub perm_rotate : (xs ys zs : List A) → Perm (xs ++ (ys ++ zs)) (ys ++ (xs ++ zs))
  perm_rotate [] ys zs = Perm.refl _
  perm_rotate (x ∷ xs) ys zs =
      Perm.trans (Perm.cons _ (perm_rotate xs ys zs)) (Perm.symm (perm_middle ys (xs ++ zs)))

  pub All-map : {P Q : A → Type 0} (f : (a : A) → P a → Q a) (xs : List A) → All P xs → All Q xs
  All-map f [] h = tt
  All-map f (x ∷ xs) (p, h) = (f x p, All-map f xs h)

  module _ {κ} (P : A → Type κ) where
    pub All-append : (xs ys : List A) → All P xs → All P ys → All P (xs ++ ys)
    All-append [] ys h k = k
    All-append (x ∷ xs) ys (p, h) k = (p, All-append xs ys h k)

    pub All-append_left : (xs ys : List A) → All P (xs ++ ys) → All P xs
    All-append_left [] ys h = tt
    All-append_left (x ∷ xs) ys (p, h) = (p, All-append_left xs ys h)

    All-prop : ((a : A) → IsProp (P a)) → (xs : List A) → IsProp (All P xs)
    All-prop pp [] = Unit-prop
    All-prop pp (x ∷ xs) = ×_prop (pp x) (All-prop pp xs)

    All-permᴰ : {xs ys : List A} → Permᴰ xs ys → All P xs → All P ys
    All-permᴰ Permᴰ.nil h = h
    All-permᴰ (Permᴰ.cons e d) h = (subst P e h.0, All-permᴰ d h.1)
    All-permᴰ (Permᴰ.swap e f) h = (subst P f h.1.0, (subst P e h.0, h.1.1))
    All-permᴰ (Permᴰ.trans d f) h = All-permᴰ f (All-permᴰ d h)

    pub All-perm : ((a : A) → IsProp (P a)) → {xs ys : List A} → Perm xs ys → All P xs → All P ys
    All-perm pp {xs} {ys} p h = ∥∥₁_elim p (All-prop pp ys) (λ d. All-permᴰ d h)

-- The lists that the members of a list give, one behind the other.
abbrev pub gather {ℓ κ} : {A : Type ℓ} {B : Type κ} → (A → List B) → List A → List B
gather f [] = []
gather f (x ∷ xs) = f x ++ gather f xs

module _ {ℓ κ} {A : Type ℓ} {B : Type κ} (f : A → List B) where
  pub gather-append : (xs ys : List A) → gather f (xs ++ ys) ≡ gather f xs ++ gather f ys
  gather-append [] ys = refl
  gather-append (x ∷ xs) ys =
      ap (λ zs. f x ++ zs) (gather-append xs ys)
      ∙ sym (append_assoc (f x) (gather f xs) (gather f ys))

  gather-permᴰ : {xs ys : List A} → Permᴰ xs ys → Perm (gather f xs) (gather f ys)
  gather-permᴰ Permᴰ.nil = Perm.refl _
  gather-permᴰ (Permᴰ.cons {a} {l₁} {l₂} e d) =
      subst (λ x. Perm (f a ++ gather f l₁) (f x ++ gather f l₂)) e
        (Perm.append_left (f a) (gather-permᴰ d))
  gather-permᴰ (Permᴰ.swap {a} {b} {b'} {l} e e') =
      subst (λ x. Perm (f a ++ (f b ++ gather f l)) (f x ++ (f b' ++ gather f l))) e'
        (subst (λ x. Perm (f a ++ (f b ++ gather f l)) (f b ++ (f x ++ gather f l))) e
          (perm_rotate (f a) (f b) (gather f l)))
  gather-permᴰ (Permᴰ.trans d d') = Perm.trans (gather-permᴰ d) (gather-permᴰ d')

  -- The order of the members decides only the order of what they give.
  pub gather-perm : {xs ys : List A} → Perm xs ys → Perm (gather f xs) (gather f ys)
  gather-perm p = ∥∥₁_elim p ∥∥₁_prop gather-permᴰ
