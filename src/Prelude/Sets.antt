-- ===== src/Prelude/Sets.antt =====
-- Sets as lists of members, for a type with a test for equality: Rust's `HashSet`.
use Prim.Native.Nat.{◌≤◌}
use mathlib.Core.Path.{◌≡◌, refl, ap, subst}
use mathlib.Core.Logic.{inl, inr}
use mathlib.Core.Bool.{Bool, true, ◌&&◌, ◌||◌}
use mathlib.Core.List.{List, [], ◌∷◌, ◌++◌}
use native.Mathlib.Omega.{arith}
use trim.Prelude.Tests.{Eq, Bool-cases}
use trim.Prelude.Lists.{length, any, keep}

module _ {ℓ} {A : Type ℓ} ⦃e : Eq A⦄ where
  abbrev pub contains : List A → A → Bool
  contains xs a = any (λ x. e.beq x a) xs

  pub contains-append :
      (xs ys : List A) (a : A) → contains (xs ++ ys) a ≡ (contains xs a || contains ys a)
  contains-append [] ys a = refl
  contains-append (x ∷ xs) ys a = rw (contains-append xs ys a) (ground arith)

  pub beq_refl : (a : A) → e.beq a a ≡ true
  beq_refl a = (e.beq_iff a a).1 refl

  pub contains-singleton : (x a : A) → contains (x ∷ []) a ≡ true → x ≡ a
  contains-singleton x a h = (e.beq_iff x a).0 (ground arith)

  -- Membership does not tell equal elements apart.
  pub contains_beq : (xs : List A) (a b : A) → e.beq a b ≡ true → contains xs a ≡ contains xs b
  contains_beq xs a b h = ap (contains xs) ((e.beq_iff a b).0 h)

  -- A filter by a test of the member itself.
  pub contains-keep :
      (p : A → Bool) (xs : List A) (a : A) → contains (keep p xs) a ≡ (contains xs a && p a)
  contains-keep p [] a = refl
  contains-keep p (x ∷ xs) a = elim (Bool-cases (e.beq x a)) [
    | inl same ↦
        subst (λ (b : A). contains (keep p (x ∷ xs)) b ≡ (contains (x ∷ xs) b && p b))
          ((e.beq_iff x a).0 same) (ground (arith, contains-keep p xs x, beq_refl x))
    | inr other ↦ ground (arith, contains-keep p xs a)
  ]

  -- Every member of one list is a member of the other.
  abbrev pub Subset : List A → List A → Type ℓ
  Subset xs ys = (a : A) → contains xs a ≡ true → contains ys a ≡ true

pub length-keep {ℓ} : {A : Type ℓ} (p : A → Bool) (xs : List A) → length (keep p xs) ≤ length xs
length-keep p [] = omega arith
length-keep p (x ∷ xs) = ground (arith, length-keep p xs)
