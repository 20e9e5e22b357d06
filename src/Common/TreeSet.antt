-- ===== src/Common/TreeSet.antt =====
-- `BTreeSet`: the list of its elements in ascending order.
use mathlib.Core.Path.{◌≡◌, refl}
use mathlib.Core.Bool.{Bool, true, false, ◌&&◌, ◌||◌}
use mathlib.Core.List.{List, [], ◌∷◌}
use native.Mathlib.Omega.{arith}
use agent_kuibysheff.Common.Test.{ltb, if◌then◌else◌}
use agent_kuibysheff.Common.Equality.{Eq, ◌==◌, nat_eq, Text, contains}

-- `Ord`, by its strict test.
pub record Ord {ℓ} (A : Type ℓ) : Type ℓ where
  pub less : A → A → Bool

-- Texts compare by their scalar values, which is the order of their UTF-8 bytes.
unfoldable pub text_less : Text → Text → Bool
text_less [] [] = false
text_less [] (y ∷ ys) = true
text_less (x ∷ xs) [] = false
text_less (x ∷ xs) (y ∷ ys) = ltb x y || x == y && text_less xs ys

instance abbrev pub text_ord : Ord Text
text_ord = record { less = text_less }

module _ {ℓ} {A : Type ℓ} ⦃e : Eq A⦄ ⦃o : Ord A⦄ where
  -- `BTreeSet::insert`
  unfoldable pub insert : A → List A → List A
  insert a [] = a ∷ []
  insert a (x ∷ xs) =
      let rest = insert a xs in
      if a == x then x ∷ xs else if o.less a x then a ∷ x ∷ xs else x ∷ rest

  -- `BTreeSet::from_iter`, `extend`
  unfoldable pub extend : List A → List A → List A
  unfolding insert
  extend s [] = s
  extend s (a ∷ more) = extend (insert a s) more

  pub contains-insert :
      (a b : A) (xs : List A) → contains (insert a xs) b ≡ (a == b || contains xs b)
  unfolding insert contains
  contains-insert a b [] = refl
  contains-insert a b (x ∷ xs) =
      ground (arith, contains-insert a b xs, e.equal_iff a x, e.equal_iff a b, e.equal_iff x b)

  pub contains-extend :
      (b : A) (ys xs : List A) → contains (extend xs ys) b ≡ (contains ys b || contains xs b)
  unfolding extend contains
  contains-extend b [] xs = refl
  contains-extend b (a ∷ more) xs =
      ground (arith, contains-extend b more (insert a xs), contains-insert a b xs)
