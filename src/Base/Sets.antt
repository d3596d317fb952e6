-- ===== src/Base/Sets.antt =====
-- `HashSet`s as lists without an order that matters, and lists from which one element is taken.
use mathlib.Core.Path.{◌≡◌, refl, ap}
use mathlib.Core.Bool.{Bool, true, false, not, ◌&&◌}
use mathlib.Core.List.{List, [], ◌∷◌}
use native.Mathlib.Omega.{arith}
use redseat_rust.Base.Tests.{if◌then◌else◌}
use redseat_rust.Base.Lists.{any, filter}
use redseat_rust.Base.Equality.{Eq, ◌==◌, contains}

module _ {ℓ} {A : Type ℓ} ⦃e : Eq A⦄ where
  abbrev pub insert : A → List A → List A
  insert a set = if contains set a then set else a ∷ set

  abbrev pub remove : A → List A → List A
  remove a = filter (λ x. not (x == a))

  -- One of several equal elements.
  abbrev pub remove_one : A → List A → List A
  remove_one a [] = []
  remove_one a (x ∷ xs) = let rest = remove_one a xs in if x == a then xs else x ∷ rest

  pub contains-remove :
      (a : A) (set : List A) (x : A) → contains (remove a set) x ≡ (contains set x && not (a == x))
  contains-remove a [] x = refl
  contains-remove a (i ∷ is) x =
      ground (arith, contains-remove a is x, e.same_iff i x, e.same_iff i a, e.same_iff a x)

  pub any-insert :
      (p : A → Bool) (a : A) (set : List A) → any p set ≡ true → any p (insert a set) ≡ true
  any-insert p a set h = ground arith

  pub any-inserted :
      (p : A → Bool) (a : A) (set : List A) → p a ≡ true → any p (insert a set) ≡ true
  any-inserted p a set h = ground (arith, member set)
    where
      member : (set : List A) → contains set a ≡ true → any p set ≡ true
      member [] c = ground arith
      member (x ∷ xs) c = ground (arith, member xs, e.same_iff x a, (λ (q : x ≡ a). ap p q))

  pub any-remove_one :
      (p : A → Bool) (a : A) (xs : List A)
      → p a ≡ false
      → any p xs ≡ true
      → any p (remove_one a xs) ≡ true
  any-remove_one p a [] h k = k
  any-remove_one p a (x ∷ xs) h k =
      ground (arith, any-remove_one p a xs h, e.same_iff x a, (λ (q : x ≡ a). ap p q))

  pub any-remove :
      (p : A → Bool) (a : A) (xs : List A)
      → p a ≡ false
      → any p xs ≡ true
      → any p (remove a xs) ≡ true
  any-remove p a [] h k = k
  any-remove p a (x ∷ xs) h k =
      ground (arith, any-remove p a xs h, e.same_iff x a, (λ (q : x ≡ a). ap p q))
