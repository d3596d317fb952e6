-- ===== src/Base/Distinct.antt =====
-- Lists without two elements that a test takes for the same: the primary keys of tables.
use mathlib.Core.Path.{◌≡◌, refl, ◌∙◌}
use mathlib.Core.Logic.{inl, inr}
use mathlib.Core.Bool.{Bool, true, false, not, ◌||◌}
use mathlib.Core.List.{List, [], ◌∷◌, ◌++◌, map}
use native.Mathlib.Omega.{arith}
use redseat_rust.Base.Tests.{Bool-cases}
use redseat_rust.Base.Lists.{any, filter}

-- No two elements are the same under a test.
abbrev pub Distinct {ℓ} : {A : Type ℓ} → (A → A → Bool) → List A → Type ℓ
Distinct same [] = Unit
Distinct same (x ∷ xs) = (any (λ y. same y x) xs ≡ false) × Distinct same xs

module _ {ℓ} {A : Type ℓ} where
  pub any-append : (p : A → Bool) (xs ys : List A) → any p (xs ++ ys) ≡ (any p xs || any p ys)
  any-append p [] ys = refl
  any-append p (x ∷ xs) ys = ground (arith, any-append p xs ys)

  pub any-filter-false :
      (p q : A → Bool) (xs : List A) → any p xs ≡ false → any p (filter q xs) ≡ false
  any-filter-false p q [] h = refl
  any-filter-false p q (x ∷ xs) h = ground (arith, any-filter-false p q xs)

  pub any-filter-not : (p : A → Bool) (xs : List A) → any p (filter (λ x. not (p x)) xs) ≡ false
  any-filter-not p [] = refl
  any-filter-not p (x ∷ xs) = ground (arith, any-filter-not p xs)

  pub any-map :
      (p q : A → Bool) (f : A → A) (xs : List A)
      → ((y : A) → p (f y) ≡ q y)
      → any p (map f xs) ≡ any q xs
  any-map p q f [] h = refl
  any-map p q f (x ∷ xs) h = ground (arith, any-map p q f xs h, h x)

module _ {ℓ} {A : Type ℓ} (same : A → A → Bool) where
  pub Distinct-snoc :
      (flip : (a b : A) → same a b ≡ true → same b a ≡ true) (xs : List A) (x : A)
      → any (λ y. same y x) xs ≡ false
      → Distinct same xs
      → Distinct same (xs ++ x ∷ [])
  Distinct-snoc flip [] x h d = (refl, tt)
  Distinct-snoc flip (y ∷ ys) x h d = (
    ground (arith, any-append (λ z. same z y) ys (x ∷ []), flip x y),
    Distinct-snoc flip ys x (ground arith) d.1,
  )

  pub Distinct-filter :
      (q : A → Bool) (xs : List A) → Distinct same xs → Distinct same (filter q xs)
  Distinct-filter q [] d = tt
  Distinct-filter q (x ∷ xs) d = elim (Bool-cases (q x)) [
    | inl e ↦ rw e (any-filter-false (λ y. same y x) q xs d.0, Distinct-filter q xs d.1)
    | inr e ↦ rw e (Distinct-filter q xs d.1)
  ]

  pub Distinct-map :
      (f : A → A) (xs : List A)
      → ((a b : A) → same (f a) (f b) ≡ same a b)
      → Distinct same xs
      → Distinct same (map f xs)
  Distinct-map f [] h d = tt
  Distinct-map f (x ∷ xs) h d =
      (any-map (λ y. same y (f x)) (λ y. same y x) f xs (λ y. h y x) ∙ d.0, Distinct-map f xs h d.1)
