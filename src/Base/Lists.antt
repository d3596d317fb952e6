-- ===== src/Base/Lists.antt =====
-- Lists measured and indexed by native numbers, and filtered by Boolean tests.
use Prim.Native.Nat.{ℕ, zero, suc, ◌+◌, ◌≤◌}
use mathlib.Core.Path.{◌≡◌, refl}
use mathlib.Core.Bool.{Bool, true, false, ◌||◌, ◌&&◌, not}
use mathlib.Core.List.{map, List, [], ◌∷◌, ◌++◌}
use mathlib.Core.Option
use mathlib.Core.Option.{Option, none, some}
use native.Mathlib.Omega.{arith}
use mathlib.Core.Path.{subst}
use mathlib.Core.Bool.{false≢true}
use mathlib.Core.Logic.{inl, inr}
use redseat_rust.Base.Tests.{Bool-cases, if◌then◌else◌}

module _ {ℓ} {A : Type ℓ} where
  abbrev pub length : List A → ℕ
  length [] = 0
  length (x ∷ xs) = suc (length xs)

  abbrev pub get_elem? : List A → ℕ → Option A
  get_elem? [] i = none
  get_elem? (x ∷ xs) zero = some x
  get_elem? (x ∷ xs) (suc i) = get_elem? xs i

  abbrev pub set : List A → ℕ → A → List A
  set [] i v = []
  set (x ∷ xs) zero v = v ∷ xs
  set (x ∷ xs) (suc i) v = x ∷ set xs i v

  abbrev pub take : ℕ → List A → List A
  take zero xs = []
  take (suc n) [] = []
  take (suc n) (x ∷ xs) = x ∷ take n xs

  abbrev pub drop : ℕ → List A → List A
  drop zero xs = xs
  drop (suc n) [] = []
  drop (suc n) (x ∷ xs) = drop n xs

  abbrev pub filter : (A → Bool) → List A → List A
  filter p [] = []
  filter p (x ∷ xs) = let rest = filter p xs in if p x then x ∷ rest else rest

  abbrev pub any : (A → Bool) → List A → Bool
  any p [] = false
  any p (x ∷ xs) = p x || any p xs

  abbrev pub find : (A → Bool) → List A → Option A
  find p [] = none
  find p (x ∷ xs) = let rest = find p xs in if p x then some x else rest

  abbrev pub All {κ} : (A → Type κ) → List A → Type κ
  All P [] = Unit
  All P (x ∷ xs) = P x × All P xs

  pub All-map {κ ν} :
      {P : A → Type κ} {Q : A → Type ν} (xs : List A) → ((x : A) → P x → Q x) → All P xs → All Q xs
  All-map [] f h = tt
  All-map (x ∷ xs) f h = (f x h.0, All-map xs f h.1)

  pub All-append {κ} : (P : A → Type κ) (xs ys : List A) → All P xs → All P ys → All P (xs ++ ys)
  All-append P [] ys h k = k
  All-append P (x ∷ xs) ys h k = (h.0, All-append P xs ys h.1 k)

  pub length-append : (xs ys : List A) → length (xs ++ ys) ≡ length xs + length ys
  length-append [] ys = omega arith
  length-append (x ∷ xs) ys = omega (arith, length-append xs ys)

  pub length-filter-le : (p : A → Bool) (xs : List A) → length (filter p xs) ≤ length xs
  length-filter-le p [] = omega arith
  length-filter-le p (x ∷ xs) = ground (arith, length-filter-le p xs)

  pub filter-append :
      (p : A → Bool) (xs ys : List A) → filter p (xs ++ ys) ≡ filter p xs ++ filter p ys
  filter-append p [] ys = refl
  filter-append p (x ∷ xs) ys = ground (arith, filter-append p xs ys)

  pub filter-cong :
      (p q : A → Bool) (xs : List A) → ((x : A) → p x ≡ q x) → filter p xs ≡ filter q xs
  filter-cong p q [] h = refl
  filter-cong p q (x ∷ xs) h = ground (arith, filter-cong p q xs h, h x)

  pub filter-filter :
      (p q : A → Bool) (xs : List A) → filter p (filter q xs) ≡ filter (λ x. q x && p x) xs
  filter-filter p q [] = refl
  filter-filter p q (x ∷ xs) = ground (arith, filter-filter p q xs)

  pub find-holds : (p : A → Bool) (xs : List A) {a : A} → find p xs ≡ some a → p a ≡ true
  find-holds p [] h = ground arith
  find-holds p (x ∷ xs) {a} h = ground (arith, find-holds p xs {a = a})

  pub find-map :
      (q : A → Bool) (f : A → A) (xs : List A)
      → ((x : A) → q (f x) ≡ q x)
      → find q (map f xs) ≡ Option.map f (find q xs)
  find-map q f [] h = refl
  find-map q f (x ∷ xs) h = ground (arith, find-map q f xs h, h x)

  pub find-any-false :
      (p q : A → Bool) (xs : List A) {x : A} → find q xs ≡ some x → any p xs ≡ false → p x ≡ false
  find-any-false p q [] e h = cc
  find-any-false p q (y ∷ ys) {x} e h = ground (arith, find-any-false p q ys {x = x})

  pub find-filter-none :
      (p q : A → Bool) (xs : List A)
      → ((x : A) → q x ≡ true → p x ≡ true)
      → find q (filter (λ x. not (p x)) xs) ≡ none
  find-filter-none p q [] h = refl
  find-filter-none p q (x ∷ xs) h = ground (arith, find-filter-none p q xs h, h x)

  pub find-filter-other :
      (p q : A → Bool) (xs : List A)
      → ((x : A) → p x ≡ true → q x ≡ false)
      → find q (filter (λ x. not (p x)) xs) ≡ find q xs
  find-filter-other p q [] h = refl
  find-filter-other p q (x ∷ xs) h = ground (arith, find-filter-other p q xs h, h x)

  pub any-filter : (p q : A → Bool) (xs : List A) → any p (filter q xs) ≡ any (λ x. q x && p x) xs
  any-filter p q [] = refl
  any-filter p q (x ∷ xs) = ground (arith, any-filter p q xs)

-- An element with a property, at its place.
pub data Any {ℓ κ} {A : Type ℓ} (P : A → Type κ) : List A → Type (ℓ ⊔ κ) where
  here : {x : A} {xs : List A} → P x → Any P (x ∷ xs)
  there : {x : A} {xs : List A} → Any P xs → Any P (x ∷ xs)

-- `x` is the first element that passes the test `p`.
pub data First {ℓ} {A : Type ℓ} (p : A → Bool) (a : A) : List A → Type ℓ where
  first : {xs : List A} → p a ≡ true → First p a (a ∷ xs)
  later : {x : A} {xs : List A} → p x ≡ false → First p a xs → First p a (x ∷ xs)

module _ {ℓ} {A : Type ℓ} where
  pub any→Any : (p : A → Bool) (xs : List A) → any p xs ≡ true → Any (λ x. p x ≡ true) xs
  any→Any p [] h = absurd (false≢true h)
  any→Any p (x ∷ xs) h = elim (Bool-cases (p x)) [
    | inl e ↦ here e
    | inr e ↦ there (any→Any p xs (ground arith))
  ]

  pub Any→any : (p : A → Bool) {xs : List A} → Any (λ x. p x ≡ true) xs → any p xs ≡ true
  Any→any p (here e) = rw e
  Any→any p (there r) = ground (arith, Any→any p r)

  pub find→First : (p : A → Bool) (xs : List A) {a : A} → find p xs ≡ some a → First p a xs
  find→First p [] h = cc
  find→First p (x ∷ xs) {a} h = elim (Bool-cases (p x)) [
    | inl e ↦ subst (λ b. First p b (x ∷ xs)) (ground arith) (first e)
    | inr e ↦ later e (find→First p xs (ground arith))
  ]

  pub First→find : (p : A → Bool) {a : A} {xs : List A} → First p a xs → find p xs ≡ some a
  First→find p (first e) = rw e
  First→find p (later e r) = ground (arith, First→find p r)

module _ {ℓ} {A : Type ℓ} where
  pub Any-map {κ ν} :
      {B : Type κ} (P : B → Type ν) (f : A → B) (xs : List A)
      → Any P (map f xs)
      → Any (λ x. P (f x)) xs
  Any-map P f [] m = elim m [ ]
  Any-map P f (x ∷ xs) (here p) = here p
  Any-map P f (x ∷ xs) (there m) = there (Any-map P f xs m)

  pub All-Any {κ ν} :
      {P : A → Type κ} {Q : A → Type ν} {xs : List A} → All P xs → Any Q xs → (x : A) × P x × Q x
  All-Any a (here {x = x} q) = (x, a.0, q)
  All-Any a (there m) = All-Any a.1 m

  pub All-zip {κ ν} :
      (P : A → Type κ) (Q : A → Type ν) (xs : List A)
      → All P xs
      → All Q xs
      → All (λ x. P x × Q x) xs
  All-zip P Q [] h k = tt
  All-zip P Q (x ∷ xs) h k = ((h.0, k.0), All-zip P Q xs h.1 k.1)
