-- ===== src/Collections/Deduped.antt =====
-- What the removal of duplicates of src/tools/array_tools.rs keeps.
use redseat_rust.Base.{
  ◌≡◌, refl, Bool, true, not, List, [], ◌∷◌, Eq, ◌==◌, ==-flip, contains, arith, Bool-cases, inl,
  inr, filter, filter-cong, filter-filter, ◌∙◌, find-filter-other, find, sym, ap, subst,
}
use redseat_rust.Base.Distinct.{any-filter-not, Distinct, Distinct-filter}
use redseat_rust.Collections.{dedup_loop, dedup_key}

module _ {ℓ κ} {A : Type ℓ} {K : Type κ} ⦃e : Eq K⦄ (key : A → K) where
  abbrev pub same_key : A → A → Bool
  same_key a b = key a == key b

  -- A list without the elements that are not the first of their key.
  abbrev pub firsts : List A → List A
  firsts [] = []
  firsts (x ∷ xs) = x ∷ filter (λ y. not (same_key y x)) (firsts xs)

  firsts-Distinct : (xs : List A) → Distinct same_key (firsts xs)
  firsts-Distinct [] = tt
  firsts-Distinct (x ∷ xs) = (
    any-filter-not (λ y. same_key y x) (firsts xs),
    Distinct-filter same_key (λ y. not (same_key y x)) (firsts xs) (firsts-Distinct xs),
  )

  dedup_loop-firsts :
      (set : List K) (xs : List A)
      → dedup_loop key set xs ≡ filter (λ y. not (contains set (key y))) (firsts xs)
  unfolding dedup_loop
  dedup_loop-firsts set [] = refl
  dedup_loop-firsts set (x ∷ xs) = elim (Bool-cases (contains set (key x))) [
    | inl c ↦ rw c (
        dedup_loop-firsts set xs
        ∙ filter-cong _ _ (firsts xs) (λ y. ground (arith, same_seen y c))
        ∙ sym
            (filter-filter (λ y. not (contains set (key y))) (λ y. not (same_key y x)) (firsts xs)))
    | inr c ↦ rw c (
        ap (λ ys. x ∷ ys)
          (dedup_loop-firsts (key x ∷ set) xs
            ∙ filter-cong _ _ (firsts xs) (λ y. ground (arith, ==-flip (key x) (key y)))
            ∙ sym (
                filter-filter (λ y. not (contains set (key y))) (λ y. not (same_key y x))
                  (firsts xs))))
  ]
    where
      same_seen :
          (y : A) → contains set (key x) ≡ true → same_key y x ≡ true → contains set (key y) ≡ true
      same_seen y c h = ap (contains set) ((e.same_iff (key y) (key x)).0 h) ∙ c

  find-firsts :
      (k : K) (xs : List A) → find (λ x. key x == k) (firsts xs) ≡ find (λ x. key x == k) xs
  find-firsts k [] = refl
  find-firsts k (x ∷ xs) = elim (Bool-cases (key x == k)) [
    | inl h ↦ rw h refl
    | inr h ↦ rw h (
        find-filter-other (λ y. same_key y x) (λ y. key y == k) (firsts xs)
          (λ y q. ap (λ j. j == k) ((e.same_iff (key y) (key x)).0 q) ∙ h)
        ∙ find-firsts k xs)
  ]

  filter_all : (xs : List A) → filter (λ y. true) xs ≡ xs
  filter_all [] = refl
  filter_all (x ∷ xs) = ap (λ ys. x ∷ ys) (filter_all xs)

  -- The removal of duplicates keeps exactly the first element of each key, in their order: its
  -- result is the list without the elements that an earlier one shares its key with, no key is
  -- there twice, and the first element with a key is found as before.
  pub dedup_key-firsts :
      (xs : List A)
      → (dedup_key xs key ≡ firsts xs)
        × Distinct same_key (dedup_key xs key)
        × ((k : K) → find (λ x. key x == k) (dedup_key xs key) ≡ find (λ x. key x == k) xs)
  unfolding dedup_key
  dedup_key-firsts xs = (
    kept,
    subst (Distinct same_key) (sym kept) (firsts-Distinct xs),
    λ k. ap (find (λ x. key x == k)) kept ∙ find-firsts k xs,
  )
    where
      kept : dedup_key xs key ≡ firsts xs
      kept = dedup_loop-firsts [] xs ∙ filter_all (firsts xs)
