-- ===== src/Collections/Updates.antt =====
-- What the merges of src/tools/array_tools.rs do to the number of times an element occurs.
use mathlib.Core.Option
use redseat_rust.Base.{
  ap, sym, ◌∙◌, ◌↔◌, ==-refl, ℕ, zero, suc, ◌+◌, ◌-◌, ◌≡◌, refl, true, false, Option, none, some,
  List, [], ◌∷◌, ◌++◌, Eq, ◌==◌, contains, contains-append, if◌then◌else◌, arith, Bool-cases, inl,
  inr,
}
use redseat_rust.Collections.{
  insert_second, last_first, swap_remove, position, push_missing, swap_remove_at, remove_alts,
  add_part, remove_part, add_remove_from_array, replace_part, replace_add_remove_from_array,
  add_or_set,
}

module _ {ℓ} {A : Type ℓ} ⦃e : Eq A⦄ where
  -- How many times an element occurs.
  abbrev pub count : A → List A → ℕ
  count a [] = 0
  count a (x ∷ xs) = let rest = count a xs in if x == a then suc rest else rest

  abbrev pub items : Option (List A) → List A
  items none = []
  items (some xs) = xs

  -- How many times an element occurs once a second list is added: a list that is there takes what
  -- it misses, once; a list that is not there is set to the second.
  abbrev pub count_added : A → Option (List A) → List A → ℕ
  count_added a none add = count a add
  count_added a (some xs) add =
      if contains xs a then count a xs else if contains add a then 1 else 0

  -- How many times an element occurs before the removals.
  abbrev pub count_merged : A → Option (List A) → Option (List A) → ℕ
  count_merged a base none = count a (items base)
  count_merged a base (some add) = count_added a base add

  count_not_contained : (a : A) (xs : List A) → contains xs a ≡ false → count a xs ≡ 0
  count_not_contained a [] h = refl
  count_not_contained a (x ∷ xs) h = ground (arith, count_not_contained a xs)

  count-snoc :
      (a y : A) (xs : List A) → count a (xs ++ y ∷ []) ≡ count a xs + (if y == a then 1 else 0)
  count-snoc a y [] = ground arith
  count-snoc a y (x ∷ xs) = ground (arith, count-snoc a y xs)

  contained : (a y : A) (xs : List A) → (y == a) ≡ true → contains xs a ≡ contains xs y
  contained a y xs h = ap (contains xs) (sym ((e.same_iff y a).0 h))

  ==-ap : (x y a : A) → (x == y) ≡ true → (x == a) ≡ (y == a)
  ==-ap x y a h = ap (λ z. z == a) ((e.same_iff x y).0 h)

  count-insert_second : (a x : A) (xs : List A) → count a (insert_second x xs) ≡ count a (x ∷ xs)
  unfolding insert_second
  count-insert_second a x [] = refl
  count-insert_second a x (l ∷ ls) = ground arith

  count-last_first : (a : A) (xs : List A) → count a (last_first xs) ≡ count a xs
  unfolding last_first
  count-last_first a [] = refl
  count-last_first a (x ∷ []) = refl
  count-last_first a (x ∷ y ∷ ys) =
      ground (arith, count-insert_second a x (last_first (y ∷ ys)), count-last_first a (y ∷ ys))

  swap_remove_at-suc :
      (x : A) (xs : List A) (i : Option ℕ)
      → swap_remove_at (x ∷ xs) (Option.map suc i) ≡ x ∷ swap_remove_at xs i
  unfolding swap_remove_at swap_remove
  swap_remove_at-suc x xs none = refl
  swap_remove_at-suc x xs (some i) = refl

  count-swap_remove_none :
      (a b : A) → count a (swap_remove_at [] none) ≡ 0 - (if b == a then 1 else 0)
  unfolding swap_remove_at
  count-swap_remove_none a b = ground arith

  count-swap_remove_first :
      (a b x : A) (xs : List A)
      → (x == b) ≡ true
      → count a (swap_remove_at (x ∷ xs) (some zero)) ≡ count a (x ∷ xs) - (if b == a then 1 else 0)
  unfolding swap_remove_at swap_remove
  count-swap_remove_first a b x xs f = ground (arith, count-last_first a xs, ==-ap x b a)

  count-swap_remove :
      (a b : A) (xs : List A)
      → count a (swap_remove_at xs (position b xs)) ≡ count a xs - (if b == a then 1 else 0)
  unfolding position
  count-swap_remove a b [] = count-swap_remove_none a b
  count-swap_remove a b (x ∷ xs) = elim (Bool-cases (x == b)) [
    | inl f ↦ rw f (count-swap_remove_first a b x xs f)
    | inr f ↦
        rw (f, swap_remove_at-suc x xs (position b xs))
          (ground
            (arith, count-swap_remove a b xs, ==-ap x a b, ==-ap b a x, ==-refl b, ==-ap b a b))
  ]

  count-push_missing :
      (a : A) (xs ys : List A) → count a (push_missing xs ys) ≡ count_added a (some xs) ys
  unfolding push_missing
  count-push_missing a xs [] = ground (arith, count_not_contained a xs)
  count-push_missing a xs (y ∷ ys) = elim (Bool-cases (contains xs y)) [
    | inl f ↦ rw f (ground (arith, count-push_missing a xs ys, contained a y xs))
    | inr f ↦ rw f (
        ground (
          arith,
          count-push_missing a (xs ++ y ∷ []) ys,
          count-snoc a y xs,
          contains-append xs (y ∷ []) a,
          contained a y xs,
          contained y a xs,
          ==-ap y a y,
          count_not_contained a xs,
        ))
  ]

  count-remove_alts :
      (a : A) (xs ys : List A) → count a (remove_alts xs ys) ≡ count a xs - count a ys
  unfolding remove_alts
  count-remove_alts a xs [] = omega arith
  count-remove_alts a xs (y ∷ ys) =
      ground (
        arith,
        count-remove_alts a (swap_remove_at xs (position y xs)) ys,
        count-swap_remove a y xs,
      )

  count-add_part :
      (a : A) (base add : Option (List A))
      → count a (items (add_part base add)) ≡ count_merged a base add
  unfolding add_part
  count-add_part a base none = refl
  count-add_part a none (some ys) = refl
  count-add_part a (some xs) (some ys) = count-push_missing a xs ys

  count-remove_part :
      (a : A) (base remove : Option (List A))
      → count a (items (remove_part base remove)) ≡ count a (items base) - count a (items remove)
  unfolding remove_part
  count-remove_part a none none = refl
  count-remove_part a none (some ys) = omega arith
  count-remove_part a (some xs) none = omega arith
  count-remove_part a (some xs) (some ys) = count-remove_alts a xs ys

  remove_part-none :
      (base remove : Option (List A)) → (remove_part base remove ≡ none) ↔ (base ≡ none)
  unfolding remove_part
  remove_part-none none none = ground arith
  remove_part-none none (some ys) = ground arith
  remove_part-none (some xs) none = ground arith
  remove_part-none (some xs) (some ys) = ground arith

  add_part-none :
      (base add : Option (List A)) → (add_part base add ≡ none) ↔ ((base ≡ none) × (add ≡ none))
  unfolding add_part
  add_part-none none none = ground arith
  add_part-none none (some ys) = ground arith
  add_part-none (some xs) none = ground arith
  add_part-none (some xs) (some ys) = ground arith

  replace_part-none :
      (base replace : Option (List A))
      → (replace_part base replace ≡ none) ↔ ((base ≡ none) × (replace ≡ none))
  unfolding replace_part
  replace_part-none none none = ground arith
  replace_part-none none (some ys) = ground arith
  replace_part-none (some xs) none = ground arith
  replace_part-none (some xs) (some ys) = ground arith

  -- What is there once an update of an optional list is applied: the list that replaces it, or else
  -- the one that was there, takes each element of the additions that it misses once (or is set to
  -- the additions when there was no list), and then loses one occurrence of an element for each
  -- time the removals name it. The update gives a list unless there was none, none replaces it and
  -- none is added.
  pub replace_add_remove_from_array-count :
      (existing replace add remove : Option (List A))
      → ((a : A)
          → count a (items (replace_add_remove_from_array existing replace add remove))
            ≡ count_merged a (replace_part existing replace) add - count a (items remove))
        × ((replace_add_remove_from_array existing replace add remove ≡ none)
            ↔ ((existing ≡ none) × (replace ≡ none) × (add ≡ none)))
  unfolding replace_add_remove_from_array add_remove_from_array
  replace_add_remove_from_array-count existing replace add remove = (
    λ a.
        count-remove_part a (add_part (replace_part existing replace) add) remove
        ∙ ap (λ n. n - count a (items remove))
            (count-add_part a (replace_part existing replace) add),
    absent existing replace add remove,
  )
    where
      absent :
          (existing replace add remove : Option (List A))
          → (remove_part (add_part (replace_part existing replace) add) remove ≡ none)
            ↔ ((existing ≡ none) × (replace ≡ none) × (add ≡ none))
      absent existing replace add remove = ground (
        arith,
        remove_part-none (add_part (replace_part existing replace) add) remove,
        add_part-none (replace_part existing replace) add,
        replace_part-none existing replace,
      )

  -- Adding to an optional list in place is the update that only adds.
  pub add_or_set-eq-add_remove_from_array :
      (self : Option (List A)) (add : List A)
      → add_or_set self add ≡ add_remove_from_array self (some add) none
  unfolding add_or_set add_remove_from_array add_part remove_part
  add_or_set-eq-add_remove_from_array none add = refl
  add_or_set-eq-add_remove_from_array (some existing) add = refl
