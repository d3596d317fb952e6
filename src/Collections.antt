-- ===== src/Collections.antt =====
-- The merges of optional lists and the removal of duplicates of src/tools/array_tools.rs.
mod Deduped
mod Tests
mod Updates
use redseat_rust.Base.{
  ℕ, zero, suc, Bool, Option, none, some, List, [], ◌∷◌, ◌++◌, Eq, ◌==◌, contains, if◌then◌else◌,
}
use redseat_rust.Base.Sets.{insert}
use mathlib.Core.Option

module _ {ℓ} {A : Type ℓ} where
  unfoldable pub insert_second : A → List A → List A
  insert_second x [] = x ∷ []
  insert_second x (l ∷ ls) = l ∷ x ∷ ls

  -- What is left of a vector whose first element is removed: its last element comes first.
  unfoldable pub last_first : List A → List A
  last_first [] = []
  last_first (x ∷ []) = x ∷ []
  last_first (x ∷ y ∷ ys) = insert_second x (last_first (y ∷ ys))

  -- `Vec::swap_remove` at an index of the vector.
  unfoldable pub swap_remove : List A → ℕ → List A
  swap_remove [] i = []
  swap_remove (x ∷ xs) zero = last_first xs
  swap_remove (x ∷ xs) (suc i) = x ∷ swap_remove xs i

module _ {ℓ} {A : Type ℓ} ⦃e : Eq A⦄ where
  -- The index of the first equal element.
  unfoldable pub position : A → List A → Option ℕ
  position a [] = none
  position a (x ∷ xs) =
      let rest = position a xs in if x == a then some zero else Option.map suc rest

  unfoldable pub push_missing : List A → List A → List A
  push_missing existing [] = existing
  push_missing existing (alt ∷ alts) =
      push_missing (if contains existing alt then existing else existing ++ alt ∷ []) alts

  unfoldable pub swap_remove_at : List A → Option ℕ → List A
  swap_remove_at existing none = existing
  swap_remove_at existing (some index) = swap_remove existing index

  unfoldable pub remove_alts : List A → List A → List A
  remove_alts existing [] = existing
  remove_alts existing (alt ∷ alts) =
      remove_alts (swap_remove_at existing (position alt existing)) alts

  unfoldable pub add_part : Option (List A) → Option (List A) → Option (List A)
  add_part existing none = existing
  add_part none (some add_alts) = some add_alts
  add_part (some existing_alts) (some add_alts) = some (push_missing existing_alts add_alts)

  unfoldable pub remove_part : Option (List A) → Option (List A) → Option (List A)
  remove_part alts none = alts
  remove_part none (some _) = none
  remove_part (some existing_alts) (some alts) = some (remove_alts existing_alts alts)

  unfoldable pub add_remove_from_array :
      Option (List A) → Option (List A) → Option (List A) → Option (List A)
  add_remove_from_array existing add remove = remove_part (add_part existing add) remove

  unfoldable pub replace_part : Option (List A) → Option (List A) → Option (List A)
  replace_part existing none = existing
  replace_part existing (some a) = some a

  unfoldable pub replace_add_remove_from_array :
      Option (List A) → Option (List A) → Option (List A) → Option (List A) → Option (List A)
  replace_add_remove_from_array existing replace add remove =
      add_remove_from_array (replace_part existing replace) add remove

  unfoldable add_or_set : Option (List A) → List A → Option (List A)
  add_or_set none add = some add
  add_or_set (some existing) add = some (push_missing existing add)

module _ {ℓ κ} {A : Type ℓ} {K : Type κ} ⦃e : Eq K⦄ where
  -- The loop, with the set of the keys seen.
  unfoldable dedup_loop : (A → K) → List K → List A → List A
  dedup_loop key set [] = []
  dedup_loop key set (element ∷ elements) =
      if contains set (key element)
      then dedup_loop key set elements
      else element ∷ dedup_loop key (insert (key element) set) elements

  unfoldable dedup_key : List A → (A → K) → List A
  dedup_key elements key = dedup_loop key [] elements
