-- ===== src/Collections/Tests.antt =====
-- The theorems on the merges of lists at small lists, and runs of the source's own tests.
use redseat_rust.Base.{
  ◌≡◌, ◌↔◌, ◌-◌, refl, String, Option, none, some, List, [], ◌∷◌, ℕ, nat_eq, string_eq, ◌==◌, find,
}
use redseat_rust.Base.Distinct.{Distinct}
use redseat_rust.Collections.{
  replace_part, remove_part, add_part, remove_alts, swap_remove_at, position, push_missing,
  swap_remove, last_first, insert_second, replace_add_remove_from_array, add_or_set,
  add_remove_from_array, dedup_key, dedup_loop,
}
use redseat_rust.Collections.Updates.{
  count, items, count_merged, replace_add_remove_from_array-count,
}
use redseat_rust.Collections.Deduped.{same_key, firsts, dedup_key-firsts}

abbrev alts : Option (List ℕ)
alts = some (1 ∷ 2 ∷ 3 ∷ [])

abbrev old_alts : Option (List ℕ)
old_alts = some (9 ∷ [])

abbrev add_alts : Option (List ℕ)
add_alts = some (3 ∷ 4 ∷ 4 ∷ [])

abbrev removed_alts : Option (List ℕ)
removed_alts = some (1 ∷ [])

swap_removed :
    replace_add_remove_from_array old_alts alts add_alts removed_alts ≡ some (4 ∷ 2 ∷ 3 ∷ [])
unfolding replace_add_remove_from_array add_remove_from_array remove_part add_part replace_part
    remove_alts swap_remove_at position push_missing swap_remove last_first insert_second
swap_removed = refl

abbrev exist : Option (List String)
exist = some ("exist" ∷ [])

add_or_set_test : add_or_set exist ("test" ∷ "exist" ∷ []) ≡ some ("exist" ∷ "test" ∷ [])
unfolding add_or_set push_missing
add_or_set_test = refl

abbrev element_id : ℕ × String → ℕ
element_id p = p.0

abbrev elements : List (ℕ × String)
elements = (1, "aaa") ∷ (2, "BBB") ∷ (1, "ccc") ∷ (3, "ddd") ∷ []

test_dedup : dedup_key elements element_id ≡ (1, "aaa") ∷ (2, "BBB") ∷ (3, "ddd") ∷ []
unfolding dedup_key dedup_loop
test_dedup = refl

replace_add_remove_from_array-count_example :
    ((a : ℕ)
      → count a (items (replace_add_remove_from_array old_alts alts add_alts removed_alts))
        ≡ count_merged a (replace_part old_alts alts) add_alts - count a (items removed_alts))
    × ((replace_add_remove_from_array old_alts alts add_alts removed_alts ≡ none)
        ↔ ((old_alts ≡ none) × (alts ≡ none) × (add_alts ≡ none)))
replace_add_remove_from_array-count_example =
    replace_add_remove_from_array-count old_alts alts add_alts removed_alts

dedup_key-firsts_example :
    (dedup_key elements element_id ≡ firsts element_id elements)
    × Distinct (same_key element_id) (dedup_key elements element_id)
    × ((k : ℕ)
        → find (λ x. element_id x == k) (dedup_key elements element_id)
          ≡ find (λ x. element_id x == k) elements)
dedup_key-firsts_example = dedup_key-firsts element_id elements
