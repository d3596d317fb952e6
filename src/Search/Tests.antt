-- ===== src/Search/Tests.antt =====
-- The theorems on merged ids at three results, the first and the last of which share an id.
use redseat_rust.Base.{
  ℕ, ◌≡◌, ◌↔◌, refl, String, some, List, [], ◌∷◌, ◌++◌, any, contains, string_eq, get_elem?,
}
use redseat_rust.Search.{
  Lookups, index_ids, index_id, push_index, group_roots, merge_members, apply_members,
  merge_component, merge_components, merge_result_ids, enrich_from_seen, merge_seen,
}
use redseat_rust.Base.Dict
use redseat_rust.Search.UnionFind.{
  Parents, assign, find_root, join_roots, union, union_rest, union_indices, union_all,
}
use redseat_rust.Search.Merging.{sharing, merged_result, merge_result_ids-class}
use redseat_rust.Search.Sharing.{Related, fuel, root_in, union_all-Related}

-- A result is the list of its ids.
abbrev texts : Lookups
texts = record {
  Ids = List String;
  Wrapper = List String;
  extract_ids = some;
  no_ids = [];
  as_all_ids = λ ids. ids;
  merge = λ a b. a ++ b;
  apply_ids = λ w ids. ids;
  has_common_id = λ a b. any (contains a) b;
}

abbrev found : List (List String)
found = ("imdb:1" ∷ []) ∷ ("imdb:2" ∷ []) ∷ ("tmdb:7" ∷ "imdb:1" ∷ []) ∷ []

merged_first_and_last :
    merge_result_ids texts found
    ≡ some (
        ("imdb:1" ∷ "tmdb:7" ∷ "imdb:1" ∷ [])
        ∷ ("imdb:2" ∷ [])
        ∷ ("imdb:1" ∷ "tmdb:7" ∷ "imdb:1" ∷ [])
        ∷ [])
unfolding merge_result_ids union_all Dict.values index_ids index_id push_index Dict.insert
    union_indices Dict.lookup union_rest union find_root group_roots join_roots assign
    merge_components merge_component apply_members merge_members
merged_first_and_last = refl

enriched :
    enrich_from_seen texts (("imdb:1" ∷ []) ∷ []) (("a" ∷ "imdb:1" ∷ []) ∷ ("b" ∷ []) ∷ []) ≡ (
      ("a" ∷ "imdb:1" ∷ "imdb:1" ∷ []) ∷ ("b" ∷ []) ∷ [],
      ("a" ∷ "imdb:1" ∷ "imdb:1" ∷ []) ∷ ("b" ∷ []) ∷ [],
    )
unfolding enrich_from_seen merge_seen
enriched = refl

merge_result_ids-class_example :
    (merged : List (List String)) × (merge_result_ids texts found ≡ some merged)
    × ((i : ℕ) → get_elem? merged i ≡ merged_result texts found (sharing texts found) i)
merge_result_ids-class_example = merge_result_ids-class texts found

union_all-Related_example :
    (parent : Parents) × (union_all (fuel texts found) (sharing texts found) (λ x. x) ≡ some parent)
    × ((x : ℕ) → (root : ℕ) × (root_in texts found parent x ≡ some root))
    × ((x y : ℕ)
        → (root_in texts found parent x ≡ root_in texts found parent y) ↔ Related texts found x y)
union_all-Related_example = union_all-Related texts found
