-- ===== src/Search.antt =====
-- The merging of lookup results: src/model/entity_search.rs. The results of all groups stand in one
-- list, in the order in which `entries` numbers them: the names of the groups are not read. The
-- types `RsIds` and `RsLookupMetadataResultWrapper` of the plugin interface, with their methods,
-- are a parameter.
mod Classes
mod Forest
mod Grouping
mod Index
mod Merging
mod Sharing
mod Tests
mod UnionFind
mod Writing
use redseat_rust.Base.{
  ℕ, zero, suc, ◌+◌, String, Bool, true, false, Option, none, some, List, [], ◌∷◌, ◌++◌, Eq, ◌==◌,
  nat_eq, string_eq, length, get_elem?, set, ltb, leb, and_then, unwrap_or, if◌then◌else◌, map, any,
  filter,
}
use redseat_rust.Base.Dict
use redseat_rust.Base.Dict.{Dict}
use redseat_rust.Search.UnionFind.{Parents, find_root, union_all}

pub record Lookups : Type 1 where
  pub Ids : Type 0
  pub Wrapper : Type 0
  pub extract_ids : Wrapper → Option Ids
  pub no_ids : Ids
  pub as_all_ids : Ids → List String
  pub merge : Ids → Ids → Ids
  pub apply_ids : Wrapper → Ids → Wrapper
  pub has_common_id : Ids → Ids → Bool

-- `entry(key).or_default().push(idx)`
unfoldable pub push_index {ℓ} : {K : Type ℓ} ⦃e : Eq K⦄ → K → ℕ → Dict K (List ℕ) → Dict K (List ℕ)
push_index key idx d = Dict.insert key (unwrap_or (Dict.lookup key d) [] ++ idx ∷ []) d

abbrev pub range : ℕ → ℕ → List ℕ
range start zero = []
range start (suc n) = start ∷ range (suc start) n

unfoldable pub group_roots : ℕ → List ℕ → Parents → Dict ℕ (List ℕ) → Option (Dict ℕ (List ℕ))
group_roots fuel [] parent components = some components
group_roots fuel (i ∷ is) parent components =
    and_then (find_root fuel parent i)
      λ (root, parent'). group_roots fuel is parent' (push_index root i components)

abbrev pub total : List (List ℕ) → ℕ
total [] = 0
total (is ∷ more) = length is + total more

module _ (lookups : Lookups) where
  open lookups use {Ids, Wrapper, extract_ids, no_ids, as_all_ids, merge, apply_ids, has_common_id}

  abbrev pub ids_of : List Wrapper → List Ids
  ids_of = map (λ w. unwrap_or (extract_ids w) no_ids)

  unfoldable pub index_id : ℕ → List String → Dict String (List ℕ) → Dict String (List ℕ)
  index_id idx [] d = d
  index_id idx (id ∷ ids) d = index_id idx ids (push_index id idx d)

  unfoldable pub index_ids : ℕ → List Ids → Dict String (List ℕ) → Dict String (List ℕ)
  index_ids idx [] d = d
  index_ids idx (ids ∷ more) d = index_ids (suc idx) more (index_id idx (as_all_ids ids) d)

  unfoldable pub merge_members : List Ids → Ids → List ℕ → Ids
  merge_members ids_vec merged [] = merged
  merge_members ids_vec merged (idx ∷ members) =
      merge_members ids_vec (merge merged (unwrap_or (get_elem? ids_vec idx) no_ids)) members

  abbrev pub apply_at : Ids → ℕ → List Wrapper → Option Wrapper → List Wrapper
  apply_at merged idx results none = results
  apply_at merged idx results (some w) = set results idx (apply_ids w merged)

  unfoldable pub apply_members : Ids → List ℕ → List Wrapper → List Wrapper
  apply_members merged [] results = results
  apply_members merged (idx ∷ members) results =
      apply_members merged members (apply_at merged idx results (get_elem? results idx))

  unfoldable pub merge_component : List Ids → List ℕ → List Wrapper → List Wrapper
  merge_component ids_vec members results =
      if leb (length members) 1
      then results
      else apply_members (merge_members ids_vec no_ids members) members results

  unfoldable pub merge_components : List Ids → List (List ℕ) → List Wrapper → List Wrapper
  merge_components ids_vec [] results = results
  merge_components ids_vec (members ∷ more) results =
      merge_components ids_vec more (merge_component ids_vec members results)

  -- The fuel of every `find` is more than the indices that are joined.
  abbrev pub merge_with : List Wrapper → List (List ℕ) → Option (List Wrapper)
  merge_with results values = and_then (union_all (suc (total values)) values (λ x. x)) λ parent.
      and_then (group_roots (suc (total values)) (range 0 (length results)) parent [])
        λ components. some (merge_components (ids_of results) (Dict.values components) results)

  unfoldable pub merge_result_ids : List Wrapper → Option (List Wrapper)
  merge_result_ids results =
      if leb (length results) 1
      then some results
      else merge_with results (Dict.values (index_ids 0 (ids_of results) []))

  abbrev pub Enriched : Type 0
  Enriched = Ids × Bool

  -- The loop over the ids seen before, with whether one was merged.
  unfoldable pub merge_seen : List Ids → Enriched → Enriched
  merge_seen [] (ids, enriched) = (ids, enriched)
  merge_seen (seen ∷ more) (ids, enriched) =
      merge_seen more (if has_common_id ids seen then (merge ids seen, true) else (ids, enriched))

  abbrev pub enriched_result : Wrapper → Enriched → Wrapper
  enriched_result w (ids, enriched) = if enriched then apply_ids w ids else w

  -- One result with the ids that it adds.
  abbrev pub enrich_one : List Ids → Wrapper → Option Ids → Wrapper × List Ids
  enrich_one seen w none = (w, [])
  enrich_one seen w (some ids) =
      let found = merge_seen seen (ids, false) in (enriched_result w found, found.0 ∷ [])

  unfoldable pub enrich_from_seen : List Ids → List Wrapper → List Wrapper × List Ids
  enrich_from_seen seen [] = ([], [])
  enrich_from_seen seen (w ∷ ws) =
      let (w', new) = enrich_one seen w (extract_ids w) in
      let (ws', more) = enrich_from_seen seen ws in (w' ∷ ws', new ++ more)
