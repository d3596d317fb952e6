-- ===== src/Search/Index.antt =====
-- The index of the ids in `merge_result_ids`: which results stand under an id.
use redseat_rust.Base.{
  ℕ, zero, suc, ◌+◌, ◌<◌, ◌≡◌, ◌∙◌, refl, ap, String, Bool, false, ◌&&◌, ◌||◌, List, [], ◌∷◌, ◌++◌,
  ◌==◌, ==-refl, nat_eq, string_eq, any, contains, unwrap_or, arith, Bool-cases, inl, inr, eq_iff,
}
use redseat_rust.Base.Dict
use redseat_rust.Base.Dict.{Dict, NodupKeys}
use redseat_rust.Base.Distinct.{any-append}
use redseat_rust.Search.{Lookups, push_index, index_id, index_ids}

-- An index stands under an id.
abbrev pub under : String → ℕ → Dict String (List ℕ) → Bool
under id j d = any (λ i. i == j) (unwrap_or (Dict.lookup id d) [])

push-under :
    (key id : String) (idx j : ℕ) (d : Dict String (List ℕ))
    → under id j (push_index key idx d) ≡ (under id j d || (key == id && idx == j))
unfolding push_index
push-under key id idx j d = elim (Bool-cases (key == id)) [
  | inl e ↦ rw (Dict.lookup-insert key id (unwrap_or (Dict.lookup key d) [] ++ idx ∷ []) d) (
      rw e (
        any-append (λ i. i == j) (unwrap_or (Dict.lookup key d) []) (idx ∷ [])
        ∙ ap (λ k. under k j d || (idx == j || false)) ((eq_iff key id).0 e)
        ∙ ground arith))
  | inr e ↦
      rw (Dict.lookup-insert key id (unwrap_or (Dict.lookup key d) [] ++ idx ∷ []) d)
        (rw e (ground arith))
]

module _ (lookups : Lookups) where
  open lookups use {Ids, Wrapper, as_all_ids}

  -- A result, by its place, has an id.
  abbrev pub has_id : List Ids → ℕ → String → Bool
  has_id [] j id = false
  has_id (ids ∷ more) zero id = contains (as_all_ids ids) id
  has_id (ids ∷ more) (suc j) id = has_id more j id

  abbrev has_from : ℕ → List Ids → ℕ → String → Bool
  has_from start [] j id = false
  has_from start (ids ∷ more) j id =
      (start == j && contains (as_all_ids ids) id) || has_from (suc start) more j id

  index_id-under :
      (idx j : ℕ) (ids : List String) (id : String) (d : Dict String (List ℕ))
      → under id j (index_id lookups idx ids d) ≡ (under id j d || (idx == j && contains ids id))
  unfolding index_id
  index_id-under idx j [] id d = ground arith
  index_id-under idx j (k ∷ ids) id d =
      index_id-under idx j ids id (push_index k idx d) ∙ ground (arith, push-under k id idx j d)

  index_ids-under :
      (start j : ℕ) (idss : List Ids) (id : String) (d : Dict String (List ℕ))
      → under id j (index_ids lookups start idss d) ≡ (under id j d || has_from start idss j id)
  unfolding index_ids
  index_ids-under start j [] id d = ground arith
  index_ids-under start j (ids ∷ more) id d =
      index_ids-under (suc start) j more id (index_id lookups start (as_all_ids ids) d)
      ∙ ground (arith, index_id-under start j (as_all_ids ids) id d)

  has_from-below :
      (start j : ℕ) (idss : List Ids) (id : String) → j < start → has_from start idss j id ≡ false
  has_from-below start j [] id h = refl
  has_from-below start j (ids ∷ more) id h = ground (arith, has_from-below (suc start) j more id)

  has_from-has_id :
      (start j : ℕ) (idss : List Ids) (id : String)
      → has_from start idss (start + j) id ≡ has_id idss j id
  has_from-has_id start j [] id = refl
  has_from-has_id start zero (ids ∷ more) id =
      let e : start + 0 ≡ start = omega arith in
      rw e (ground (arith, has_from-below (suc start) start more id, ==-refl start))
  has_from-has_id start (suc j) (ids ∷ more) id =
      let e : start + suc j ≡ suc start + j = omega arith in
      rw e (ground (arith, has_from-has_id (suc start) j more id))

  abbrev pub index_of : List Ids → Dict String (List ℕ)
  index_of idss = index_ids lookups 0 idss []

  pub index_of-under :
      (idss : List Ids) (id : String) (j : ℕ) → under id j (index_of idss) ≡ has_id idss j id
  unfolding Dict.lookup
  index_of-under idss id j =
      index_ids-under 0 j idss id []
      ∙ ap (λ k. has_from 0 idss k id) (let e : j ≡ 0 + j = omega arith in e)
      ∙ has_from-has_id 0 j idss id

  index_id-NodupKeys :
      (idx : ℕ) (ids : List String) (d : Dict String (List ℕ))
      → NodupKeys d
      → NodupKeys (index_id lookups idx ids d)
  unfolding index_id push_index
  index_id-NodupKeys idx [] d h = h
  index_id-NodupKeys idx (k ∷ ids) d h =
      index_id-NodupKeys idx ids (push_index k idx d) (Dict.NodupKeys-insert k _ d h)

  pub index_ids-NodupKeys :
      (start : ℕ) (idss : List Ids) (d : Dict String (List ℕ))
      → NodupKeys d
      → NodupKeys (index_ids lookups start idss d)
  unfolding index_ids
  index_ids-NodupKeys start [] d h = h
  index_ids-NodupKeys start (ids ∷ more) d h =
      index_ids-NodupKeys (suc start) more _ (index_id-NodupKeys start (as_all_ids ids) d h)
