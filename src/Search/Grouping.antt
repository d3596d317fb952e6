-- ===== src/Search/Grouping.antt =====
-- The components that `merge_result_ids` groups by root, and what merging them writes.
use redseat_rust.Base.{
  ℕ, ◌<◌, ◌≡◌, ◌∙◌, refl, sym, ap, subst, true, false, Option, none, some, List, [], ◌∷◌, ◌++◌,
  ◌==◌, nat_eq, unwrap_or, if◌then◌else◌, filter, filter-append, arith, Bool-cases, inl, inr,
  append-nil, append_assoc, nat_beq_iff, ◌⊎◌,
}
use redseat_rust.Base.Dict
use redseat_rust.Base.Dict.{Dict, NodupKeys}
use redseat_rust.Search.{push_index, group_roots}
use redseat_rust.Search.UnionFind.{Parents}
use redseat_rust.Search.Forest.{Rooted, find_root-Forest}

-- The indices of one class.
abbrev pub class_of : (ℕ → ℕ) → ℕ → List ℕ → List ℕ
class_of rep r = filter (λ j. rep j == r)

abbrev pub unless_empty : List ℕ → Option (List ℕ)
unless_empty [] = none
unless_empty (i ∷ is) = some (i ∷ is)

-- A dictionary holds the classes of a list.
pub record Groups (rep : ℕ → ℕ) (done : List ℕ) (d : Dict ℕ (List ℕ)) : Type 0 where
  pub found : (r : ℕ) → Dict.lookup r d ≡ unless_empty (class_of rep r done)
  pub nodup : NodupKeys d

unless_empty-push :
    (is : List ℕ) (i : ℕ)
    → unless_empty (is ++ i ∷ []) ≡ some (unwrap_or (unless_empty is) [] ++ i ∷ [])
unless_empty-push [] i = refl
unless_empty-push (j ∷ is) i = refl

push-Groups :
    {rep : ℕ → ℕ} (done : List ℕ) (i : ℕ) (d : Dict ℕ (List ℕ))
    → Groups rep done d
    → Groups rep (done ++ i ∷ []) (push_index (rep i) i d)
unfolding push_index
push-Groups {rep} done i d g = record {
  found = λ r. Dict.lookup-insert (rep i) r _ d ∙ ap-if r (Bool-cases (rep i == r));
  nodup = Dict.NodupKeys-insert (rep i) _ d g.nodup;
}
  where
    ap-if :
        (r : ℕ)
        → (((rep i == r) ≡ true) ⊎ ((rep i == r) ≡ false))
        → (if rep i == r
            then some (unwrap_or (Dict.lookup (rep i) d) [] ++ i ∷ [])
            else Dict.lookup r d)
          ≡ unless_empty (class_of rep r (done ++ i ∷ []))
    ap-if r (inl e) = rw e (
        rw (filter-append (λ j. rep j == r) done (i ∷ [])) (
          rw e (
            rw (unless_empty-push (class_of rep r done) i) (
              ap (λ o. some (unwrap_or o [] ++ i ∷ []))
                (ap (λ k. Dict.lookup k d) ((nat_beq_iff (rep i) r).0 e) ∙ g.found r)))))
    ap-if r (inr e) = rw e (
        rw (filter-append (λ j. rep j == r) done (i ∷ []))
          (rw e (rw (append-nil (class_of rep r done)) (g.found r))))

pub group_roots-Groups :
    (fuel : ℕ) (is done : List ℕ) {parent : Parents} {rep : ℕ → ℕ} {m : ℕ} (d : Dict ℕ (List ℕ))
    → Rooted parent rep m
    → m < fuel
    → Groups rep done d
    → (d' : Dict ℕ (List ℕ)) × (group_roots fuel is parent d ≡ some d') × Groups rep (done ++ is) d'
unfolding group_roots
group_roots-Groups fuel [] done {rep = rep} d r h g =
    (d, refl, subst (λ l. Groups rep l d) (sym (append-nil done)) g)
group_roots-Groups fuel (i ∷ is) done {parent} {rep} {m} d (depth, f) h g =
    let root = find_root-Forest fuel {parent = parent} i f (omega (arith, f.bounded i)) in
    let rest =
      group_roots-Groups fuel is (done ++ i ∷ []) {parent = root.0} (push_index (rep i) i d)
        (depth, root.2) h (push-Groups done i d g) in
    (
      rest.0,
      rw root.1 rest.1,
      subst (λ l. Groups rep l rest.0) (append_assoc done (i ∷ []) is) rest.2,
    )
