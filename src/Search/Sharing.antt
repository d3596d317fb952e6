-- ===== src/Search/Sharing.antt =====
-- The classes of `merge_result_ids` are the results joined by chains of shared ids.
use mathlib.Core.Bool.{false≢true}
use redseat_rust.Base.{
  ℕ, suc, ◌<◌, Option, some, ◌≡◌, ◌∙◌, ◌↔◌, ◌⊎◌, sym, ap, String, true, none, List, [], ◌∷◌, ◌++◌,
  ◌==◌, ==-refl, nat_eq, string_eq, nat_beq_iff, any, unwrap_or, arith, Bool-cases, inl, inr, Any,
  here, there, eq_iff, eq_refl,
}
use mathlib.Core.Option
use redseat_rust.Base.Dict
use redseat_rust.Base.Dict.{Dict, NodupKeys}
use redseat_rust.Search.{Lookups, ids_of, total}
use redseat_rust.Search.UnionFind.{Parents, find_root, union_all}
use redseat_rust.Search.Forest.{Rooted, find_root-Forest}
use redseat_rust.Search.Classes.{
  Pairs, with_root, pairs_of, all_pairs, classes, Linked, together, paired, flip, chain,
  union_all-classes, classes-Linked,
}
use redseat_rust.Search.Merging.{sharing, length-all_pairs}
use redseat_rust.Search.Index.{under, has_id, index_of, index_of-under, index_ids-NodupKeys}

some-injective : {x y : ℕ} → some x ≡ some y → x ≡ y
some-injective {x} e = ap (λ o. unwrap_or o x) e

-- Pairs of one list, and of a dictionary of lists.
with_root-members :
    (root : ℕ) (is : List ℕ) {x y : ℕ}
    → Any (λ p. p ≡ (x, y)) (with_root root is)
    → (root ≡ x) × (any (λ i. i == y) is ≡ true)
with_root-members root [] m = elim m [ ]
with_root-members root (i ∷ is) {x} {y} (here e) =
    (ap (λ p. p.0) e, ground (arith, ap (λ (p : ℕ × ℕ). p.1) e, ==-refl i))
with_root-members root (i ∷ is) {x} {y} (there m) =
    let rest = with_root-members root is {x = x} {y = y} m in (rest.0, ground arith)

pairs_of-members :
    (is : List ℕ) {x y : ℕ}
    → Any (λ p. p ≡ (x, y)) (pairs_of is)
    → (any (λ i. i == x) is ≡ true) × (any (λ i. i == y) is ≡ true)
pairs_of-members [] m = elim m [ ]
pairs_of-members (root ∷ is) {x} {y} m =
    let rest = with_root-members root is {x = x} {y = y} m in
    (ground (arith, nat_beq_iff root x), ground arith)

Any-split {ℓ κ} :
    {A : Type ℓ} {P : A → Type κ} (xs : List A) {ys : List A}
    → Any P (xs ++ ys)
    → Any P xs ⊎ Any P ys
Any-split [] m = inr m
Any-split (x ∷ xs) (here p) = inl (here p)
Any-split (x ∷ xs) (there m) = elim (Any-split xs m) [ inl l ↦ inl (there l) | inr r ↦ inr r ]

Any-left {ℓ κ} :
    {A : Type ℓ} {P : A → Type κ} {xs : List A} (ys : List A) → Any P xs → Any P (xs ++ ys)
Any-left ys (here p) = here p
Any-left ys (there m) = there (Any-left ys m)

Any-right {ℓ κ} :
    {A : Type ℓ} {P : A → Type κ} (xs : List A) {ys : List A} → Any P ys → Any P (xs ++ ys)
Any-right [] m = m
Any-right (x ∷ xs) m = there (Any-right xs m)

under-tail :
    (k : String) (is : List ℕ) (d : Dict String (List ℕ)) (id : String) (x : ℕ)
    → Dict.lookup k d ≡ none
    → under id x d ≡ true
    → under id x ((k, is) ∷ d) ≡ true
unfolding Dict.lookup
under-tail k is d id x h u = elim (Bool-cases (k == id)) [
  | inl e ↦ absurd (
      false≢true (
        sym (
          ap (λ o. any (λ i. i == x) (unwrap_or o []))
            (ap (λ j. Dict.lookup j d) (sym ((eq_iff k id).0 e)) ∙ h))
        ∙ u))
  | inr e ↦ rw e u
]

paired-under :
    (d : Dict String (List ℕ)) {x y : ℕ}
    → NodupKeys d
    → Any (λ p. p ≡ (x, y)) (all_pairs (Dict.values d))
    → (id : String) × (under id x d ≡ true) × (under id y d ≡ true)
unfolding Dict.values Dict.lookup
paired-under [] h m = elim m [ ]
paired-under ((k, is) ∷ d) {x} {y} h m = elim (Any-split (pairs_of is) m) [
  | inl l ↦
      let both = pairs_of-members is {x = x} {y = y} l in
      (k, rw (eq_refl k) both.0, rw (eq_refl k) both.1)
  | inr r ↦
      let rest = paired-under d {x = x} {y = y} h.1 r in
      (rest.0, under-tail k is d rest.0 x h.0 rest.1, under-tail k is d rest.0 y h.0 rest.2)
]

Linked-map :
    {rep : ℕ → ℕ} {ps qs : Pairs}
    → ((x y : ℕ) → Any (λ p. p ≡ (x, y)) ps → Any (λ p. p ≡ (x, y)) qs)
    → {x y : ℕ} → Linked rep ps x y
    → Linked rep qs x y
Linked-map f (together e) = together e
Linked-map f (paired {x = x} {y = y} m) = paired (f x y m)
Linked-map f (flip l) = flip (Linked-map f l)
Linked-map f (chain l m) = chain (Linked-map f l) (Linked-map f m)

member-with_root :
    (root : ℕ) (is : List ℕ) (x : ℕ)
    → any (λ i. i == x) is ≡ true
    → Any (λ p. p ≡ (root, x)) (with_root root is)
member-with_root root [] x h = absurd (false≢true h)
member-with_root root (i ∷ is) x h = elim (Bool-cases (i == x)) [
  | inl e ↦ here (ap (λ k. (root, k)) ((nat_beq_iff i x).0 e))
  | inr e ↦ there (member-with_root root is x (ground arith))
]

abbrev start : ℕ → ℕ
start x = x

root-Linked :
    (root : ℕ) (is : List ℕ) (x : ℕ)
    → any (λ i. i == x) (root ∷ is) ≡ true
    → Linked start (with_root root is) root x
root-Linked root is x h = elim (Bool-cases (root == x)) [
  | inl e ↦ together ((nat_beq_iff root x).0 e)
  | inr e ↦ paired (member-with_root root is x (ground arith))
]

pairs_of-Linked :
    (is : List ℕ) (x y : ℕ)
    → any (λ i. i == x) is ≡ true
    → any (λ i. i == y) is ≡ true
    → Linked start (pairs_of is) x y
pairs_of-Linked [] x y h k = absurd (false≢true h)
pairs_of-Linked (root ∷ is) x y h k =
    chain (flip (root-Linked root is x h)) (root-Linked root is y k)

under-Linked :
    (d : Dict String (List ℕ)) (id : String) (x y : ℕ)
    → under id x d ≡ true
    → under id y d ≡ true
    → Linked start (all_pairs (Dict.values d)) x y
unfolding Dict.values Dict.lookup
under-Linked [] id x y h k = absurd (false≢true h)
under-Linked ((j, is) ∷ d) id x y h k = elim (Bool-cases (j == id)) [
  | inl e ↦
      Linked-map (λ a b. Any-left (all_pairs (Dict.values d)))
        (pairs_of-Linked is x y (ground arith) (ground arith))
  | inr e ↦
      Linked-map (λ a b. Any-right (pairs_of is))
        (under-Linked d id x y (ground arith) (ground arith))
]

module _ (lookups : Lookups) (results : List lookups.Wrapper) where
  -- Joined by a chain of results of which each shares an id with the next.
  pub data Related : ℕ → ℕ → Type 0 where
    itself : {x y : ℕ} → x ≡ y → Related x y
    shared :
        {x y : ℕ} (id : String)
        → has_id lookups (ids_of lookups results) x id ≡ true
        → has_id lookups (ids_of lookups results) y id ≡ true
        → Related x y
    back : {x y : ℕ} → Related x y → Related y x
    through : {x y z : ℕ} → Related x y → Related y z → Related x z

  Linked→Related : {x y : ℕ} → Linked start (all_pairs (sharing lookups results)) x y → Related x y
  Linked→Related (together e) = itself e
  Linked→Related (paired {x = x} {y = y} m) =
      let both =
        paired-under (index_of lookups (ids_of lookups results)) {x = x} {y = y}
          (index_ids-NodupKeys lookups 0 (ids_of lookups results) [] tt) m in
      shared both.0 (sym (index_of-under lookups (ids_of lookups results) both.0 x) ∙ both.1)
        (sym (index_of-under lookups (ids_of lookups results) both.0 y) ∙ both.2)
  Linked→Related (flip l) = back (Linked→Related l)
  Linked→Related (chain l m) = through (Linked→Related l) (Linked→Related m)

  Related→Linked : {x y : ℕ} → Related x y → Linked start (all_pairs (sharing lookups results)) x y
  Related→Linked (itself e) = together e
  Related→Linked (shared {x = x} {y = y} id h k) =
      under-Linked (index_of lookups (ids_of lookups results)) id x y
        (index_of-under lookups (ids_of lookups results) id x ∙ h)
        (index_of-under lookups (ids_of lookups results) id y ∙ k)
  Related→Linked (back l) = flip (Related→Linked l)
  Related→Linked (through l m) = chain (Related→Linked l) (Related→Linked m)

  sharing-Related :
      (x y : ℕ)
      → (classes (sharing lookups results) x ≡ classes (sharing lookups results) y) ↔ Related x y
  sharing-Related x y = (
    λ e. Linked→Related ((classes-Linked (sharing lookups results) x y).0 e),
    λ r. (classes-Linked (sharing lookups results) x y).1 (Related→Linked r),
  )

  -- The fuel that `merge_result_ids` gives to the union-find.
  abbrev pub fuel : ℕ
  fuel = suc (total (sharing lookups results))

  abbrev pub root_in : Parents → ℕ → Option ℕ
  root_in parent x = Option.map (λ r. r.0) (find_root fuel parent x)

  root_in-Rooted :
      {parent : Parents} {rep : ℕ → ℕ} {m : ℕ}
      → Rooted parent rep m
      → m < fuel
      → (x : ℕ) → root_in parent x ≡ some (rep x)
  root_in-Rooted {parent} (depth, f) h x =
      let found = find_root-Forest fuel {parent = parent} x f (omega (arith, f.bounded x)) in
      ap (Option.map (λ r. r.0)) found.1

  -- The union-find over the index of the ids always ends, and in the parents that it leaves every
  -- result has a root. Two results have the same root exactly if a chain of results joins them, each
  -- of which shares an id with the next.
  pub union_all-Related :
      (parent : Parents) × (union_all fuel (sharing lookups results) (λ x. x) ≡ some parent)
      × ((x : ℕ) → (root : ℕ) × (root_in parent x ≡ some root))
      × ((x y : ℕ) → (root_in parent x ≡ root_in parent y) ↔ Related x y)
  union_all-Related =
      let values = sharing lookups results in
      let joined = union_all-classes fuel values (omega (arith, length-all_pairs values)) in
      let roots =
        root_in-Rooted {parent = joined.0} joined.2 (omega (arith, length-all_pairs values)) in
      (
        joined.0,
        joined.1,
        λ x. (classes values x, roots x),
        λ x y. (
          λ e. (sharing-Related x y).0 (some-injective (sym (roots x) ∙ e ∙ roots y)),
          λ r. roots x ∙ ap some ((sharing-Related x y).1 r) ∙ sym (roots y),
        ),
      )
