-- ===== src/Search/Merging.antt =====
-- What `merge_result_ids` does to each result.
use redseat_rust.Base.{
  ℕ, zero, suc, ltb→lt, leb→le, le→leb, ◌<◌, ◌≤◌, ◌≡◌, ◌∙◌, ◌⊎◌, refl, sym, ap, true, false, ◌&&◌,
  Option, none, some, List, [], ◌∷◌, ◌==◌, ==-refl, nat_eq, length, length-append, get_elem?, ltb,
  leb, if◌then◌else◌, any, All, arith, Bool-cases, nat_beq_iff, any-filter, length-filter-le, inl,
  inr,
}
use mathlib.Core.Option
use redseat_rust.Base.Dict
use redseat_rust.Base.Dict.{Dict, NodupKeys}
use redseat_rust.Search.{
  Lookups, range, total, ids_of, index_ids, merge_components, merge_with, merge_result_ids,
}
use redseat_rust.Search.Classes.{pairs_of, all_pairs, length-with_root, classes, union_all-classes}
use redseat_rust.Search.Grouping.{class_of, unless_empty, Groups, group_roots-Groups}
use redseat_rust.Search.Writing.{
  any-at, any-range, is_some, merged_at, merged_at_small, merge_components-get,
}

length-pairs_of : (is : List ℕ) → length (pairs_of is) ≤ length is
length-pairs_of [] = omega arith
length-pairs_of (root ∷ is) = omega (arith, length-with_root root is)

pub length-all_pairs : (values : List (List ℕ)) → length (all_pairs values) ≤ total values
length-all_pairs [] = omega arith
length-all_pairs (is ∷ more) =
    omega (
      arith,
      length-append (pairs_of is) (all_pairs more),
      length-pairs_of is,
      length-all_pairs more,
    )

-- Every entry of a dictionary of classes is the class of its key.
entries_are_classes :
    (c : ℕ → List ℕ) (d : Dict ℕ (List ℕ))
    → NodupKeys d
    → ((r : ℕ) (ms : List ℕ) → Dict.lookup r d ≡ some ms → ms ≡ c r)
    → All (λ (r, ms). ms ≡ c r) d
unfolding Dict.lookup
entries_are_classes c [] n h = tt
entries_are_classes c ((k, ms) ∷ d) n h = (
  h k ms (ground (arith, ==-refl k)),
  entries_are_classes c d n.1 (λ r l e.
      h r l (ground (arith, n.0, nat_beq_iff k r, (λ (q : k ≡ r). ap (λ j. Dict.lookup j d) q)))),
)

is_some-class :
    (i : ℕ) (xs : List ℕ) → any (λ j. j == i) xs ≡ true → is_some (unless_empty xs) ≡ true
is_some-class i [] e = cc
is_some-class i (x ∷ xs) e = refl

unless_empty-inj : (xs : List ℕ) {ms : List ℕ} → unless_empty xs ≡ some ms → ms ≡ xs
unless_empty-inj [] e = cc
unless_empty-inj (x ∷ xs) e = cc

length-range : (start n : ℕ) → length (range start n) ≡ n
length-range start zero = refl
length-range start (suc n) = omega (arith, length-range (suc start) n)

get_elem?-end {ℓ} : {A : Type ℓ} (xs : List A) (i : ℕ) → length xs ≤ i → get_elem? xs i ≡ none
get_elem?-end [] i h = refl
get_elem?-end (x ∷ xs) zero h = ground arith
get_elem?-end (x ∷ xs) (suc i) h = get_elem?-end xs i (omega arith)

any-class :
    (rep : ℕ → ℕ) (n i : ℕ) → i < n → any (λ j. j == i) (class_of rep (rep i) (range 0 n)) ≡ true
any-class rep n i h =
    any-filter (λ j. j == i) (λ j. rep j == rep i) (range 0 n)
    ∙ any-at (λ j. rep j == rep i) i (range 0 n)
    ∙ ground (arith, ==-refl (rep i), any-range 0 n i)

module _ (lookups : Lookups) where
  open lookups use {Wrapper}

  -- The indices that stand together in the index of the ids, id by id.
  abbrev pub sharing : List Wrapper → List (List ℕ)
  sharing results = Dict.values (index_ids lookups 0 (ids_of lookups results) [])

  abbrev pub class_at : List (List ℕ) → ℕ → ℕ → List ℕ
  class_at values n i = class_of (classes values) (classes values i) (range 0 n)

  components-get :
      (results : List Wrapper) (rep : ℕ → ℕ) (d : Dict ℕ (List ℕ)) (i : ℕ)
      → Groups rep (range 0 (length results)) d
      → get_elem? (merge_components lookups (ids_of lookups results) (Dict.values d) results) i
        ≡ Option.map
            (merged_at lookups
              (ids_of lookups results)
              (class_of rep (rep i) (range 0 (length results))))
            (get_elem? results i)
  components-get results rep d i g =
      merge_components-get lookups (ids_of lookups results) rep n d results i g.nodup (
        entries_are_classes (λ r. class_of rep r (range 0 n)) d g.nodup
          (λ r ms e. unless_empty-inj _ (sym (g.found r) ∙ e)))
      ∙ inside (Bool-cases (ltb i n))
    where
      n : ℕ
      n = length results

      write : Wrapper → Wrapper
      write = merged_at lookups (ids_of lookups results) (class_of rep (rep i) (range 0 n))

      inside :
          (((ltb i n) ≡ true) ⊎ ((ltb i n) ≡ false))
          → (if is_some (Dict.lookup (rep i) d) && ltb i n
              then Option.map write (get_elem? results i)
              else get_elem? results i)
            ≡ Option.map write (get_elem? results i)
      inside (inl h) = rw (g.found (rep i)) (
          rw (is_some-class i (class_of rep (rep i) (range 0 n)) (any-class rep n i (ltb→lt i n h)))
            (rw h refl))
      inside (inr h) = rw (get_elem?-end results i (ground arith)) (ground arith)

  merge_with-get :
      (results : List Wrapper) (values : List (List ℕ))
      → (merged : List Wrapper) × (merge_with lookups results values ≡ some merged)
        × ((i : ℕ)
            → get_elem? merged i
              ≡ Option.map
                  (merged_at lookups (ids_of lookups results) (class_at values (length results) i))
                  (get_elem? results i))
  unfolding Dict.lookup
  merge_with-get results values =
      let fuel : ℕ = suc (total values) in
      let joined = union_all-classes fuel values (omega (arith, length-all_pairs values)) in
      let grouped =
        group_roots-Groups fuel (range 0 (length results)) [] {parent = joined.0} [] joined.2
          (omega (arith, length-all_pairs values)) (record { found = λ r. refl; nodup = tt }) in
      (
        merge_components lookups (ids_of lookups results) (Dict.values grouped.0) results,
        rw joined.1 (rw grouped.1 refl),
        λ i. components-get results (classes values) grouped.0 i grouped.2,
      )

  abbrev pub merged_result : List Wrapper → List (List ℕ) → ℕ → Option Wrapper
  merged_result results values i =
      Option.map (merged_at lookups (ids_of lookups results) (class_at values (length results) i))
        (get_elem? results i)

  -- `merge_result_ids` always ends, and leaves at each place the result that stood there, with the
  -- ids of all results of its class merged in their order if the class has another member, and
  -- unchanged if it has none.
  pub merge_result_ids-class :
      (results : List Wrapper)
      → (merged : List Wrapper) × (merge_result_ids lookups results ≡ some merged)
        × ((i : ℕ) → get_elem? merged i ≡ merged_result results (sharing results) i)
  unfolding merge_result_ids
  merge_result_ids-class results = elim (Bool-cases (leb (length results) 1)) [
    | inl e ↦ rw e (
      results,
      refl,
      λ i.
          merged_at_small lookups (ids_of lookups results)
            (class_at (sharing results) (length results) i) true (get_elem? results i)
            (le→leb _ _ (
              omega (
                arith,
                leb→le (length results) 1 e,
                length-range 0 (length results),
                length-filter-le (λ j. classes (sharing results) j == classes (sharing results) i)
                    (range 0 (length results)),
              ))),
    )
    | inr e ↦ rw e (merge_with-get results (sharing results))
  ]
