-- ===== src/Search/Writing.antt =====
-- What `merge_result_ids` writes for the components that it has grouped.
use redseat_rust.Base.{
  ℕ, zero, suc, ◌+◌, ◌≡◌, ◌∙◌, refl, sym, ap, subst, Bool, true, false, ◌&&◌, ◌||◌, Option, none,
  some, List, [], ◌∷◌, ◌⊎◌, ◌==◌, ==-refl, ==-flip, nat_eq, length, get_elem?, set, ltb, leb,
  if◌then◌else◌, any, any-filter, All, arith, Bool-cases, inl, inr, Option-cases, nat_beq_iff,
}
use mathlib.Core.Option
use redseat_rust.Base.Dict
use redseat_rust.Base.Dict.{Dict, NodupKeys}
use redseat_rust.Base.Distinct.{Distinct, Distinct-filter}
use redseat_rust.Search.{
  Lookups, range, merge_members, apply_members, apply_at, merge_component, merge_components,
}
use redseat_rust.Search.Grouping.{class_of}

abbrev same_index : ℕ → ℕ → Bool
same_index a b = a == b

pub any-at :
    (q : ℕ → Bool) (i : ℕ) (xs : List ℕ)
    → any (λ j. q j && j == i) xs ≡ (q i && any (λ j. j == i) xs)
any-at q i [] = ground arith
any-at q i (x ∷ xs) = ground (arith, any-at q i xs, nat_beq_iff x i)

pub any-range :
    (start n i : ℕ) → any (λ j. j == i) (range start n) ≡ (leb start i && ltb i (start + n))
any-range start zero i = ground arith
any-range start (suc n) i = ground (arith, any-range (suc start) n i)

range-Distinct : (start n : ℕ) → Distinct same_index (range start n)
range-Distinct start zero = tt
range-Distinct start (suc n) =
    (ground (arith, any-range (suc start) n start), range-Distinct (suc start) n)

abbrev pub is_some : Option (List ℕ) → Bool
is_some none = false
is_some (some _) = true

module _ (lookups : Lookups) where
  open lookups use {Ids, Wrapper, no_ids, apply_ids}

  -- A write at each member of a list without repetition.
  get-set :
      (results : List Wrapper) (idx i : ℕ) (w : Wrapper)
      → get_elem? (set results idx w) i
        ≡ (if idx == i then Option.map (λ _. w) (get_elem? results i) else get_elem? results i)
  get-set [] idx i w = ground arith
  get-set (x ∷ xs) zero zero w = refl
  get-set (x ∷ xs) zero (suc i) w = ground arith
  get-set (x ∷ xs) (suc idx) zero w = ground arith
  get-set (x ∷ xs) (suc idx) (suc i) w = ground (arith, get-set xs idx i w)

  get-apply_at :
      (merged : Ids) (idx : ℕ) (results : List Wrapper) (i : ℕ)
      → get_elem? (apply_at lookups merged idx results (get_elem? results idx)) i ≡ (
          if idx == i
          then Option.map (λ w. apply_ids w merged) (get_elem? results i)
          else get_elem? results i)
  get-apply_at merged idx results i = elim (Option-cases (get_elem? results idx)) [
    | inl e ↦ rw e (ground (arith, nat_beq_iff idx i))
    | inr (w, e) ↦
        rw e (ground (arith, get-set results idx i (apply_ids w merged), nat_beq_iff idx i))
  ]

  apply_members-get :
      (merged : Ids) (ms : List ℕ) (results : List Wrapper) (i : ℕ)
      → Distinct same_index ms
      → get_elem? (apply_members lookups merged ms results) i ≡ (
          if any (λ j. j == i) ms
          then Option.map (λ w. apply_ids w merged) (get_elem? results i)
          else get_elem? results i)
  unfolding apply_members
  apply_members-get merged [] results i d = refl
  apply_members-get merged (idx ∷ ms) results i d =
      apply_members-get merged ms (apply_at lookups merged idx results (get_elem? results idx)) i
        d.1
      ∙ split (Bool-cases (idx == i))
    where
      get : Option Wrapper
      get = get_elem? results i

      write : Wrapper → Wrapper
      write = λ w. apply_ids w merged

      split :
          (((idx == i) ≡ true) ⊎ ((idx == i) ≡ false))
          → (if any (λ j. j == i) ms
              then Option.map write
                  (get_elem? (apply_at lookups merged idx results (get_elem? results idx)) i)
              else get_elem? (apply_at lookups merged idx results (get_elem? results idx)) i)
            ≡ (if (idx == i) || any (λ j. j == i) ms then Option.map write get else get)
      split (inl e) =
          rw (get-apply_at merged idx results i)
            (rw e (rw (ap (λ k. any (λ j. j == k) ms) (sym ((nat_beq_iff idx i).0 e)) ∙ d.0) refl))
      split (inr e) = rw (get-apply_at merged idx results i) (rw e refl)

  -- An element once its class is merged.
  abbrev pub merged_at : List Ids → List ℕ → Wrapper → Wrapper
  merged_at ids_vec ms w =
      if leb (length ms) 1 then w else apply_ids w (merge_members lookups ids_vec no_ids ms)

  pub merged_at_small :
      (ids_vec : List Ids) (ms : List ℕ) (c : Bool) (o : Option Wrapper)
      → leb (length ms) 1 ≡ true
      → o ≡ (if c then Option.map (merged_at ids_vec ms) o else o)
  merged_at_small ids_vec ms true none e = refl
  merged_at_small ids_vec ms true (some w) e = rw e refl
  merged_at_small ids_vec ms false o e = refl

  merged_at_large :
      (ids_vec : List Ids) (ms : List ℕ) (c : Bool) (o : Option Wrapper)
      → leb (length ms) 1 ≡ false
      → (if c then Option.map (λ w. apply_ids w (merge_members lookups ids_vec no_ids ms)) o else o)
        ≡ (if c then Option.map (merged_at ids_vec ms) o else o)
  merged_at_large ids_vec ms true none e = refl
  merged_at_large ids_vec ms true (some w) e = rw e refl
  merged_at_large ids_vec ms false o e = refl

  merge_component-get :
      (ids_vec : List Ids) (rep : ℕ → ℕ) (n r : ℕ) (results : List Wrapper) (i : ℕ)
      → get_elem? (merge_component lookups ids_vec (class_of rep r (range 0 n)) results) i ≡ (
          if rep i == r && ltb i n
          then Option.map (merged_at ids_vec (class_of rep r (range 0 n))) (get_elem? results i)
          else get_elem? results i)
  unfolding merge_component
  merge_component-get ids_vec rep n r results i =
      elim (Bool-cases (leb (length (class_of rep r (range 0 n))) 1)) [
        | inl e ↦
            ap (λ (b : Bool). get_elem? (if b then results else written) i) e
            ∙ merged_at_small ids_vec ms (rep i == r && ltb i n) (get_elem? results i) e
        | inr e ↦
            ap (λ (b : Bool). get_elem? (if b then results else written) i) e
            ∙ apply_members-get _ ms results i
                (Distinct-filter same_index (λ j. rep j == r) (range 0 n) (range-Distinct 0 n))
            ∙ ap
                (λ (b : Bool).
                  if b
                  then Option.map (λ w. apply_ids w (merge_members lookups ids_vec no_ids ms))
                      (get_elem? results i)
                  else get_elem? results i)
                (member i)
            ∙ merged_at_large ids_vec ms (rep i == r && ltb i n) (get_elem? results i) e
      ]
    where
      ms : List ℕ
      ms = class_of rep r (range 0 n)

      written : List Wrapper
      written = apply_members lookups (merge_members lookups ids_vec no_ids ms) ms results

      member : (i : ℕ) → any (λ j. j == i) (class_of rep r (range 0 n)) ≡ (rep i == r && ltb i n)
      member i =
          any-filter (λ j. j == i) (λ j. rep j == r) (range 0 n)
          ∙ any-at (λ j. rep j == r) i (range 0 n)
          ∙ ap (λ b. rep i == r && b) (any-range 0 n i ∙ ground arith)

  pub merge_components-get :
      (ids_vec : List Ids) (rep : ℕ → ℕ) (n : ℕ) (d : Dict ℕ (List ℕ)) (results : List Wrapper)
      (i : ℕ)
      → NodupKeys d
      → All (λ (r, ms). ms ≡ class_of rep r (range 0 n)) d
      → get_elem? (merge_components lookups ids_vec (Dict.values d) results) i ≡ (
          if is_some (Dict.lookup (rep i) d) && ltb i n
          then Option.map
              (merged_at ids_vec (class_of rep (rep i) (range 0 n)))
              (get_elem? results i)
          else get_elem? results i)
  unfolding merge_components Dict.values Dict.lookup
  merge_components-get ids_vec rep n [] results i h a = refl
  merge_components-get ids_vec rep n ((r, ms) ∷ d) results i h a =
      merge_components-get ids_vec rep n d (merge_component lookups ids_vec ms results) i h.1 a.1
      ∙ split (Bool-cases (r == rep i))
    where
      next : Option Wrapper
      next = get_elem? (merge_component lookups ids_vec ms results) i

      old : Option Wrapper
      old = get_elem? results i

      written : ℕ → Option Wrapper
      written k = Option.map (merged_at ids_vec (class_of rep k (range 0 n))) old

      here : next ≡ (if rep i == r && ltb i n then written r else old)
      here =
          ap (λ l. get_elem? (merge_component lookups ids_vec l results) i) a.0
          ∙ merge_component-get ids_vec rep n r results i

      split :
          (((r == rep i) ≡ true) ⊎ ((r == rep i) ≡ false))
          → (if is_some (Dict.lookup (rep i) d) && ltb i n
              then Option.map (merged_at ids_vec (class_of rep (rep i) (range 0 n))) next
              else next)
            ≡ (if is_some (if r == rep i then some ms else Dict.lookup (rep i) d) && ltb i n
                then written (rep i)
                else old)
      split (inl e) =
          let q : r ≡ rep i = (nat_beq_iff r (rep i)).0 e in
          rw (ap (λ k. Dict.lookup k d) (sym q) ∙ h.0) (
            rw e (
              subst (λ k. next ≡ (if rep i == k && ltb i n then written k else old)) q here
              ∙ rw (==-refl (rep i)) refl))
      split (inr e) =
          let kept : next ≡ old = here ∙ rw (==-flip (rep i) r ∙ e) refl in rw kept (rw e refl)
