-- ===== src/Tags/Deleting.antt =====
-- What a deletion with its trigger leaves of the tree of tags.
use redseat_rust.Base.{
  ◌≡◌, ◌∙◌, refl, sym, ap, subst, String, ◌<>◌, Bool, true, false, not, ◌&&◌, some, List, [], ◌∷◌,
  any, filter, find, find-any-false, filter-filter, filter-cong, any-filter, string_eq, arith,
  Option-cases, inl, inr,
}
use redseat_rust.Tags.{Tag, TagStore, TagWorld, IsSound}
use redseat_rust.Tags.Filing.{IsFiled, filter-IsFiled}
use redseat_rust.Tags.Store.{
  has_id, get_tag, is_below, cascade, cascade_all, delete_tags, without_ref, store_remove_tag,
}

any-le :
    (p q : Tag → Bool) (ts : List Tag)
    → ((t : Tag) → p t ≡ true → q t ≡ true)
    → any q ts ≡ false
    → any p ts ≡ false
any-le p q [] h e = refl
any-le p q (t ∷ ts) h e = ground (arith, h t, any-le p q ts h)

keep-all : (ts : List Tag) → filter (λ t. true) ts ≡ ts
keep-all [] = refl
keep-all (t ∷ ts) = ap (λ us. t ∷ us) (keep-all ts)

module _ (w : TagWorld) (s : IsSound w) where
  abbrev goes : Tag → Tag → Bool
  goes t o = is_below w (o.path <> (o.name <> "/")) t

  cascade_all-tags :
      (olds : List Tag) (st : TagStore)
      → (cascade_all w olds st).tags ≡ filter (λ t. not (any (goes t) olds)) st.tags
  unfolding cascade_all cascade
  cascade_all-tags [] st = sym (keep-all st.tags)
  cascade_all-tags (o ∷ olds) st =
      cascade_all-tags olds (cascade w o st)
      ∙ filter-filter (λ t. not (any (goes t) olds)) (λ t. not (goes t o)) st.tags
      ∙ filter-cong (λ t. not (goes t o) && not (any (goes t) olds))
          (λ t. not (any (goes t) (o ∷ olds))) st.tags (λ t. ground arith)

  abbrev survives : (Tag → Bool) → List Tag → Tag → Bool
  survives p olds t = not (p t) && not (any (goes t) olds)

  delete_tags-tags :
      (p : Tag → Bool) (st : TagStore)
      → (delete_tags w p st).tags ≡ filter (survives p (filter p st.tags)) st.tags
  unfolding delete_tags
  delete_tags-tags p st =
      cascade_all-tags (filter p st.tags) (record st { tags = filter (λ t. not (p t)) st.tags })
      ∙ filter-filter (λ t. not (any (goes t) (filter p st.tags))) (λ t. not (p t)) st.tags

  -- A parent is below what its child is not below: no parent goes before its children.
  parent-survives :
      (p : Tag → Bool) (olds : List Tag) (t q : Tag)
      → (p q ≡ true → survives p olds t ≡ false)
      → t.path ≡ w.childs_path q
      → survives p olds t ≡ true
      → survives p olds q ≡ true
  parent-survives p olds t q own place e = ground (arith, own, any-le (goes q) (goes t) olds longer)
    where
      longer : (o : Tag) → goes q o ≡ true → goes t o ≡ true
      longer o g =
          subst (λ x. w.like ((o.path <> (o.name <> "/")) <> "%") x ≡ true)
            (sym (place ∙ s.childs_path_of q))
            (s.like_longer (o.path <> (o.name <> "/")) q.path (q.name <> "/") g)

  -- The deleted row itself has no child that survives.
  removed-first :
      (id p : String) (ts : List Tag) (t q : Tag)
      → find (has_id p) ts ≡ some q
      → t.path ≡ w.childs_path q
      → has_id id q ≡ true
      → survives (has_id id) (filter (has_id id) ts) t ≡ false
  removed-first id p ts t q found place own = ground (
    arith,
    any-filter (goes t) (has_id id) ts,
    find-any-false (λ o. has_id id o && goes t o) (has_id p) ts {x = q} found,
    child,
  )
    where
      child : goes t q ≡ true
      child =
          subst (λ x. w.like ((q.path <> (q.name <> "/")) <> "%") x ≡ true)
            (sym (place ∙ s.childs_path_of q)) (s.like_itself (q.path <> (q.name <> "/")))

  below-first :
      (c : String) (olds : List Tag) (t q : Tag)
      → t.path ≡ w.childs_path q
      → is_below w c q ≡ true
      → survives (is_below w c) olds t ≡ false
  below-first c olds t q place own = ground (arith, longer)
    where
      longer : is_below w c t ≡ true
      longer =
          subst (λ x. w.like (c <> "%") x ≡ true) (sym (place ∙ s.childs_path_of q))
            (s.like_longer c q.path (q.name <> "/") own)

  pub remove-IsFiled :
      (id : String) (st : TagStore)
      → IsFiled w st.tags
      → IsFiled w (store_remove_tag w id st).1.tags
  unfolding store_remove_tag
  remove-IsFiled id st h = elim (Option-cases (get_tag w id st)) [
    | inl e ↦ rw e h
    | inr (existing, e) ↦
        let c = w.childs_path existing in
        let mid = without_ref w id (delete_tags w (has_id id) st) in
        let one = survives (has_id id) (filter (has_id id) st.tags) in
        let two = survives (is_below w c) (filter (is_below w c) mid.tags) in
        let all : (delete_tags w (is_below w c) mid).tags ≡ filter (λ t. one t && two t) st.tags =
          delete_tags-tags (is_below w c) mid
          ∙ ap (λ ts. filter two ts) (delete_tags-tags (has_id id) st)
          ∙ filter-filter two one st.tags in
        rw e (
          subst (λ ts. IsFiled w ts) (sym all)
            (filter-IsFiled w s (λ t. one t && two t) st.tags
              (λ t q p found place k. ground (
                arith,
                parent-survives (has_id id) (filter (has_id id) st.tags) t q
                    (removed-first id p st.tags t q found place) place,
                parent-survives (is_below w c) (filter (is_below w c) mid.tags) t q
                    (below-first c (filter (is_below w c) mid.tags) t q place) place,
              ))
              h))
  ]
