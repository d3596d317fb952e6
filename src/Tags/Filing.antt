-- ===== src/Tags/Filing.antt =====
-- A tag stands under the path of its parent: what the statements do to the tree of tags.
use redseat_rust.Base.{
  ◌≡◌, ◌∙◌, refl, sym, ap, subst, String, Bool, true, false, Option, none, some, List, [], ◌∷◌,
  ◌++◌, map, any, filter, find, find-map, All, All-map, All-append, ◌==◌, ==-flip, string_eq, arith,
  Bool-cases, Option-cases, inl, inr, if◌then◌else◌, ok, err, Result,
}
use mathlib.Core.Option
use redseat_rust.Base.Distinct.{Distinct, Distinct-snoc, Distinct-filter, Distinct-map}
use redseat_rust.Tags.{
  Tag, TagForInsert, TagForUpdate, TagStore, TagError, TagWorld, IsSound, no_rows,
}
use redseat_rust.Tags.Store.{
  has_id, get_tag, updated_columns, update_tag, rename_paths, move_paths, store_add_tag, insert_at,
  new_path, migrated,
}

abbrev pub same_id : Tag → Tag → Bool
same_id a b = a.id == b.id

module _ (w : TagWorld) where
  -- A tag without a parent stands under the root, another one under the path of its parent.
  pub data Filed (ts : List Tag) (t : Tag) : Type 0 where
    at_root : t.parent ≡ none → t.path ≡ "/" → Filed ts t
    below :
        (p : String) (q : Tag)
        → t.parent ≡ some p
        → find (has_id p) ts ≡ some q
        → t.path ≡ w.childs_path q
        → Filed ts t

  pub record IsFiled (ts : List Tag) : Type 0 where
    pub keyed : Distinct same_id ts
    pub filed : All (Filed ts) ts

find-append-some :
    (p : Tag → Bool) (ts us : List Tag) {q : Tag} → find p ts ≡ some q → find p (ts ++ us) ≡ some q
find-append-some p [] us h = cc
find-append-some p (t ∷ ts) us {q} h = ground (arith, find-append-some p ts us {q = q})

find-filter-some :
    (p k : Tag → Bool) (ts : List Tag) {q : Tag}
    → find p ts ≡ some q
    → k q ≡ true
    → find p (filter k ts) ≡ some q
find-filter-some p k [] h e = cc
find-filter-some p k (t ∷ ts) {q} h e = ground (arith, find-filter-some p k ts {q = q})

All-filter :
    {P Q : Tag → Type 0} (k : Tag → Bool) (ts : List Tag)
    → ((t : Tag) → k t ≡ true → P t → Q t)
    → All P ts
    → All Q (filter k ts)
All-filter k [] f h = tt
All-filter k (t ∷ ts) f h = elim (Bool-cases (k t)) [
  | inl e ↦ rw e (f t e h.0, All-filter k ts f h.1)
  | inr e ↦ rw e (All-filter k ts f h.1)
]

All-mapped :
    {P : Tag → Type 0} (Q : Tag → Type 0) (f : Tag → Tag) (ts : List Tag)
    → ((t : Tag) → P t → Q (f t))
    → All P ts
    → All Q (map f ts)
All-mapped Q f [] g h = tt
All-mapped Q f (t ∷ ts) g h = (g t h.0, All-mapped Q f ts g h.1)

module _ (w : TagWorld) (s : IsSound w) where
  -- Rows are kept whose parents are kept.
  abbrev pub Upward : List Tag → (Tag → Bool) → Type 0
  Upward ts k =
      (t q : Tag) (p : String)
      → find (has_id p) ts ≡ some q
      → t.path ≡ w.childs_path q
      → k t ≡ true
      → k q ≡ true

  pub filter-IsFiled :
      (k : Tag → Bool) (ts : List Tag) → Upward ts k → IsFiled w ts → IsFiled w (filter k ts)
  filter-IsFiled k ts up h = record {
    keyed = Distinct-filter same_id k ts h.keyed;
    filed = All-filter k ts keep h.filed;
  }
    where
      keep : (t : Tag) → k t ≡ true → Filed w ts t → Filed w (filter k ts) t
      keep t e (at_root a b) = at_root a b
      keep t e (below p q a b c) =
          below p q a (find-filter-some (has_id p) k ts b (up t q p b c e)) c

  -- An update that leaves ids, names, parents and paths.
  map-IsFiled :
      (f : Tag → Tag) (ts : List Tag)
      → ((t : Tag) → (f t).id ≡ t.id)
      → ((t : Tag) → (f t).name ≡ t.name)
      → ((t : Tag) → (f t).parent ≡ t.parent)
      → ((t : Tag) → (f t).path ≡ t.path)
      → IsFiled w ts
      → IsFiled w (map f ts)
  map-IsFiled f ts i n r p h = record {
    keyed = Distinct-map same_id f ts (λ a b. rw (i a, i b) refl) h.keyed;
    filed = All-mapped (Filed w (map f ts)) f ts moved h.filed;
  }
    where
      same_childs : (q : Tag) → w.childs_path (f q) ≡ w.childs_path q
      same_childs q = rw (s.childs_path_of (f q), s.childs_path_of q, p q, n q) refl

      moved : (t : Tag) → Filed w ts t → Filed w (map f ts) (f t)
      moved t (at_root a b) = at_root (r t ∙ a) (p t ∙ b)
      moved t (below key q a b c) =
          below key (f q) (r t ∙ a)
            (find-map (has_id key) f ts (λ x. rw (i x) refl) ∙ ap (λ o. Option.map f o) b)
            (p t ∙ c ∙ sym (same_childs q))

  snoc-IsFiled :
      (ts : List Tag) (t : Tag)
      → any (has_id t.id) ts ≡ false
      → Filed w ts t
      → IsFiled w ts
      → IsFiled w (ts ++ t ∷ [])
  snoc-IsFiled ts t new place h = record {
    keyed = Distinct-snoc same_id (λ a b h. ==-flip b.id a.id ∙ h) ts t new h.keyed;
    filed =
        All-append (Filed w (ts ++ t ∷ [])) ts (t ∷ []) (All-map ts grown h.filed)
          (grown t place, tt);
  }
    where
      grown : (u : Tag) → Filed w ts u → Filed w (ts ++ t ∷ []) u
      grown u (at_root a b) = at_root a b
      grown u (below p q a b c) = below p q a (find-append-some (has_id p) ts (t ∷ []) b) c

  inserted :
      (tag : TagForInsert) (path : String) (st : TagStore)
      → ((t : Tag) → t.parent ≡ tag.parent → t.path ≡ path → Filed w st.tags t)
      → IsFiled w st.tags
      → IsFiled w (insert_at w tag (ok path) st).1.tags
  inserted tag path st place h = elim (Bool-cases (any (has_id tag.id) st.tags)) [
    | inl e ↦ rw e h
    | inr e ↦ rw e (snoc-IsFiled st.tags _ e (place _ refl refl) h)
  ]

  new_path-none :
      (p : String) (st : TagStore) → get_tag w p st ≡ none → new_path w (some p) st ≡ err no_rows
  new_path-none p st g = rw g refl

  new_path-some :
      (p : String) (q : Tag) (st : TagStore)
      → get_tag w p st ≡ some q
      → new_path w (some p) st ≡ ok (w.childs_path q)
  new_path-some p q st g = rw g refl

  at_path :
      (tag : TagForInsert) (st : TagStore) {r : Result TagError String}
      → new_path w tag.parent st ≡ r
      → IsFiled w (insert_at w tag r st).1.tags
      → IsFiled w (store_add_tag w tag st).1.tags
  unfolding store_add_tag
  at_path tag st e h = subst (λ r. IsFiled w (insert_at w tag r st).1.tags) (sym e) h

  pub add-IsFiled :
      (tag : TagForInsert) (st : TagStore)
      → IsFiled w st.tags
      → IsFiled w (store_add_tag w tag st).1.tags
  unfolding get_tag
  add-IsFiled tag st h = elim (Option-cases tag.parent) [
    | inl e ↦
        at_path tag st (ap (λ o. new_path w o st) e)
          (inserted tag "/" st (λ t a b. at_root (a ∙ e) b) h)
    | inr (p, e) ↦ elim (Option-cases (get_tag w p st)) [
      | inl g ↦ at_path tag st (ap (λ o. new_path w o st) e ∙ new_path-none p st g) h
      | inr (q, g) ↦
          at_path tag st (ap (λ o. new_path w o st) e ∙ new_path-some p q st g)
            (inserted tag (w.childs_path q) st (λ t a b. below p q (a ∙ e) g b) h)
    ]
  ]

  abbrev row : String → TagForUpdate → Tag → Tag
  row id update t = if has_id id t then updated_columns w.now update t else t

  row-IsFiled :
      (id : String) (update : TagForUpdate) (ts : List Tag)
      → update.name ≡ none
      → update.parent ≡ none
      → IsFiled w ts
      → IsFiled w (map (row id update) ts)
  unfolding updated_columns
  row-IsFiled id update ts n r h =
      map-IsFiled (row id update) ts (λ t. ground arith) (λ t. ground (arith, n))
        (λ t. ground (arith, r)) (λ t. ground arith) h

  kept_paths :
      (existing : Tag) (update : TagForUpdate) (ts : List Tag)
      → update.name ≡ none
      → update.parent ≡ none
      → move_paths w existing update.parent (rename_paths w existing update.name ts) ≡ ok ts
  unfolding rename_paths move_paths
  kept_paths existing update ts n r = rw (n, r) refl

  -- An update that gives no name and no parent.
  pub update-IsFiled :
      (id : String) (update : TagForUpdate) (st : TagStore)
      → update.name ≡ none
      → update.parent ≡ none
      → IsFiled w st.tags
      → IsFiled w (update_tag w id update st).1.tags
  unfolding update_tag
  update-IsFiled id update st n r h = elim (Option-cases (get_tag w id st)) [
    | inl e ↦ rw e h
    | inr (existing, e) ↦
        rw (e, kept_paths existing update (map (row id update) st.tags) n r)
          (tables id update.migrate_to st (row-IsFiled id update st.tags n r h))
  ]
    where
      tables :
          (id : String) (into : Option String) (st : TagStore) {ts : List Tag}
          → IsFiled w ts
          → IsFiled w (record (migrated w id into st) { tags = ts }).tags
      tables id into st h = h
