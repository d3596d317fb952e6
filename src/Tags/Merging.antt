-- ===== src/Tags/Merging.antt =====
-- What a merge does to the tags of media, books and channels.
use redseat_rust.Base.{
  ◌≡◌, ◌∙◌, refl, ap, String, Bool, true, false, not, ◌&&◌, ◌||◌, some, List, [], ◌∷◌, map, any,
  filter, ◌==◌, ==-flip, string_eq, arith, Bool-cases, inl, inr, if◌then◌else◌, ok,
}
use redseat_rust.Tags.{Tag, Mapping, TagStore, TagWorld}
use redseat_rust.Tags.Requests.{no_update}
use redseat_rust.Tags.Store.{has_ref, get_tag, migrate, update_tag, rename_paths, move_paths}

abbrev pub tagged : String → String → List Mapping → Bool
tagged owner id = any (λ r. r.owner == owner && has_ref id r)

-- The row of an owner for a tag that becomes another one.
abbrev moved : (old into : String) (rows : List Mapping) → Mapping → Mapping
moved old into rows r =
    if has_ref old r && not (any (λ s. s.owner == r.owner && has_ref into s) rows)
    then record r { tag_ref = into }
    else r

same-owner :
    (r : Mapping) (owner into : String) (rows : List Mapping)
    → (r.owner == owner) ≡ true
    → any (λ s. s.owner == r.owner && has_ref into s) rows ≡ tagged owner into rows
same-owner r owner into rows h =
    ap (λ o. any (λ s. s.owner == o && has_ref into s) rows)
      ((string_eq.same_iff r.owner owner).0 h)

same-ref : (a b t : String) → (a == b) ≡ true → (a == t) ≡ (t == b)
same-ref a b t h = ap (λ x. x == t) ((string_eq.same_iff a b).0 h) ∙ ==-flip b t

other-ref : (a b t : String) → (a == b) ≡ false → (t == b) ≡ true → (a == t) ≡ false
other-ref a b t h k = ap (λ x. a == x) ((string_eq.same_iff t b).0 k) ∙ h

moved-tagged :
    (owner t old into : String) (rows xs : List Mapping)
    → (into == old) ≡ false
    → tagged owner t (filter (λ r. not (has_ref old r)) (map (moved old into rows) xs)) ≡ (
        not (t == old)
        && (tagged owner t xs
            || (t == into && (tagged owner old xs && not (tagged owner into rows)))))
moved-tagged owner t old into rows [] h = ground arith
moved-tagged owner t old into rows (r ∷ xs) h = elim (Bool-cases (has_ref old r)) [
  | inl e ↦ ground (
    arith,
    moved-tagged owner t old into rows xs h,
    same-owner r owner into rows,
    same-ref r.tag_ref old t e,
    ==-flip into t,
    other-ref into old t h,
  )
  | inr e ↦ ground (arith, moved-tagged owner t old into rows xs h, other-ref r.tag_ref old t e)
]

-- An owner has the new tag once the rows are moved if it had one of the two, has the old tag no more,
-- and has the other tags that it had.
migrate-tagged :
    (owner t old into : String) (rows : List Mapping)
    → (into == old) ≡ false
    → tagged owner t (migrate old into rows)
      ≡ (not (t == old) && (tagged owner t rows || (t == into && tagged owner old rows)))
unfolding migrate
migrate-tagged owner t old into rows h =
    moved-tagged owner t old into rows rows h ∙ elim (Bool-cases (t == into)) [
      | inl e ↦ ground (arith, ap (λ x. tagged owner x rows) ((string_eq.same_iff t into).0 e))
      | inr e ↦ ground arith
    ]

-- The tables once a tag is merged into another one. The tags of books are not moved.
pub record Moved (old into : String) (st st' : TagStore) : Type 0 where
  pub media :
      (owner t : String)
      → tagged owner t st'.media_tags ≡ (
          not (t == old)
          && (tagged owner t st.media_tags || (t == into && tagged owner old st.media_tags)))
  pub channels :
      (owner t : String)
      → tagged owner t st'.channel_tags ≡ (
          not (t == old)
          && (tagged owner t st.channel_tags || (t == into && tagged owner old st.channel_tags)))
  pub books : st'.book_tags ≡ st.book_tags

-- An update that migrates a tag to another one succeeds if the tag is there: among media and channels,
-- what had the old tag has the new one, nothing has the old tag, and the other tags stay; the tags of
-- books stay as they are.
pub update_tag-Moved :
    (w : TagWorld) (old into : String) (st : TagStore) {existing : Tag}
    → get_tag w old st ≡ some existing
    → (into == old) ≡ false
    → ((update_tag w old (record no_update { migrate_to = some into }) st).0 ≡ ok tt)
      × Moved old into st (update_tag w old (record no_update { migrate_to = some into }) st).1
unfolding update_tag rename_paths move_paths no_update
update_tag-Moved w old into st e h = rw e (
  refl,
  record {
    media = λ owner t. migrate-tagged owner t old into st.media_tags h;
    channels = λ owner t. migrate-tagged owner t old into st.channel_tags h;
    books = refl;
  },
)
