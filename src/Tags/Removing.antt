-- ===== src/Tags/Removing.antt =====
-- What is left of a tag that is removed or merged.
use redseat_rust.Base.{
  ◌≡◌, refl, String, Bool, false, Option, none, some, List, [], ◌∷◌, any, filter, Result, ok, err,
}
use redseat_rust.Base.Distinct.{any-filter-false, any-filter-not}
use redseat_rust.Access.Roles.{LibraryRole}
use redseat_rust.Access.Users.{ConnectedUser}
use redseat_rust.Tags.{
  Tag, Mapping, TagStore, TagError, tag_not_found, TagWorld, Op, go_on, ◌>>=◌, was_deleted,
  was_updated, ElementAction, RsDeleted,
}
use redseat_rust.Tags.Store
use redseat_rust.Tags.Store.{
  has_id, has_ref, is_below, cascade, cascade_all, delete_tags, without_ref, store_remove_tag,
  remove_found,
}
use redseat_rust.Tags.Requests.{send_tags, add_deleted, remove_tag, merge_tag}
use redseat_rust.Tags.Runs.{
  Keeps, then-Keeps, must-Keeps, found_or-Keeps, get_tag-Keeps, pure-Keeps,
}

-- What an operation that succeeds leaves true.
record Ends {A : Type 0} (P : TagStore → Type 0) (m : Op A) : Type 0 where
  ended : (st : TagStore) {a : A} → (m st).0 ≡ ok a → P (m st).1

module _ (P : TagStore → Type 0) where
  gone_to_end :
      {A B : Type 0} (f : A → Op B) (r : Result TagError A × TagStore) {b : B}
      → (go_on f r).0 ≡ ok b
      → ((a : A) → Ends P (f a))
      → P (go_on f r).1
  gone_to_end f (ok a, st) e h = (h a).ended st e
  gone_to_end f (err x, st) e h = cc

  -- The last steps decide.
  last-Ends : {A B : Type 0} (m : Op A) {f : A → Op B} → ((a : A) → Ends P (f a)) → Ends P (m >>= f)
  unfolding ◌>>=◌
  last-Ends m {f} h = record { ended = λ st e. gone_to_end f (m st) e h }

  gone_keeping :
      {A B : Type 0} (f : A → Op B) (r : Result TagError A × TagStore) {b : B}
      → (go_on f r).0 ≡ ok b
      → ((a : A) → r.0 ≡ ok a → P r.1)
      → ((a : A) → Keeps P (f a))
      → P (go_on f r).1
  gone_keeping f (ok a, st) e h k = (k a).kept st (h a refl)
  gone_keeping f (err x, st) e h k = cc

  -- The first step decides, and the others keep it.
  first-Ends :
      {A B : Type 0} {m : Op A} {f : A → Op B}
      → Ends P m
      → ((a : A) → Keeps P (f a))
      → Ends P (m >>= f)
  unfolding ◌>>=◌
  first-Ends {m = m} {f = f} h k = record {
    ended = λ st e. gone_keeping f (m st) e (λ a r. h.ended st {a = a} r) k;
  }

  cascade_all-keeps :
      (w : TagWorld) (olds : List Tag) (st : TagStore)
      → ((o : Tag) (x : TagStore) → P x → P (cascade w o x))
      → P st
      → P (cascade_all w olds st)
  unfolding cascade_all
  cascade_all-keeps w [] st k h = h
  cascade_all-keeps w (o ∷ olds) st k h = cascade_all-keeps w olds (cascade w o st) k (k o st h)

-- The two operations that end a tag.
pub data Removal : Type 0 where
  remove : Removal
  merge_into : (String → String → Bool) → String → Removal

abbrev pub run_removal : TagWorld → String → ConnectedUser → String → Removal → Op Tag
run_removal w library_id user id remove = remove_tag w library_id user id
run_removal w library_id user id (merge_into same_name into) =
    merge_tag w library_id user same_name id into

-- No tag has the id.
abbrev pub IsAbsent : String → TagStore → Type 0
IsAbsent id st = any (has_id id) st.tags ≡ false

-- No media, book or channel has the tag.
abbrev pub IsUnused : String → TagStore → Type 0
IsUnused id st =
    (any (has_ref id) st.media_tags ≡ false)
    × (any (has_ref id) st.book_tags ≡ false)
    × (any (has_ref id) st.channel_tags ≡ false)

abbrev pub IsGone : String → TagStore → Type 0
IsGone id st = IsAbsent id st × IsUnused id st

module _ (w : TagWorld) where
  cascade-IsAbsent :
      (id : String) (o : Tag) (st : TagStore) → IsAbsent id st → IsAbsent id (cascade w o st)
  unfolding cascade
  cascade-IsAbsent id o st h = any-filter-false (has_id id) _ st.tags h

  cascade-IsUnused :
      (id : String) (o : Tag) (st : TagStore) → IsUnused id st → IsUnused id (cascade w o st)
  unfolding cascade
  cascade-IsUnused id o st h =
      (fewer _ _ st.media_tags h.0, fewer _ _ st.book_tags h.1, fewer _ _ st.channel_tags h.2)
    where
      fewer :
          (p q : Mapping → Bool) (rows : List Mapping)
          → any (has_ref id) rows ≡ false
          → any (has_ref id) (filter p (filter q rows)) ≡ false
      fewer p q rows e =
          any-filter-false (has_ref id) p (filter q rows) (any-filter-false (has_ref id) q rows e)

  delete_tags-IsAbsent :
      (id : String) (p : Tag → Bool) (st : TagStore)
      → IsAbsent id st
      → IsAbsent id (delete_tags w p st)
  unfolding delete_tags
  delete_tags-IsAbsent id p st h =
      cascade_all-keeps (IsAbsent id) w (filter p st.tags) _ (cascade-IsAbsent id)
        (any-filter-false (has_id id) _ st.tags h)

  delete_tags-IsUnused :
      (id : String) (p : Tag → Bool) (st : TagStore)
      → IsUnused id st
      → IsUnused id (delete_tags w p st)
  unfolding delete_tags
  delete_tags-IsUnused id p st h =
      cascade_all-keeps (IsUnused id) w (filter p st.tags) _ (cascade-IsUnused id) h

  deleted-IsAbsent : (id : String) (st : TagStore) → IsAbsent id (delete_tags w (has_id id) st)
  unfolding delete_tags
  deleted-IsAbsent id st =
      cascade_all-keeps (IsAbsent id) w (filter (has_id id) st.tags) _ (cascade-IsAbsent id)
        (any-filter-not (has_id id) st.tags)

  removed-IsGone :
      (id : String) (p : Tag → Bool) (st : TagStore)
      → IsGone id (delete_tags w p (without_ref w id (delete_tags w (has_id id) st)))
  removed-IsGone id p st =
      let mid = delete_tags w (has_id id) st in
      (
        delete_tags-IsAbsent id p (without_ref w id mid) (deleted-IsAbsent id st),
        delete_tags-IsUnused id p (without_ref w id mid) (
          any-filter-not (has_ref id) mid.media_tags,
          any-filter-not (has_ref id) mid.book_tags,
          any-filter-not (has_ref id) mid.channel_tags,
        ),
      )

  found-IsGone :
      (id : String) (o : Option Tag) (st : TagStore) {a : Unit {0}}
      → (remove_found w id o st).0 ≡ ok a
      → IsGone id (remove_found w id o st).1
  found-IsGone id none st e = cc
  found-IsGone id (some existing) st e = removed-IsGone id (is_below w (w.childs_path existing)) st

  store_remove_tag-Ends : (id : String) → Ends (IsGone id) (store_remove_tag w id)
  unfolding store_remove_tag
  store_remove_tag-Ends id = record { ended = λ st e. found-IsGone id (Store.get_tag w id st) st e }

  module _ (library_id : String) (user : ConnectedUser) (id : String) where
    send-IsGone :
        (action : ElementAction) (ts : List Tag)
        → Keeps (IsGone id) (send_tags library_id action ts)
    unfolding send_tags
    send-IsGone action ts = record { kept = λ st p. p }

    add_deleted-IsGone : (d : RsDeleted) → Keeps (IsGone id) (add_deleted w library_id user d)
    unfolding add_deleted
    add_deleted-IsGone d =
        then-Keeps (IsGone id) (must-Keeps (IsGone id) user library_id LibraryRole.write)
          (λ _. record { kept = λ st p. p })

    remove_tag-Ends : Ends (IsGone id) (remove_tag w library_id user id)
    unfolding remove_tag
    remove_tag-Ends = last-Ends (IsGone id) _ (λ _. last-Ends (IsGone id) _ (λ existing.
        last-Ends (IsGone id) _ (λ tag. last-Ends (IsGone id) _ (λ children.
          first-Ends (IsGone id) (store_remove_tag-Ends id) (λ _.
            then-Keeps (IsGone id) (add_deleted-IsGone _) (λ _.
              then-Keeps (IsGone id) (send-IsGone was_deleted _)
                (λ _. pure-Keeps (IsGone id) tag)))))))

    merge_tag-Ends :
        (same_name : String → String → Bool) (into : String)
        → Ends (IsGone id) (merge_tag w library_id user same_name id into)
    unfolding merge_tag
    merge_tag-Ends same_name into = last-Ends (IsGone id) _ (λ _. last-Ends (IsGone id) _ (λ old.
        last-Ends (IsGone id) _ (λ old_tag. last-Ends (IsGone id) _ (λ new.
          last-Ends (IsGone id) _ (λ new_tag. last-Ends (IsGone id) _ (λ _.
            last-Ends (IsGone id) _ (λ _. last-Ends (IsGone id) _ (λ _.
              first-Ends (IsGone id) remove_tag-Ends (λ _.
                then-Keeps (IsGone id) (get_tag-Keeps (IsGone id) w library_id user into) (λ found.
                  then-Keeps (IsGone id) (found_or-Keeps (IsGone id) (tag_not_found id) found)
                    (λ tag.
                      then-Keeps (IsGone id) (send-IsGone was_updated _)
                        (λ _. pure-Keeps (IsGone id) tag))))))))))))

    -- After a tag is removed, or merged into another one, with success, no tag has its id, and no
    -- media, book or channel has the tag.
    pub removal-IsGone :
        (r : Removal) (st : TagStore) {a : Tag}
        → (run_removal w library_id user id r st).0 ≡ ok a
        → IsGone id (run_removal w library_id user id r st).1
    removal-IsGone remove st e = remove_tag-Ends.ended st e
    removal-IsGone (merge_into same_name into) st e = (merge_tag-Ends same_name into).ended st e
