-- ===== src/Tags/Operations.antt =====
-- Each operation of `ModelController` on tags keeps the tree of tags.
use redseat_rust.Base.{
  ◌≡◌, refl, String, Bool, true, false, Option, none, some, List, [], ◌∷◌, ◌++◌, ◌<>◌,
  if◌then◌else◌,
}
use redseat_rust.Access.Roles.{LibraryRole}
use redseat_rust.Access.Users.{ConnectedUser}
use redseat_rust.Tags.{
  Tag, TagForAdd, TagForUpdate, TagStore, TagWorld, IsSound, Op, unable_to_find, tag_not_found,
  ElementAction, was_added, was_updated, was_deleted, RsDeleted, serie_kind,
}
use redseat_rust.Tags.Store
use redseat_rust.Tags.Store.{store_add_tag, store_remove_tag}
use redseat_rust.Tags.Filing.{IsFiled, add-IsFiled, update-IsFiled}
use redseat_rust.Tags.Deleting.{remove-IsFiled}
use redseat_rust.Tags.Runs.{
  or_next-Keeps, Keeps, then-Keeps, answer-Keeps, reading-Keeps, pure-Keeps, must-Keeps,
  found_or-Keeps, get_tags-Keeps, get_tag-Keeps, get_or_create_path-Keeps,
}
use redseat_rust.Tags.Lookups.{
  PredictionTag, generated_tag, new_with_name, first_by_names, get_tag_by_names, or_create,
  get_ai_tag, add_imported_tag,
}
use redseat_rust.Tags.Paths.{get_or_create_path}
use redseat_rust.Tags.Requests.{
  first, check_tags, no_update, add_tag, update_tag, remove_tag, merge_tag, send_tags, add_deleted,
  add_old_alt, draw, has_changed, tag_for_insert, new_with_path,
}

module _ (w : TagWorld) (s : IsSound w) (library_id : String) (user : ConnectedUser) where
  -- The tags of the tables are filed.
  abbrev pub TagsFiled : TagStore → Type 0
  TagsFiled st = IsFiled w st.tags

  draw-TagsFiled : Keeps TagsFiled (draw w library_id user)
  unfolding draw
  draw-TagsFiled = record { kept = λ st p. p }

  send-TagsFiled :
      (action : ElementAction) (ts : List Tag) → Keeps TagsFiled (send_tags library_id action ts)
  unfolding send_tags
  send-TagsFiled action ts = record { kept = λ st p. p }

  pub add_tag-TagsFiled : (t : TagForAdd) → Keeps TagsFiled (add_tag w library_id user t)
  unfolding add_tag
  add_tag-TagsFiled t =
      then-Keeps TagsFiled (answer-Keeps TagsFiled (check_tags user library_id LibraryRole.write))
        (λ _. then-Keeps TagsFiled draw-TagsFiled (λ id.
          then-Keeps TagsFiled (record { kept = add-IsFiled w s (tag_for_insert id t) })
            (λ _. then-Keeps TagsFiled (get_tag-Keeps TagsFiled w library_id user id) (λ found.
              then-Keeps TagsFiled (found_or-Keeps TagsFiled (unable_to_find id) found) (λ tag.
                then-Keeps TagsFiled (send-TagsFiled was_added (tag ∷ []))
                  (λ _. pure-Keeps TagsFiled tag))))))

  add_deleted-TagsFiled : (d : RsDeleted) → Keeps TagsFiled (add_deleted w library_id user d)
  unfolding add_deleted
  add_deleted-TagsFiled d =
      then-Keeps TagsFiled (must-Keeps TagsFiled user library_id LibraryRole.write)
        (λ _. record { kept = λ st p. p })

  pub remove_tag-TagsFiled : (id : String) → Keeps TagsFiled (remove_tag w library_id user id)
  unfolding remove_tag
  remove_tag-TagsFiled id =
      then-Keeps TagsFiled (must-Keeps TagsFiled user library_id LibraryRole.admin) (λ _.
        then-Keeps TagsFiled (reading-Keeps TagsFiled (Store.get_tag w id)) (λ existing.
          then-Keeps TagsFiled (found_or-Keeps TagsFiled (unable_to_find id) existing) (λ tag.
            then-Keeps TagsFiled
              (get_tags-Keeps TagsFiled w library_id user (new_with_path (w.childs_path tag)))
              (λ children.
                then-Keeps TagsFiled (record { kept = remove-IsFiled w s id })
                  (λ _.
                    then-Keeps TagsFiled
                      (add_deleted-TagsFiled (record { id = id; date = w.now; kind = serie_kind }))
                      (λ _.
                        then-Keeps TagsFiled (send-TagsFiled was_deleted (children ++ tag ∷ []))
                          (λ _. pure-Keeps TagsFiled tag)))))))

  store_update-TagsFiled :
      (id : String) (update : TagForUpdate)
      → update.name ≡ none
      → update.parent ≡ none
      → Keeps TagsFiled (Store.update_tag w id update)
  store_update-TagsFiled id update n r = record { kept = λ st. update-IsFiled w s id update st n r }

  either-Keeps :
      {A : Type 0} (b : Bool) {m n : Op A}
      → Keeps TagsFiled m
      → Keeps TagsFiled n
      → Keeps TagsFiled (if b then m else n)
  either-Keeps true h k = h
  either-Keeps false h k = k

  pub update_tag-TagsFiled :
      (id : String) (update : TagForUpdate)
      → update.name ≡ none
      → update.parent ≡ none
      → Keeps TagsFiled (update_tag w library_id user id update)
  unfolding update_tag
  update_tag-TagsFiled id update n r =
      then-Keeps TagsFiled (must-Keeps TagsFiled user library_id LibraryRole.admin) (λ _.
        then-Keeps TagsFiled (store_update-TagsFiled id update n r) (λ _.
          then-Keeps TagsFiled (reading-Keeps TagsFiled (Store.get_tag w id)) (λ found.
            then-Keeps TagsFiled (found_or-Keeps TagsFiled (unable_to_find id) found) (λ tag.
              then-Keeps TagsFiled
                (either-Keeps (has_changed update)
                  (get_tags-Keeps TagsFiled w library_id user
                    (new_with_path (w.childs_path tag <> "%")))
                  (pure-Keeps TagsFiled []))
                (λ updated.
                  then-Keeps TagsFiled (send-TagsFiled was_updated (tag ∷ updated))
                    (λ _. pure-Keeps TagsFiled tag))))))

  add_old_alt-TagsFiled :
      (into : String) (alts : Option (List String))
      → Keeps TagsFiled (add_old_alt w library_id user into alts)
  unfolding add_old_alt no_update
  add_old_alt-TagsFiled into none = pure-Keeps TagsFiled tt
  add_old_alt-TagsFiled into (some alts) = store_update-TagsFiled into _ refl refl

  migrate-TagsFiled :
      (id into : String)
      → Keeps TagsFiled (Store.update_tag w id (record no_update { migrate_to = some into }))
  unfolding no_update
  migrate-TagsFiled id into = store_update-TagsFiled id _ refl refl

  pub merge_tag-TagsFiled :
      (same_name : String → String → Bool) (old_id into : String)
      → Keeps TagsFiled (merge_tag w library_id user same_name old_id into)
  unfolding merge_tag
  merge_tag-TagsFiled same_name old_id into =
      then-Keeps TagsFiled (must-Keeps TagsFiled user library_id LibraryRole.admin) (λ _.
        then-Keeps TagsFiled (get_tag-Keeps TagsFiled w library_id user old_id) (λ old.
          then-Keeps TagsFiled (found_or-Keeps TagsFiled (tag_not_found old_id) old) (λ old_tag.
            then-Keeps TagsFiled (get_tag-Keeps TagsFiled w library_id user into) (λ new.
              then-Keeps TagsFiled (found_or-Keeps TagsFiled (tag_not_found into) new) (λ new_tag.
                then-Keeps TagsFiled
                  (either-Keeps (same_name old_tag.name new_tag.name) (pure-Keeps TagsFiled tt)
                    (add_old_alt-TagsFiled into (some (old_tag.name ∷ []))))
                  (λ _. then-Keeps TagsFiled (add_old_alt-TagsFiled into old_tag.alt) (λ _.
                    then-Keeps TagsFiled (migrate-TagsFiled old_id into) (λ _.
                      then-Keeps TagsFiled (remove_tag-TagsFiled old_id) (λ _.
                        then-Keeps TagsFiled (get_tag-Keeps TagsFiled w library_id user into)
                          (λ found.
                            then-Keeps TagsFiled
                              (found_or-Keeps TagsFiled (tag_not_found old_id) found)
                              (λ tag.
                                then-Keeps TagsFiled (send-TagsFiled was_updated (tag ∷ []))
                                  (λ _. pure-Keeps TagsFiled tag))))))))))))

  pub get_or_create_path-TagsFiled :
      (path : List String) (t : TagForAdd)
      → Keeps TagsFiled (get_or_create_path w library_id user path t)
  get_or_create_path-TagsFiled path t =
      get_or_create_path-Keeps TagsFiled w library_id user add_tag-TagsFiled path t

  first_by_names-TagsFiled :
      (names : List String) → Keeps TagsFiled (first_by_names w library_id user names)
  unfolding first_by_names
  first_by_names-TagsFiled [] = pure-Keeps TagsFiled none
  first_by_names-TagsFiled (name ∷ names) =
      then-Keeps TagsFiled (reading-Keeps TagsFiled (Store.get_tags w (new_with_name name)))
        (λ found. or_next-Keeps TagsFiled (first found) (first_by_names-TagsFiled names))

  or_create-TagsFiled :
      (path : List String) (t : TagForAdd) (o : Option Tag)
      → Keeps TagsFiled (or_create w library_id user path t o)
  unfolding or_create
  or_create-TagsFiled path t none = get_or_create_path-TagsFiled path t
  or_create-TagsFiled path t (some tag) = pure-Keeps TagsFiled tag

  get_tag_by_names-TagsFiled :
      (names : List String) → Keeps TagsFiled (get_tag_by_names w library_id user names)
  unfolding get_tag_by_names
  get_tag_by_names-TagsFiled names =
      then-Keeps TagsFiled (must-Keeps TagsFiled user library_id LibraryRole.read)
        (λ _. first_by_names-TagsFiled names)

  pub get_ai_tag-TagsFiled :
      (tag : PredictionTag) → Keeps TagsFiled (get_ai_tag w library_id user tag)
  unfolding get_ai_tag
  get_ai_tag-TagsFiled tag =
      then-Keeps TagsFiled (must-Keeps TagsFiled user library_id LibraryRole.write) (λ _.
        then-Keeps TagsFiled (get_tag_by_names-TagsFiled (tag.id ∷ [])) (λ existing.
          or_create-TagsFiled ("ai" ∷ tag.name ∷ []) (generated_tag (some tag.alts)) existing))

  pub add_imported_tag-TagsFiled :
      (tag : TagForAdd) → Keeps TagsFiled (add_imported_tag w library_id user tag)
  unfolding add_imported_tag
  add_imported_tag-TagsFiled tag =
      then-Keeps TagsFiled (must-Keeps TagsFiled user library_id LibraryRole.write) (λ _.
        get_or_create_path-TagsFiled ("imported" ∷ tag.name ∷ []) (record tag { generated = true }))
