-- ===== src/Tags/Guards.antt =====
-- Who changes the tags of a library, and what an upload key is answered.
use redseat_rust.Base.{suc, ◌≡◌, ◌∙◌, refl, String, Bool, true, List, ok, err, ◌==◌, string_eq}
use redseat_rust.Access.Roles.{LibraryRole, library_role_eq}
use redseat_rust.Access.Users.{ConnectedUser, UploadKey, Error, share_token_insufficient}
use redseat_rust.Access.Checks.{check_library_role, check_upload_key, is_admin}
use redseat_rust.Tags.{TagForAdd, TagForUpdate, TagStore, TagError, refused, TagWorld, ◌>>=◌}
use redseat_rust.Tags.Store.{store_add_tag}
use redseat_rust.Tags.Runs.{get_or_create_path-Keeps}
use redseat_rust.Tags.Paths.{get_or_create_path}
use redseat_rust.Tags.Requests.{
  check_tags, add_tag, update_tag, remove_tag, merge_tag, get_tag, answer, must, draw,
  tag_for_insert,
}

module _ (w : TagWorld) (library_id : String) (user : ConnectedUser) where
  add_tag-refused :
      (t : TagForAdd) (st : TagStore) {e : TagError}
      → check_tags user library_id LibraryRole.write ≡ err e
      → (add_tag w library_id user t st).1 ≡ st
  unfolding add_tag ◌>>=◌ answer
  add_tag-refused t st h = rw h refl

  -- A user who is no administrator of the library and may not add tags changes nothing, whatever is
  -- asked for.
  pub refused-unchanged :
      (st : TagStore) (same_name : String → String → Bool) (t : TagForAdd) (path : List String)
      (id into : String) (update : TagForUpdate) {e : Error} {f : TagError}
      → check_library_role user library_id LibraryRole.admin ≡ err e
      → check_tags user library_id LibraryRole.write ≡ err f
      → ((add_tag w library_id user t st).1 ≡ st)
        × ((get_or_create_path w library_id user path t st).1 ≡ st)
        × (update_tag w library_id user id update st ≡ (err (refused e), st))
        × (remove_tag w library_id user id st ≡ (err (refused e), st))
        × (merge_tag w library_id user same_name id into st ≡ (err (refused e), st))
  unfolding update_tag remove_tag merge_tag ◌>>=◌ answer must
  refused-unchanged st same_name t path id into update admin write = (
    add_tag-refused t st write,
    (get_or_create_path-Keeps (λ x. x ≡ st) w library_id user
          (λ u. record { kept = λ x p. add_tag-refused u x write ∙ p }) path t).kept
        st refl,
    rw admin refl,
    rw admin refl,
    rw admin refl,
  )

-- The holder of an upload key with the permission on tags who adds a tag is refused, although the tag
-- is stored: nobody is told of it.
pub add_tag_upload_key :
    (w : TagWorld) (library_id : String) (key : UploadKey) (t : TagForAdd) (st stored : TagStore)
    → (key.library == library_id) ≡ true
    → key.tags ≡ true
    → store_add_tag w (tag_for_insert (w.nanoid st.drawn) t) (record st { drawn = suc st.drawn })
      ≡ (ok tt, stored)
    → add_tag w library_id (ConnectedUser.upload_key key) t st
      ≡ (err (refused share_token_insufficient), stored)
unfolding add_tag get_tag ◌>>=◌ answer must draw check_tags check_upload_key check_library_role
    is_admin library_role_eq
add_tag_upload_key w library_id key t st stored own tags e = rw (own, tags, e) refl
