-- ===== src/Tags/Requests.antt =====
-- The operations of `ModelController` on tags, in src/model/tags.rs.
use redseat_rust.Base.{
  suc, String, ◌<>◌, Bool, true, false, ◌||◌, Option, none, some, List, [], ◌∷◌, ◌++◌, Result, ok,
  err, map, string_eq, if◌then◌else◌,
}
use redseat_rust.Access.Roles.{LibraryRole}
use redseat_rust.Access.Users.{ConnectedUser, UploadKey, LibraryLimits}
use redseat_rust.Access.Checks.{Checked, check_library_role, check_upload_key}
use redseat_rust.Tags.{
  Tag, TagForAdd, TagForInsert, TagForUpdate, TagQuery, TagStore, TagError, unable_to_find, refused,
  forbidden, tag_not_found, TagWorld, Op, ◌>>=◌, ◌>>◌, pure, RsDeleted, serie_kind, ElementAction,
  was_added, was_updated, was_deleted,
}
use redseat_rust.Tags.Store
use redseat_rust.Tags.Store.{store_add_tag, store_remove_tag}

abbrev pub refuse_or : {A : Type 0} → Checked A → Result TagError (Unit {0})
refuse_or (ok a) = ok tt
refuse_or (err e) = err (refused e)

unfoldable pub answer : {A : Type 0} → Result TagError A → Op A
answer r st = (r, st)

unfoldable pub reading : {A : Type 0} → (TagStore → A) → Op A
reading f st = (ok (f st), st)

unfoldable pub found_or : {A : Type 0} → TagError → Option A → Op A
found_or e none st = (err e, st)
found_or e (some a) st = (ok a, st)

abbrev pub first : List Tag → Option Tag
first [] = none
first (t ∷ ts) = some t

-- The holder of an upload key needs its permission on tags, another user needs the role.
abbrev pub key_or_role : Checked UploadKey → Checked LibraryLimits → Result TagError (Unit {0})
key_or_role (ok key) limits = if key.tags then ok tt else err forbidden
key_or_role (err _) limits = refuse_or limits

unfoldable pub check_tags : ConnectedUser → String → LibraryRole → Result TagError (Unit {0})
check_tags user library_id role =
    key_or_role (check_upload_key user library_id) (check_library_role user library_id role)

unfoldable pub must : ConnectedUser → String → LibraryRole → Op (Unit {0})
must user library_id role = answer (refuse_or (check_library_role user library_id role))

unfoldable pub query_all : TagQuery
query_all = record { name = none; parent = none; path = none; after = none }

unfoldable pub new_with_path : String → TagQuery
unfolding query_all
new_with_path path = record query_all { path = some path }

unfoldable pub new_with_name_and_parent : String → Option String → TagQuery
unfolding query_all
new_with_name_and_parent name parent = record query_all { name = some name; parent = parent }

unfoldable pub send_tags : String → ElementAction → List Tag → Op (Unit {0})
send_tags library_id action ts st = (
  ok tt,
  record st {
    sent =
        st.sent
        ++ (record {
          library = library_id;
          tags = map (λ t. record { action = action; tag = t }) ts;
        })
          ∷ [];
  },
)

unfoldable pub no_update : TagForUpdate
no_update = record {
  name = none;
  parent = none;
  kind = none;
  alt = none;
  add_alts = none;
  remove_alts = none;
  thumb = none;
  params = none;
  otherids = none;
  add_otherids = none;
  remove_otherids = none;
  generated = none;
  migrate_to = none;
}

abbrev pub tag_for_insert : String → TagForAdd → TagForInsert
tag_for_insert id new_tag = record {
  id = id;
  name = new_tag.name;
  parent = new_tag.parent;
  kind = new_tag.kind;
  alt = new_tag.alt;
  thumb = new_tag.thumb;
  params = new_tag.params;
  generated = new_tag.generated;
  otherids = new_tag.otherids;
}

abbrev pub has_changed : TagForUpdate → Bool
has_changed update = is_some update.name || is_some update.params
  where
    is_some : Option String → Bool
    is_some none = false
    is_some (some _) = true

module _ (w : TagWorld) (library_id : String) (user : ConnectedUser) where
  -- `nanoid!()`
  unfoldable pub draw : Op String
  draw st = (ok (w.nanoid st.drawn), record st { drawn = suc st.drawn })

  unfoldable pub get_tags : TagQuery → Op (List Tag)
  get_tags query =
      answer (check_tags user library_id LibraryRole.read) >> reading (Store.get_tags w query)

  unfoldable pub get_tag : String → Op (Option Tag)
  get_tag tag_id = must user library_id LibraryRole.read >> reading (Store.get_tag w tag_id)

  unfoldable pub add_tag : TagForAdd → Op Tag
  add_tag new_tag = do
    _ ← answer (check_tags user library_id LibraryRole.write)
    id ← draw
    _ ← store_add_tag w (tag_for_insert id new_tag)
    found ← get_tag id
    tag ← found_or (unable_to_find id) found
    _ ← send_tags library_id was_added (tag ∷ [])
    pure tag

  unfoldable pub add_deleted : RsDeleted → Op (Unit {0})
  add_deleted d = must user library_id LibraryRole.write >> λ st.
      (ok tt, record st { deleted = st.deleted ++ d ∷ [] })

  unfoldable pub remove_tag : String → Op Tag
  remove_tag tag_id = do
    _ ← must user library_id LibraryRole.admin
    existing ← reading (Store.get_tag w tag_id)
    tag ← found_or (unable_to_find tag_id) existing
    children ← get_tags (new_with_path (w.childs_path tag))
    _ ← store_remove_tag w tag_id
    _ ← add_deleted (record { id = tag_id; date = w.now; kind = serie_kind })
    _ ← send_tags library_id was_deleted (children ++ tag ∷ [])
    pure tag

  unfoldable pub update_tag : String → TagForUpdate → Op Tag
  update_tag tag_id update = do
    _ ← must user library_id LibraryRole.admin
    _ ← Store.update_tag w tag_id update
    found ← reading (Store.get_tag w tag_id)
    tag ← found_or (unable_to_find tag_id) found
    updated ←
        if has_changed update then get_tags (new_with_path (w.childs_path tag <> "%")) else pure []
    _ ← send_tags library_id was_updated (tag ∷ updated)
    pure tag

  unfoldable pub add_old_alt : String → Option (List String) → Op (Unit {0})
  add_old_alt into none = pure tt
  add_old_alt into (some alts) = Store.update_tag w into (record no_update { add_alts = some alts })

  -- `same_name` compares the names in lower case.
  unfoldable pub merge_tag : (String → String → Bool) → String → String → Op Tag
  merge_tag same_name old_id into = do
    _ ← must user library_id LibraryRole.admin
    old ← get_tag old_id
    old_tag ← found_or (tag_not_found old_id) old
    new ← get_tag into
    new_tag ← found_or (tag_not_found into) new
    _ ←
        if same_name old_tag.name new_tag.name
        then pure tt
        else add_old_alt into (some (old_tag.name ∷ []))
    _ ← add_old_alt into old_tag.alt
    _ ← Store.update_tag w old_id (record no_update { migrate_to = some into })
    _ ← remove_tag old_id
    found ← get_tag into
    tag ← found_or (tag_not_found old_id) found
    _ ← send_tags library_id was_updated (tag ∷ [])
    pure tag
