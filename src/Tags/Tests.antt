-- ===== src/Tags/Tests.antt =====
-- The theorems on tags at a library with one tag and a prefix match for LIKE.
use Prim.Native.Char.{Char, code}
use redseat_rust.Base.{
  ℕ, zero, suc, ◌≡◌, refl, subst, String, ◌<>◌, Bool, true, false, ◌&&◌, ◌||◌, none, some, List, [],
  ◌∷◌, ok, err, ◌==◌, nat_eq, string_eq, arith, map,
}
use text.Mathlib.TextLemmas.{cons-append}
use redseat_rust.Access.Users.{
  ConnectedUser, UploadKey, share_token_insufficient, not_server_connected,
}
use redseat_rust.Access.Checks.{
  check_upload_key, check_library_role, is_admin, user_id, init_with_user,
}
use redseat_rust.Access.Roles.{LibraryRole}
use redseat_rust.Tags.{Tag, TagForAdd, TagStore, refused, TagWorld, IsSound, ◌>>=◌, pure}
use redseat_rust.Tags.Store.{has_id, store_add_tag, update_tag, get_tag}
use redseat_rust.Tags.Store
use redseat_rust.Access.Checks.{default_limits}
use redseat_rust.Access.Roles.{library_role_eq}
use redseat_rust.Tags.Paths.{
  walk, find_names, create, found_or_create, or_add, or_next, get_or_create_path,
}
use redseat_rust.Tags.Requests.{
  answer, reading, found_or, must, draw, send_tags, new_with_path, new_with_name_and_parent,
  query_all, add_tag, tag_for_insert, no_update, merge_tag, check_tags,
}
use redseat_rust.Tags.Requests
use redseat_rust.Tags.Filing.{IsFiled}
use redseat_rust.Tags.Changes.{adding, finding, none_yet, then_one, Changes-IsFiled}
use redseat_rust.Tags.Removing.{Removal, merge_into, run_removal, IsGone, removal-IsGone}
use redseat_rust.Tags.Store.{
  store_remove_tag, delete_tags, cascade, cascade_all, rename_paths, move_paths, updated_columns,
  migrate,
}
use redseat_rust.Tags.Requests.{add_old_alt, add_deleted, remove_tag}
use redseat_rust.Collections.{
  replace_add_remove_from_array, add_remove_from_array, replace_part, add_part, remove_part,
  push_missing,
}
use redseat_rust.Tags.Merging.{Moved, update_tag-Moved}
use redseat_rust.Tags.Guards.{refused-unchanged, add_tag_upload_key}

abbrev like : String → String → Bool
like String.[] String.[] = true
like String.[] (String.◌∷◌ d s) = false
like (String.◌∷◌ c p) String.[] = code c == b'%'
like (String.◌∷◌ c p) (String.◌∷◌ d s) = code c == b'%' || (code c == code d && like p s)

abbrev nano : ℕ → String
nano zero = "n"
nano (suc n) = "n" <> nano n

abbrev sample : TagWorld
sample = record {
  childs_path = λ t. t.path <> (t.name <> "/");
  like = like;
  named = λ q t. q == t.name;
  replace = λ path from to. to;
  in_order = λ ts. ts;
  nanoid = nano;
  now = 7;
}

like_itself : (p : String) → like (p <> "%") p ≡ true
like_itself String.[] = refl
like_itself (String.◌∷◌ c p) = rw (cons-append c p "%") (ground (arith, like_itself p))

like_percent : (x : String) → like "%" x ≡ true
like_percent String.[] = refl
like_percent (String.◌∷◌ d x) = refl

like_wild :
    (p : String) (c : Char) (x : String) → (code c == b'%') ≡ true → like (String.◌∷◌ c p) x ≡ true
like_wild p c String.[] h = h
like_wild p c (String.◌∷◌ d x) h = ground (arith, h)

like_more : (p s r : String) → like (p <> "%") s ≡ true → like (p <> "%") (s <> r) ≡ true
like_more String.[] s r h = like_percent (s <> r)
like_more (String.◌∷◌ c p) String.[] r h = rw (cons-append c p "%") (
    like_wild (p <> "%") c (String.[] <> r)
      (subst (λ x. like x String.[] ≡ true) (cons-append c p "%") h))
like_more (String.◌∷◌ c p) (String.◌∷◌ d s) r h =
    rw (cons-append c p "%", cons-append d s r)
      (ground (
        arith,
        subst (λ x. like x (String.◌∷◌ d s) ≡ true) (cons-append c p "%") h,
        like_more p s r,
      ))

sample-IsSound : IsSound sample
sample-IsSound = record {
  childs_path_of = λ t. refl;
  like_itself = like_itself;
  like_longer = like_more;
  read_all = λ p ts. refl;
}

abbrev admin : ConnectedUser
admin = ConnectedUser.server_admin

abbrev no_tags : TagStore
no_tags = record {
  tags = [];
  media_tags = [];
  book_tags = [];
  channel_tags = [];
  deleted = [];
  sent = [];
  drawn = 0;
}

abbrev sea : TagForAdd
sea = record {
  name = "sea";
  parent = none;
  kind = none;
  alt = none;
  thumb = none;
  params = none;
  generated = false;
  otherids = none;
}

abbrev with_sea : TagStore
with_sea = (add_tag sample "films" admin sea no_tags).1

abbrev paths : TagStore → List (String × String)
paths st = map (λ t. (t.path, t.name)) st.tags

-- What the path lacks is added below what is there.
fish_added :
    paths (get_or_create_path sample "films" admin ("sea" ∷ "fish" ∷ []) sea with_sea).1
    ≡ ("/", "sea") ∷ ("/sea/", "fish") ∷ []
unfolding get_or_create_path add_tag Requests.get_tags Requests.get_tag walk find_names create
    found_or_create or_add or_next answer reading found_or must draw send_tags check_tags
    check_upload_key check_library_role is_admin user_id init_with_user default_limits ◌>>=◌ pure
    store_add_tag get_tag Store.get_tags new_with_path new_with_name_and_parent query_all
    library_role_eq
fish_added = refl

-- The first element of a path is looked for at any depth: a path of one element finds a tag that
-- stands below another one, and adds none.
fish_found :
    paths
      (get_or_create_path sample "films" admin
        ("fish" ∷ [])
        sea
        (get_or_create_path sample "films" admin ("sea" ∷ "fish" ∷ []) sea with_sea).1).1
    ≡ ("/", "sea") ∷ ("/sea/", "fish") ∷ []
unfolding get_or_create_path add_tag Requests.get_tags Requests.get_tag walk find_names create
    found_or_create or_add or_next answer reading found_or must draw send_tags check_tags
    check_upload_key check_library_role is_admin user_id init_with_user default_limits ◌>>=◌ pure
    store_add_tag get_tag Store.get_tags new_with_path new_with_name_and_parent query_all
    library_role_eq
fish_found = refl

Changes-IsFiled_example :
    IsFiled sample
      (get_or_create_path sample "films" admin ("sea" ∷ "fish" ∷ []) sea with_sea).1.tags
Changes-IsFiled_example =
    Changes-IsFiled sample-IsSound
      (then_one (then_one (none_yet no_tags) (adding admin sea no_tags))
        (finding admin ("sea" ∷ "fish" ∷ []) sea with_sea))
      (record { keyed = tt; filed = tt })

admin_denied :
    check_library_role ConnectedUser.anonymous "films" LibraryRole.admin ≡ err not_server_connected
unfolding check_library_role is_admin
admin_denied = refl

write_denied :
    check_tags ConnectedUser.anonymous "films" LibraryRole.write
    ≡ err (refused not_server_connected)
unfolding check_tags check_upload_key check_library_role is_admin
write_denied = refl

refused-unchanged_example :
    ((add_tag sample "films" ConnectedUser.anonymous sea no_tags).1 ≡ no_tags)
    × ((get_or_create_path sample "films" ConnectedUser.anonymous ("sea" ∷ []) sea no_tags).1
        ≡ no_tags)
    × (Requests.update_tag sample "films" ConnectedUser.anonymous "n" no_update no_tags
        ≡ (err (refused not_server_connected), no_tags))
    × (Requests.remove_tag sample "films" ConnectedUser.anonymous "n" no_tags
        ≡ (err (refused not_server_connected), no_tags))
    × (merge_tag sample "films" ConnectedUser.anonymous (λ a b. a == b) "n" "m" no_tags
        ≡ (err (refused not_server_connected), no_tags))
refused-unchanged_example =
    refused-unchanged sample "films" ConnectedUser.anonymous no_tags (λ a b. a == b) sea
      ("sea" ∷ []) "n" "m" no_update admin_denied write_denied

abbrev films_key : UploadKey
films_key = record { id = "k"; library = "films"; expiry = none; tags = true; people = false }

abbrev drawn_one : TagStore
drawn_one = record no_tags { drawn = 1 }

abbrev sea_stored : TagStore
sea_stored = (store_add_tag sample (tag_for_insert "n" sea) drawn_one).1

sea_is_stored : store_add_tag sample (tag_for_insert "n" sea) drawn_one ≡ (ok tt, sea_stored)
unfolding store_add_tag
sea_is_stored = refl

add_tag_upload_key_example :
    add_tag sample "films" (ConnectedUser.upload_key films_key) sea no_tags
    ≡ (err (refused share_token_insufficient), sea_stored)
add_tag_upload_key_example =
    add_tag_upload_key sample "films" films_key sea no_tags sea_stored refl refl sea_is_stored

abbrev sea_tag : Tag
sea_tag = record {
  id = "n";
  name = "sea";
  parent = none;
  kind = none;
  alt = none;
  thumb = none;
  params = none;
  modified = 7;
  added = 7;
  generated = false;
  path = "/";
  otherids = none;
}

abbrev one_film : TagStore
one_film = record no_tags {
  tags = sea_tag ∷ record sea_tag { id = "m"; name = "ocean" } ∷ [];
  media_tags = (record { owner = "film"; tag_ref = "n"; confidence = none }) ∷ [];
}

sea_is_there : get_tag sample "n" one_film ≡ some sea_tag
unfolding get_tag
sea_is_there = refl

update_tag-Moved_example :
    ((update_tag sample "n" (record no_update { migrate_to = some "m" }) one_film).0 ≡ ok tt)
    × Moved "n" "m" one_film
        (update_tag sample "n" (record no_update { migrate_to = some "m" }) one_film).1
update_tag-Moved_example = update_tag-Moved sample "n" "m" one_film sea_is_there refl

abbrev into_ocean : Removal
into_ocean = merge_into (λ a b. a == b) "m"

ocean_merged :
    (run_removal sample "films" admin "n" into_ocean one_film).0
    ≡ ok (record sea_tag { id = "m"; name = "ocean"; alt = some ("sea" ∷ []) })
unfolding merge_tag Requests.get_tag must reading found_or answer add_old_alt update_tag
    Store.get_tag no_update remove_tag Requests.get_tags Store.get_tags store_remove_tag delete_tags
    cascade cascade_all add_deleted send_tags check_tags check_upload_key check_library_role
    is_admin user_id init_with_user default_limits ◌>>=◌ pure new_with_path query_all rename_paths
    move_paths updated_columns replace_add_remove_from_array add_remove_from_array replace_part
    add_part remove_part push_missing migrate
ocean_merged = refl

removal-IsGone_example : IsGone "n" (run_removal sample "films" admin "n" into_ocean one_film).1
removal-IsGone_example = removal-IsGone sample "films" admin "n" into_ocean one_film ocean_merged
