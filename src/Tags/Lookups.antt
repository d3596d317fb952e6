-- ===== src/Tags/Lookups.antt =====
-- The lookups of tags, and the tags of predictions and imports, in src/model/tags.rs.
use redseat_rust.Base.{ℕ, String, true, Option, none, some, List, [], ◌∷◌}
use redseat_rust.Access.Roles.{LibraryRole}
use redseat_rust.Access.Users.{ConnectedUser}
use redseat_rust.Tags.{Tag, TagForAdd, TagQuery, TagStore, TagWorld, Op, ◌>>=◌, ◌>>◌, pure}
use redseat_rust.Tags.Store
use redseat_rust.Tags.Paths.{or_next, get_or_create_path}
use redseat_rust.Tags.Requests.{query_all, must, reading, first}

-- `PredictionTag` of tools/prediction.rs.
pub record PredictionTag : Type 0 where
  pub id : String
  pub name : String
  pub alts : List String

pub record MediaItemReference : Type 0 where
  pub id : String
  pub conf : Option ℕ

unfoldable pub new_with_name : String → TagQuery
unfolding query_all
new_with_name name = record query_all { name = some name }

-- A template of a tag, from its alts.
abbrev pub generated_tag : Option (List String) → TagForAdd
generated_tag alt = record {
  name = "";
  parent = none;
  kind = none;
  alt = alt;
  thumb = none;
  params = none;
  generated = true;
  otherids = none;
}

module _ (w : TagWorld) (library_id : String) (user : ConnectedUser) where
  -- The first tag that one of the names, in their order, finds.
  unfoldable pub first_by_names : List String → Op (Option Tag)
  first_by_names [] = pure none
  first_by_names (name ∷ names) = do
    found ← reading (Store.get_tags w (new_with_name name))
    or_next (first found) (first_by_names names)

  unfoldable pub get_tag_by_names : List String → Op (Option Tag)
  get_tag_by_names names = must user library_id LibraryRole.read >> first_by_names names

  unfoldable pub or_create : List String → TagForAdd → Option Tag → Op Tag
  or_create path template none = get_or_create_path w library_id user path template
  or_create path template (some tag) = pure tag

  unfoldable pub get_ai_tag : PredictionTag → Op Tag
  get_ai_tag tag = do
    _ ← must user library_id LibraryRole.write
    existing ← get_tag_by_names (tag.id ∷ [])
    or_create ("ai" ∷ tag.name ∷ []) (generated_tag (some tag.alts)) existing

  unfoldable pub add_imported_tag : TagForAdd → Op Tag
  add_imported_tag tag =
      must user library_id LibraryRole.write
      >> get_or_create_path w library_id user ("imported" ∷ tag.name ∷ [])
          (record tag { generated = true })

  abbrev pub reference : Option ℕ → Option Tag → Option MediaItemReference
  reference conf none = none
  reference conf (some tag) = some (record { id = tag.id; conf = conf })

  abbrev pub by_otherids :
      (List String → TagStore → Option Tag) → Option (List String) → TagStore → Option Tag
  by_otherids get_tag_by_otherids none st = none
  by_otherids get_tag_by_otherids (some []) st = none
  by_otherids get_tag_by_otherids (some (i ∷ is)) st = get_tag_by_otherids (i ∷ is) st

  abbrev pub else_by_names : List String → Option Tag → Op (Option MediaItemReference)
  else_by_names names (some tag) = pure (reference none (some tag))
  else_by_names names none = do tag ← first_by_names names; pure (reference (some 80) tag)

  abbrev pub else_by_otherids :
      (List String → TagStore → Option Tag)
      → List String
      → Option (List String)
      → Option Tag
      → Op (Option MediaItemReference)
  else_by_otherids get_tag_by_otherids names otherids (some tag) = pure (reference none (some tag))
  else_by_otherids get_tag_by_otherids names otherids none = do
    tag ← reading (by_otherids get_tag_by_otherids otherids)
    else_by_names names tag

  -- The id, then the ids at other services, then the names.
  unfoldable pub get_tag_by_external_id :
      (List String → TagStore → Option Tag)
      → String
      → List String
      → Option (List String)
      → Op (Option MediaItemReference)
  get_tag_by_external_id get_tag_by_otherids id names otherids = do
    _ ← must user library_id LibraryRole.read
    tag ← reading (Store.get_tag w id)
    else_by_otherids get_tag_by_otherids names otherids tag
