-- ===== src/Tags/Paths.antt =====
-- `get_or_create_path` of src/model/tags.rs.
use redseat_rust.Base.{String, Option, none, some, List, [], ◌∷◌, string_eq, unwrap_or}
use mathlib.Core.Option
use redseat_rust.Access.Roles.{LibraryRole}
use redseat_rust.Access.Users.{ConnectedUser}
use redseat_rust.Sql.Texts.{join}
use redseat_rust.Tags.{Tag, TagForAdd, empty_path, TagWorld, Op, ◌>>=◌, pure, fail}
use redseat_rust.Tags.Requests.{
  must, first, get_tags, add_tag, new_with_path, new_with_name_and_parent,
}

-- A tag that a path lacks, from the template.
abbrev pub missing_tag : TagForAdd → String → Option String → TagForAdd
missing_tag template name parent = record {
  name = name;
  parent = parent;
  kind = none;
  alt = template.alt;
  thumb = none;
  params = none;
  generated = template.generated;
  otherids = none;
}

-- `Vec::pop`: what is left, and the last element.
abbrev pub pop : List String → Option (List String × String)
pop [] = none
pop (x ∷ []) = some ([], x)
pop (x ∷ y ∷ ys) = Option.map (λ r. (x ∷ r.0, r.1)) (pop (y ∷ ys))

unfoldable pub or_next : Option Tag → Op (Option Tag) → Op (Option Tag)
or_next none rest = rest
or_next (some tag) rest = pure (some tag)

abbrev pub id_of : Option Tag → Option String
id_of = Option.map (λ t. t.id)

module _ (w : TagWorld) (library_id : String) (user : ConnectedUser) where
  unfoldable pub or_add : TagForAdd → Option Tag → Op Tag
  or_add new_tag (some tag) = pure tag
  or_add new_tag none = add_tag w library_id user new_tag

  unfoldable pub walk : TagForAdd → List String → Option Tag → Op (Option Tag)
  walk template [] parent = pure parent
  walk template (element ∷ path) parent = do
    found ← get_tags w library_id user (new_with_name_and_parent element (id_of parent))
    tag ← or_add (missing_tag template element (id_of parent)) (first found)
    walk template path (some tag)

  unfoldable pub find_names : List String → Option String → Op (Option Tag)
  find_names [] parent = pure none
  find_names (name ∷ names) parent = do
    found ← get_tags w library_id user (new_with_name_and_parent name parent)
    or_next (first found) (find_names names parent)

  unfoldable pub create : TagForAdd → Option (List String × String) → Op Tag
  create template none = fail empty_path
  create template (some (path, last_element)) = do
    parent ← walk template path none
    found ← find_names (last_element ∷ unwrap_or template.alt []) (id_of parent)
    or_add (missing_tag template last_element (id_of parent)) found

  unfoldable pub found_or_create : TagForAdd → List String → Option Tag → Op Tag
  found_or_create template path (some tag) = pure tag
  found_or_create template path none = create template (pop path)

  unfoldable pub get_or_create_path : List String → TagForAdd → Op Tag
  get_or_create_path path template = do
    _ ← must user library_id LibraryRole.read
    found ← get_tags w library_id user (new_with_path (join "/" path))
    found_or_create template path (first found)
