-- ===== src/Libraries.antt =====
-- Libraries: the records of domain/library.rs and model/libraries.rs, what a user is shown of a
-- library, and the mapping of users under which progress is shared. The `f32` face threshold, which
-- nothing here reads, is kept as its bit pattern. `HashSet`s are lists without repetition.
pub mod Views
pub mod Merging
pub mod Tests
use redseat_rust.Base.{
  ℕ, String, Bool, true, false, not, ◌||◌, Option, none, some, List, [], ◌∷◌, Result, ok, err,
  ◌>>=◌, ◌==◌, string_eq, contains, filter, map, find, ok_or, if◌then◌else◌, unwrap_or, and_then,
}
use redseat_rust.Base.Dict
use redseat_rust.Base.Dict.{Dict}
use redseat_rust.Access.Roles.{UserRole, LibraryRole}
use redseat_rust.Access.Users.{
  LibraryType, ServerUserLibrariesRights, ServerUser, UploadKey, ClaimsLocalType, ConnectedUser,
  Error, RsError,
}
use redseat_rust.Access.Checks.{
  Checked, find_rights, rights_has_role, check_role, check_library_role, has_hidden_library,
}

pub record UserMapping : Type 0 where
  pub from : String
  pub to : String

pub record ServerLibrarySettings : Type 0 where
  pub face_threshold : Option ℕ
  pub ignore_groups : Option Bool
  pub preduction_model : Option String
  pub map_progress : Option (List UserMapping)
  pub data_path : Option String
  pub epg_url : Option String
  pub max_streams : Option ℕ

pub record ServerLibrary : Type 0 where
  pub id : String
  pub name : String
  pub source : String
  pub root : Option String
  pub kind : LibraryType
  pub crypt : Option Bool
  pub settings : ServerLibrarySettings
  pub credentials : Option String
  pub plugin : Option String
  pub password : Option String
  pub hidden : Bool

pub record ServerLibraryForRead : Type 0 where
  pub id : String
  pub name : String
  pub source : Option String
  pub root : Option String
  pub kind : LibraryType
  pub crypt : Option Bool
  pub settings : Option ServerLibrarySettings
  pub roles : Option (List LibraryRole)
  pub password : Option String
  pub hidden : Bool

unfoldable pub is_virtual : ServerLibrary → Bool
is_virtual lib = lib.source == "virtual"

unfoldable pub from_library : ServerLibrary → ServerLibraryForRead
from_library lib = record {
  id = lib.id;
  name = lib.name;
  source = some lib.source;
  root = lib.root;
  kind = lib.kind;
  crypt = lib.crypt;
  settings = some lib.settings;
  roles = none;
  password = lib.password;
  hidden = false;
}

unfoldable pub into_with_role : ServerLibrary → List LibraryRole → ServerLibraryForRead
unfolding from_library
into_with_role lib roles = record (from_library lib) { roles = some roles }

-- `library_out.root = None; library_out.settings = None;`
abbrev pub redacted : ServerLibraryForRead → ServerLibraryForRead
redacted out = record out { root = none; settings = none }

abbrev view_with_rights :
    ServerLibrary → Bool → Option ServerUserLibrariesRights → Option ServerLibraryForRead
view_with_rights library hidden none = none
view_with_rights library hidden (some rights) =
    let out = record (into_with_role library rights.roles) { hidden = hidden } in
    some (if rights_has_role rights LibraryRole.admin then out else redacted out)

abbrev view_of_share : ServerLibrary → ClaimsLocalType → Option ServerLibraryForRead
view_of_share library ClaimsLocalType.admin = some (from_library library)
view_of_share library _ = none

unfoldable pub map_library_for_user : ServerLibrary → ConnectedUser → Option ServerLibraryForRead
unfolding into_with_role has_hidden_library
map_library_for_user library (ConnectedUser.server user) =
    view_with_rights library (has_hidden_library (ConnectedUser.server user) library.id)
      (find_rights user library.id)
map_library_for_user library ConnectedUser.anonymous = none
map_library_for_user library (ConnectedUser.guest _) = none
map_library_for_user library ConnectedUser.server_admin = some (from_library library)
map_library_for_user library (ConnectedUser.share claims) = view_of_share library claims.kind
map_library_for_user library (ConnectedUser.upload_key key) =
    if library.id == key.library
    then some (redacted (into_with_role library (LibraryRole.write ∷ [])))
    else none

-- The `store` of the controller answers `get_library` and `get_libraries`: a table of libraries.
abbrev pub LibraryTable : Type 0
LibraryTable = Dict String ServerLibrary

abbrev map_found : Option ServerLibrary → ConnectedUser → Option ServerLibraryForRead
map_found none user = none
map_found (some lib) user = map_library_for_user lib user

unfoldable pub get_library :
    LibraryTable → String → ConnectedUser → Checked (Option ServerLibraryForRead)
unfolding map_library_for_user
get_library table library_id requesting_user = do
  _ ← check_library_role requesting_user library_id LibraryRole.read
  ok (map_found (Dict.lookup library_id table) requesting_user)

unfoldable pub visible : List ServerLibrary → ConnectedUser → List ServerLibraryForRead
visible [] user = []
visible (l ∷ ls) user = elim (map_library_for_user l user) [
  | none ↦ visible ls user
  | some out ↦ out ∷ visible ls user
]

unfoldable pub get_libraries : LibraryTable → ConnectedUser → Checked (List ServerLibraryForRead)
unfolding visible
get_libraries table requesting_user = do
  _ ← check_role requesting_user UserRole.read
  ok (visible (Dict.values table) requesting_user)

-- `get_internal_library(..).await?.ok_or(UnableToFindLibrary)`
abbrev internal_library : LibraryTable → String → String → Checked ServerLibrary
internal_library table library_id caller =
    ok_or (Dict.lookup library_id table) (Error.unable_to_find_library library_id caller)

abbrev pub mappings_of : ServerLibrary → List UserMapping
mappings_of library = unwrap_or library.settings.map_progress []

abbrev settings_mappings : Option ServerLibraryForRead → List UserMapping
settings_mappings none = []
settings_mappings (some l) = unwrap_or (and_then l.settings (λ s. s.map_progress)) []

unfoldable pub get_library_mapped_users : LibraryTable → String → Checked (List UserMapping)
unfolding get_library
get_library_mapped_users table library_id = do
  found ← get_library table library_id ConnectedUser.server_admin
  library ← ok_or found (Error.unable_to_find_library library_id "get_library_mapped_users")
  ok (settings_mappings (some library))

unfoldable pub get_library_progress_user_mappings :
    LibraryTable → String → String → Checked (List String)
get_library_progress_user_mappings table library_id user_id = do
  library ← internal_library table library_id "get_library_progress_user_mappings"
  ok (map (λ m. m.to) (filter (λ m. m.from == user_id) (mappings_of library)))

unfoldable pub get_library_progress_user_mapped :
    LibraryTable → String → String → Checked (List String)
get_library_progress_user_mapped table library_id user_id = do
  library ← internal_library table library_id "get_library_mapped_users"
  ok (map (λ m. m.from) (filter (λ m. m.to == user_id) (mappings_of library)))

-- `HashSet::insert`
abbrev pub set_insert : List String → String → List String
set_insert set x = if contains set x then set else x ∷ set

abbrev insert_ends : List String → UserMapping → List String
insert_ends set m = set_insert (set_insert set m.from) m.to

abbrev pub touches : String → UserMapping → Bool
touches user_id m = m.to == user_id || m.from == user_id

-- The closure that selects `subfil`.
abbrev shares_end : UserMapping → UserMapping → Bool
shares_end mapped m =
    m.to == mapped.to || (m.from == mapped.from || (m.to == mapped.from || m.from == mapped.to))

unfoldable pub insert_all : List String → List UserMapping → List String
insert_all set [] = set
insert_all set (m ∷ ms) = insert_all (insert_ends set m) ms

-- The outer loop, over the mappings that touch the user.
unfoldable pub merge_loop : List UserMapping → List String → List UserMapping → List String
unfolding insert_all
merge_loop mapping set [] = set
merge_loop mapping set (mapped ∷ rest) =
    merge_loop mapping (insert_all (insert_ends set mapped) (filter (shares_end mapped) mapping))
      rest

unfoldable pub get_library_progress_merged_users :
    LibraryTable → String → String → Checked (List String)
unfolding merge_loop
get_library_progress_merged_users table library_id user_id = do
  library ← internal_library table library_id "get_library_mapped_users"
  ok (merge_loop (mappings_of library) [] (filter (touches user_id) (mappings_of library)))

abbrev mapped_to : String → Option UserMapping → String
mapped_to user_id none = user_id
mapped_to user_id (some m) = m.to

unfoldable pub get_library_mapped_user : LibraryTable → String → String → Checked String
get_library_mapped_user table library_id user_id = do
  library ← internal_library table library_id "get_library_mapped_users"
  ok (mapped_to user_id (find (λ m. m.from == user_id) (mappings_of library)))

unfoldable pub get_optional_library_mapped_user :
    LibraryTable → Option String → String → Checked String
get_optional_library_mapped_user table none user_id = ok user_id
get_optional_library_mapped_user table (some library_id) user_id = do
  library ← internal_library table library_id "get_library_mapped_users"
  ok (mapped_to user_id (find (λ m. m.from == user_id) (mappings_of library)))
