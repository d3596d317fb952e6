-- ===== src/Accounts.antt =====
-- The accounts of model/users.rs and model/mod.rs with their tables in model/store/sql/users.rs and
-- model/store/sql/libraries.rs: users, rights, upload keys and invitations. A table is the list of
-- its rows in the order of insertion; an insertion that breaks a primary key is an error of the
-- store. Identifiers that `nanoid!` draws are arguments.
pub mod Preferences
pub mod Keys
pub mod Redeeming
pub mod Tokens
pub mod Trust
pub mod Tests
use redseat_rust.Base.{
  String, Bool, true, false, not, ◌&&◌, Option, none, some, List, [], ◌∷◌, ◌++◌, Result, ok, err,
  ◌>>=◌, ◌==◌, string_eq, contains, any, find, filter, map, ok_or, unwrap_or, if◌then◌else◌,
}
use redseat_rust.Base.Int.{ℤ}
use redseat_rust.Base.Dict
use redseat_rust.Access.Roles.{UserRole, LibraryRole}
use redseat_rust.Access.Users.{
  LibraryLimits, ServerUserPreferences, ServerUserLibrariesRights, ServerUser, ServerUserForUpdate,
  GuestUser, UploadKey, ConnectedUser, Error, RsError,
}
use redseat_rust.Access.Checks.{
  Checked, is_admin, is_admin_role, check_registered, check_role, check_library_role,
}
use redseat_rust.Libraries.{ServerLibrary, LibraryTable}

pub record UserRow : Type 0 where
  pub id : String
  pub name : String
  pub role : UserRole
  pub preferences : ServerUserPreferences

pub record RightsRow : Type 0 where
  pub user_ref : String
  pub library_ref : String
  pub roles : List LibraryRole
  pub limits : LibraryLimits

pub record ServerLibraryInvitation : Type 0 where
  pub code : String
  pub expires : Option String
  pub library : String
  pub roles : List LibraryRole
  pub limits : LibraryLimits

pub record UploadKeyForCreate : Type 0 where
  pub library : String
  pub expiry : Option ℤ
  pub tags : Bool
  pub people : Bool

pub record Accounts : Type 0 where
  pub users : List UserRow
  pub rights : List RightsRow
  pub upload_keys : List UploadKey
  pub invitations : List ServerLibraryInvitation

-- `impl From<model::error::Error> for error::Error`, where `?` leaves a `model` function.
abbrev pub lift : {A : Type 0} → Checked A → Result RsError A
lift (ok a) = ok a
lift (err e) = err (RsError.model e)

-- A row of the rights joined with its library. A row without a library has no name to read, and
-- `flat_map(|e| e.ok())` drops it.
abbrev pub joined : RightsRow → Option ServerLibrary → List ServerUserLibrariesRights
joined r none = []
joined r (some lib) =
    record {
      id = r.library_ref;
      name = lib.name;
      kind = lib.kind;
      roles = r.roles;
      limits = record r.limits { user_id = some r.user_ref };
    }
    ∷ []

unfoldable pub rights_of : LibraryTable → String → List RightsRow → List ServerUserLibrariesRights
rights_of table user_id [] = []
rights_of table user_id (r ∷ rs) =
    let rest = rights_of table user_id rs in
    if r.user_ref == user_id then joined r (Dict.lookup r.library_ref table) ++ rest else rest

abbrev pub find_user : Accounts → String → Option UserRow
find_user acc user_id = find (λ r. r.id == user_id) acc.users

unfoldable pub with_rights : LibraryTable → Accounts → UserRow → ServerUser
unfolding rights_of
with_rights table acc row = record {
  id = row.id;
  name = row.name;
  role = row.role;
  preferences = row.preferences;
  libraries = rights_of table row.id acc.rights;
}

abbrev pub found_user : LibraryTable → Accounts → String → Option UserRow → Checked ServerUser
found_user table acc user_id none = err (Error.user_not_found user_id)
found_user table acc user_id (some row) = ok (with_rights table acc row)

-- `SqliteStore::get_user`, which is also `get_user_unchecked`.
unfoldable pub store_get_user : LibraryTable → Accounts → String → Checked ServerUser
store_get_user table acc user_id = found_user table acc user_id (find_user acc user_id)

abbrev pub may_get_user : ConnectedUser → String → Bool
may_get_user ConnectedUser.anonymous id = false
may_get_user (ConnectedUser.server user) id =
    not (not (user.id == id) && not (is_admin_role user.role))
may_get_user _ id = true

unfoldable pub get_user : LibraryTable → Accounts → String → ConnectedUser → Checked ServerUser
unfolding store_get_user
get_user table acc user_id requesting_user =
    if may_get_user requesting_user user_id
    then store_get_user table acc user_id
    else err (Error.user_get_not_auth requesting_user user_id)

abbrev pub unique_error : Error
unique_error = Error.store "UNIQUE constraint failed"

-- `SqliteStore::add_user`: the libraries of the user are not stored.
abbrev pub insert_user : ServerUser → Accounts → Checked (Unit {0}) × Accounts
insert_user user acc = if any (λ r. r.id == user.id) acc.users then (err unique_error, acc) else (
  ok tt,
  record acc {
    users =
        acc.users
        ++ (record {
          id = user.id;
          name = user.name;
          role = user.role;
          preferences = user.preferences;
        })
          ∷ [];
  },
)

unfoldable pub then_get :
    LibraryTable
    → String
    → ConnectedUser
    → Checked (Unit {0}) × Accounts
    → Checked ServerUser × Accounts
unfolding get_user
then_get table user_id requesting_user (err e, acc) = (err e, acc)
then_get table user_id requesting_user (ok _, acc) =
    (get_user table acc user_id requesting_user, acc)

abbrev pub checked_add :
    LibraryTable
    → ServerUser
    → ConnectedUser
    → Accounts
    → Checked (Unit {0})
    → Checked ServerUser × Accounts
checked_add table user requesting_user acc (err e) = (err e, acc)
checked_add table user requesting_user acc (ok _) =
    then_get table user.id requesting_user (insert_user user acc)

unfoldable pub add_user :
    LibraryTable → ServerUser → ConnectedUser → Accounts → Checked ServerUser × Accounts
add_user table user requesting_user acc =
    checked_add table user requesting_user acc (check_role requesting_user UserRole.admin)

-- `ServerModelController::get_users`, where a row without a library makes the query fail.
abbrev all_rights_found : LibraryTable → Accounts → Bool
all_rights_found table acc =
    not (
      any (λ r. elim (Dict.lookup r.library_ref table) [ none ↦ true | some _ ↦ false ]) acc.rights)

unfoldable pub get_users : LibraryTable → Accounts → ConnectedUser → Checked (List ServerUser)
get_users table acc requesting_user =
    if is_admin requesting_user
    then (if all_rights_found table acc
        then ok (map (with_rights table acc) acc.users)
        else err (Error.store "Invalid column type"))
    else err (Error.user_list_not_auth requesting_user)

abbrev pub updated : ServerUserForUpdate → UserRow → UserRow
updated update r =
    if r.id == update.id
    then record {
      id = r.id;
      name = unwrap_or update.name r.name;
      role = unwrap_or update.role r.role;
      preferences = unwrap_or update.preferences r.preferences;
    }
    else r

abbrev pub is_given {ℓ} : {A : Type ℓ} → Option A → Bool
is_given none = false
is_given (some _) = true

unfoldable pub update_user :
    ServerUser → ServerUserForUpdate → Accounts → Checked (Unit {0}) × Accounts
update_user connected_user update acc =
    if not (connected_user.id == update.id) && not (is_admin_role connected_user.role)
    then (err (Error.user_update_not_authorized connected_user update), acc)
    else if is_given update.role && not (is_admin_role connected_user.role)
    then (err Error.user_role_update_not_auth_only_admin, acc)
    else (ok tt, record acc { users = map (updated update) acc.users })
