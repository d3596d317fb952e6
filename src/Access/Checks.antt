-- ===== src/Access/Checks.antt =====
-- The guards of `ConnectedUser` and `ServerUser` in model/users.rs.
use redseat_rust.Base.{
  String, Bool, true, false, ◌&&◌, Option, none, some, Result, ok, err, ◌==◌, string_eq, contains,
  find, any, to_option, if◌then◌else◌,
}
use redseat_rust.Access.Roles.{
  UserRole, LibraryRole, user_role_ge, library_role_ge, library_role_eq,
}
use redseat_rust.Access.Users.{
  LibraryLimits, ServerUserLibrariesRights, ServerUser, UploadKey, ClaimsLocalType, ConnectedUser,
  Error,
}

abbrev pub Checked : Type 0 → Type 0
Checked A = Result Error A

unfoldable pub default_limits : LibraryLimits
default_limits = record {
  tags = false;
  people = false;
  albums = false;
  delay = none;
  user_id = none;
}

unfoldable pub init_with_user : Option String → LibraryLimits
unfolding default_limits
init_with_user user_id = record default_limits { user_id = user_id }

-- `ServerUserLibrariesRights::has_role`
unfoldable pub rights_has_role : ServerUserLibrariesRights → LibraryRole → Bool
rights_has_role rights role = any (λ r. library_role_ge r role) rights.roles

-- `matches!(role, UserRole::Admin)`, also spelled `role == &UserRole::Admin`.
abbrev pub is_admin_role : UserRole → Bool
is_admin_role UserRole.admin = true
is_admin_role _ = false

abbrev pub find_rights : ServerUser → String → Option ServerUserLibrariesRights
find_rights user library_id = find (λ l. l.id == library_id) user.libraries

abbrev limits_for : LibraryRole → Option ServerUserLibrariesRights → Option LibraryLimits
limits_for role none = none
limits_for role (some found) = if rights_has_role found role then some found.limits else none

-- `ServerUser::has_library_role`
unfoldable pub has_library_role : ServerUser → String → LibraryRole → Option LibraryLimits
has_library_role user library_id role = limits_for role (find_rights user library_id)

unfoldable pub is_registered : ConnectedUser → Bool
is_registered (ConnectedUser.server user) = true
is_registered _ = false

unfoldable pub check_registered : ConnectedUser → Checked ServerUser
check_registered (ConnectedUser.server user) = ok user
check_registered _ = err Error.not_server_connected

abbrev pub is_admin_kind : ClaimsLocalType → Bool
is_admin_kind ClaimsLocalType.admin = true
is_admin_kind (ClaimsLocalType.user_role role) = is_admin_role role
is_admin_kind _ = false

unfoldable pub is_admin : ConnectedUser → Bool
is_admin ConnectedUser.server_admin = true
is_admin (ConnectedUser.server user) = is_admin_role user.role
is_admin (ConnectedUser.share claims) = is_admin_kind claims.kind
is_admin _ = false

unfoldable pub check_upload_key : ConnectedUser → String → Checked UploadKey
check_upload_key (ConnectedUser.upload_key key) library_id =
    if key.library == library_id then ok key else err Error.share_token_insufficient
check_upload_key _ library_id = err Error.not_server_connected

unfoldable pub user_id : ConnectedUser → Checked String
user_id (ConnectedUser.server user) = ok user.id
user_id ConnectedUser.server_admin = ok "admin"
user_id (ConnectedUser.guest user) = ok user.id
user_id _ = err Error.not_server_connected

unfoldable pub user_name : ConnectedUser → Checked String
user_name (ConnectedUser.server user) = ok user.name
user_name (ConnectedUser.guest user) = ok user.name
user_name _ = err Error.not_server_connected

abbrev share_check_role : ClaimsLocalType → Checked (Unit {0})
share_check_role (ClaimsLocalType.file _ _) = ok tt
share_check_role (ClaimsLocalType.request_url _) = err Error.share_token_insufficient
share_check_role (ClaimsLocalType.user_role _) = err Error.share_token_insufficient
share_check_role ClaimsLocalType.admin = ok tt

abbrev other_check_role : ConnectedUser → UserRole → Checked (Unit {0})
other_check_role (ConnectedUser.share claims) role = share_check_role claims.kind
other_check_role (ConnectedUser.server user) role =
    if user_role_ge user.role role
    then ok tt
    else err (Error.insufficient_user_role (ConnectedUser.server user) role)
other_check_role user role = err (Error.insufficient_user_role user role)

unfoldable pub check_role : ConnectedUser → UserRole → Checked (Unit {0})
check_role user role = if is_admin user then ok tt else other_check_role user role

abbrev share_check_library_role : ClaimsLocalType → String → Checked LibraryLimits
share_check_library_role (ClaimsLocalType.file library _) library_id =
    if library == library_id then ok default_limits else err Error.share_token_insufficient
share_check_library_role _ library_id = err Error.share_token_insufficient

abbrev granted : ConnectedUser → String → LibraryRole → Option LibraryLimits → Checked LibraryLimits
granted user library_id role (some limits) = ok limits
granted user library_id role none = err (Error.insufficient_library_role user library_id role)

abbrev other_check_library_role : ConnectedUser → String → LibraryRole → Checked LibraryLimits
other_check_library_role (ConnectedUser.server user) library_id role =
    granted (ConnectedUser.server user) library_id role (has_library_role user library_id role)
other_check_library_role (ConnectedUser.share claims) library_id role =
    share_check_library_role claims.kind library_id
other_check_library_role (ConnectedUser.upload_key key) library_id role =
    if key.library == library_id && library_role_eq role LibraryRole.write
    then ok default_limits
    else err Error.share_token_insufficient
other_check_library_role _ library_id role = err Error.not_server_connected

unfoldable pub check_library_role : ConnectedUser → String → LibraryRole → Checked LibraryLimits
check_library_role user library_id role =
    if is_admin user
    then ok (init_with_user (to_option (user_id user)))
    else other_check_library_role user library_id role

abbrev granted_unit :
    ConnectedUser → String → LibraryRole → Option LibraryLimits → Checked (Unit {0})
granted_unit user library_id role (some limits) = ok tt
granted_unit user library_id role none = err (Error.insufficient_library_role user library_id role)

abbrev share_check_file_role : ClaimsLocalType → String → Checked (Unit {0})
share_check_file_role (ClaimsLocalType.file _ id) file_id =
    if id == file_id then ok tt else err Error.share_token_insufficient
share_check_file_role _ file_id = err Error.share_token_insufficient

abbrev other_check_file_role : ConnectedUser → String → String → LibraryRole → Checked (Unit {0})
other_check_file_role (ConnectedUser.server user) library_id file_id role =
    granted_unit (ConnectedUser.server user) library_id role (has_library_role user library_id role)
other_check_file_role (ConnectedUser.share claims) library_id file_id role =
    share_check_file_role claims.kind file_id
other_check_file_role _ library_id file_id role = err Error.not_server_connected

unfoldable pub check_file_role : ConnectedUser → String → String → LibraryRole → Checked (Unit {0})
check_file_role user library_id file_id role =
    if is_admin user then ok tt else other_check_file_role user library_id file_id role

abbrev share_check_request_role : ClaimsLocalType → String → String → Checked (Unit {0})
share_check_request_role (ClaimsLocalType.file library _) library_id url =
    if library == library_id then ok tt else err Error.share_token_insufficient
share_check_request_role (ClaimsLocalType.request_url shared) library_id url =
    if shared == url then ok tt else err Error.share_token_insufficient
share_check_request_role _ library_id url = err Error.share_token_insufficient

abbrev other_check_request_role : ConnectedUser → String → String → Checked (Unit {0})
other_check_request_role (ConnectedUser.server user) library_id url =
    granted_unit (ConnectedUser.server user) library_id LibraryRole.read
      (has_library_role user library_id LibraryRole.read)
other_check_request_role (ConnectedUser.share claims) library_id url =
    share_check_request_role claims.kind library_id url
other_check_request_role _ library_id url = err Error.not_server_connected

-- The request is seen through its `url`, which is all that the check reads of it.
unfoldable pub check_request_role : ConnectedUser → String → String → Checked (Unit {0})
check_request_role user library_id url =
    if is_admin user then ok tt else other_check_request_role user library_id url

unfoldable pub has_hidden_library : ConnectedUser → String → Bool
has_hidden_library (ConnectedUser.server user) library_id =
    contains user.preferences.hidden_libraries library_id
has_hidden_library _ library_id = false
