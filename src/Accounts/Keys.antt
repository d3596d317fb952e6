-- ===== src/Accounts/Keys.antt =====
-- Upload keys and invitations: model/users.rs, `add_library_invitation` of model/libraries.rs, and
-- the rights of model/store/sql/libraries.rs.
use redseat_rust.Base.{
  String, not, ◌&&◌, Option, none, some, List, [], ◌∷◌, ◌++◌, Result, ok, err, ◌>>=◌, ◌==◌,
  string_eq, any, find, filter, ok_or, if◌then◌else◌, ◌<>◌,
}
use redseat_rust.Access.Roles.{UserRole, LibraryRole}
use redseat_rust.Access.Users.{
  LibraryLimits, ServerUser, GuestUser, UploadKey, ConnectedUser, Error, RsError,
}
use redseat_rust.Access.Checks.{Checked, check_role, check_library_role}
use redseat_rust.Libraries.{LibraryTable}
use redseat_rust.Accounts.{
  ServerLibraryInvitation, UploadKeyForCreate, Accounts, lift, unique_error, add_user,
}

-- `SqliteStore::get_upload_key`
unfoldable pub get_upload_key : Accounts → String → Result RsError UploadKey
get_upload_key acc key =
    ok_or (find (λ k. k.id == key) acc.upload_keys)
      (RsError.model (Error.store "Query returned no rows"))

unfoldable pub get_upload_keys : Accounts → ConnectedUser → Result RsError (List UploadKey)
get_upload_keys acc requesting_user = do
  _ ← lift (check_role requesting_user UserRole.admin)
  ok acc.upload_keys

abbrev pub insert_key : UploadKey → Accounts → Result RsError UploadKey × Accounts
insert_key key acc =
    if any (λ k. k.id == key.id) acc.upload_keys
    then (err (RsError.model unique_error), acc)
    else (ok key, record acc { upload_keys = acc.upload_keys ++ key ∷ [] })

abbrev pub then_insert_key :
    UploadKey → Accounts → Checked (Unit {0}) → Result RsError UploadKey × Accounts
then_insert_key key acc (err e) = (err (RsError.model e), acc)
then_insert_key key acc (ok _) = insert_key key acc

unfoldable pub add_upload_key :
    String → UploadKeyForCreate → ConnectedUser → Accounts → Result RsError UploadKey × Accounts
add_upload_key id params requesting_user acc =
    then_insert_key
      (record {
        id = id;
        library = params.library;
        expiry = params.expiry;
        tags = params.tags;
        people = params.people;
      })
      acc (check_role requesting_user UserRole.admin)

abbrev pub then_remove_key :
    String → Accounts → Checked (Unit {0}) → Result RsError (Unit {0}) × Accounts
then_remove_key key_id acc (err e) = (err (RsError.model e), acc)
then_remove_key key_id acc (ok _) =
    (ok tt, record acc { upload_keys = filter (λ k. not (k.id == key_id)) acc.upload_keys })

unfoldable pub remove_upload_key :
    String → ConnectedUser → Accounts → Result RsError (Unit {0}) × Accounts
remove_upload_key key_id requesting_user acc =
    then_remove_key key_id acc (check_role requesting_user UserRole.admin)

abbrev pub insert_invitation :
    ServerLibraryInvitation → Accounts → Checked ServerLibraryInvitation × Accounts
insert_invitation invitation acc =
    if any (λ i. i.code == invitation.code) acc.invitations
    then (err unique_error, acc)
    else (ok invitation, record acc { invitations = acc.invitations ++ invitation ∷ [] })

abbrev pub then_insert_invitation :
    ServerLibraryInvitation
    → Accounts
    → Checked LibraryLimits
    → Checked ServerLibraryInvitation × Accounts
then_insert_invitation invitation acc (err e) = (err e, acc)
then_insert_invitation invitation acc (ok _) = insert_invitation invitation acc

unfoldable pub add_library_invitation :
    String
    → String
    → List LibraryRole
    → LibraryLimits
    → ConnectedUser
    → Accounts
    → Checked ServerLibraryInvitation × Accounts
add_library_invitation code library_id roles limits requesting_user acc =
    then_insert_invitation
      (record { code = code; expires = none; library = library_id; roles = roles; limits = limits })
      acc (check_library_role requesting_user library_id LibraryRole.admin)

-- `SqliteStore::add_library_rights`
unfoldable pub add_library_rights :
    String → String → List LibraryRole → LibraryLimits → Accounts → Checked (Unit {0}) × Accounts
add_library_rights library_id user_id roles limits acc =
    if any (λ r. r.user_ref == user_id && r.library_ref == library_id) acc.rights
    then (err unique_error, acc)
    else (
      ok tt,
      record acc {
        rights =
            acc.rights
            ++ (record {
              user_ref = user_id;
              library_ref = library_id;
              roles = roles;
              limits = limits;
            })
              ∷ [];
      },
    )

abbrev pub remove_library_invitation : String → Accounts → Accounts
remove_library_invitation code acc = record acc {
  invitations = filter (λ i. not (i.code == code)) acc.invitations;
}

-- The user that a guest becomes.
abbrev pub creation_user : GuestUser → ServerUser
creation_user guest = record {
  id = guest.id;
  name = guest.name;
  role = UserRole.read;
  preferences = record { hidden_libraries = [] };
  libraries = [];
}

-- The `connected_user` of `redeem_invitation`, and the accounts with it.
unfoldable pub connected_user :
    LibraryTable → ConnectedUser → Accounts → Checked ServerUser × Accounts
unfolding add_user
connected_user table (ConnectedUser.server u) acc = (ok u, acc)
connected_user table (ConnectedUser.guest u) acc =
    add_user table (creation_user u) ConnectedUser.server_admin acc
connected_user table user acc = (err (Error.user_get_not_auth user "Connected"), acc)

abbrev pub granted_rights :
    String → String → Checked (Unit {0}) × Accounts → Result RsError String × Accounts
granted_rights code library_id (err e, acc) = (err (RsError.model e), acc)
granted_rights code library_id (ok _, acc) = (ok library_id, remove_library_invitation code acc)

unfoldable pub grant :
    String
    → ServerUser
    → Accounts
    → Option ServerLibraryInvitation
    → Result RsError String × Accounts
unfolding add_library_rights
grant code user acc none =
    (err (RsError.model (Error.not_found ("Library invitation not found: " <> code))), acc)
grant code user acc (some i) =
    granted_rights code i.library (add_library_rights i.library user.id i.roles i.limits acc)

abbrev pub find_invitation : Accounts → String → Option ServerLibraryInvitation
find_invitation acc code = find (λ i. i.code == code) acc.invitations

abbrev pub redeem_as : String → Checked ServerUser × Accounts → Result RsError String × Accounts
redeem_as code (err e, acc) = (err (RsError.model e), acc)
redeem_as code (ok user, acc) = grant code user acc (find_invitation acc code)

unfoldable pub redeem_invitation :
    LibraryTable → String → ConnectedUser → Accounts → Result RsError String × Accounts
redeem_invitation table code user acc = redeem_as code (connected_user table user acc)
