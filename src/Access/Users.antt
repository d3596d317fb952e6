-- ===== src/Access/Users.antt =====
-- The users of model/users.rs with the rights of domain/library.rs and the local claims of
-- tools/auth.rs, and the errors of model/error.rs and error.rs that the modelled code returns.
use redseat_rust.Base.{ℕ, String, Bool, Option, List}
use redseat_rust.Base.Int.{ℤ}
use redseat_rust.Access.Roles.{UserRole, LibraryRole}

pub data LibraryType : Type 0 where
  photos shows movies iptv books other : LibraryType

pub record LibraryLimits : Type 0 where
  pub tags : Bool
  pub people : Bool
  pub albums : Bool
  pub delay : Option ℤ
  pub user_id : Option String

pub record ServerUserPreferences : Type 0 where
  pub hidden_libraries : List String

pub record ServerUserLibrariesRights : Type 0 where
  pub id : String
  pub name : String
  pub kind : LibraryType
  pub roles : List LibraryRole
  pub limits : LibraryLimits

pub record ServerUser : Type 0 where
  pub id : String
  pub name : String
  pub role : UserRole
  pub preferences : ServerUserPreferences
  pub libraries : List ServerUserLibrariesRights

pub record GuestUser : Type 0 where
  pub id : String
  pub name : String

pub record UploadKey : Type 0 where
  pub id : String
  pub library : String
  pub expiry : Option ℤ
  pub tags : Bool
  pub people : Bool

pub data ClaimsLocalType : Type 0 where
  file : String → String → ClaimsLocalType
  request_url : String → ClaimsLocalType
  user_role : UserRole → ClaimsLocalType
  admin : ClaimsLocalType

pub record ClaimsLocal : Type 0 where
  pub cr : String
  pub kind : ClaimsLocalType
  pub exp : ℕ

pub data ConnectedUser : Type 0 where
  server : ServerUser → ConnectedUser
  guest : GuestUser → ConnectedUser
  share : ClaimsLocal → ConnectedUser
  upload_key : UploadKey → ConnectedUser
  anonymous server_admin : ConnectedUser

pub record ServerUserForUpdate : Type 0 where
  pub id : String
  pub name : Option String
  pub role : Option UserRole
  pub preferences : Option ServerUserPreferences

-- `crate::model::error::Error`. `store` stands for the errors of the database.
pub data Error : Type 0 where
  not_server_connected share_token_insufficient : Error
  insufficient_user_role : ConnectedUser → UserRole → Error
  insufficient_library_role : ConnectedUser → String → LibraryRole → Error
  user_get_not_auth : ConnectedUser → String → Error
  user_list_not_auth : ConnectedUser → Error
  user_update_not_authorized : ServerUser → ServerUserForUpdate → Error
  user_role_update_not_auth_only_admin : Error
  user_not_found not_found : String → Error
  unable_to_find_library : String → String → Error
  store : String → Error

-- `crate::error::Error`
pub data RsError : Type 0 where
  forbiden auth_fail auth_fail_token_wrong_format auth_fail_invalid_token : RsError
  auth_fail_expired_token auth_fail_not_for_this_server : RsError
  invalid_range_header no_range_header unavailable_for_crypted_libraries : RsError
  not_found message : String → RsError
  model : Error → RsError
