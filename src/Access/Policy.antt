-- ===== src/Access/Policy.antt =====
-- What the guards of `ConnectedUser` decide, as relations that do not mention the code.
use redseat_rust.Base.{
  String, true, ◌≡◌, refl, ◌≢◌, inl, inr, some, none, arith, ◌==◌, string_eq, Any, First, any→Any,
  Any→any, find→First, First→find, Option-cases,
}
use redseat_rust.Access.Roles.{UserRole, LibraryRole, user_role_ge, library_role_ge}
use redseat_rust.Access.Users.{
  ServerUserLibrariesRights, ServerUser, UploadKey, ClaimsLocalType, ClaimsLocal, ConnectedUser,
}
use redseat_rust.Access.Checks.{
  rights_has_role, find_rights, has_library_role, is_admin, is_admin_role,
}

pub data IsAdministrator : ConnectedUser → Type 0 where
  local : IsAdministrator ConnectedUser.server_admin
  by_role : (s : ServerUser) → s.role ≡ UserRole.admin → IsAdministrator (ConnectedUser.server s)
  by_claims :
      (c : ClaimsLocal) → c.kind ≡ ClaimsLocalType.admin → IsAdministrator (ConnectedUser.share c)
  by_claimed_role :
      (c : ClaimsLocal)
      → c.kind ≡ ClaimsLocalType.user_role UserRole.admin
      → IsAdministrator (ConnectedUser.share c)

-- The first entry for the library among the user's rights holds a role as high as `role`.
pub record HasRights (library : String) (role : LibraryRole) (s : ServerUser) : Type 0 where
  pub entry : ServerUserLibrariesRights
  pub is_first : First (λ l. l.id == library) entry s.libraries
  pub holds : Any (λ held. library_role_ge held role ≡ true) entry.roles

pub data MayUseLibrary (library : String) (role : LibraryRole) : ConnectedUser → Type 0 where
  administrator : {u : ConnectedUser} → IsAdministrator u → MayUseLibrary library role u
  by_rights :
      (s : ServerUser)
      → HasRights library role s
      → MayUseLibrary library role (ConnectedUser.server s)
  by_file_share :
      (c : ClaimsLocal) (f : String)
      → c.kind ≡ ClaimsLocalType.file library f
      → MayUseLibrary library role (ConnectedUser.share c)
  by_upload_key :
      (k : UploadKey)
      → k.library ≡ library
      → role ≡ LibraryRole.write
      → MayUseLibrary library role (ConnectedUser.upload_key k)

pub data MayAct (role : UserRole) : ConnectedUser → Type 0 where
  administrator : {u : ConnectedUser} → IsAdministrator u → MayAct role u
  by_user_role :
      (s : ServerUser) → user_role_ge s.role role ≡ true → MayAct role (ConnectedUser.server s)
  by_file_share :
      (c : ClaimsLocal) (library f : String)
      → c.kind ≡ ClaimsLocalType.file library f
      → MayAct role (ConnectedUser.share c)

pub is_admin_role→≡ : (r : UserRole) → is_admin_role r ≡ true → r ≡ UserRole.admin
is_admin_role→≡ r h = ground arith

share_IsAdministrator :
    (c : ClaimsLocal) (k : ClaimsLocalType)
    → c.kind ≡ k
    → is_admin (ConnectedUser.share c) ≡ true
    → IsAdministrator (ConnectedUser.share c)
unfolding is_admin
share_IsAdministrator c (ClaimsLocalType.file l f) e h = ground arith
share_IsAdministrator c (ClaimsLocalType.request_url l) e h = ground arith
share_IsAdministrator c (ClaimsLocalType.user_role r) e h = by_claimed_role c (ground arith)
share_IsAdministrator c ClaimsLocalType.admin e h = by_claims c e

pub is_admin→IsAdministrator : (u : ConnectedUser) → is_admin u ≡ true → IsAdministrator u
unfolding is_admin
is_admin→IsAdministrator (ConnectedUser.server s) h = by_role s (is_admin_role→≡ s.role h)
is_admin→IsAdministrator (ConnectedUser.share c) h = share_IsAdministrator c c.kind refl h
is_admin→IsAdministrator ConnectedUser.server_admin h = local
is_admin→IsAdministrator (ConnectedUser.guest g) h = ground arith
is_admin→IsAdministrator (ConnectedUser.upload_key k) h = ground arith
is_admin→IsAdministrator ConnectedUser.anonymous h = ground arith

pub IsAdministrator→is_admin : {u : ConnectedUser} → IsAdministrator u → is_admin u ≡ true
unfolding is_admin
IsAdministrator→is_admin local = refl
IsAdministrator→is_admin (by_role s e) = ground arith
IsAdministrator→is_admin (by_claims c e) = ground arith
IsAdministrator→is_admin (by_claimed_role c e) = ground arith

pub has_library_role→HasRights :
    (library : String) (role : LibraryRole) (s : ServerUser)
    → has_library_role s library role ≢ none
    → HasRights library role s
unfolding has_library_role rights_has_role
has_library_role→HasRights library role s h = elim (Option-cases (find_rights s library)) [
  | inl e ↦ absurd (h (rw (e, has_library_role)))
  | inr (r, e) ↦ record {
    entry = r;
    is_first = find→First _ s.libraries e;
    holds = any→Any _ r.roles (ground arith);
  }
]

pub HasRights→has_library_role :
    (library : String) (role : LibraryRole) (s : ServerUser) (r : HasRights library role s)
    → has_library_role s library role ≡ some r.entry.limits
unfolding has_library_role rights_has_role
HasRights→has_library_role library role s r =
    ground (arith, First→find _ r.is_first, Any→any _ r.holds)
