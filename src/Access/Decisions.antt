-- ===== src/Access/Decisions.antt =====
-- The guards of `ConnectedUser` accept exactly whom the relations of `Access.Policy` name.
use redseat_rust.Base.{
  String, true, ◌≡◌, refl, ◌≢◌, ◌↔◌, inl, inr, List, arith, eq_iff, string_eq, is_ok, Any, here,
  there, Bool-cases,
}
use redseat_rust.Access.Roles.{UserRole, LibraryRole, library_role_ge}
use redseat_rust.Access.Roles.{library_role_eq}
use redseat_rust.Access.Roles.Order.{library_role_eq→≡}
use redseat_rust.Access.Users.{UploadKey, ClaimsLocalType, ClaimsLocal, ConnectedUser}
use redseat_rust.Access.Checks.{is_admin, check_role, check_library_role, is_admin_role}
use redseat_rust.Base.{eq_refl}
use redseat_rust.Access.Policy.{
  local, by_role, by_claims, by_claimed_role, MayUseLibrary, MayAct, by_rights, by_file_share,
  by_upload_key, by_user_role, administrator, is_admin_role→≡, IsAdministrator→is_admin,
  has_library_role→HasRights, HasRights→has_library_role,
}
use redseat_rust.Access.Roles.Order.{library_role_ge_trans}

share-MayUseLibrary :
    (library : String) (role : LibraryRole) (c : ClaimsLocal) (k : ClaimsLocalType)
    → c.kind ≡ k
    → is_ok (check_library_role (ConnectedUser.share c) library role) ≡ true
    → MayUseLibrary library role (ConnectedUser.share c)
unfolding check_library_role is_admin
share-MayUseLibrary library role c (ClaimsLocalType.file l f) e h =
    by_file_share c f (ground (arith, eq_iff l library))
share-MayUseLibrary library role c (ClaimsLocalType.request_url l) e h = ground arith
share-MayUseLibrary library role c (ClaimsLocalType.user_role r) e h =
    administrator (by_claimed_role c (ground arith))
share-MayUseLibrary library role c ClaimsLocalType.admin e h = administrator (by_claims c e)

check_library_role→MayUseLibrary :
    (u : ConnectedUser) (library : String) (role : LibraryRole)
    → is_ok (check_library_role u library role) ≡ true
    → MayUseLibrary library role u
unfolding check_library_role is_admin
check_library_role→MayUseLibrary (ConnectedUser.server s) library role h =
    elim (Bool-cases (is_admin_role s.role)) [
      | inl e ↦ administrator (by_role s (is_admin_role→≡ s.role e))
      | inr e ↦ by_rights s (has_library_role→HasRights library role s λ none. ground arith)
    ]
check_library_role→MayUseLibrary (ConnectedUser.share c) library role h =
    share-MayUseLibrary library role c c.kind refl h
check_library_role→MayUseLibrary ConnectedUser.server_admin library role h = administrator local
check_library_role→MayUseLibrary (ConnectedUser.guest g) library role h = ground arith
check_library_role→MayUseLibrary (ConnectedUser.upload_key k) library role h =
    by_upload_key k (ground (arith, eq_iff k.library library))
      (library_role_eq→≡ role LibraryRole.write (ground arith))
check_library_role→MayUseLibrary ConnectedUser.anonymous library role h = ground arith

MayUseLibrary→check_library_role :
    {u : ConnectedUser} (library : String) (role : LibraryRole)
    → MayUseLibrary library role u
    → is_ok (check_library_role u library role) ≡ true
unfolding check_library_role library_role_eq
MayUseLibrary→check_library_role library role (administrator a) = rw (IsAdministrator→is_admin a)
MayUseLibrary→check_library_role library role (by_rights s r) =
    ground (arith, HasRights→has_library_role library role s r)
MayUseLibrary→check_library_role library role (by_file_share c f e) =
    ground (arith, eq_refl library)
MayUseLibrary→check_library_role library role (by_upload_key k e w) =
    ground (arith, eq_iff k.library library)

-- `check_library_role` accepts a user exactly if the relation `MayUseLibrary` holds: administrators
-- by any of the four ways; a registered user whose first rights entry for the library has a role as
-- high as the one asked for; the bearer of a file share of that library, whatever the role; the
-- holder of an upload key of that library, for the role `Write` only.
pub check_library_role_iff :
    (u : ConnectedUser) (library : String) (role : LibraryRole)
    → (is_ok (check_library_role u library role) ≡ true) ↔ MayUseLibrary library role u
check_library_role_iff u library role =
    (check_library_role→MayUseLibrary u library role, MayUseLibrary→check_library_role library role)

share-MayAct :
    (role : UserRole) (c : ClaimsLocal) (k : ClaimsLocalType)
    → c.kind ≡ k
    → is_ok (check_role (ConnectedUser.share c) role) ≡ true
    → MayAct role (ConnectedUser.share c)
unfolding check_role is_admin
share-MayAct role c (ClaimsLocalType.file l f) e h = by_file_share c l f e
share-MayAct role c (ClaimsLocalType.request_url l) e h = ground arith
share-MayAct role c (ClaimsLocalType.user_role r) e h =
    administrator (by_claimed_role c (ground arith))
share-MayAct role c ClaimsLocalType.admin e h = administrator (by_claims c e)

check_role→MayAct :
    (u : ConnectedUser) (role : UserRole) → is_ok (check_role u role) ≡ true → MayAct role u
unfolding check_role is_admin
check_role→MayAct (ConnectedUser.server s) role h = elim (Bool-cases (is_admin_role s.role)) [
  | inl e ↦ administrator (by_role s (is_admin_role→≡ s.role e))
  | inr e ↦ by_user_role s (ground arith)
]
check_role→MayAct (ConnectedUser.share c) role h = share-MayAct role c c.kind refl h
check_role→MayAct ConnectedUser.server_admin role h = administrator local
check_role→MayAct (ConnectedUser.guest g) role h = ground arith
check_role→MayAct (ConnectedUser.upload_key k) role h = ground arith
check_role→MayAct ConnectedUser.anonymous role h = ground arith

MayAct→check_role :
    {u : ConnectedUser} (role : UserRole) → MayAct role u → is_ok (check_role u role) ≡ true
unfolding check_role
MayAct→check_role role (administrator a) = rw (IsAdministrator→is_admin a)
MayAct→check_role role (by_user_role s e) = ground arith
MayAct→check_role role (by_file_share c l f e) = ground arith

-- `check_role` accepts a user exactly if the relation `MayAct` holds: administrators, registered
-- users whose role is as high as the one asked for, and the bearer of any file share, whatever the
-- role asked for.
pub check_role_iff :
    (u : ConnectedUser) (role : UserRole) → (is_ok (check_role u role) ≡ true) ↔ MayAct role u
check_role_iff u role = (check_role→MayAct u role, MayAct→check_role role)

Any-mono :
    (high low : LibraryRole) (roles : List LibraryRole)
    → library_role_ge high low ≡ true
    → Any (λ held. library_role_ge held high ≡ true) roles
    → Any (λ held. library_role_ge held low ≡ true) roles
Any-mono high low roles h (here {x = x} p) = here (library_role_ge_trans x high low p h)
Any-mono high low roles h (there {xs = xs} r) = there (Any-mono high low xs h r)

MayUseLibrary-mono :
    {u : ConnectedUser} (library : String) (high low : LibraryRole)
    → library_role_ge high low ≡ true
    → ((k : UploadKey) → u ≢ ConnectedUser.upload_key k)
    → MayUseLibrary library high u
    → MayUseLibrary library low u
MayUseLibrary-mono library high low h other (administrator a) = administrator a
MayUseLibrary-mono library high low h other (by_rights s r) = by_rights s (record {
  entry = r.entry;
  is_first = r.is_first;
  holds = Any-mono high low r.entry.roles h r.holds;
})
MayUseLibrary-mono library high low h other (by_file_share c f e) = by_file_share c f e
MayUseLibrary-mono library high low h other (by_upload_key k e w) = absurd (other k refl)

-- Whoever is accepted for a library role, upload keys excepted, is accepted for every lower one.
check_library_role_mono :
    (u : ConnectedUser) (library : String) (high low : LibraryRole)
    → library_role_ge high low ≡ true
    → ((k : UploadKey) → u ≢ ConnectedUser.upload_key k)
    → is_ok (check_library_role u library high) ≡ true
    → is_ok (check_library_role u library low) ≡ true
check_library_role_mono u library high low h other accepted =
    MayUseLibrary→check_library_role library low (
      MayUseLibrary-mono library high low h other
        (check_library_role→MayUseLibrary u library high accepted))
