-- ===== src/Libraries/Views.antt =====
-- What `map_library_for_user` shows to whom.
use redseat_rust.Base.{
  String, Bool, true, ◌≡◌, refl, ◌≢◌, inl, inr, none, some, List, [], ◌∷◌, ok, arith, eq_iff, ◌==◌,
  string_eq, Bool-cases, Option-cases, Any, All, All-map, here, there, subst, any→Any, First,
  find→First,
}
use redseat_rust.Base.Dict
use redseat_rust.Access.Roles.{LibraryRole}
use redseat_rust.Access.Users.{
  ServerUserLibrariesRights, ServerUser, UploadKey, ClaimsLocalType, ClaimsLocal, ConnectedUser,
}
use redseat_rust.Access.Checks.{has_hidden_library, find_rights, rights_has_role}
use redseat_rust.Access.Policy.{
  IsAdministrator, local, by_claims, HasRights, MayUseLibrary, administrator, by_rights,
}
use redseat_rust.Libraries.{
  ServerLibrary, ServerLibraryForRead, from_library, into_with_role, map_library_for_user,
  view_with_rights, view_of_share, visible, get_libraries, LibraryTable,
}

-- The user is an administrator of the server, has rights entered for the library, or holds an
-- upload key of it.
pub data IsShown (library : String) : ConnectedUser → Type 0 where
  to_administrator : {u : ConnectedUser} → IsAdministrator u → IsShown library u
  to_rights :
      (s : ServerUser) (r : ServerUserLibrariesRights)
      → First (λ l. l.id == library) r s.libraries
      → IsShown library (ConnectedUser.server s)
  to_upload_key :
      (k : UploadKey) → library ≡ k.library → IsShown library (ConnectedUser.upload_key k)

-- What a view must keep from the library, and who is shown a root path or the settings.
pub record IsView (lib : ServerLibrary) (u : ConnectedUser) (out : ServerLibraryForRead)
    : Type 0 where
  pub same_id : out.id ≡ lib.id
  pub shown : IsShown lib.id u
  pub root_kept_in : out.root ≢ none → MayUseLibrary lib.id LibraryRole.admin u
  pub settings_kept_in : out.settings ≢ none → MayUseLibrary lib.id LibraryRole.admin u

whole_IsView :
    (lib : ServerLibrary) (u : ConnectedUser) (out : ServerLibraryForRead)
    → IsAdministrator u
    → some (from_library lib) ≡ some out
    → IsView lib u out
unfolding from_library
whole_IsView lib u out a h = record {
  same_id = ground arith;
  shown = to_administrator a;
  root_kept_in = λ _. administrator a;
  settings_kept_in = λ _. administrator a;
}

rights-HasRights :
    (library : String) (s : ServerUser) (r : ServerUserLibrariesRights)
    → find_rights s library ≡ some r
    → rights_has_role r LibraryRole.admin ≡ true
    → HasRights library LibraryRole.admin s
unfolding rights_has_role
rights-HasRights library s r e high = record {
  entry = r;
  is_first = find→First _ s.libraries e;
  holds = any→Any _ r.roles high;
}

rights_IsView :
    (lib : ServerLibrary) (s : ServerUser) (hidden : Bool) (r : ServerUserLibrariesRights)
    (out : ServerLibraryForRead)
    → find_rights s lib.id ≡ some r
    → view_with_rights lib hidden (some r) ≡ some out
    → IsView lib (ConnectedUser.server s) out
unfolding into_with_role
rights_IsView lib s hidden r out e h = elim (Bool-cases (rights_has_role r LibraryRole.admin)) [
  | inl high ↦ record {
    same_id = ground arith;
    shown = to_rights s r (find→First _ s.libraries e);
    root_kept_in = λ _. by_rights s (administers high);
    settings_kept_in = λ _. by_rights s (administers high);
  }
  | inr low ↦ record {
    same_id = ground arith;
    shown = to_rights s r (find→First _ s.libraries e);
    root_kept_in = λ kept. absurd (kept (ground arith));
    settings_kept_in = λ kept. absurd (kept (ground arith));
  }
]
  where
    administers : rights_has_role r LibraryRole.admin ≡ true → HasRights lib.id LibraryRole.admin s
    administers high = rights-HasRights lib.id s r e high

share_IsView :
    (lib : ServerLibrary) (c : ClaimsLocal) (k : ClaimsLocalType) (out : ServerLibraryForRead)
    → c.kind ≡ k
    → view_of_share lib k ≡ some out
    → IsView lib (ConnectedUser.share c) out
share_IsView lib c ClaimsLocalType.admin out e h = whole_IsView lib _ out (by_claims c e) h
share_IsView lib c (ClaimsLocalType.file l f) out e h = cc
share_IsView lib c (ClaimsLocalType.request_url l) out e h = cc
share_IsView lib c (ClaimsLocalType.user_role r) out e h = cc

-- A library that `map_library_for_user` shows keeps its id, and is shown only to administrators, to
-- users with rights entered for it and to the holders of its upload keys; its root path and its
-- settings only to users who may use it with the role `Admin`.
pub map_library_for_user-IsView :
    (lib : ServerLibrary) (u : ConnectedUser) {out : ServerLibraryForRead}
    → map_library_for_user lib u ≡ some out
    → IsView lib u out
unfolding map_library_for_user
map_library_for_user-IsView lib (ConnectedUser.server s) {out} h =
    elim (Option-cases (find_rights s lib.id)) [
      | inl e ↦ ground arith
      | inr (r, e) ↦
          rights_IsView lib s (has_hidden_library (ConnectedUser.server s) lib.id) r out e
            (ground arith)
    ]
map_library_for_user-IsView lib (ConnectedUser.share c) {out} h =
    share_IsView lib c c.kind out refl h
map_library_for_user-IsView lib ConnectedUser.server_admin {out} h = whole_IsView lib _ out local h
map_library_for_user-IsView lib (ConnectedUser.guest g) h = cc
map_library_for_user-IsView lib ConnectedUser.anonymous h = cc
map_library_for_user-IsView lib (ConnectedUser.upload_key k) {out} h = record {
  same_id = ground arith;
  shown = to_upload_key k (ground (arith, eq_iff lib.id k.library));
  root_kept_in = λ kept. absurd (kept (ground arith));
  settings_kept_in = λ kept. absurd (kept (ground arith));
}

-- Whoever is shown a library is shown its password and its source, administrator or not.
map_library_for_user-password :
    (lib : ServerLibrary) (u : ConnectedUser) {out : ServerLibraryForRead}
    → map_library_for_user lib u ≡ some out
    → (out.password ≡ lib.password) × (out.source ≡ some lib.source)
unfolding map_library_for_user
map_library_for_user-password lib (ConnectedUser.server s) h = (ground arith, ground arith)
map_library_for_user-password lib (ConnectedUser.share c) h = (ground arith, ground arith)
map_library_for_user-password lib ConnectedUser.server_admin h = (ground arith, ground arith)
map_library_for_user-password lib (ConnectedUser.guest g) h = cc
map_library_for_user-password lib ConnectedUser.anonymous h = cc
map_library_for_user-password lib (ConnectedUser.upload_key k) h = (ground arith, ground arith)

visible-IsView :
    (libs : List ServerLibrary) (u : ConnectedUser)
    → All (λ out. Any (λ lib. IsView lib u out) libs) (visible libs u)
unfolding visible
visible-IsView [] u = tt
visible-IsView (l ∷ ls) u = elim (Option-cases (map_library_for_user l u)) [
  | inl e ↦ rw (e, visible) (All-map (visible ls u) (λ out r. there r) (visible-IsView ls u))
  | inr (out, e) ↦
      rw (e, visible)
        (
          here (map_library_for_user-IsView l u e),
          All-map (visible ls u) (λ out r. there r) (visible-IsView ls u),
        )
]

-- Every entry of a list that `get_libraries` returns is such a view of a library of the table.
get_libraries-IsView :
    (table : LibraryTable) (u : ConnectedUser) {outs : List ServerLibraryForRead}
    → get_libraries table u ≡ ok outs
    → All (λ out. Any (λ lib. IsView lib u out) (Dict.values table)) outs
unfolding get_libraries
get_libraries-IsView table u {outs} h =
    subst (All (λ out. Any (λ lib. IsView lib u out) (Dict.values table))) (ground arith)
      (visible-IsView (Dict.values table) u)
