-- ===== src/Access/Tests.antt =====
-- Runs of the guards, and the theorems at concrete users.
use redseat_rust.Base.{◌≡◌, refl, ◌↔◌, true, false, none, [], ◌∷◌, err, is_ok, string_eq, nat_eq}
use redseat_rust.Access.Roles.{UserRole, LibraryRole, library_role_ge}
use redseat_rust.Access.Users.{
  LibraryType, ServerUser, UploadKey, ClaimsLocalType, ConnectedUser, Error,
}
use redseat_rust.Access.Checks.{
  check_role, check_library_role, is_admin, has_library_role, rights_has_role,
}
use redseat_rust.Access.Policy.{MayUseLibrary, MayAct}
use redseat_rust.Access.Decisions.{check_library_role_iff, check_role_iff}

abbrev pub reader : ServerUser
reader = record {
  id = "u1";
  name = "Ann";
  role = UserRole.read;
  preferences = record { hidden_libraries = "films" ∷ [] };
  libraries =
      record {
        id = "films";
        name = "Films";
        kind = LibraryType.movies;
        roles = LibraryRole.write ∷ [];
        limits = record {
          tags = true;
          people = false;
          albums = false;
          delay = none;
          user_id = none;
        };
      }
      ∷ [];
}

abbrev pub ann : ConnectedUser
ann = ConnectedUser.server reader

abbrev pub file_share : ConnectedUser
file_share =
    ConnectedUser.share (record { cr = "c"; kind = ClaimsLocalType.file "films" "m1"; exp = 10 })

abbrev pub films_key : UploadKey
films_key = record { id = "k1"; library = "films"; expiry = none; tags = false; people = false }

ann_reads : is_ok (check_library_role ann "films" LibraryRole.read) ≡ true
unfolding check_library_role is_admin has_library_role rights_has_role library_role_ge
ann_reads = refl

ann_does_not_administer :
    check_library_role ann "films" LibraryRole.admin
    ≡ err (Error.insufficient_library_role ann "films" LibraryRole.admin)
unfolding check_library_role is_admin has_library_role rights_has_role library_role_ge
ann_does_not_administer = refl

share_acts_as_admin : is_ok (check_role file_share UserRole.admin) ≡ true
unfolding check_role is_admin
share_acts_as_admin = refl

check_library_role_iff_example :
    (is_ok (check_library_role ann "films" LibraryRole.write) ≡ true)
    ↔ MayUseLibrary "films" LibraryRole.write ann
check_library_role_iff_example = check_library_role_iff ann "films" LibraryRole.write

check_role_iff_example :
    (is_ok (check_role file_share UserRole.admin) ≡ true) ↔ MayAct UserRole.admin file_share
check_role_iff_example = check_role_iff file_share UserRole.admin
