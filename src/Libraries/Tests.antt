-- ===== src/Libraries/Tests.antt =====
-- The theorems on library views and merged users at a concrete library.
use redseat_rust.Base.{
  ◌≡◌, refl, false, ◌&&◌, none, some, List, [], ◌∷◌, String, ok, contains, any, string_eq,
}
use redseat_rust.Base.Dict
use redseat_rust.Access.Roles.{LibraryRole}
use redseat_rust.Access.Users.{LibraryType, ConnectedUser}
use redseat_rust.Access.Tests.{films_key}
use redseat_rust.Libraries.{
  ServerLibrary, ServerLibraryForRead, LibraryTable, map_library_for_user, mappings_of, touches,
  get_library_progress_merged_users,
}
use redseat_rust.Libraries.Views.{IsView, map_library_for_user-IsView}
use redseat_rust.Libraries.Merging.{brings, merged_users-contains}

abbrev pub films : ServerLibrary
films = record {
  id = "films";
  name = "Films";
  source = "PathProvider";
  root = some "/films";
  kind = LibraryType.movies;
  crypt = none;
  settings = record {
    face_threshold = none;
    ignore_groups = none;
    preduction_model = none;
    map_progress = some (record { from = "a"; to = "b" } ∷ record { from = "c"; to = "b" } ∷ []);
    data_path = none;
    epg_url = none;
    max_streams = some 2;
  };
  credentials = none;
  plugin = none;
  password = some "secret";
  hidden = false;
}

abbrev pub shelf : LibraryTable
shelf = ("films", films) ∷ []

abbrev shown_to_key : ServerLibraryForRead
shown_to_key = record {
  id = "films";
  name = "Films";
  source = some "PathProvider";
  root = none;
  kind = LibraryType.movies;
  crypt = none;
  settings = none;
  roles = some (LibraryRole.write ∷ []);
  password = some "secret";
  hidden = false;
}

map_library_for_user-IsView_example : IsView films (ConnectedUser.upload_key films_key) shown_to_key
unfolding map_library_for_user
map_library_for_user-IsView_example =
    map_library_for_user-IsView films (ConnectedUser.upload_key films_key) refl

merged_users-contains_example :
    (users : List String) × (get_library_progress_merged_users shelf "films" "a" ≡ ok users)
    × (contains users "c"
        ≡ any (λ m. touches "a" m && brings (mappings_of films) "c" m) (mappings_of films))
unfolding Dict.lookup
merged_users-contains_example = merged_users-contains shelf "films" "a" "c" films refl
