-- ===== src/Events/Routing.antt =====
-- Who is sent which event, and what one subscriber's stream holds.
use redseat_rust.Base.{
  String, Bool, true, ◌≡◌, ◌↔◌, refl, ◌&&◌, Option, none, some, List, [], ◌∷◌, Result, ok, err,
  arith, eq_iff, eq_refl, string_eq, filter,
}
use redseat_rust.Access.Roles.{UserRole, LibraryRole}
use redseat_rust.Access.Users.{ConnectedUser}
use redseat_rust.Access.Checks.{user_id}
use redseat_rust.Access.Policy.{MayUseLibrary, MayAct}
use redseat_rust.Access.Decisions.{check_library_role_iff, check_role_iff}
use redseat_rust.Events.{
  SseEvent, library, library_status, medias, upload_progress, convert_progress, episodes, series,
  movies, books, people, tags, backups, backups_files, media_progress, media_rating, watched,
  unwatched, request_processing, channels, library_id, is_user, is_optional_user, administers,
  should_send_to, Received, event, lagged, closed, passes_filter, handler_sse,
}

-- The user has the id that is named, if one is named.
abbrev IsUser : Option String → ConnectedUser → Type 0
IsUser none u = ⊥
IsUser (some id) u = user_id u ≡ ok id

-- A backup of a library is for its administrators, one of no library for those of the server.
abbrev AdministersBackup : Option String → ConnectedUser → Type 0
AdministersBackup none = MayAct UserRole.admin
AdministersBackup (some l) = MayUseLibrary l LibraryRole.admin

-- Who may be sent which event.
abbrev pub Entitled : SseEvent → ConnectedUser → Type 0
Entitled (library m) = MayUseLibrary m.library LibraryRole.read
Entitled (library_status m) = MayUseLibrary m.library LibraryRole.admin
Entitled (medias m) = MayUseLibrary m.library LibraryRole.read
Entitled (upload_progress m) = MayUseLibrary m.library LibraryRole.read
Entitled (convert_progress m) = MayUseLibrary m.library LibraryRole.read
Entitled (episodes m) = MayUseLibrary m.library LibraryRole.read
Entitled (series m) = MayUseLibrary m.library LibraryRole.read
Entitled (movies m) = MayUseLibrary m.library LibraryRole.read
Entitled (books m) = MayUseLibrary m.library LibraryRole.read
Entitled (people m) = MayUseLibrary m.library LibraryRole.read
Entitled (tags m) = MayUseLibrary m.library LibraryRole.read
Entitled (backups m) = AdministersBackup m.library
Entitled (backups_files m) = MayAct UserRole.admin
Entitled (media_progress m) = IsUser (some m.user_ref)
Entitled (media_rating m) = IsUser (some m.user_ref)
Entitled (watched w) = IsUser w.user_ref
Entitled (unwatched w) = IsUser w.user_ref
Entitled (request_processing m) = MayUseLibrary m.library LibraryRole.read
Entitled (channels m) = MayUseLibrary m.library LibraryRole.read

is_user-eq : (u : ConnectedUser) (id : String) → is_user u id ≡ true → user_id u ≡ ok id
is_user-eq u id h = ground (arith, cases (user_id u) refl)
  where
    cases : (r : Result _ String) → user_id u ≡ r → user_id u ≡ ok id
    cases (ok uid) e = ground (arith, eq_iff uid id)
    cases (err x) e = ground arith

user_id-is_user : (u : ConnectedUser) (id : String) → user_id u ≡ ok id → is_user u id ≡ true
user_id-is_user u id h = ground (arith, h, eq_refl id)

is_optional_user_iff :
    (u : ConnectedUser) (id : Option String) → (is_optional_user u id ≡ true) ↔ IsUser id u
is_optional_user_iff u none = ((λ h. ground arith), (λ h. ground arith))
is_optional_user_iff u (some id) = (is_user-eq u id, user_id-is_user u id)

administers_iff :
    (u : ConnectedUser) (id : Option String) → (administers u id ≡ true) ↔ AdministersBackup id u
administers_iff u none = check_role_iff u _
administers_iff u (some l) = check_library_role_iff u l _

-- Each user is sent exactly the events meant for that user: the progress and the rating of a media
-- and what was watched go to the user they are about, the status of a library and the backups of a
-- library to those who may use it with the role `Admin`, the files of a backup and a backup of no
-- library to those who may act as `Admin` of the server, and every other event to those who may use
-- its library with the role `Read`.
pub should_send_to_iff :
    (e : SseEvent) (u : ConnectedUser) → (should_send_to e u ≡ true) ↔ Entitled e u
unfolding should_send_to library_id
should_send_to_iff (library m) u = check_library_role_iff u m.library _
should_send_to_iff (library_status m) u = check_library_role_iff u m.library _
should_send_to_iff (medias m) u = check_library_role_iff u m.library _
should_send_to_iff (upload_progress m) u = check_library_role_iff u m.library _
should_send_to_iff (convert_progress m) u = check_library_role_iff u m.library _
should_send_to_iff (episodes m) u = check_library_role_iff u m.library _
should_send_to_iff (series m) u = check_library_role_iff u m.library _
should_send_to_iff (movies m) u = check_library_role_iff u m.library _
should_send_to_iff (books m) u = check_library_role_iff u m.library _
should_send_to_iff (people m) u = check_library_role_iff u m.library _
should_send_to_iff (tags m) u = check_library_role_iff u m.library _
should_send_to_iff (backups m) u = administers_iff u m.library
should_send_to_iff (backups_files m) u = check_role_iff u _
should_send_to_iff (media_progress m) u = is_optional_user_iff u (some m.user_ref)
should_send_to_iff (media_rating m) u = is_optional_user_iff u (some m.user_ref)
should_send_to_iff (watched m) u = is_optional_user_iff u m.user_ref
should_send_to_iff (unwatched m) u = is_optional_user_iff u m.user_ref
should_send_to_iff (request_processing m) u = check_library_role_iff u m.library _
should_send_to_iff (channels m) u = check_library_role_iff u m.library _

-- The events received before the channel is closed.
pub until_closed : List Received → List SseEvent
until_closed [] = []
until_closed (event e ∷ rest) = e ∷ until_closed rest
until_closed (lagged ∷ rest) = until_closed rest
until_closed (closed ∷ rest) = []

-- A subscriber's stream is, in order and without repetition or loss, those of the events received
-- before the channel closes that may be sent to the user, pass the library filter and serialize.
pub handler_sse-eq-filter :
    (user : ConnectedUser) (libraries : Option (List String)) (serializes : SseEvent → Bool)
    (received : List Received)
    → handler_sse user libraries serializes received
      ≡ filter
          (λ e. should_send_to e user && (passes_filter libraries (library_id e) && serializes e))
          (until_closed received)
unfolding handler_sse until_closed
handler_sse-eq-filter user libraries serializes [] = refl
handler_sse-eq-filter user libraries serializes (lagged ∷ rest) =
    handler_sse-eq-filter user libraries serializes rest
handler_sse-eq-filter user libraries serializes (closed ∷ rest) = refl
handler_sse-eq-filter user libraries serializes (event e ∷ rest) =
    ground (arith, handler_sse-eq-filter user libraries serializes rest)
