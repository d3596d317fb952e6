-- ===== src/Events.antt =====
-- The server-sent events of routes/sse.rs: which user is sent which event, and the stream of one
-- subscriber. A message is seen through the fields that the code reads of it: its library, the user
-- that it is about, and for a backup the optional library of the backup.
pub mod Routing
pub mod Tests
use redseat_rust.Base.{
  String, Bool, true, false, ◌&&◌, Option, none, some, List, [], ◌∷◌, ◌==◌, string_eq, contains,
  is_ok, if◌then◌else◌,
}
use redseat_rust.Base.{Result}
use redseat_rust.Access.Roles.{UserRole, LibraryRole}
use redseat_rust.Access.Users.{ConnectedUser}
use redseat_rust.Access.Checks.{Checked, user_id, check_role, check_library_role}

pub record LibraryEvent : Type 0 where
  pub library : String

pub record UserEvent : Type 0 where
  pub library : String
  pub user_ref : String

-- `Watched` and `Unwatched`
pub record WatchedEvent : Type 0 where
  pub user_ref : Option String

pub record BackupEvent : Type 0 where
  pub library : Option String

pub data SseEvent : Type 0 where
  library library_status medias upload_progress convert_progress : LibraryEvent → SseEvent
  episodes series movies books people tags : LibraryEvent → SseEvent
  backups backups_files : BackupEvent → SseEvent
  media_progress media_rating : UserEvent → SseEvent
  watched unwatched : WatchedEvent → SseEvent
  request_processing channels : LibraryEvent → SseEvent

unfoldable pub event_name : SseEvent → String
event_name (library _) = "library"
event_name (library_status _) = "library-status"
event_name (medias _) = "medias"
event_name (upload_progress _) = "upload_progress"
event_name (convert_progress _) = "convert_progress"
event_name (episodes _) = "episodes"
event_name (series _) = "series"
event_name (movies _) = "movies"
event_name (books _) = "books"
event_name (people _) = "people"
event_name (tags _) = "tags"
event_name (backups _) = "backups"
event_name (backups_files _) = "backups-files"
event_name (media_progress _) = "media_progress"
event_name (media_rating _) = "media_rating"
event_name (watched _) = "watched"
event_name (unwatched _) = "unwatched"
event_name (request_processing _) = "request_processing"
event_name (channels _) = "channels"

unfoldable pub library_id : SseEvent → Option String
library_id (library m) = some m.library
library_id (library_status m) = some m.library
library_id (medias m) = some m.library
library_id (upload_progress m) = some m.library
library_id (convert_progress m) = some m.library
library_id (episodes m) = some m.library
library_id (series m) = some m.library
library_id (movies m) = some m.library
library_id (books m) = some m.library
library_id (people m) = some m.library
library_id (tags m) = some m.library
library_id (backups m) = m.library
library_id (backups_files m) = m.library
library_id (media_progress m) = some m.library
library_id (media_rating m) = some m.library
library_id (watched _) = none
library_id (unwatched _) = none
library_id (request_processing m) = some m.library
library_id (channels m) = some m.library

-- `user.user_id().map(|uid| uid == user_ref).unwrap_or(false)`
abbrev is_user : ConnectedUser → String → Bool
is_user user user_ref = elim (user_id user) [
  | Result.ok uid ↦ uid == user_ref
  | Result.err _ ↦ false
]

-- `user.user_id().ok().zip(user_ref)`
abbrev is_optional_user : ConnectedUser → Option String → Bool
is_optional_user user none = false
is_optional_user user (some user_ref) = is_user user user_ref

abbrev administers : ConnectedUser → Option String → Bool
administers user none = is_ok (check_role user UserRole.admin)
administers user (some id) = is_ok (check_library_role user id LibraryRole.admin)

-- The last branch of the `match`, for every event that the others do not name.
abbrev reads_library : ConnectedUser → Option String → Bool
reads_library user none = false
reads_library user (some id) = is_ok (check_library_role user id LibraryRole.read)

unfoldable pub should_send_to : SseEvent → ConnectedUser → Bool
unfolding library_id
should_send_to (library_status m) user = is_ok (check_library_role user m.library LibraryRole.admin)
should_send_to (backups_files m) user = is_ok (check_role user UserRole.admin)
should_send_to (backups m) user = administers user m.library
should_send_to (media_progress m) user = is_user user m.user_ref
should_send_to (media_rating m) user = is_user user m.user_ref
should_send_to (watched w) user = is_optional_user user w.user_ref
should_send_to (unwatched w) user = is_optional_user user w.user_ref
should_send_to event user = reads_library user (library_id event)

-- What `rx.recv()` returns.
pub data Received : Type 0 where
  event : SseEvent → Received
  lagged closed : Received

-- The `library_filter` of the query: an event of no library passes.
abbrev pub passes_filter : Option (List String) → Option String → Bool
passes_filter none id = true
passes_filter (some filter) none = true
passes_filter (some filter) (some id) = contains filter id

module _ (user : ConnectedUser) (library_filter : Option (List String)) where
  -- The events that `handler_sse` yields for what it receives, up to the close of the channel.
  -- `serializes` is whether `serde_json::to_string` succeeds.
  unfoldable pub handler_sse : (SseEvent → Bool) → List Received → List SseEvent
  handler_sse serializes [] = []
  handler_sse serializes (lagged ∷ rest) = handler_sse serializes rest
  handler_sse serializes (closed ∷ rest) = []
  handler_sse serializes (event e ∷ rest) =
      let more = handler_sse serializes rest in
      if should_send_to e user
      then (if passes_filter library_filter (library_id e)
          then (if serializes e then e ∷ more else more)
          else more)
      else more
