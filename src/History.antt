-- ===== src/History.antt =====
-- Watched history and view progress: the operations of model/users.rs with the tables `Watched` and
-- `progress` of model/store/sql/users.rs. A media type is seen through the text that stores it. The
-- triggers of the tables, which stamp every row of the written id, read the same clock `now`.
pub mod Dates
pub mod Watching
pub mod Reading
pub mod Tests
use redseat_rust.Base.{
  ℕ, String, Bool, true, false, not, ◌&&◌, ◌||◌, Option, none, some, List, [], ◌∷◌, ◌++◌, Result,
  ok, err, ◌>>=◌, ltb, ◌==◌, nat_eq, string_eq, contains, any, filter, map, length, if◌then◌else◌,
}
use redseat_rust.Base.Int.{ℤ, pos, negsuc, ltbℤ}
use redseat_rust.Access.Roles.{UserRole}
use redseat_rust.Access.Users.{ConnectedUser, Error, RsError}
use redseat_rust.Access.Checks.{Checked, user_id, check_role}
use redseat_rust.Events.{SseEvent, watched, unwatched}
use redseat_rust.Libraries.{
  LibraryTable, get_library_progress_merged_users, get_optional_library_mapped_user,
}

pub record Watched : Type 0 where
  pub kind : String
  pub id : String
  pub user_ref : String
  pub date : ℤ
  pub modified : ℕ

pub record ViewProgress : Type 0 where
  pub kind : String
  pub id : String
  pub user_ref : String
  pub progress : ℕ
  pub parent : Option String
  pub modified : ℕ

pub record WatchedForAdd : Type 0 where
  pub kind : String
  pub id : String
  pub date : ℤ

pub record WatchedForDelete : Type 0 where
  pub kind : String
  pub ids : List String

pub record ViewProgressForAdd : Type 0 where
  pub kind : String
  pub id : String
  pub parent : Option String
  pub progress : ℕ

-- The tables, and the events that have been broadcast.
pub record History : Type 0 where
  pub watcheds : List Watched
  pub progresses : List ViewProgress
  pub sent : List SseEvent

-- `WHERE type = ? AND id = ? AND user_ref = ?`
abbrev pub is_row : String → String → String → Watched → Bool
is_row kind id user r = r.kind == kind && (r.id == id && r.user_ref == user)

abbrev pub is_progress : String → String → String → ViewProgress → Bool
is_progress kind id user r = r.kind == kind && (r.id == id && r.user_ref == user)

-- The triggers `inserted_watched` and `modified_watched`, and those of `progress`.
abbrev pub stamp : ℕ → String → List Watched → List Watched
stamp now id = map (λ r. if r.id == id then record r { modified = now } else r)

abbrev pub stamp_progress : ℕ → String → List ViewProgress → List ViewProgress
stamp_progress now id = map (λ r. if r.id == id then record r { modified = now } else r)

-- `INSERT OR REPLACE`, and the progress of the same media is deleted.
unfoldable pub store_add_watched : ℕ → WatchedForAdd → String → History → History
store_add_watched now w user h = record h {
  watcheds = stamp now w.id (
      filter (λ r. not (is_row w.kind w.id user r)) h.watcheds
      ++ (record { kind = w.kind; id = w.id; user_ref = user; date = w.date; modified = 0 }) ∷ []);
  progresses = filter (λ p. not (is_progress w.kind w.id user p)) h.progresses;
}

abbrev pub is_zero : ℤ → Bool
is_zero (pos n) = n == 0
is_zero (negsuc n) = false

abbrev pub is_live : String → String → String → Watched → Bool
is_live kind id user r = is_row kind id user r && not (is_zero r.date)

abbrev pub mark : ℕ → String → String → String → Watched → Watched
mark now kind id user r =
    if is_live kind id user r then record r { date = pos 0; modified = now } else r

-- One `UPDATE`, whose trigger runs if it touches a row.
unfoldable pub delete_row : ℕ → String → String → String → List Watched → List Watched
delete_row now kind id user rows =
    if any (is_live kind id user) rows
    then stamp now id (map (mark now kind id user) rows)
    else rows

unfoldable pub delete_rows : ℕ → String → List String → String → List Watched → List Watched
unfolding delete_row
delete_rows now kind [] user rows = rows
delete_rows now kind (id ∷ ids) user rows =
    delete_rows now kind ids user (delete_row now kind id user rows)

unfoldable pub store_delete_watched : ℕ → WatchedForDelete → String → History → History
unfolding delete_rows
store_delete_watched now w user h = record h {
  watcheds = delete_rows now w.kind w.ids user h.watcheds;
}

unfoldable pub store_add_view_progress : ℕ → ViewProgressForAdd → String → History → History
store_add_view_progress now p user h = record h {
  progresses = stamp_progress now p.id (
      filter (λ r. not (is_progress p.kind p.id user r)) h.progresses
      ++ (record {
        kind = p.kind;
        id = p.id;
        user_ref = user;
        progress = p.progress;
        parent = p.parent;
        modified = 0;
      })
        ∷ []);
}

abbrev pub send : SseEvent → History → History
send event h = record h { sent = h.sent ++ event ∷ [] }

-- The store is written and the event sent, for each user in turn.
unfoldable pub add_for : ℕ → WatchedForAdd → List String → History → History
unfolding store_add_watched
add_for now w [] h = h
add_for now w (id ∷ ids) h =
    add_for now w ids
      (send (watched (record { user_ref = some id })) (store_add_watched now w id h))

unfoldable pub remove_for : ℕ → WatchedForDelete → List String → History → History
unfolding store_delete_watched
remove_for now w [] h = h
remove_for now w (uid ∷ ids) h =
    remove_for now w ids
      (send (unwatched (record { user_ref = some uid })) (store_delete_watched now w uid h))

unfoldable pub progress_for : ℕ → ViewProgressForAdd → List String → History → History
unfolding store_add_view_progress
progress_for now p [] h = h
progress_for now p (id ∷ ids) h = progress_for now p ids (store_add_view_progress now p id h)

-- The users whose history the request writes: those merged in the library, or the user alone.
abbrev pub users_in : LibraryTable → Option String → String → Checked (List String)
users_in table none user_id = ok (user_id ∷ [])
users_in table (some library_id) user_id =
    get_library_progress_merged_users table library_id user_id

unfoldable pub concerned : LibraryTable → ConnectedUser → Option String → Checked (List String)
concerned table user library_id = do
  _ ← check_role user UserRole.read
  id ← user_id user
  users_in table library_id id

abbrev pub for_all :
    (List String → History → History)
    → Checked (List String)
    → History
    → Result RsError (Unit {0}) × History
for_all run (err e) h = (err (RsError.model e), h)
for_all run (ok ids) h = (ok tt, run ids h)

unfoldable pub add_watched :
    LibraryTable
    → ℕ
    → WatchedForAdd
    → ConnectedUser
    → Option String
    → History
    → Result RsError (Unit {0}) × History
unfolding add_for
add_watched table now w user library_id h =
    for_all (add_for now w) (concerned table user library_id) h

unfoldable pub remove_watched :
    LibraryTable
    → ℕ
    → WatchedForDelete
    → ConnectedUser
    → Option String
    → History
    → Result RsError (Unit {0}) × History
unfolding remove_for
remove_watched table now w user library_id h =
    for_all (remove_for now w) (concerned table user library_id) h

unfoldable pub add_view_progress :
    LibraryTable
    → ℕ
    → ViewProgressForAdd
    → ConnectedUser
    → Option String
    → History
    → Result RsError (Unit {0}) × History
unfolding progress_for
add_view_progress table now p user library_id h =
    for_all (progress_for now p) (concerned table user library_id) h
