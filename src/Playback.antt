-- ===== src/Playback.antt =====
-- The sessions of transcoded media: src/tools/media_hls_session.rs, and the operation of
-- src/model/medias.rs that stops them. A session's cancellation token and the shared flags
-- of its task are named by a number; a task is listed while it runs its ffmpeg process.
mod Answers
mod Duplicates
mod Keyed
mod Requests
mod Stale
mod Tests
use text.Mathlib.Text.{starts_with}
use redseat_rust.Base.{
  ℕ, suc, ◌-◌, String, ◌<>◌, Bool, true, false, not, Option, none, some, List, [], ◌∷◌, ◌++◌,
  Result, ok, err, ◌==◌, nat_eq, string_eq, contains, filter, map, if◌then◌else◌, ltb, unwrap_or,
}
use redseat_rust.Base.Dict
use redseat_rust.Base.Dict.{Dict}
use redseat_rust.Access.Roles.{LibraryRole}
use redseat_rust.Access.Users.{ConnectedUser, RsError}
use redseat_rust.Access.Checks.{Checked, check_file_role}
use redseat_rust.Libraries.{ServerLibrary, LibraryTable}

abbrev pub media_inactivity_timeout_secs : ℕ
media_inactivity_timeout_secs = 1800

pub record MediaHlsSession : Type 0 where
  pub key : String
  pub library_id : String
  pub media_id : String
  pub output_dir : String
  pub playlist_path : String
  pub cancel_token : ℕ
  pub last_active : ℕ

-- What the task `media_supervisor_loop` keeps.
pub record MediaSupervisor : Type 0 where
  pub session_key : String
  pub output_dir : String
  pub cancel_token : ℕ

pub record MediaHls : Type 0 where
  pub media_hls_sessions : Dict String MediaHlsSession
  pub supervisors : List MediaSupervisor
  pub directories : List String
  pub cancelled : List ℕ
  pub finished : List ℕ
  pub next_token : ℕ

unfoldable pub media_touch : ℕ → MediaHlsSession → MediaHlsSession
media_touch now s = record s { last_active = now }

-- `saturating_sub` is the subtraction of ℕ.
unfoldable pub media_is_stale : ℕ → MediaHlsSession → Bool
media_is_stale now s = ltb media_inactivity_timeout_secs (now - s.last_active)

abbrev pub remove_dir : String → MediaHls → MediaHls
remove_dir dir st = record st { directories = filter (λ d. not (d == dir)) st.directories }

abbrev pub make_dir : String → MediaHls → MediaHls
make_dir dir st = record st { directories = dir ∷ st.directories }

abbrev pub remove_session : String → MediaHls → MediaHls
remove_session key st = record st { media_hls_sessions = Dict.remove key st.media_hls_sessions }

abbrev pub cancel_token_of : Option MediaHlsSession → List ℕ → List ℕ
cancel_token_of none cancelled = cancelled
cancel_token_of (some s) cancelled = s.cancel_token ∷ cancelled

-- How the wait of the task ends: with the exit of ffmpeg and whether it succeeded, or with the
-- cancellation, which kills it.
pub data Ending : Type 0 where
  exited : Bool → Ending
  killed : Ending

unfoldable pub note_ending : Ending → MediaSupervisor → MediaHls → MediaHls
note_ending ending sup st = record st {
  supervisors = filter (λ t. not (t.cancel_token == sup.cancel_token)) st.supervisors;
  finished = flagged ending;
}
  where
    flagged : Ending → List ℕ
    flagged (exited true) = sup.cancel_token ∷ st.finished
    flagged _ = st.finished

-- From the end of the wait to the end of the task.
unfoldable pub media_supervisor_loop : Ending → MediaSupervisor → MediaHls → MediaHls
media_supervisor_loop ending sup st =
    let ended = note_ending ending sup st in
    if contains st.cancelled sup.cancel_token
    then remove_session sup.session_key (remove_dir sup.output_dir ended)
    else ended

-- The session and its task once ffmpeg is spawned, under the lock of the table.
abbrev pub new_supervisor : String → String → MediaHls → MediaSupervisor
new_supervisor key dir st = record {
  session_key = key;
  output_dir = dir;
  cancel_token = st.next_token;
}

abbrev pub new_session : ℕ → String → String → String → String → MediaHls → MediaHlsSession
new_session now key library_id media_id dir st = record {
  key = key;
  library_id = library_id;
  media_id = media_id;
  output_dir = dir;
  playlist_path = dir <> "/playlist.m3u8";
  cancel_token = st.next_token;
  last_active = now;
}

unfoldable pub spawn_supervisor : String → String → MediaHls → MediaHls
spawn_supervisor key dir st = record st {
  supervisors = st.supervisors ++ new_supervisor key dir st ∷ [];
  next_token = suc st.next_token;
}

-- A session that another request has made meanwhile stays, and ours is cancelled.
unfoldable pub insert_session :
    String → MediaHlsSession → Option MediaHlsSession → MediaHls → MediaHls
insert_session key session none st = record st {
  media_hls_sessions = Dict.insert key session st.media_hls_sessions;
}
insert_session key session (some _) st = record st {
  cancelled = session.cancel_token ∷ st.cancelled;
}

abbrev pub Started : Type 0
Started = Result RsError (Unit {0}) × MediaHls

-- The environment answers with the new directory, and with what spawning ffmpeg gives.
unfoldable pub start_media_hls_session :
    ℕ
    → String
    → String
    → String
    → Result RsError String
    → Result RsError (Unit {0})
    → MediaHls
    → Started
start_media_hls_session now key library_id media_id (err e) spawn st = (err e, st)
start_media_hls_session now key library_id media_id (ok dir) (err e) st =
    (err e, remove_dir dir (make_dir dir st))
start_media_hls_session now key library_id media_id (ok dir) (ok _) st = (
  ok tt,
  insert_session key (new_session now key library_id media_id dir st)
      (Dict.lookup key st.media_hls_sessions) (spawn_supervisor key dir (make_dir dir st)),
)

unfoldable pub stop_media_session : String → MediaHls → MediaHls
stop_media_session key st = record st {
  cancelled = cancel_token_of (Dict.lookup key st.media_hls_sessions) st.cancelled;
}

unfoldable pub stop_media_sessions : List String → MediaHls → MediaHls
stop_media_sessions [] st = st
stop_media_sessions (key ∷ keys) st = stop_media_sessions keys (stop_media_session key st)

unfoldable pub stop_media_hls_session : String → String → MediaHls → MediaHls
stop_media_hls_session library_id media_id st =
    stop_media_sessions
      (filter (λ k. starts_with k (library_id <> (":" <> (media_id <> ":"))))
        (Dict.keys st.media_hls_sessions))
      st

abbrev pub remove_dir_of : Option MediaHlsSession → MediaHls → MediaHls
remove_dir_of none st = st
remove_dir_of (some s) st = remove_dir s.output_dir st

unfoldable pub cleanup_keys : List String → MediaHls → MediaHls
cleanup_keys [] st = st
cleanup_keys (key ∷ keys) st = cleanup_keys keys (
    remove_dir_of (Dict.lookup key st.media_hls_sessions)
      (remove_session key (stop_media_session key st)))

abbrev pub stale_keys : ℕ → Dict String MediaHlsSession → List String
stale_keys now d = map (λ s. s.key) (filter (media_is_stale now) (Dict.values d))

unfoldable pub cleanup_stale_media_sessions : ℕ → MediaHls → MediaHls
cleanup_stale_media_sessions now st = cleanup_keys (stale_keys now st.media_hls_sessions) st
