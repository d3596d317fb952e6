-- ===== src/Streams/Sessions.antt =====
-- The operations over whole sessions: `get_or_create_hls_session` and `stop_hls_session` of
-- model/channels.rs, `cleanup_stale_sessions` of tools/hls_session.rs with the loop of model/mod.rs
-- that calls it, and the cleanup at the end of a supervisor task.
-- `stop_hls_session`, a round of the cleanup and the cleanup of a supervisor, which take their locks
-- one after the other, stand here as they run with no other task in between.
use text.Mathlib.Text.{starts_with}
use redseat_rust.Base.{
  ℕ, String, ◌<>◌, Option, none, some, List, [], ◌∷◌, Result, ok, err, ◌==◌, nat_eq, string_eq,
  filter, map, if◌then◌else◌, not,
}
use redseat_rust.Base.Dict
use redseat_rust.Base.Dict.{Dict}
use redseat_rust.Access.Users.{RsError}
use redseat_rust.Libraries.{LibraryTable}
use redseat_rust.Streams.{
  HlsSession, Supervisor, Streams, Others, acquiring, resolving, making_dir, touch, is_stale,
  stop_session, acquire_stream_slot, release_stream_slot, session_key, create_session,
}

abbrev pub Outcome : Type 0
Outcome = Result RsError (String × String) × Streams

-- What a request for a session is given: the clock, the key, the library and the channel, and what
-- the environment answers on the way, the resolved stream url and the new directory.
pub record Request : Type 0 where
  pub now : ℕ
  pub key : String
  pub library_id : String
  pub channel_id : String
  pub url : Result RsError String
  pub directory : Result RsError String

abbrev after_directory : Others → Request → Result RsError String → Streams → Outcome
after_directory others r (ok dir) st = (
  ok (dir, dir <> "/playlist.m3u8"),
  create_session others r.now r.key r.library_id r.channel_id dir st,
)
after_directory others r (err e) st = (err e, release_stream_slot r.library_id r.channel_id st)

abbrev after_url : Others → Request → Result RsError String → Streams → Outcome
after_url others r (err e) st = (err e, st)
after_url others r (ok url) st = after_directory others r r.directory (others making_dir st)

abbrev after_acquire : Others → Request → Result RsError (Unit {0}) × Streams → Outcome
after_acquire others r (err e, st) = (err e, st)
after_acquire others r (ok _, st) = after_url others r r.url (others resolving st)

abbrev use_session : Others → LibraryTable → Request → Streams → Option HlsSession → Outcome
use_session others cache r st (some session) = (ok (session.output_dir, session.playlist_path), st)
use_session others cache r st none =
    after_acquire others r
      (acquire_stream_slot others cache r.library_id r.channel_id (others acquiring st))

-- The key is `session_key` of the library, the channel and the quality that are asked for.
abbrev pub request :
    ℕ → String → String → Option String → Result RsError String → Result RsError String → Request
request now library_id channel_id quality url directory = record {
  now = now;
  key = session_key library_id channel_id quality;
  library_id = library_id;
  channel_id = channel_id;
  url = url;
  directory = directory;
}

unfoldable pub get_or_create_hls_session : Others → LibraryTable → Request → Streams → Outcome
get_or_create_hls_session others cache r st =
    use_session others cache r st (Dict.lookup r.key st.hls_sessions)

unfoldable pub stop_all : List String → Streams → Streams
stop_all [] st = st
stop_all (key ∷ keys) st = stop_all keys (stop_session key st)

abbrev pub stop_keys : String → String → List String → Streams → Streams
stop_keys library_id channel_id [] st = st
stop_keys library_id channel_id (key ∷ keys) st =
    release_stream_slot library_id channel_id (stop_all (key ∷ keys) st)

abbrev pub keys_to_stop : String → String → Streams → List String
keys_to_stop library_id channel_id st =
    filter (λ k. starts_with k (library_id <> (":" <> (channel_id <> ":"))))
      (Dict.keys st.hls_sessions)

unfoldable pub stop_hls_session : String → String → Streams → Streams
unfolding stop_all
stop_hls_session library_id channel_id st =
    stop_keys library_id channel_id (keys_to_stop library_id channel_id st) st

abbrev pub stale_sessions : ℕ → Streams → List HlsSession
stale_sessions now st = filter (is_stale now) (Dict.values st.hls_sessions)

-- The sessions whose `(library, channel)` the caller is told to release, and the state.
unfoldable pub cleanup_stale_sessions : ℕ → Streams → List (String × String) × Streams
unfolding stop_all
cleanup_stale_sessions now st = (
  map (λ s. (s.library_id, s.channel_id)) (stale_sessions now st),
  stop_all (map (λ s. s.key) (stale_sessions now st)) st,
)

unfoldable pub release_all : List (String × String) → Streams → Streams
release_all [] st = st
release_all ((library_id, channel_id) ∷ rest) st =
    release_all rest (release_stream_slot library_id channel_id st)

-- One round of the cleanup loop in `ModelController::new`.
unfoldable pub cleanup_round : ℕ → Streams → Streams
unfolding cleanup_stale_sessions release_all
cleanup_round now st =
    let (released, st') = cleanup_stale_sessions now st in release_all released st'

-- The end of `supervisor_loop`: the session is removed by its key and the slot released.
unfoldable pub supervisor_cleanup : Supervisor → Streams → Streams
supervisor_cleanup s st = release_stream_slot s.library_id s.channel_id (record st {
  hls_sessions = Dict.remove s.session_key st.hls_sessions;
  supervisors = filter (λ t. not (t.cancel_token == s.cancel_token)) st.supervisors;
})

abbrev pub touch_at : ℕ → String → Dict String HlsSession → Dict String HlsSession
touch_at now key = map (λ (k, s). (k, if k == key then touch now s else s))

-- A segment request finds its session in the table and touches it (routes/channels.rs).
unfoldable pub touch_session : ℕ → String → Streams → Streams
touch_session now key st = record st { hls_sessions = touch_at now key st.hls_sessions }
