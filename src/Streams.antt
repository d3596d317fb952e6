-- ===== src/Streams.antt =====
-- Live channel streams: the slots of model/channels.rs that limit the streams of a library, and the
-- table of HLS sessions of tools/hls_session.rs. A cancellation token, which a session shares with
-- its supervisor task, is a number, and `cancelled` holds the tokens that are cancelled.
-- Where an operation lets go of its lock or awaits something, other tasks run: what they do to the
-- state at the pauses of an operation is its argument `others`.
pub mod Slots
pub mod Sessions
pub mod Limit
pub mod Racing
pub mod Cleanup
pub mod Supervision
pub mod Tests
use text.Mathlib.Text.{starts_with}
use redseat_rust.Base.{
  ℕ, suc, ◌+◌, ◌-◌, String, ◌<>◌, Bool, true, false, not, ◌&&◌, Option, none, some, List, [], ◌∷◌,
  ◌++◌, Result, ok, err, ltb, leb, ◌==◌, nat_eq, string_eq, contains, filter, map, length,
  unwrap_or, if◌then◌else◌,
}
use redseat_rust.Base.Dict
use redseat_rust.Base.Dict.{Dict}
use redseat_rust.Access.Users.{RsError}
use redseat_rust.Libraries.{ServerLibrary, LibraryTable}

abbrev pub inactivity_timeout_secs : ℕ
inactivity_timeout_secs = 30

pub record HlsSession : Type 0 where
  pub key : String
  pub library_id : String
  pub channel_id : String
  pub output_dir : String
  pub playlist_path : String
  pub cancel_token : ℕ
  pub last_active : ℕ

-- What a supervisor task keeps for its cleanup.
pub record Supervisor : Type 0 where
  pub session_key : String
  pub library_id : String
  pub channel_id : String
  pub cancel_token : ℕ

pub record Streams : Type 0 where
  pub active_streams : Dict String (List String)
  pub hls_sessions : Dict String HlsSession
  pub supervisors : List Supervisor
  pub cancelled : List ℕ
  pub next_token : ℕ

-- The pauses of an operation, where other tasks run: before the slot is acquired, when
-- `acquire_stream_slot` has dropped its lock and before it takes it again, while the url is resolved
-- and the directory is made, and between the spawn of the supervisor and the insertion of its session.
pub data Pause : Type 0 where
  acquiring unlocked relocking resolving making_dir inserting : Pause

abbrev pub Others : Type 0
Others = Pause → Streams → Streams

unfoldable pub touch : ℕ → HlsSession → HlsSession
touch now s = record s { last_active = now }

-- `saturating_sub` is the subtraction of ℕ.
unfoldable pub is_stale : ℕ → HlsSession → Bool
is_stale now s = ltb inactivity_timeout_secs (now - s.last_active)

-- `streams.entry(library_id).or_default()`
abbrev pub channels_of : Streams → String → List String
channels_of st library_id = unwrap_or (Dict.lookup library_id st.active_streams) []

abbrev pub set_remove : String → List String → List String
set_remove x = filter (λ y. not (y == x))

abbrev pub set_channels : Streams → String → List String → Streams
set_channels st library_id channels = record st {
  active_streams = Dict.insert library_id channels st.active_streams;
}

abbrev cancel : Streams → ℕ → Streams
cancel st token = record st { cancelled = token ∷ st.cancelled }

abbrev cancel_found : Streams → Option HlsSession → Streams
cancel_found st none = st
cancel_found st (some s) = cancel st s.cancel_token

-- `hls_session::stop_session`
unfoldable pub stop_session : String → Streams → Streams
stop_session key st = cancel_found st (Dict.lookup key st.hls_sessions)

-- `min_by_key` over `last_active`: the first of the least.
abbrev older : HlsSession → Option HlsSession → HlsSession
older s none = s
older s (some t) = if leb s.last_active t.last_active then s else t

unfoldable pub oldest : String → List HlsSession → Option HlsSession
oldest library_id [] = none
oldest library_id (s ∷ rest) =
    let best = oldest library_id rest in
    if s.library_id == library_id then some (older s best) else best

-- What the first critical section of `acquire_stream_slot` decides.
pub data Decision : Type 0 where
  granted : Streams → Decision
  evict : HlsSession → Decision
  refused : Decision

abbrev evict_oldest : Option HlsSession → Decision
evict_oldest none = refused
evict_oldest (some s) = evict s

-- `entry(..).or_default()` leaves an empty set behind where the library had none.
unfoldable pub acquire_decide : ℕ → String → String → Streams → Decision
unfolding oldest
acquire_decide max_streams library_id channel_id st =
    if contains (channels_of st library_id) channel_id
    then granted (set_channels st library_id (channels_of st library_id))
    else if leb max_streams (length (channels_of st library_id))
    then evict_oldest (oldest library_id (Dict.values st.hls_sessions))
    else granted (set_channels st library_id (channel_id ∷ channels_of st library_id))

-- After the eviction: the old channel is removed and the new one inserted (`HashSet::insert`).
unfoldable pub acquire_replace : String → String → String → Streams → Streams
acquire_replace library_id channel_id old_channel_id st =
    let left = set_remove old_channel_id (channels_of st library_id) in
    set_channels st library_id (if contains left channel_id then left else channel_id ∷ left)

-- The lock is dropped, the session stopped, and the lock taken again.
abbrev finish_acquire :
    Others → String → String → Streams → Decision → Result RsError (Unit {0}) × Streams
finish_acquire others library_id channel_id st (granted st') = (ok tt, st')
finish_acquire others library_id channel_id st (evict s) = (
  ok tt,
  acquire_replace library_id channel_id s.channel_id
      (others relocking (stop_session s.key (others unlocked st))),
)
finish_acquire others library_id channel_id st refused = (
  err (RsError.message "Maximum concurrent streams reached for this library"),
  set_channels st library_id (channels_of st library_id),
)

abbrev pub max_streams_of : ServerLibrary → ℕ
max_streams_of library = unwrap_or library.settings.max_streams 1

abbrev acquire_found :
    Others → Option ServerLibrary → String → String → Streams → Result RsError (Unit {0}) × Streams
acquire_found others none library_id channel_id st = (err (RsError.not_found library_id), st)
acquire_found others (some library) library_id channel_id st =
    finish_acquire others library_id channel_id st
      (acquire_decide (max_streams_of library) library_id channel_id st)

-- `cache` is the controller's cache of libraries.
unfoldable pub acquire_stream_slot :
    Others → LibraryTable → String → String → Streams → Result RsError (Unit {0}) × Streams
unfolding acquire_decide acquire_replace stop_session
acquire_stream_slot others cache library_id channel_id st =
    acquire_found others (Dict.lookup library_id cache) library_id channel_id st

abbrev release_from : Streams → String → String → Option (List String) → Streams
release_from st library_id channel_id none = st
release_from st library_id channel_id (some channels) = elim (set_remove channel_id channels) [
  | [] ↦ record st { active_streams = Dict.remove library_id st.active_streams }
  | c ∷ cs ↦ set_channels st library_id (c ∷ cs)
]

unfoldable pub release_stream_slot : String → String → Streams → Streams
release_stream_slot library_id channel_id st =
    release_from st library_id channel_id (Dict.lookup library_id st.active_streams)

abbrev pub session_key : String → String → Option String → String
session_key library_id channel_id quality =
    library_id <> (":" <> (channel_id <> (":" <> unwrap_or quality "best")))

unfoldable pub spawn_hls_supervisor : String → String → String → Streams → Streams
spawn_hls_supervisor key library_id channel_id st = record st {
  supervisors =
      st.supervisors
      ++ (record {
        session_key = key;
        library_id = library_id;
        channel_id = channel_id;
        cancel_token = st.next_token;
      })
        ∷ [];
  next_token = suc st.next_token;
}

unfoldable pub insert_hls_session : String → HlsSession → Streams → Streams
insert_hls_session key session st = record st {
  hls_sessions = Dict.insert key session st.hls_sessions;
}

-- The session that `create_session` makes.
abbrev pub hls_session : ℕ → String → String → String → String → ℕ → HlsSession
hls_session now key library_id channel_id dir cancel_token = record {
  key = key;
  library_id = library_id;
  channel_id = channel_id;
  output_dir = dir;
  playlist_path = dir <> "/playlist.m3u8";
  cancel_token = cancel_token;
  last_active = now;
}

-- `create_session`, after the output directory has been made: the supervisor runs before the session
-- stands in the table.
unfoldable pub create_session : Others → ℕ → String → String → String → String → Streams → Streams
unfolding spawn_hls_supervisor insert_hls_session
create_session others now key library_id channel_id dir st =
    insert_hls_session key (hls_session now key library_id channel_id dir st.next_token)
      (others inserting (spawn_hls_supervisor key library_id channel_id st))
