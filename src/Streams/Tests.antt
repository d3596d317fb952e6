-- ===== src/Streams/Tests.antt =====
-- A server with one library of one stream, driven to the limit and beyond it.
use redseat_rust.Base.{
  contains, subst, ap, unwrap_or, ◌+◌, ◌≤◌, ◌≡◌, refl, true, false, none, some, [], ◌∷◌, String, ok,
  arith, length, string_eq, nat_eq, Result,
}
use redseat_rust.Base.Dict
use redseat_rust.Access.Users.{RsError}
use redseat_rust.Libraries.{ServerLibrary, LibraryTable}
use redseat_rust.Libraries.Tests.{films}
use redseat_rust.Streams.{
  HlsSession, Streams, Others, resolving, channels_of, max_streams_of, acquire_stream_slot,
  spawn_hls_supervisor, insert_hls_session, create_session, hls_session, stop_session, oldest,
}
use redseat_rust.Streams.Sessions.{Request, request, get_or_create_hls_session}
use redseat_rust.Streams.Limit.{alone, acquire_stream_slot-limit, acquire_stream_slot_exceeds}
use redseat_rust.Streams.Racing.{
  another_acquires, acquire_stream_slot_races, is_supervised, get_or_create_hls_session_orphans,
}
use redseat_rust.Streams.Supervision.{
  Turn, exits, start_detector, stall_detector, stall_detector_fires,
}

abbrev single : ServerLibrary
single = record films { settings = record films.settings { max_streams = some 1 } }

abbrev tv : LibraryTable
tv = ("tv", single) ∷ []

abbrev url : Result RsError String
url = ok "http://host/1"

abbrev no_streams : Streams
no_streams = record {
  active_streams = [];
  hls_sessions = [];
  supervisors = [];
  cancelled = [];
  next_token = 0;
}

abbrev watch_a : Request
watch_a = request 10 "tv" "a" none url (ok "dir")

-- Channel `a` streams in a session, and `b` is then asked for by a proxy: `a` is evicted.
abbrev one_session : Streams
one_session = (get_or_create_hls_session alone tv watch_a no_streams).1

abbrev evicted : Streams
evicted = (acquire_stream_slot alone tv "tv" "b" one_session).1

first_stream : channels_of one_session "tv" ≡ "a" ∷ []
unfolding get_or_create_hls_session acquire_stream_slot create_session Dict.lookup Dict.insert
    Dict.values
first_stream = refl

-- A third stream comes before the supervisor of `a` has cleaned up.
over_the_limit : channels_of (acquire_stream_slot alone tv "tv" "c" evicted).1 "tv" ≡ "c" ∷ "b" ∷ []
unfolding get_or_create_hls_session acquire_stream_slot create_session Dict.lookup Dict.insert
    Dict.values
over_the_limit = refl

abbrev watched : HlsSession
watched = hls_session 10 "tv:a:best" "tv" "a" "dir" 0

abbrev StillHeld : HlsSession → Type 0
StillHeld s =
    let su = stop_session s.key one_session in
    (length (channels_of su "tv") ≤ 1) × (contains (channels_of su "tv") s.channel_id ≡ true)

-- While `b` evicts the session, `a` asks for its slot once more.
acquire_stream_slot-limit_example :
    length (
      channels_of
        (acquire_stream_slot (another_acquires tv "tv" "a") tv "tv" "b" one_session).1
        "tv")
    ≤ max_streams_of single
unfolding get_or_create_hls_session acquire_stream_slot create_session insert_hls_session
    Dict.lookup Dict.insert Dict.values oldest stop_session
acquire_stream_slot-limit_example =
    acquire_stream_slot-limit (another_acquires tv "tv" "a") tv "tv" "b" one_session refl
      (λ s e. subst StillHeld (ap (λ o. unwrap_or o watched) e) (omega arith, refl)) (omega arith)

acquire_stream_slot_exceeds_example :
    ((acquire_stream_slot alone tv "tv" "c" evicted).0 ≡ ok tt)
    × (length (channels_of (acquire_stream_slot alone tv "tv" "c" evicted).1 "tv")
        ≡ length (channels_of evicted "tv") + 1)
unfolding get_or_create_hls_session acquire_stream_slot create_session Dict.lookup Dict.insert
    Dict.values oldest
acquire_stream_slot_exceeds_example =
    acquire_stream_slot_exceeds tv "tv" "c" evicted {lib = single} refl refl (omega arith) refl refl

acquire_stream_slot_races_example :
    let r = acquire_stream_slot (another_acquires tv "tv" "c") tv "tv" "b" one_session in
    (r.0 ≡ ok tt)
    × ((acquire_stream_slot alone tv "tv" "c" one_session).0 ≡ ok tt)
    × (contains (channels_of r.1 "tv") "b" ≡ true)
    × (contains (channels_of r.1 "tv") "c" ≡ true)
    × (length (channels_of r.1 "tv") ≡ length (channels_of one_session "tv") + 1)
unfolding get_or_create_hls_session acquire_stream_slot create_session insert_hls_session
    Dict.lookup Dict.insert Dict.values oldest
acquire_stream_slot_races_example =
    acquire_stream_slot_races tv "tv" "b" "c" one_session refl refl refl refl (omega arith) refl
      refl refl

-- Another request for the same session runs while the url is resolved.
abbrev twice : Others
twice resolving st = (get_or_create_hls_session alone tv watch_a st).1
twice _ st = st

get_or_create_hls_session_orphans_example :
    let (answer, after) =
      get_or_create_hls_session twice tv (request 11 "tv" "a" none url (ok "own")) no_streams in
    (answer ≡ ok ("own", "own/playlist.m3u8"))
    × (Dict.lookup "tv:a:best" after.hls_sessions
        ≡ some (hls_session 11 "tv:a:best" "tv" "a" "own" 1))
    × (is_supervised 0 (stop_session "tv:a:best" after) ≡ true)
    × (contains (stop_session "tv:a:best" after).cancelled 0 ≡ false)
unfolding get_or_create_hls_session acquire_stream_slot create_session insert_hls_session
    spawn_hls_supervisor Dict.lookup Dict.insert Dict.values
get_or_create_hls_session_orphans_example =
    get_or_create_hls_session_orphans twice tv (request 11 "tv" "a" none url (ok "own")) no_streams
      (hls_session 10 "tv:a:best" "tv" "a" "dir" 0) refl refl refl refl refl refl refl refl

abbrev crash : Turn
crash = exits 100 103 false

stall_detector_fires_example :
    stall_detector (start_detector 0 100) ((115, 0) ∷ (161, 0) ∷ []) ≡ true
unfolding start_detector
stall_detector_fires_example =
    stall_detector_fires (start_detector 0 100) ((115, 0) ∷ []) 161 0 (omega arith) (omega arith)
      (omega arith)
