-- ===== src/Playback/Tests.antt =====
-- The theorems on media sessions at a film that two requests start and nobody watches afterwards.
use redseat_rust.Base.{
  ◌≡◌, refl, false, true, String, none, some, [], ◌∷◌, ok, contains, nat_eq, string_eq, arith,
  Result,
}
use redseat_rust.Base.Dict
use redseat_rust.Access.Roles.{LibraryRole}
use redseat_rust.Access.Users.{RsError}
use redseat_rust.Access.Checks.{check_file_role, is_admin}
use redseat_rust.Access.Tests.{file_share}
use redseat_rust.Libraries.Tests.{shelf}
use redseat_rust.Playback.{
  MediaHlsSession, MediaHls, killed, media_supervisor_loop, new_supervisor, start_media_hls_session,
}
use redseat_rust.Playback.Requests.{
  cache_get_library_crypt, media_key, get_or_create_media_hls_session,
}
use redseat_rust.Playback.Duplicates.{is_running, start_media_hls_session_orphans}
use redseat_rust.Playback.Answers.{
  shown, Stands, own_session, get_or_create_media_hls_session-Stands,
}

abbrev film_session : MediaHlsSession
film_session = record {
  key = "films:m1:default";
  library_id = "films";
  media_id = "m1";
  output_dir = "hls_a";
  playlist_path = "hls_a/playlist.m3u8";
  cancel_token = 0;
  last_active = 5;
}

abbrev playing : MediaHls
playing = record {
  media_hls_sessions = ("films:m1:default", film_session) ∷ [];
  supervisors =
      record { session_key = "films:m1:default"; output_dir = "hls_a"; cancel_token = 0 } ∷ [];
  directories = "hls_a" ∷ [];
  cancelled = [];
  finished = [];
  next_token = 1;
}

start_media_hls_session_orphans_example :
    let (answer, begun) =
      start_media_hls_session 9 "films:m1:default" "films" "m1" (ok "hls_b") (ok tt) playing in
    let ended =
      media_supervisor_loop killed (new_supervisor "films:m1:default" "hls_b" playing) begun in
    (answer ≡ ok tt)
    × (Dict.lookup "films:m1:default" begun.media_hls_sessions ≡ some film_session)
    × (Dict.lookup "films:m1:default" ended.media_hls_sessions ≡ none)
    × (is_running 0 ended ≡ true)
    × (contains ended.cancelled 0 ≡ false)
unfolding Dict.lookup
start_media_hls_session_orphans_example =
    start_media_hls_session_orphans 9 "films:m1:default" "films" "m1" "hls_b" playing film_session
      refl (omega arith) refl refl

abbrev local_path : Result RsError String
local_path = ok "/films/m1.mp4"

abbrev not_playing : MediaHls
not_playing = record {
  media_hls_sessions = [];
  supervisors = [];
  directories = [];
  cancelled = [];
  finished = [];
  next_token = 0;
}

-- Another request makes the session after this one has looked for it.
abbrev another : MediaHls → MediaHls
another st = playing

get_or_create_media_hls_session-Stands_example :
    (check_file_role file_share "films" "m1" LibraryRole.read ≡ ok tt)
    × (cache_get_library_crypt shelf "films" ≡ false)
    × ("films:m1:default" ≡ media_key "films" "m1" none)
    × Stands "films:m1:default"
        (shown none
          (some film_session)
          9
          (own_session 9 "films:m1:default" "films" "m1" (ok "hls_b") playing))
        (get_or_create_media_hls_session shelf 9 "films" "m1" none file_share local_path
          (ok "hls_b")
          (ok tt)
          another
          not_playing).1
unfolding get_or_create_media_hls_session check_file_role cache_get_library_crypt Dict.lookup
    is_admin start_media_hls_session
get_or_create_media_hls_session-Stands_example =
    get_or_create_media_hls_session-Stands shelf 9 "films" "m1" none file_share local_path
      (ok "hls_b") (ok tt) another not_playing "films:m1:default" refl

abbrev started_film : MediaHls
started_film =
    (start_media_hls_session 9 "films:m1:default" "films" "m1" (ok "hls_b") (ok tt) not_playing).1
