-- ===== src/Playback/Requests.antt =====
-- `get_or_create_media_hls_session` of src/model/medias.rs, in the parts that it is made of. It
-- looks for a session, lets go of the lock, and starts one on the state that it finds later: `others`
-- is what the other tasks do to the state in between.
use redseat_rust.Base.{
  ℕ, String, ◌<>◌, Bool, false, Option, none, some, Result, ok, err, ◌==◌, string_eq, map,
  if◌then◌else◌, unwrap_or,
}
use redseat_rust.Base.Dict
use redseat_rust.Base.Dict.{Dict}
use redseat_rust.Access.Roles.{LibraryRole}
use redseat_rust.Access.Users.{ConnectedUser, RsError}
use redseat_rust.Access.Checks.{Checked, check_file_role}
use redseat_rust.Libraries.{ServerLibrary, LibraryTable}
use redseat_rust.Playback.{MediaHlsSession, MediaHls, media_touch, Started, start_media_hls_session}

abbrev crypt_of : Option ServerLibrary → Bool
crypt_of none = false
crypt_of (some library) = unwrap_or library.crypt false

unfoldable pub cache_get_library_crypt : LibraryTable → String → Bool
cache_get_library_crypt cache library_id = crypt_of (Dict.lookup library_id cache)

-- The conversion is given by the text of the hash of its JSON.
abbrev pub media_key : String → String → Option String → String
media_key library_id media_id convert =
    library_id <> (":" <> (media_id <> (":" <> unwrap_or convert "default")))

abbrev pub touch_in : ℕ → String → Dict String MediaHlsSession → Dict String MediaHlsSession
touch_in now key = map (λ (k, s). (k, if k == key then media_touch now s else s))

abbrev pub Answer : Type 0
Answer = Result RsError String × MediaHls

abbrev pub with_key : String → Started → Answer
with_key key (err e, st) = (err e, st)
with_key key (ok _, st) = (ok key, st)

abbrev pub after_uri :
    ℕ
    → String
    → String
    → String
    → Result RsError String
    → Result RsError String
    → Result RsError (Unit {0})
    → MediaHls
    → Answer
after_uri now key library_id media_id (err e) dir spawn later = (err e, later)
after_uri now key library_id media_id (ok uri) dir spawn later =
    with_key key (start_media_hls_session now key library_id media_id dir spawn later)

-- The session that is found is touched.
abbrev pub touch_found : ℕ → String → MediaHls → MediaHls
touch_found now key st = record st { media_hls_sessions = touch_in now key st.media_hls_sessions }

abbrev pub use_media_session : ℕ → String → Option MediaHlsSession → MediaHls → Answer → Answer
use_media_session now key none st started = started
use_media_session now key (some _) st started = (ok key, touch_found now key st)

abbrev pub after_check : Checked (Unit {0}) → Bool → MediaHls → Answer → Answer
after_check (err e) crypt st answer = (err (RsError.model e), st)
after_check (ok _) crypt st answer =
    if crypt then (err RsError.unavailable_for_crypted_libraries, st) else answer

-- The environment answers with the source of the media, the new directory and the spawned ffmpeg.
unfoldable pub get_or_create_media_hls_session :
    LibraryTable
    → ℕ
    → String
    → String
    → Option String
    → ConnectedUser
    → Result RsError String
    → Result RsError String
    → Result RsError (Unit {0})
    → (MediaHls → MediaHls)
    → MediaHls
    → Answer
get_or_create_media_hls_session cache now library_id media_id convert user uri dir spawn others st =
    let key = media_key library_id media_id convert in
    after_check (check_file_role user library_id media_id LibraryRole.read)
      (cache_get_library_crypt cache library_id) st
      (use_media_session now key (Dict.lookup key st.media_hls_sessions) st
        (after_uri now key library_id media_id uri dir spawn (others st)))
