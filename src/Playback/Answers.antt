-- ===== src/Playback/Answers.antt =====
-- What a request for a stream of a media is answered.
use redseat_rust.Base.{
  ℕ, ◌≡◌, ◌∙◌, refl, sym, subst, String, Bool, true, false, Option, none, some, [], ◌∷◌, Result, ok,
  err, string_eq, eq_refl, arith,
}
use redseat_rust.Base.Dict
use redseat_rust.Base.Dict.{Dict}
use redseat_rust.Access.Roles.{LibraryRole}
use redseat_rust.Access.Users.{ConnectedUser, RsError}
use redseat_rust.Access.Checks.{Checked, check_file_role}
use redseat_rust.Libraries.{LibraryTable}
use redseat_rust.Playback.{
  MediaHlsSession, MediaHls, media_touch, new_session, spawn_supervisor, make_dir, insert_session,
  start_media_hls_session,
}
use redseat_rust.Playback.Requests.{
  touch_in, cache_get_library_crypt, media_key, Answer, after_uri, use_media_session, after_check,
  get_or_create_media_hls_session,
}

-- The directory that was made, if it was.
abbrev made : Result RsError String → String
made (ok dir) = dir
made (err e) = ""

-- The session that a request is answered with, by what it finds under the key when it looks and when
-- it inserts its own: the one that it found, touched, or the one that another request has made
-- meanwhile, or its own.
abbrev pub shown :
    Option MediaHlsSession → Option MediaHlsSession → ℕ → MediaHlsSession → MediaHlsSession
shown (some s) found_later now own = media_touch now s
shown none (some s) now own = s
shown none none now own = own

touch_in-lookup :
    (now : ℕ) (key : String) (d : Dict String MediaHlsSession) {s : MediaHlsSession}
    → Dict.lookup key d ≡ some s
    → Dict.lookup key (touch_in now key d) ≡ some (media_touch now s)
unfolding Dict.lookup
touch_in-lookup now key [] h = ground arith
touch_in-lookup now key ((j, t) ∷ d) {s} h = ground (arith, touch_in-lookup now key d {s = s})

abbrev pub Stands : String → MediaHlsSession → MediaHls → Type 0
Stands key s st = Dict.lookup key st.media_hls_sessions ≡ some s

insert_session-Stands :
    (key : String) (now : ℕ) (own : MediaHlsSession) (st : MediaHls) (o : Option MediaHlsSession)
    → Dict.lookup key st.media_hls_sessions ≡ o
    → Stands key (shown none o now own) (insert_session key own o st)
unfolding insert_session
insert_session-Stands key now own st none h =
    ground (arith, Dict.lookup-insert key key own st.media_hls_sessions, eq_refl key)
insert_session-Stands key now own st (some s) h = h

abbrev OkStands : String → MediaHlsSession → Answer → Type 0
OkStands key s (ok k, st) = (k ≡ key) × Stands key s st
OkStands key s (err e, st) = Unit

-- The request's own session, which is made on the later state.
abbrev pub own_session :
    ℕ → String → String → String → Result RsError String → MediaHls → MediaHlsSession
own_session now key library_id media_id dir later =
    new_session now key library_id media_id (made dir) later

after_uri-OkStands :
    (now : ℕ) (key library_id media_id : String) (uri dir : Result RsError String)
    (spawn : Result RsError (Unit {0})) (later : MediaHls)
    → OkStands key
        (shown none
          (Dict.lookup key later.media_hls_sessions)
          now
          (own_session now key library_id media_id dir later))
        (after_uri now key library_id media_id uri dir spawn later)
unfolding start_media_hls_session spawn_supervisor
after_uri-OkStands now key library_id media_id (err e) dir spawn later = tt
after_uri-OkStands now key library_id media_id (ok uri) (err e) spawn later = tt
after_uri-OkStands now key library_id media_id (ok uri) (ok dir) (err e) later = tt
after_uri-OkStands now key library_id media_id (ok uri) (ok dir) (ok _) later = (
  refl,
  insert_session-Stands key now (new_session now key library_id media_id dir later)
      (spawn_supervisor key dir (make_dir dir later)) (Dict.lookup key later.media_hls_sessions)
      refl,
)

module _ (now : ℕ) (key : String) (later : Option MediaHlsSession) (own : MediaHlsSession) where
  use_media_session-OkStands :
      (st : MediaHls) (started : Answer) (o : Option MediaHlsSession)
      → Dict.lookup key st.media_hls_sessions ≡ o
      → OkStands key (shown none later now own) started
      → OkStands key (shown o later now own) (use_media_session now key o st started)
  use_media_session-OkStands st started none h k = k
  use_media_session-OkStands st started (some s) h k =
      (refl, touch_in-lookup now key st.media_hls_sessions h)

module _ (check : Checked (Unit {0})) (crypt : Bool) (key : String) (s : MediaHlsSession) where
  abbrev OkAllowed : Answer → Type 0
  OkAllowed (ok k, st) = (check ≡ ok tt) × (crypt ≡ false) × (k ≡ key) × Stands key s st
  OkAllowed (err e, st) = Unit

  OkAllowed-ok :
      (answer : Answer) {k : String}
      → OkAllowed answer
      → answer.0 ≡ ok k
      → (check ≡ ok tt) × (crypt ≡ false) × (k ≡ key) × Stands k s answer.1
  OkAllowed-ok (ok j, st) {k} h e =
      (h.0, h.1, sym same_key ∙ h.2, subst (λ i. Stands i s st) (sym h.2 ∙ same_key) h.3)
    where
      same_key : j ≡ k
      same_key = cc
  OkAllowed-ok (err j, st) h e = ground arith

after_check-OkAllowed :
    (check : Checked (Unit {0})) (crypt : Bool) (key : String) (s : MediaHlsSession) (st : MediaHls)
    (answer : Answer)
    → OkStands key s answer
    → OkAllowed check crypt key s (after_check check crypt st answer)
after_check-OkAllowed (err e) crypt key s st answer h = tt
after_check-OkAllowed (ok _) true key s st answer h = tt
after_check-OkAllowed (ok _) false key s st (ok k, st') h = (refl, refl, h.0, h.1)
after_check-OkAllowed (ok _) false key s st (err e, st') h = tt

module _ (cache : LibraryTable) (now : ℕ) (library_id media_id : String) (convert : Option String)
    (user : ConnectedUser) (uri dir : Result RsError String) (spawn : Result RsError (Unit {0}))
    (others : MediaHls → MediaHls) (st : MediaHls) (key : String) where
  -- When a request for a stream of a media is answered with a key, its user may read the media's
  -- file, the library is not encrypted, and the key is that of the media and of the conversion.
  -- Whatever other tasks do between its lookup and its insertion, at the end of its last step on the
  -- table the session under the key is the one that it found at first, touched, or else the one that
  -- another request had made meanwhile, unchanged, or else its own.
  pub get_or_create_media_hls_session-Stands :
      (get_or_create_media_hls_session cache now library_id media_id convert user uri dir spawn
          others st).0
        ≡ ok key
      → (check_file_role user library_id media_id LibraryRole.read ≡ ok tt)
        × (cache_get_library_crypt cache library_id ≡ false)
        × (key ≡ media_key library_id media_id convert)
        × Stands key
            (shown
              (Dict.lookup (media_key library_id media_id convert) st.media_hls_sessions)
              (Dict.lookup (media_key library_id media_id convert) (others st).media_hls_sessions)
              now
              (own_session now
                (media_key library_id media_id convert)
                library_id
                media_id
                dir
                (others st)))
            (get_or_create_media_hls_session cache now library_id media_id convert user uri dir
              spawn others st).1
  unfolding get_or_create_media_hls_session
  get_or_create_media_hls_session-Stands h =
      OkAllowed-ok _ _ name _ _
        (after_check-OkAllowed (check_file_role user library_id media_id LibraryRole.read)
          (cache_get_library_crypt cache library_id) name _ st _
          (use_media_session-OkStands now name _ _ st _ (Dict.lookup name st.media_hls_sessions)
            refl (after_uri-OkStands now name library_id media_id uri dir spawn (others st))))
        h
    where
      name : String
      name = media_key library_id media_id convert
