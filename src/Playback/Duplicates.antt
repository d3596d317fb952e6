-- ===== src/Playback/Duplicates.antt =====
-- Two requests that start the same media: the end of the task of the second.
use redseat_rust.Base.{
  ℕ, ◌<◌, ◌≡◌, refl, String, Bool, true, false, not, none, some, List, [], ◌∷◌, ◌++◌, ok, ◌==◌,
  ==-refl, nat_eq, string_eq, eq_refl, contains, filter, any, arith,
}
use redseat_rust.Base.Dict
use redseat_rust.Base.Distinct.{any-append}
use redseat_rust.Playback.{
  MediaHlsSession, MediaSupervisor, MediaHls, killed, media_supervisor_loop, note_ending,
  new_supervisor, spawn_supervisor, insert_session, start_media_hls_session,
}

abbrev pub is_running : ℕ → MediaHls → Bool
is_running token st = any (λ t. t.cancel_token == token) st.supervisors

any-filter-other :
    (a b : ℕ) (ts : List MediaSupervisor)
    → (a == b) ≡ false
    → any (λ t. t.cancel_token == a) (filter (λ t. not (t.cancel_token == b)) ts)
      ≡ any (λ t. t.cancel_token == a) ts
any-filter-other a b [] h = refl
any-filter-other a b (t ∷ ts) h = ground (arith, any-filter-other a b ts h)

-- A request that starts a media whose session was made since it looked is answered as if it had
-- started it, and its own task is cancelled; when that task ends, it removes by its key the session
-- of the other request, whose task still runs and is not cancelled: no request finds the session
-- that runs.
pub start_media_hls_session_orphans :
    (now : ℕ) (key library_id media_id dir : String) (st : MediaHls) (s : MediaHlsSession)
    → Dict.lookup key st.media_hls_sessions ≡ some s
    → s.cancel_token < st.next_token
    → contains st.cancelled s.cancel_token ≡ false
    → is_running s.cancel_token st ≡ true
    → let (answer, started) =
        start_media_hls_session now key library_id media_id (ok dir) (ok tt) st in
      let ended = media_supervisor_loop killed (new_supervisor key dir st) started in
      (answer ≡ ok tt)
      × (Dict.lookup key started.media_hls_sessions ≡ some s)
      × (Dict.lookup key ended.media_hls_sessions ≡ none)
      × (is_running s.cancel_token ended ≡ true)
      × (contains ended.cancelled s.cancel_token ≡ false)
unfolding start_media_hls_session media_supervisor_loop note_ending insert_session spawn_supervisor
start_media_hls_session_orphans now key library_id media_id dir st s found fresh live running =
    rw found (rw (==-refl st.next_token) (refl, found, gone, still_running, ground (arith, apart)))
  where
    apart : (st.next_token == s.cancel_token) ≡ false
    apart = ground arith

    gone : Dict.lookup key (Dict.remove key st.media_hls_sessions) ≡ none
    gone = ground (arith, Dict.lookup-remove key key st.media_hls_sessions, eq_refl key)

    still_running :
        any
          (λ t. t.cancel_token == s.cancel_token)
          (filter
            (λ t. not (t.cancel_token == st.next_token))
            (st.supervisors ++ new_supervisor key dir st ∷ []))
        ≡ true
    still_running = ground (
      arith,
      any-filter-other s.cancel_token st.next_token
          (st.supervisors ++ new_supervisor key dir st ∷ []),
      any-append (λ t. t.cancel_token == s.cancel_token) st.supervisors
          (new_supervisor key dir st ∷ []),
    )
