-- ===== src/Streams/Cleanup.antt =====
-- The cleanup of stale sessions cancels their tokens and no others.
use redseat_rust.Base.{
  ℕ, ◌≡◌, ◌∙◌, ap, String, Bool, false, ◌||◌, ◌&&◌, Option, none, some, List, [], ◌∷◌, arith, ◌==◌,
  nat_eq, string_eq, contains, any, filter, map, All, All-map, any-filter,
}
use redseat_rust.Base.Dict
use redseat_rust.Streams.{HlsSession, Streams, is_stale, stop_session}
use redseat_rust.Streams.Sessions.{stop_all, stale_sessions, cleanup_stale_sessions}

abbrev has_token : Option HlsSession → ℕ → Bool
has_token none t = false
has_token (some s) t = s.cancel_token == t

stop_session-cancelled :
    (key : String) (st : Streams) (t : ℕ)
    → contains (stop_session key st).cancelled t
      ≡ (has_token (Dict.lookup key st.hls_sessions) t || contains st.cancelled t)
unfolding stop_session
stop_session-cancelled key st t = ground arith

stop_session-sessions :
    (key : String) (st : Streams) → (stop_session key st).hls_sessions ≡ st.hls_sessions
unfolding stop_session
stop_session-sessions key st = ground arith

stop_all-cancelled :
    (ss : List HlsSession) (st : Streams) (t : ℕ)
    → All (λ s. Dict.lookup s.key st.hls_sessions ≡ some s) ss
    → contains (stop_all (map (λ s. s.key) ss) st).cancelled t
      ≡ (contains st.cancelled t || any (λ s. s.cancel_token == t) ss)
unfolding stop_all
stop_all-cancelled [] st t h = ground arith
stop_all-cancelled (s ∷ ss) st t h = ground (
  arith,
  stop_all-cancelled ss (stop_session s.key st) t
      (All-map ss (λ u e. ap (Dict.lookup u.key) (stop_session-sessions s.key st) ∙ e) h.1),
  stop_session-cancelled s.key st t,
  h.0,
)

All-filter {κ} :
    (P : HlsSession → Type κ) (p : HlsSession → Bool) (ss : List HlsSession)
    → All P ss
    → All P (filter p ss)
All-filter P p [] h = h
All-filter P p (s ∷ ss) h = ground (arith, All-filter P p ss h.1)

-- Where each session is found under its own key, a cleanup that no other task interrupts cancels the token of every session that has been
-- idle for more than `INACTIVITY_TIMEOUT_SECS`, and no other token.
cleanup_stale_sessions-cancelled :
    (now : ℕ) (st : Streams) (t : ℕ)
    → All (λ s. Dict.lookup s.key st.hls_sessions ≡ some s) (Dict.values st.hls_sessions)
    → contains (cleanup_stale_sessions now st).1.cancelled t ≡ (
        contains st.cancelled t
        || any (λ s. is_stale now s && (s.cancel_token == t)) (Dict.values st.hls_sessions))
unfolding cleanup_stale_sessions
cleanup_stale_sessions-cancelled now st t h =
    stop_all-cancelled (stale_sessions now st) st t
      (All-filter _ (is_stale now) (Dict.values st.hls_sessions) h)
    ∙ ap (λ (b : Bool). contains st.cancelled t || b)
        (any-filter (λ s. s.cancel_token == t) (is_stale now) (Dict.values st.hls_sessions))
