-- ===== src/Playback/Stale.antt =====
-- The cleanup of the stale sessions of media.
use redseat_rust.Base.{
  ℕ, ◌≡◌, ◌∙◌, refl, ap, String, Bool, true, false, Option, none, some, List, [], ◌∷◌, ◌==◌,
  ==-refl, nat_eq, string_eq, eq_refl, eq_iff, contains, All, arith, if◌then◌else◌, Bool-cases, inl,
  inr,
}
use redseat_rust.Base.Dict
use redseat_rust.Base.Dict.{Dict, NodupKeys}
use redseat_rust.Playback.{
  MediaHlsSession, MediaHls, media_is_stale, stop_media_session, cleanup_keys, stale_keys,
  cleanup_stale_media_sessions, remove_dir_of, remove_session, cancel_token_of,
}

-- Every session stands under its own key, and no key twice.
pub record IsKeyed (st : MediaHls) : Type 0 where
  pub keyed : All (λ (k, s). s.key ≡ k) st.media_hls_sessions
  pub nodup : NodupKeys st.media_hls_sessions

abbrev pub unless_stale : ℕ → Option MediaHlsSession → Option MediaHlsSession
unless_stale now none = none
unless_stale now (some s) = if media_is_stale now s then none else some s

abbrev is_stale_entry : ℕ → Option MediaHlsSession → Bool
is_stale_entry now none = false
is_stale_entry now (some s) = media_is_stale now s

stale_keys-lookup :
    (now : ℕ) (d : Dict String MediaHlsSession) (k : String)
    → All (λ (k, s). s.key ≡ k) d
    → NodupKeys d
    → contains (stale_keys now d) k ≡ is_stale_entry now (Dict.lookup k d)
unfolding Dict.lookup Dict.values
stale_keys-lookup now [] k keyed nodup = refl
stale_keys-lookup now ((j, s) ∷ d) k keyed nodup = elim (Bool-cases (j == k)) [
  | inl h ↦ rw h (
      ground (
        arith,
        stale_keys-lookup now d k keyed.1 nodup.1,
        eq_iff j k,
        keyed.0,
        nodup.0,
        eq_refl k,
        ap (λ i. Dict.lookup i d) ((eq_iff j k).0 h),
      ))
  | inr h ↦
      rw h (
        ground
          (arith, stale_keys-lookup now d k keyed.1 nodup.1, keyed.0, ap (λ i. i == k) keyed.0))
]

abbrev cleaned : String → MediaHls → MediaHls
cleaned key st =
    remove_dir_of (Dict.lookup key st.media_hls_sessions)
      (remove_session key (stop_media_session key st))

cleaned-lookup :
    (key : String) (st : MediaHls) (k : String)
    → Dict.lookup k (cleaned key st).media_hls_sessions
      ≡ (if key == k then none else Dict.lookup k st.media_hls_sessions)
unfolding stop_media_session
cleaned-lookup key st k = split (Dict.lookup key st.media_hls_sessions)
  where
    split :
        (o : Option MediaHlsSession)
        → Dict.lookup k
            (remove_dir_of o (remove_session key (stop_media_session key st))).media_hls_sessions
          ≡ (if key == k then none else Dict.lookup k st.media_hls_sessions)
    split none = Dict.lookup-remove key k st.media_hls_sessions
    split (some s) = Dict.lookup-remove key k st.media_hls_sessions

cleanup_keys-lookup :
    (keys : List String) (st : MediaHls) (k : String)
    → Dict.lookup k (cleanup_keys keys st).media_hls_sessions
      ≡ (if contains keys k then none else Dict.lookup k st.media_hls_sessions)
unfolding cleanup_keys stop_media_session
cleanup_keys-lookup [] st k = refl
cleanup_keys-lookup (key ∷ keys) st k =
    cleanup_keys-lookup keys (cleaned key st) k ∙ ground (arith, cleaned-lookup key st k)

cleaned-cancelled :
    (key : String) (st : MediaHls) (s : MediaHlsSession)
    → Dict.lookup key st.media_hls_sessions ≡ some s
    → contains (cleaned key st).cancelled s.cancel_token ≡ true
unfolding stop_media_session
cleaned-cancelled key st s found = rw found (ground (arith, ==-refl s.cancel_token))

cleaned-keeps-cancelled :
    (key : String) (st : MediaHls) (t : ℕ)
    → contains st.cancelled t ≡ true
    → contains (cleaned key st).cancelled t ≡ true
unfolding stop_media_session
cleaned-keeps-cancelled key st t h = split (Dict.lookup key st.media_hls_sessions)
  where
    split :
        (o : Option MediaHlsSession)
        → contains
            (remove_dir_of o (record (remove_session key st) {
              cancelled = cancel_token_of o st.cancelled;
            })).cancelled
            t
          ≡ true
    split none = h
    split (some s) = ground arith

cleanup_keys-keeps-cancelled :
    (keys : List String) (st : MediaHls) (t : ℕ)
    → contains st.cancelled t ≡ true
    → contains (cleanup_keys keys st).cancelled t ≡ true
unfolding cleanup_keys
cleanup_keys-keeps-cancelled [] st t h = h
cleanup_keys-keeps-cancelled (key ∷ keys) st t h =
    cleanup_keys-keeps-cancelled keys (cleaned key st) t (cleaned-keeps-cancelled key st t h)

cleanup_keys-cancelled :
    (keys : List String) (st : MediaHls) (k : String) (s : MediaHlsSession)
    → contains keys k ≡ true
    → Dict.lookup k st.media_hls_sessions ≡ some s
    → contains (cleanup_keys keys st).cancelled s.cancel_token ≡ true
unfolding cleanup_keys
cleanup_keys-cancelled [] st k s h found = ground arith
cleanup_keys-cancelled (key ∷ keys) st k s h found = elim (Bool-cases (key == k)) [
  | inl e ↦ cleanup_keys-keeps-cancelled keys (cleaned key st) s.cancel_token (
      cleaned-cancelled key st s
        (ap (λ i. Dict.lookup i st.media_hls_sessions) ((eq_iff key k).0 e) ∙ found))
  | inr e ↦
      cleanup_keys-cancelled keys (cleaned key st) k s (ground arith)
        (ground (arith, cleaned-lookup key st k))
]

-- In a table whose sessions stand under their own keys, no key twice, the cleanup removes the
-- sessions that were not used for more than half an hour and keeps the others as they were, and the tasks of
-- the sessions it removes are cancelled.
cleanup_stale_media_sessions-lookup :
    (now : ℕ) (st : MediaHls)
    → IsKeyed st
    → ((k : String)
        → Dict.lookup k (cleanup_stale_media_sessions now st).media_hls_sessions
          ≡ unless_stale now (Dict.lookup k st.media_hls_sessions))
      × ((k : String) (s : MediaHlsSession)
          → Dict.lookup k st.media_hls_sessions ≡ some s
          → media_is_stale now s ≡ true
          → contains (cleanup_stale_media_sessions now st).cancelled s.cancel_token ≡ true)
unfolding cleanup_stale_media_sessions
cleanup_stale_media_sessions-lookup now st keyed = (
  λ k.
      cleanup_keys-lookup (stale_keys now st.media_hls_sessions) st k
      ∙ by_entry k (Dict.lookup k st.media_hls_sessions) (stale k),
  λ k s found old.
      cleanup_keys-cancelled (stale_keys now st.media_hls_sessions) st k s
        (stale k ∙ ap (is_stale_entry now) found ∙ old) found,
)
  where
    stale :
        (k : String)
        → contains (stale_keys now st.media_hls_sessions) k
          ≡ is_stale_entry now (Dict.lookup k st.media_hls_sessions)
    stale k = stale_keys-lookup now st.media_hls_sessions k keyed.keyed keyed.nodup

    by_entry :
        (k : String) (o : Option MediaHlsSession)
        → contains (stale_keys now st.media_hls_sessions) k ≡ is_stale_entry now o
        → (if contains (stale_keys now st.media_hls_sessions) k then none else o)
          ≡ unless_stale now o
    by_entry k none h = ground arith
    by_entry k (some s) h = rw h refl
