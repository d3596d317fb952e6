-- ===== src/Streams/Racing.antt =====
-- Two requests at once: what `acquire_stream_slot` and `get_or_create_hls_session` do when another
-- request runs where they have dropped their locks.
use redseat_rust.Base.{
  ℕ, ◌<>◌, ◌+◌, ◌≡◌, ◌≤◌, String, Bool, true, false, none, some, ◌∷◌, ok, ◌==◌, nat_eq, nat_beq_iff,
  string_eq, eq_iff, eq_refl, contains, any, length, arith,
}
use redseat_rust.Base.Dict
use redseat_rust.Base.Dict.{lookup-insert}
use redseat_rust.Libraries.{ServerLibrary, LibraryTable}
use redseat_rust.Streams.{
  HlsSession, Streams, Others, unlocked, acquiring, resolving, making_dir, inserting, channels_of,
  set_remove, oldest, acquire_decide, acquire_replace, max_streams_of, acquire_stream_slot,
  stop_session, spawn_hls_supervisor, insert_hls_session, create_session, hls_session,
}
use redseat_rust.Streams.Sessions.{Request, get_or_create_hls_session}
use redseat_rust.Streams.Slots.{contains-set_remove, channels_of-acquire_replace, channels_of-stop}
use redseat_rust.Streams.Limit.{alone, set_remove_of_absent}

-- Another request for a slot of the library runs once, when the lock is dropped.
abbrev pub another_acquires : LibraryTable → String → String → Others
another_acquires cache l d unlocked st = (acquire_stream_slot alone cache l d st).1
another_acquires cache l d _ st = st

module _ (cache : LibraryTable) (l c d : String) (st : Streams) {lib : ServerLibrary}
    {s : HlsSession} where
  -- Two requests for different channels without a slot that race for one of a full library, whose
  -- oldest session streams a channel that holds a single slot, are both granted, and the library
  -- then streams both channels and one more than before: each evicts the same session, whose channel
  -- is removed once.
  pub acquire_stream_slot_races :
      Dict.lookup l cache ≡ some lib
      → (c == d) ≡ false
      → contains (channels_of st l) c ≡ false
      → contains (channels_of st l) d ≡ false
      → max_streams_of lib ≤ length (channels_of st l)
      → oldest l (Dict.values st.hls_sessions) ≡ some s
      → length (set_remove s.channel_id (channels_of st l)) + 1 ≡ length (channels_of st l)
      → contains (channels_of st l) s.channel_id ≡ true
      → let r = acquire_stream_slot (another_acquires cache l d) cache l c st in
        (r.0 ≡ ok tt)
        × ((acquire_stream_slot alone cache l d st).0 ≡ ok tt)
        × (contains (channels_of r.1 l) c ≡ true)
        × (contains (channels_of r.1 l) d ≡ true)
        × (length (channels_of r.1 l) ≡ length (channels_of st l) + 1)
  unfolding acquire_stream_slot acquire_decide
  acquire_stream_slot_races found distinct no_c no_d full old one held = (
    ground arith,
    ground arith,
    rw raced (ground (arith, eq_refl c)),
    rw raced (ground (arith, eq_refl d)),
    rw raced (omega (arith, one)),
  )
    where
      other : Streams
      other = acquire_replace l d s.channel_id (stop_session s.key st)

      other_channels : channels_of other l ≡ d ∷ set_remove s.channel_id (channels_of st l)
      other_channels = ground (
        arith,
        channels_of-acquire_replace l d s.channel_id l (stop_session s.key st),
        channels_of-stop s.key l st,
        contains-set_remove s.channel_id d (channels_of st l),
        eq_refl l,
      )

      raced :
          channels_of (acquire_stream_slot (another_acquires cache l d) cache l c st).1 l
          ≡ c ∷ d ∷ set_remove s.channel_id (channels_of st l)
      raced = ground (
        arith,
        channels_of-acquire_replace l c s.channel_id l (stop_session s.key other),
        channels_of-stop s.key l other,
        other_channels,
        contains-set_remove s.channel_id d (channels_of st l),
        contains-set_remove s.channel_id c (channels_of st l),
        set_remove_of_absent s.channel_id (set_remove s.channel_id (channels_of st l)),
        contains-set_remove s.channel_id s.channel_id (channels_of st l),
        eq_refl s.channel_id,
        eq_refl l,
        eq_iff c d,
        eq_iff d c,
        eq_iff s.channel_id d,
        eq_iff d s.channel_id,
        eq_iff c s.channel_id,
        found,
      )

abbrev pub is_supervised : ℕ → Streams → Bool
is_supervised token st = any (λ t. t.cancel_token == token) st.supervisors

module _ (others : Others) (cache : LibraryTable) (r : Request) (st : Streams) where
  -- The state when the directory of a new session is made, and when its session is to be inserted.
  abbrev pub when_made : Streams
  when_made = others making_dir (
      others resolving
        (acquire_stream_slot others cache r.library_id r.channel_id (others acquiring st)).1)

  abbrev pub when_spawned : Streams
  when_spawned = others inserting (spawn_hls_supervisor r.key r.library_id r.channel_id when_made)

  -- A request that found no session, was granted its slot, its url and its directory, and by the time
  -- of whose insertion another session with a supervisor that is not cancelled stands under the key,
  -- is answered with its own session, which takes the place of the other. The supervisor of the other
  -- session goes on, and stopping the session of the key does not cancel it.
  pub get_or_create_hls_session_orphans :
      (s : HlsSession) {url dir : String}
      → Dict.lookup r.key st.hls_sessions ≡ none
      → (acquire_stream_slot others cache r.library_id r.channel_id (others acquiring st)).0 ≡ ok tt
      → r.url ≡ ok url
      → r.directory ≡ ok dir
      → Dict.lookup r.key when_spawned.hls_sessions ≡ some s
      → (s.cancel_token == when_made.next_token) ≡ false
      → is_supervised s.cancel_token when_spawned ≡ true
      → contains when_spawned.cancelled s.cancel_token ≡ false
      → let (answer, after) = get_or_create_hls_session others cache r st in
        (answer ≡ ok (dir, dir <> "/playlist.m3u8"))
        × (Dict.lookup r.key after.hls_sessions
            ≡ some (hls_session r.now r.key r.library_id r.channel_id dir when_made.next_token))
        × (is_supervised s.cancel_token (stop_session r.key after) ≡ true)
        × (contains (stop_session r.key after).cancelled s.cancel_token ≡ false)
  unfolding get_or_create_hls_session create_session insert_hls_session stop_session
  get_or_create_hls_session_orphans s {dir = dir} fresh granted u d other apart runs live = ground (
    arith,
    lookup-insert r.key r.key
        (hls_session r.now r.key r.library_id r.channel_id dir when_made.next_token)
        when_spawned.hls_sessions,
    eq_refl r.key,
    nat_beq_iff s.cancel_token when_made.next_token,
    nat_beq_iff when_made.next_token s.cancel_token,
  )
