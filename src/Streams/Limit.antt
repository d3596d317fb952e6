-- ===== src/Streams/Limit.antt =====
-- The limit on concurrent streams: when `acquire_stream_slot` keeps it and when it does not, and
-- what `release_stream_slot` leaves.
use redseat_rust.Base.{
  ◌+◌, ◌≤◌, ◌≡◌, refl, String, true, false, none, some, List, [], ◌∷◌, ok, err, inl, inr, arith,
  ◌==◌, string_eq, eq_iff, eq_refl, contains, length, Option-cases, if◌then◌else◌,
}
use redseat_rust.Base.Dict
use redseat_rust.Base.Dict.{lookup-insert, lookup-remove}
use redseat_rust.Access.Users.{RsError}
use redseat_rust.Libraries.{ServerLibrary, LibraryTable}
use redseat_rust.Streams.{
  HlsSession, Streams, Others, acquiring, resolving, channels_of, set_remove, oldest,
  acquire_decide, max_streams_of, acquire_stream_slot, release_stream_slot, release_from,
  stop_session,
}
use redseat_rust.Streams.Sessions.{Request, get_or_create_hls_session}
use redseat_rust.Streams.Slots.{
  KeepsSlot, acquire_decide-Decides, finish-contains, finish-limit, channels_of-acquire_replace,
  channels_of-stop,
}

module _ (others : Others) (cache : LibraryTable) (l c : String) (st : Streams)
    {lib : ServerLibrary} (found : Dict.lookup l cache ≡ some lib) where
  -- A library within its limit stays within it, whether the slot is granted, taken from the oldest
  -- session or refused, and whatever other tasks do while the lock is dropped for an eviction, as
  -- long as, when the lock is taken again, the library is still within its limit and the channel of
  -- the evicted session still holds its slot.
  pub acquire_stream_slot-limit :
      KeepsSlot others (max_streams_of lib) l st
      → length (channels_of st l) ≤ max_streams_of lib
      → length (channels_of (acquire_stream_slot others cache l c st).1 l) ≤ max_streams_of lib
  unfolding acquire_stream_slot
  acquire_stream_slot-limit keep b = rw found (
      finish-limit others (max_streams_of lib) l c st _
        (acquire_decide-Decides (max_streams_of lib) l c st) keep b)

  -- A caller who is granted a slot has it: the channel is among the active ones of the library.
  pub acquire_stream_slot-contains :
      (acquire_stream_slot others cache l c st).0 ≡ ok tt
      → contains (channels_of (acquire_stream_slot others cache l c st).1 l) c ≡ true
  unfolding acquire_stream_slot
  acquire_stream_slot-contains h = rw found (
      finish-contains others (max_streams_of lib) l c st _
        (acquire_decide-Decides (max_streams_of lib) l c st) (rw found at h))

pub set_remove_of_absent :
    (x : String) (cs : List String) → contains cs x ≡ false → set_remove x cs ≡ cs
set_remove_of_absent x [] h = refl
set_remove_of_absent x (c ∷ cs) h = ground (arith, set_remove_of_absent x cs)

-- No other task runs at the pauses.
abbrev pub alone : Others
alone n st = st

-- The limit is broken, without any other task in between, whenever the library is full and its oldest
-- session streams a channel that holds no slot, as a session does that was evicted before and is not
-- yet cleaned up: the eviction frees nothing, and the new channel is added.
pub acquire_stream_slot_exceeds :
    (cache : LibraryTable) (l c : String) (st : Streams) {lib : ServerLibrary} {s : HlsSession}
    → Dict.lookup l cache ≡ some lib
    → contains (channels_of st l) c ≡ false
    → max_streams_of lib ≤ length (channels_of st l)
    → oldest l (Dict.values st.hls_sessions) ≡ some s
    → contains (channels_of st l) s.channel_id ≡ false
    → ((acquire_stream_slot alone cache l c st).0 ≡ ok tt)
      × (length (channels_of (acquire_stream_slot alone cache l c st).1 l)
          ≡ length (channels_of st l) + 1)
unfolding acquire_stream_slot acquire_decide
acquire_stream_slot_exceeds cache l c st {lib} {s} found absent full old no_slot = ground (
  arith,
  channels_of-acquire_replace l c s.channel_id l (stop_session s.key st),
  channels_of-stop s.key l st,
  set_remove_of_absent s.channel_id (channels_of st l),
  eq_refl l,
)

-- Giving a slot back removes the channel from the active ones of its library and changes those of
-- no other library.
channels_of-release_stream_slot :
    (l c m : String) (st : Streams)
    → channels_of (release_stream_slot l c st) m
      ≡ (if l == m then set_remove c (channels_of st m) else channels_of st m)
unfolding release_stream_slot
channels_of-release_stream_slot l c m st = elim (Option-cases (Dict.lookup l st.active_streams)) [
  | inl e ↦ rw (e, release_stream_slot) (ground (arith, eq_iff l m))
  | inr (cs, e) ↦ rw (e, release_stream_slot) (release_found cs (set_remove c cs) e refl)
]
  where
    release_found :
        (cs left : List String)
        → Dict.lookup l st.active_streams ≡ some cs
        → set_remove c cs ≡ left
        → channels_of (release_from st l c (some cs)) m
          ≡ (if l == m then set_remove c (channels_of st m) else channels_of st m)
    release_found cs [] e r = ground (arith, lookup-remove l m st.active_streams, eq_iff l m)
    release_found cs (d ∷ ds) e r =
        ground (arith, lookup-insert l m (d ∷ ds) st.active_streams, eq_iff l m)

-- When a slot is granted and the stream url cannot be resolved, `get_or_create_hls_session` returns
-- the error and the slot stays taken, though no session was created.
get_or_create_hls_session_leaks :
    (others : Others) (cache : LibraryTable) (r : Request) (e : RsError) (st : Streams)
    {lib : ServerLibrary}
    → Dict.lookup r.library_id cache ≡ some lib
    → Dict.lookup r.key st.hls_sessions ≡ none
    → r.url ≡ err e
    → (acquire_stream_slot others cache r.library_id r.channel_id (others acquiring st)).0 ≡ ok tt
    → let outcome = get_or_create_hls_session others cache r st in
      let acquired =
        (acquire_stream_slot others cache r.library_id r.channel_id (others acquiring st)).1 in
      (outcome.0 ≡ err e)
      × (contains (channels_of acquired r.library_id) r.channel_id ≡ true)
      × (outcome.1 ≡ others resolving acquired)
unfolding get_or_create_hls_session
get_or_create_hls_session_leaks others cache r e st found fresh no_url granted = ground (
  arith,
  acquire_stream_slot-contains others cache r.library_id r.channel_id (others acquiring st) found
      granted,
)
