-- ===== src/Streams/Slots.antt =====
-- How many channels a library streams at once: what taking and giving back a slot does to the set of
-- its active channels, and to those of the other libraries.
use redseat_rust.Base.{
  ℕ, ◌+◌, ◌≤◌, ◌<◌, ◌≡◌, String, true, false, not, ◌&&◌, none, some, List, [], ◌∷◌, ok, inl, inr,
  arith, leb, ◌==◌, nat_eq, string_eq, eq_iff, eq_refl, contains, length, length-filter-le,
  Bool-cases, Option-cases, if◌then◌else◌,
}
use redseat_rust.Base.Dict
use redseat_rust.Base.Dict.{Dict, lookup-insert, lookup-remove}
use redseat_rust.Streams.{
  HlsSession, Streams, Others, unlocked, relocking, channels_of, set_remove, set_channels,
  stop_session, oldest, Decision, granted, evict, refused, acquire_decide, acquire_replace,
  finish_acquire,
}

pub channels_of-set_channels :
    (st : Streams) (l m : String) (cs : List String)
    → channels_of (set_channels st l cs) m ≡ (if l == m then cs else channels_of st m)
channels_of-set_channels st l m cs = ground (arith, lookup-insert l m cs st.active_streams)

pub contains-set_remove :
    (x y : String) (cs : List String)
    → contains (set_remove x cs) y ≡ (not (x == y) && contains cs y)
contains-set_remove x y [] = ground arith
contains-set_remove x y (c ∷ cs) =
    ground (arith, contains-set_remove x y cs, eq_iff c x, eq_iff c y, eq_iff x y)

pub length-set_remove : (x : String) (cs : List String) → length (set_remove x cs) ≤ length cs
length-set_remove x cs = length-filter-le (λ y. not (y == x)) cs

pub length-set_remove_of_mem :
    (x : String) (cs : List String)
    → contains cs x ≡ true
    → length (set_remove x cs) + 1 ≤ length cs
length-set_remove_of_mem x [] h = ground arith
length-set_remove_of_mem x (c ∷ cs) h =
    ground (arith, length-set_remove_of_mem x cs, length-set_remove x cs)

pub channels_of-stop_session :
    (key : String) (st : Streams) → (stop_session key st).active_streams ≡ st.active_streams
unfolding stop_session
channels_of-stop_session key st = ground arith

-- The four ways in which the first critical section ends.
pub data Decides (max : ℕ) (l c : String) (st : Streams) : Decision → Type 0 where
  held :
      contains (channels_of st l) c ≡ true
      → Decides max l c st (granted (set_channels st l (channels_of st l)))
  room :
      length (channels_of st l) < max
      → Decides max l c st (granted (set_channels st l (c ∷ channels_of st l)))
  full :
      (s : HlsSession)
      → max ≤ length (channels_of st l)
      → contains (channels_of st l) c ≡ false
      → oldest l (Dict.values st.hls_sessions) ≡ some s
      → Decides max l c st (evict s)
  stuck :
      max ≤ length (channels_of st l)
      → contains (channels_of st l) c ≡ false
      → oldest l (Dict.values st.hls_sessions) ≡ none
      → Decides max l c st refused

pub acquire_decide-Decides :
    (max : ℕ) (l c : String) (st : Streams) → Decides max l c st (acquire_decide max l c st)
unfolding acquire_decide
acquire_decide-Decides max l c st = elim (Bool-cases (contains (channels_of st l) c)) [
  | inl e ↦ rw (e, acquire_decide) (held e)
  | inr e ↦ elim (Bool-cases (leb max (length (channels_of st l)))) [
    | inr r ↦ rw (e, r, acquire_decide) (room (ground arith))
    | inl f ↦ elim (Option-cases (oldest l (Dict.values st.hls_sessions))) [
      | inl o ↦ rw (e, f, o, acquire_decide) (stuck (ground arith) e o)
      | inr (s, o) ↦ rw (e, f, o, acquire_decide) (full s (ground arith) e o)
    ]
  ]
]

pub channels_of-acquire_replace :
    (l c o m : String) (st : Streams)
    → channels_of (acquire_replace l c o st) m ≡ (
        if l == m
        then (if contains (set_remove o (channels_of st l)) c
            then set_remove o (channels_of st l)
            else c ∷ set_remove o (channels_of st l))
        else channels_of st m)
unfolding acquire_replace
channels_of-acquire_replace l c o m st = channels_of-set_channels st l m _

pub channels_of-stop :
    (key m : String) (st : Streams) → channels_of (stop_session key st) m ≡ channels_of st m
channels_of-stop key m st = rw (channels_of-stop_session key st)

pub finish-contains :
    (others : Others) (max : ℕ) (l c : String) (st : Streams) (d : Decision)
    → Decides max l c st d
    → (finish_acquire others l c st d).0 ≡ ok tt
    → contains (channels_of (finish_acquire others l c st d).1 l) c ≡ true
finish-contains others max l c st d (held h) e =
    ground (arith, channels_of-set_channels st l l (channels_of st l), eq_refl l)
finish-contains others max l c st d (room r) e =
    ground (arith, channels_of-set_channels st l l (c ∷ channels_of st l), eq_refl l, eq_refl c)
finish-contains others max l c st d (full s f n o) e = ground (
  arith,
  channels_of-acquire_replace l c s.channel_id l
      (others relocking (stop_session s.key (others unlocked st))),
  eq_refl l,
  eq_refl c,
)
finish-contains others max l c st d (stuck f n o) e = cc

-- Whichever session is evicted: when the lock is taken again, the library is within its limit and the
-- channel of the session still holds its slot.
abbrev pub KeepsSlot : Others → ℕ → String → Streams → Type 0
KeepsSlot others max l st =
    (s : HlsSession)
    → oldest l (Dict.values st.hls_sessions) ≡ some s
    → let su = others relocking (stop_session s.key (others unlocked st)) in
      (length (channels_of su l) ≤ max) × (contains (channels_of su l) s.channel_id ≡ true)

pub finish-limit :
    (others : Others) (max : ℕ) (l c : String) (st : Streams) (d : Decision)
    → Decides max l c st d
    → KeepsSlot others max l st
    → length (channels_of st l) ≤ max
    → length (channels_of (finish_acquire others l c st d).1 l) ≤ max
finish-limit others max l c st d (held h) keep b =
    ground (arith, channels_of-set_channels st l l (channels_of st l), eq_refl l)
finish-limit others max l c st d (room r) keep b =
    ground (arith, channels_of-set_channels st l l (c ∷ channels_of st l), eq_refl l)
finish-limit others max l c st d (full s f n o) keep b =
    let su : Streams = others relocking (stop_session s.key (others unlocked st)) in
    ground (
      arith,
      channels_of-acquire_replace l c s.channel_id l su,
      eq_refl l,
      keep s o,
      length-set_remove_of_mem s.channel_id (channels_of su l) (keep s o).1,
    )
finish-limit others max l c st d (stuck f n o) keep b =
    ground (arith, channels_of-set_channels st l l (channels_of st l), eq_refl l)
