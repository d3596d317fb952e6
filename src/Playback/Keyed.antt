-- ===== src/Playback/Keyed.antt =====
-- Media sessions stand under their own keys, whatever the requests, tasks and cleanups do.
use redseat_rust.Base.{ℕ, ◌≡◌, String, [], Result, nat_eq, string_eq, All}
use redseat_rust.Base.Dict
use redseat_rust.Base.Dict.{Dict, NodupKeys}
use redseat_rust.Access.Users.{RsError}
use redseat_rust.Playback.{
  MediaHlsSession, MediaSupervisor, MediaHls, Ending, media_supervisor_loop,
  start_media_hls_session, stop_media_hls_session, cleanup_stale_media_sessions,
}
use redseat_rust.Playback.Requests.{touch_found}

abbrev Table : Type 0
Table = Dict String MediaHlsSession

abbrev Keyed : Table → Type 0
Keyed d = All (λ (k, s). s.key ≡ k) d × NodupKeys d

-- What changes the table: the two sections of a request, which touches the session that it finds or
-- starts its own on a later state, the end of a task, a stop and a round of the cleanup.
pub data MediaStep : MediaHls → MediaHls → Type 0 where
  found : (now : ℕ) (key : String) (st : MediaHls) → MediaStep st (touch_found now key st)
  started :
      (now : ℕ) (key library_id media_id : String) (dir : Result RsError String)
      (spawn : Result RsError (Unit {0})) (st : MediaHls)
      → MediaStep st (start_media_hls_session now key library_id media_id dir spawn st).1
  task_ended :
      (ending : Ending) (sup : MediaSupervisor) (st : MediaHls)
      → MediaStep st (media_supervisor_loop ending sup st)
  stopped :
      (library_id media_id : String) (st : MediaHls)
      → MediaStep st (stop_media_hls_session library_id media_id st)
  cleaned_up : (now : ℕ) (st : MediaHls) → MediaStep st (cleanup_stale_media_sessions now st)

pub data Reach : MediaHls → Type 0 where
  start : (st : MediaHls) → st.media_hls_sessions ≡ [] → Reach st
  step : {st st' : MediaHls} → Reach st → MediaStep st st' → Reach st'
