-- ===== src/Streams/Supervision.antt =====
-- The restarts of `supervisor_loop` (tools/hls_session.rs) and the stall detector that it races with.
use redseat_rust.Base.{
  ℕ, ◌+◌, ◌-◌, ◌≤◌, ◌<◌, ◌≡◌, refl, Bool, true, false, not, ◌&&◌, Option, none, some, List, [], ◌∷◌,
  ◌++◌, arith, ltb, leb, length, All, min, if◌then◌else◌, Bool-cases, inl, inr,
}

abbrev pub max_ffmpeg_restarts : ℕ
max_ffmpeg_restarts = 5

abbrev pub stable_run_secs : ℕ
stable_run_secs = 60

abbrev pub output_stall_timeout_secs : ℕ
output_stall_timeout_secs = 90

abbrev pub startup_stall_timeout_secs : ℕ
startup_stall_timeout_secs = 60

-- How one turn of the loop goes: the spawn fails, the process exits by itself (with the times of
-- spawn and exit, and whether the session is cancelled by then), or the `select!` takes one of the
-- other two branches.
pub data Turn : Type 0 where
  spawn_fails : Turn
  exits : ℕ → ℕ → Bool → Turn
  cancels stalls : Turn

pub data Ending : Type 0 where
  running spawn_failed gave_up was_cancelled was_stalled : Ending

-- The `is_restart` flag of each spawn, in order, and how the loop ended.
pub record Supervised : Type 0 where
  pub spawns : List Bool
  pub ending : Ending

abbrev spawned : Bool → Supervised → Supervised
spawned is_restart s = record s { spawns = is_restart ∷ s.spawns }

abbrev ended : Ending → Supervised
ended e = record { spawns = []; ending = e }

-- The restart count after an exit, or `none` where the loop gives up.
unfoldable pub after_exit : ℕ → ℕ → ℕ → Option ℕ
after_exit restart_count spawned_at now =
    if leb stable_run_secs (now - spawned_at)
    then some 0
    else if leb max_ffmpeg_restarts (restart_count + 1)
    then none
    else some (restart_count + 1)

unfoldable pub supervisor_loop : ℕ → List Turn → Supervised
unfolding after_exit
supervisor_loop restart_count [] = ended running
supervisor_loop restart_count (spawn_fails ∷ turns) = ended spawn_failed
supervisor_loop restart_count (cancels ∷ turns) =
    spawned (ltb 0 restart_count) (ended was_cancelled)
supervisor_loop restart_count (stalls ∷ turns) = spawned (ltb 0 restart_count) (ended was_stalled)
supervisor_loop restart_count (exits spawned_at now true ∷ turns) =
    spawned (ltb 0 restart_count) (ended was_cancelled)
supervisor_loop restart_count (exits spawned_at now false ∷ turns) =
    spawned (ltb 0 restart_count) (elim (after_exit restart_count spawned_at now) [
      | none ↦ ended gave_up
      | some count ↦ supervisor_loop count turns
    ])

-- An exit of an uncancelled session within `STABLE_RUN_SECS` of the spawn.
abbrev pub IsRapid : Turn → Type 0
IsRapid (exits spawned_at now false) = now - spawned_at < stable_run_secs
IsRapid _ = ⊥

-- The loop gives up on a crash loop: of rapid failures only, it spawns at most as many as the
-- restarts left, and it has given up exactly if there are that many.
supervisor_loop_rapid :
    (restart_count : ℕ) (turns : List Turn)
    → restart_count < max_ffmpeg_restarts
    → All IsRapid turns
    → (length (supervisor_loop restart_count turns).spawns
        ≡ min (length turns) (max_ffmpeg_restarts - restart_count))
      × ((supervisor_loop restart_count turns).ending
          ≡ (if leb (max_ffmpeg_restarts - restart_count) (length turns) then gave_up else running))
unfolding supervisor_loop
supervisor_loop_rapid n [] h all = (omega arith, ground arith)
supervisor_loop_rapid n (spawn_fails ∷ turns) h all = absurd all.0
supervisor_loop_rapid n (cancels ∷ turns) h all = absurd all.0
supervisor_loop_rapid n (stalls ∷ turns) h all = absurd all.0
supervisor_loop_rapid n (exits a b true ∷ turns) h all = absurd all.0
supervisor_loop_rapid n (exits a b false ∷ turns) h all =
    elim (Bool-cases (leb max_ffmpeg_restarts (n + 1))) [
      | inl last ↦ (ground arith, ground arith)
      | inr more ↦
          let rest = supervisor_loop_rapid (n + 1) turns (ground arith) all.1 in
          (ground (arith, rest.0), ground (arith, rest.1))
    ]

-- A run of at least `STABLE_RUN_SECS` resets the counter: what follows goes as from a first start,
-- and its first spawn is not marked as a restart.
supervisor_loop_stable :
    (restart_count a b : ℕ) (turns : List Turn)
    → stable_run_secs ≤ b - a
    → supervisor_loop restart_count (exits a b false ∷ turns) ≡ record (supervisor_loop 0 turns) {
      spawns = ltb 0 restart_count ∷ (supervisor_loop 0 turns).spawns;
    }
unfolding supervisor_loop
supervisor_loop_stable n a b turns h = ground arith

-- The stall detector: the last segment number, when it changed, and whether a segment was seen.
pub record Detector : Type 0 where
  pub last_seg_num : ℕ
  pub last_seg_change : ℕ
  pub first_segment_seen : Bool

unfoldable pub start_detector : ℕ → ℕ → Detector
start_detector start_number now = record {
  last_seg_num = start_number;
  last_seg_change = now;
  first_segment_seen = ltb 0 start_number;
}

-- One check, at a time and with the next segment number that it finds; `none` ends the detector.
unfoldable pub check_segments : Detector → ℕ → ℕ → Option Detector
check_segments d now current =
    if ltb d.last_seg_num current
    then some (record { last_seg_num = current; last_seg_change = now; first_segment_seen = true })
    else if d.first_segment_seen && ltb output_stall_timeout_secs (now - d.last_seg_change)
    then none
    else if not d.first_segment_seen && ltb startup_stall_timeout_secs (now - d.last_seg_change)
    then none
    else some d

-- Whether the detector has fired after the checks.
unfoldable pub stall_detector : Detector → List (ℕ × ℕ) → Bool
stall_detector d [] = false
stall_detector d ((now, current) ∷ checks) = elim (check_segments d now current) [
  | none ↦ true
  | some d' ↦ stall_detector d' checks
]

abbrev pub patience : Detector → ℕ
patience d = if d.first_segment_seen then output_stall_timeout_secs else startup_stall_timeout_secs

-- A process that produces no new segment is found out: the first check later than the patience
-- allows fires, if all the checks before it found no new segment either.
pub stall_detector_fires :
    (d : Detector) (checks : List (ℕ × ℕ)) (now current : ℕ)
    → All (λ (_, found). found ≤ d.last_seg_num) checks
    → current ≤ d.last_seg_num
    → d.last_seg_change + patience d < now
    → stall_detector d (checks ++ (now, current) ∷ []) ≡ true
unfolding stall_detector check_segments
stall_detector_fires d [] now current h k late = ground arith
stall_detector_fires d ((t, found) ∷ checks) now current h k late =
    ground (arith, stall_detector_fires d checks now current h.1 k late)

-- Each check finds a higher segment number than the one before.
abbrev pub Advances : ℕ → List (ℕ × ℕ) → Type 0
Advances last [] = Unit {0}
Advances last ((_, found) ∷ checks) = (last < found) × Advances found checks

-- A process that produces a new segment between any two checks is never taken for stalled.
stall_detector_quiet :
    (d : Detector) (checks : List (ℕ × ℕ))
    → Advances d.last_seg_num checks
    → stall_detector d checks ≡ false
unfolding stall_detector check_segments
stall_detector_quiet d [] h = refl
stall_detector_quiet d ((t, found) ∷ checks) h = ground (
  arith,
  stall_detector_quiet
      (record { last_seg_num = found; last_seg_change = t; first_segment_seen = true }) checks h.1,
)
