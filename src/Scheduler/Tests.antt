-- ===== src/Scheduler/Tests.antt =====
-- The theorems on the scheduler with the two tasks that the server adds at its start.
use redseat_rust.Base.{String, Bool, true, false, ◌≡◌, refl, [], ◌∷◌, nat_eq, string_eq}
use redseat_rust.Scheduler.{
  RsTaskType, ip, request_progress, at, every, RsSchedulerItem, item_eq, RsScheduler, schedule_time,
  add, take_all, tick, begin, finish,
}
use redseat_rust.Scheduler.Recurrence.{IsScheduled, Step, Reach, Reach-IsScheduled}

abbrev all_read : RsTaskType → String → Bool
all_read kind task = true

abbrev none_panics : RsTaskType → String → Bool
none_panics kind task = false

abbrev idle : RsScheduler
idle = record { queue = []; spawned = []; executing = []; running = [] }

abbrev item : RsSchedulerItem
item = record { kind = request_progress; task = "{}"; when = every 60; created = 10 }

abbrev started : RsScheduler
started = add 10 ip (at 0) "{}" (add 10 request_progress (every 60) "{}" idle)

ticked : (tick 80 started).queue ≡ []
unfolding tick take_all schedule_time add item_eq
ticked = refl

again :
    (finish 95 item (begin all_read item (tick 80 started))).queue
    ≡ record item { created = 95 } ∷ []
unfolding finish begin tick take_all schedule_time add item_eq
again = refl

abbrev Reach-again :
    Reach all_read none_panics started (finish 95 item (begin all_read item (tick 80 started)))
unfolding begin tick take_all schedule_time add item_eq
Reach-again =
    Reach.next (Reach.next (Reach.next Reach.here (Step.ticks 80)) (Step.begins item refl))
      (Step.finishes 95 item refl)

Reach-IsScheduled_example :
    IsScheduled request_progress "{}" 60 (finish 95 item (begin all_read item (tick 80 started)))
unfolding add item_eq
Reach-IsScheduled_example =
    Reach-IsScheduled all_read none_panics request_progress "{}" 60 refl refl Reach-again refl
