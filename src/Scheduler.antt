-- ===== src/Scheduler.antt =====
-- The scheduler of tools/scheduler/mod.rs: the queue of items, the tasks that a tick has spawned, and
-- the map of running tasks. The item sets are lists; `executing` holds the tasks between their
-- insertion in `running` and their removal, of which `running` shows one for equal items. Locks are
-- held for each function here; what a task does besides is left out. A panic ends the task that
-- panics: `begin` where the text of the task does not deserialize, and `panic_in` where its execution
-- panics.
pub mod Recurrence
pub mod Ticking
pub mod Tests
use redseat_rust.Base.{
  ℕ, ◌+◌, ◌%◌, ◌≡◌, ◌↔◌, String, Bool, true, false, not, ◌&&◌, List, [], ◌∷◌, ◌++◌, ltb, ◌==◌, Eq,
  nat_eq, nat_beq_iff, string_eq, eq_iff, contains, filter, if◌then◌else◌, arith,
}
use redseat_rust.Base.Sets.{insert, remove, remove_one}

pub data RsTaskType : Type 0 where
  refresh ip face request_progress encrypt_library iptv_refresh : RsTaskType

pub data RsSchedulerWhen : Type 0 where
  at every : ℕ → RsSchedulerWhen

pub record RsSchedulerItem : Type 0 where
  pub kind : RsTaskType
  pub task : String
  pub when : RsSchedulerWhen
  pub created : ℕ

abbrev pub kind_beq : RsTaskType → RsTaskType → Bool
kind_beq refresh refresh = true
kind_beq ip ip = true
kind_beq face face = true
kind_beq request_progress request_progress = true
kind_beq encrypt_library encrypt_library = true
kind_beq iptv_refresh iptv_refresh = true
kind_beq _ _ = false

abbrev pub when_beq : RsSchedulerWhen → RsSchedulerWhen → Bool
when_beq (at a) (at b) = a == b
when_beq (every a) (every b) = a == b
when_beq _ _ = false

pub kind_beq_iff : (a b : RsTaskType) → (kind_beq a b ≡ true) ↔ (a ≡ b)
kind_beq_iff a b = ground arith

pub when_beq_iff : (a b : RsSchedulerWhen) → (when_beq a b ≡ true) ↔ (a ≡ b)
when_beq_iff a b = ground arith

instance abbrev pub kind_eq : Eq RsTaskType
kind_eq = record { same = kind_beq; same_iff = kind_beq_iff }

instance abbrev pub when_eq : Eq RsSchedulerWhen
when_eq = record { same = when_beq; same_iff = when_beq_iff }

abbrev pub item_beq : RsSchedulerItem → RsSchedulerItem → Bool
item_beq a b =
    a.kind == b.kind && (a.task == b.task && (a.when == b.when && a.created == b.created))

pub item_beq_iff : (a b : RsSchedulerItem) → (item_beq a b ≡ true) ↔ (a ≡ b)
item_beq_iff a b =
    ground (arith, kind_beq_iff a.kind b.kind, eq_iff a.task b.task, when_beq_iff a.when b.when)

instance unfoldable pub item_eq : Eq RsSchedulerItem
item_eq = record { same = item_beq; same_iff = item_beq_iff }

pub record RsScheduler : Type 0 where
  pub queue : List RsSchedulerItem
  pub spawned : List RsSchedulerItem
  pub executing : List RsSchedulerItem
  pub running : List RsSchedulerItem

-- The sum is one of `u64`.
unfoldable pub schedule_time : RsSchedulerItem → ℕ
schedule_time item = elim item.when [
  | at time ↦ time
  | every seconds ↦ (item.created + seconds) % 18446744073709551616
]

unfoldable pub add : ℕ → RsTaskType → RsSchedulerWhen → String → RsScheduler → RsScheduler
add now kind when serialized st = record st {
  queue = insert (record { kind = kind; task = serialized; when = when; created = now }) st.queue;
}

unfoldable pub readd : ℕ → RsSchedulerItem → RsScheduler → RsScheduler
readd now item st = record st { queue = insert (record item { created = now }) st.queue }

abbrev pub take_item : RsSchedulerItem → RsScheduler → RsScheduler
take_item task st =
    if contains st.queue task
    then record st { queue = remove task st.queue; spawned = st.spawned ++ task ∷ [] }
    else st

unfoldable pub take_all : List RsSchedulerItem → RsScheduler → RsScheduler
take_all [] st = st
take_all (task ∷ tasks) st = take_all tasks (take_item task st)

unfoldable pub tick : ℕ → RsScheduler → RsScheduler
unfolding take_all schedule_time
tick now st = take_all (filter (λ t. ltb (schedule_time t) now) st.queue) st

-- The first critical section of a spawned task. `to_task` reads the text of the task with
-- `serde_json`, which `deserializes` stands for, and the unwrap of its error panics.
unfoldable pub begin : (RsTaskType → String → Bool) → RsSchedulerItem → RsScheduler → RsScheduler
begin deserializes item st =
    if deserializes item.kind item.task
    then record st {
      spawned = remove_one item st.spawned;
      executing = item ∷ st.executing;
      running = insert item st.running;
    }
    else record st { spawned = remove_one item st.spawned }

-- A panic of `execute`: the item is left in `running`.
unfoldable pub panic_in : RsSchedulerItem → RsScheduler → RsScheduler
panic_in item st = record st { executing = remove_one item st.executing }

abbrev pub reschedule : ℕ → RsSchedulerItem → RsSchedulerWhen → RsScheduler → RsScheduler
unfolding readd
reschedule now item (at _) st = st
reschedule now item (every _) st = readd now item st

-- The end of a task, whether it succeeded or not.
unfoldable pub finish : ℕ → RsSchedulerItem → RsScheduler → RsScheduler
unfolding reschedule
finish now item st =
    reschedule now item item.when
      (record st { executing = remove_one item st.executing; running = remove item st.running })
