-- ===== src/Scheduler/Recurrence.antt =====
-- A task that is scheduled every so many seconds stays scheduled.
use mathlib.Core.Bool.{false≢true}
use redseat_rust.Base.{
  ◌∙◌, sym, ap, eq_iff, ℕ, ◌≡◌, refl, String, Bool, true, false, ◌&&◌, ◌||◌, List, [], ◌∷◌, ltb,
  ◌==◌, string_eq, nat_eq, contains, any, filter, arith, Bool-cases, inl, inr,
}
use redseat_rust.Base.Distinct.{any-append}
use redseat_rust.Base.Sets.{
  insert, remove, remove_one, any-insert, any-inserted, any-remove, any-remove_one,
}
use redseat_rust.Scheduler.{
  RsTaskType, RsSchedulerWhen, at, every, RsSchedulerItem, kind_beq_iff, kind_eq, when_eq, item_eq,
  RsScheduler, add, readd, schedule_time, take_item, take_all, tick, begin, panic_in, reschedule,
  finish,
}

module _ (kind : RsTaskType) (task : String) (seconds : ℕ) where
  -- An item of this task, with this interval.
  abbrev pub recurs : RsSchedulerItem → Bool
  recurs i = i.kind == kind && (i.task == task && i.when == every seconds)

  -- The task waits in the queue, is about to be executed, or is being executed.
  abbrev pub IsScheduled : RsScheduler → Type 0
  IsScheduled st =
      (any recurs st.queue || (any recurs st.spawned || any recurs st.executing)) ≡ true

  add-IsScheduled :
      (now : ℕ) (k : RsTaskType) (when : RsSchedulerWhen) (s : String) (st : RsScheduler)
      → IsScheduled st
      → IsScheduled (add now k when s st)
  unfolding add
  add-IsScheduled now k when s st h =
      keep (record { kind = k; task = s; when = when; created = now })
    where
      keep : (i : RsSchedulerItem) → IsScheduled (record st { queue = insert i st.queue })
      keep i = ground (arith, any-insert recurs i st.queue)

  take_item-IsScheduled :
      (i : RsSchedulerItem) (st : RsScheduler) → IsScheduled st → IsScheduled (take_item i st)
  take_item-IsScheduled i st h = elim (Bool-cases (recurs i)) [
    | inl it ↦ ground (arith, any-append recurs st.spawned (i ∷ []))
    | inr other ↦
        ground (arith, any-append recurs st.spawned (i ∷ []), any-remove recurs i st.queue other)
  ]

  take_all-IsScheduled :
      (is : List RsSchedulerItem) (st : RsScheduler) → IsScheduled st → IsScheduled (take_all is st)
  unfolding take_all
  take_all-IsScheduled [] st h = h
  take_all-IsScheduled (i ∷ is) st h =
      take_all-IsScheduled is (take_item i st) (take_item-IsScheduled i st h)

  same_text :
      (f : RsTaskType → String → Bool) (i : RsSchedulerItem)
      → recurs i ≡ true
      → f i.kind i.task ≡ f kind task
  same_text f i it =
      ap (λ k. f k i.task) (ground (arith, kind_beq_iff i.kind kind))
      ∙ ap (f kind) (ground (arith, eq_iff i.task task))

  begin-IsScheduled :
      (deserializes : RsTaskType → String → Bool) (i : RsSchedulerItem) (st : RsScheduler)
      → deserializes kind task ≡ true
      → IsScheduled st
      → IsScheduled (begin deserializes i st)
  unfolding begin
  begin-IsScheduled deserializes i st d h = elim (Bool-cases (recurs i)) [
    | inl it ↦ rw (same_text deserializes i it ∙ d) (ground arith)
    | inr other ↦ ground (arith, any-remove_one recurs i st.spawned other)
  ]

  panic_in-IsScheduled :
      (i : RsSchedulerItem) (st : RsScheduler)
      → recurs i ≡ false
      → IsScheduled st
      → IsScheduled (panic_in i st)
  unfolding panic_in
  panic_in-IsScheduled i st other h = ground (arith, any-remove_one recurs i st.executing other)

  finish-IsScheduled :
      (now : ℕ) (i : RsSchedulerItem) (st : RsScheduler)
      → IsScheduled st
      → IsScheduled (finish now i st)
  unfolding finish reschedule readd
  finish-IsScheduled now i st h = ended i.when refl
    where
      done : RsScheduler
      done = record st { executing = remove_one i st.executing; running = remove i st.running }

      others : recurs i ≡ false → IsScheduled done
      others other = ground (arith, any-remove_one recurs i st.executing other)

      ended : (w : RsSchedulerWhen) → i.when ≡ w → IsScheduled (reschedule now i w done)
      ended (at time) e = others (ground arith)
      ended (every m) e = elim (Bool-cases (recurs i)) [
        | inl it ↦ ground (arith, any-inserted recurs (record i { created = now }) st.queue it)
        | inr other ↦
            ground (arith, others other, any-insert recurs (record i { created = now }) st.queue)
      ]

-- What happens to the scheduler. A task begins that was spawned, and ends or panics that is executed,
-- where only some tasks panic.
pub data Step (deserializes : RsTaskType → String → Bool) (panics : RsTaskType → String → Bool)
    (st : RsScheduler) : RsScheduler → Type 0 where
  adds :
      (now : ℕ) (k : RsTaskType) (when : RsSchedulerWhen) (s : String)
      → Step deserializes panics st (add now k when s st)
  ticks : (now : ℕ) → Step deserializes panics st (tick now st)
  begins :
      (i : RsSchedulerItem)
      → contains st.spawned i ≡ true
      → Step deserializes panics st (begin deserializes i st)
  dies :
      (i : RsSchedulerItem)
      → contains st.executing i ≡ true
      → panics i.kind i.task ≡ true
      → Step deserializes panics st (panic_in i st)
  finishes :
      (now : ℕ) (i : RsSchedulerItem)
      → contains st.executing i ≡ true
      → Step deserializes panics st (finish now i st)

pub data Reach (deserializes : RsTaskType → String → Bool) (panics : RsTaskType → String → Bool)
    (st : RsScheduler) : RsScheduler → Type 0 where
  here : Reach deserializes panics st st
  next :
      {su sv : RsScheduler}
      → Reach deserializes panics st su
      → Step deserializes panics su sv
      → Reach deserializes panics st sv

module _ (deserializes panics : RsTaskType → String → Bool) (kind : RsTaskType) (task : String)
    (seconds : ℕ) (readable : deserializes kind task ≡ true) (calm : panics kind task ≡ false) where
  Step-IsScheduled :
      {st su : RsScheduler}
      → Step deserializes panics st su
      → IsScheduled kind task seconds st
      → IsScheduled kind task seconds su
  unfolding tick
  Step-IsScheduled {st} (adds now k when s) h = add-IsScheduled kind task seconds now k when s st h
  Step-IsScheduled {st} (ticks now) h =
      take_all-IsScheduled kind task seconds (filter (λ t. ltb (schedule_time t) now) st.queue) st h
  Step-IsScheduled {st} (begins i _) h =
      begin-IsScheduled kind task seconds deserializes i st readable h
  Step-IsScheduled {st} (dies i _ p) h = panic_in-IsScheduled kind task seconds i st another h
    where
      another : recurs kind task seconds i ≡ false
      another = elim (Bool-cases (recurs kind task seconds i)) [
        | inl it ↦
            absurd (false≢true (sym calm ∙ sym (same_text kind task seconds panics i it) ∙ p))
        | inr other ↦ other
      ]
  Step-IsScheduled {st} (finishes now i _) h = finish-IsScheduled kind task seconds now i st h

  -- A task that is scheduled every so many seconds stays scheduled, provided that its text
  -- deserializes and that its execution does not panic: whatever is added, ticks, begins, ends or
  -- panics after that, it waits in the queue or its execution is on the way.
  pub Reach-IsScheduled :
      {st su : RsScheduler}
      → Reach deserializes panics st su
      → IsScheduled kind task seconds st
      → IsScheduled kind task seconds su
  Reach-IsScheduled here h = h
  Reach-IsScheduled (next r s) h = Step-IsScheduled s (Reach-IsScheduled r h)

-- A task is lost with its recurrence when it is the only one of its kind and text, and its text does
-- not deserialize.
begin_loses :
    (deserializes : RsTaskType → String → Bool) (item : RsSchedulerItem) (st : RsScheduler)
    → deserializes item.kind item.task ≡ false
    → st.queue ≡ []
    → st.spawned ≡ item ∷ []
    → st.executing ≡ []
    → let after = begin deserializes item st in
      (after.queue ≡ []) × (after.spawned ≡ []) × (after.executing ≡ [])
unfolding begin
begin_loses deserializes item st d q s e =
    rw d (q, ap (remove_one item) s ∙ ground (arith, item_eq.same_iff item item), e)
