-- ===== src/Scheduler/Ticking.antt =====
-- What a tick takes from the queue.
use redseat_rust.Base.{
  ℕ, ◌≡◌, refl, ap, Bool, not, ◌&&◌, ◌||◌, List, [], ◌∷◌, ltb, ◌==◌, Eq, contains, contains-append,
  filter, arith,
}
use redseat_rust.Base.Sets.{contains-remove}
use redseat_rust.Scheduler.{
  RsSchedulerItem, RsScheduler, item_eq, take_item, take_all, schedule_time, tick,
}

contains-filter {ℓ} :
    {A : Type ℓ} ⦃e : Eq A⦄ (p : A → Bool) (xs : List A) (x : A)
    → contains (filter p xs) x ≡ (contains xs x && p x)
contains-filter p [] x = refl
contains-filter ⦃e⦄ p (y ∷ ys) x =
    ground (arith, contains-filter p ys x, e.same_iff y x, (λ (q : y ≡ x). ap p q))

take_item-contains :
    (task : RsSchedulerItem) (st : RsScheduler) (x : RsSchedulerItem)
    → (contains (take_item task st).queue x ≡ (contains st.queue x && not (task == x)))
      × (contains (take_item task st).spawned x
          ≡ (contains st.spawned x || (task == x && contains st.queue x)))
take_item-contains task st x = (
  ground (
    arith,
    contains-remove task st.queue x,
    item_eq.same_iff task x,
    (λ (q : task ≡ x). ap (contains st.queue) q),
  ),
  ground (
    arith,
    contains-append st.spawned (task ∷ []) x,
    item_eq.same_iff task x,
    (λ (q : task ≡ x). ap (contains st.queue) q),
  ),
)

take_all-contains :
    (tasks : List RsSchedulerItem) (st : RsScheduler) (x : RsSchedulerItem)
    → (contains (take_all tasks st).queue x ≡ (contains st.queue x && not (contains tasks x)))
      × (contains (take_all tasks st).spawned x
          ≡ (contains st.spawned x || (contains tasks x && contains st.queue x)))
unfolding take_all
take_all-contains [] st x = (ground arith, ground arith)
take_all-contains (task ∷ tasks) st x =
    let rest = take_all-contains tasks (take_item task st) x in
    let this = take_item-contains task st x in
    (ground (arith, rest.0, this.0), ground (arith, rest.1, this.0, this.1))

-- A tick spawns the items of the queue whose time is before the clock, and these alone, and leaves
-- the others in the queue. Nothing else is started or lost.
tick-contains :
    (now : ℕ) (st : RsScheduler) (x : RsSchedulerItem)
    → (contains (tick now st).queue x ≡ (contains st.queue x && not (ltb (schedule_time x) now)))
      × (contains (tick now st).spawned x
          ≡ (contains st.spawned x || (contains st.queue x && ltb (schedule_time x) now)))
unfolding tick
tick-contains now st x =
    let due = filter (λ t. ltb (schedule_time t) now) st.queue in
    let taken = take_all-contains due st x in
    let is_due = contains-filter (λ t. ltb (schedule_time t) now) st.queue x in
    (ground (arith, taken.0, is_due), ground (arith, taken.1, is_due))
