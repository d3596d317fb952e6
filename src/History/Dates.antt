-- ===== src/History/Dates.antt =====
-- The date at which a user watched a media, and what the operations of the store make of it.
use mathlib.Core.Option
use redseat_rust.Base.{
  ℕ, String, Bool, true, false, not, ◌&&◌, ◌≡◌, refl, sym, ◌∙◌, ap, find-map, find-any-false,
  find-holds, Option, none, some, List, [], ◌∷◌, ◌++◌, ◌==◌, nat_eq, string_eq, eq_iff,
  find-filter-none, find-filter-other, contains, any, find, filter, map, if◌then◌else◌, arith,
  Bool-cases, inl, inr,
}
use redseat_rust.Base.Int.{ℤ, pos, negsuc}
use redseat_rust.Events.{watched, unwatched}
use redseat_rust.History.{
  Watched, WatchedForAdd, WatchedForDelete, History, is_row, stamp, store_add_watched, is_zero,
  is_live, mark, delete_row, delete_rows, store_delete_watched, send, add_for, remove_for,
}

abbrev pub zeroed : Option ℤ → Option ℤ
zeroed none = none
zeroed (some _) = some (pos 0)

module _ (k i u : String) where
  -- The date at which a user watched a media, as the table has it; 0 where it was removed again.
  abbrev pub date_of : List Watched → Option ℤ
  date_of rows = Option.map (λ r. r.date) (find (is_row k i u) rows)

  abbrev or_else : Option ℤ → Option ℤ → Option ℤ
  or_else none o = o
  or_else (some d) o = some d

  date_of-stamp :
      (now : ℕ) (id : String) (rows : List Watched) → date_of (stamp now id rows) ≡ date_of rows
  date_of-stamp now id [] = refl
  date_of-stamp now id (r ∷ rs) = ground (arith, date_of-stamp now id rs)

  date_of-append : (xs ys : List Watched) → date_of (xs ++ ys) ≡ or_else (date_of xs) (date_of ys)
  date_of-append [] ys = refl
  date_of-append (x ∷ xs) ys = ground (arith, date_of-append xs ys)

  abbrev same_key : String → String → String → Bool
  same_key kind id user = kind == k && (id == i && user == u)

  eq-same : (a b c : String) → (a == b) ≡ true → (a == c) ≡ (b == c)
  eq-same a b c h = ap (λ x. x == c) ((eq_iff a b).0 h)

  pub is_row-same :
      (kind id user : String) (r : Watched)
      → is_row kind id user r ≡ true
      → is_row k i u r ≡ same_key kind id user
  is_row-same kind id user r h = cc (
    eq-same r.kind kind k (ground arith),
    eq-same r.id id i (ground arith),
    eq-same r.user_ref user u (ground arith),
  )

  pub same_key-is_row :
      (kind id user : String) (r : Watched)
      → same_key kind id user ≡ true
      → is_row k i u r ≡ true
      → is_row kind id user r ≡ true
  same_key-is_row kind id user r h e = ground (
    arith,
    eq_iff kind k,
    eq_iff id i,
    eq_iff user u,
    (λ (p : kind ≡ k). eq_swap r.kind kind k p),
    (λ (p : id ≡ i). eq_swap r.id id i p),
    (λ (p : user ≡ u). eq_swap r.user_ref user u p),
  )
    where
      eq_swap : (a b c : String) → b ≡ c → (a == b) ≡ (a == c)
      eq_swap a b c p = ap (λ x. a == x) p

  date_of-filter :
      (kind id user : String) (rows : List Watched)
      → date_of (filter (λ r. not (is_row kind id user r)) rows)
        ≡ (if same_key kind id user then none else date_of rows)
  date_of-filter kind id user rows = elim (Bool-cases (same_key kind id user)) [
    | inl e ↦ rw e (
        ap (Option.map (λ r. r.date)) (
          find-filter-none (is_row kind id user) (is_row k i u) rows
            λ r. same_key-is_row kind id user r e))
    | inr e ↦ rw e (
        ap (Option.map (λ r. r.date)) (
          find-filter-other (is_row kind id user) (is_row k i u) rows
            λ r h. is_row-same kind id user r h ∙ e))
  ]

  date_of-store_add :
      (now : ℕ) (w : WatchedForAdd) (user : String) (h : History)
      → date_of (store_add_watched now w user h).watcheds
        ≡ (if same_key w.kind w.id user then some w.date else date_of h.watcheds)
  unfolding store_add_watched
  date_of-store_add now w user h =
      date_of-stamp now w.id _
      ∙ (date_of-append (filter (λ r. not (is_row w.kind w.id user r)) h.watcheds) _
          ∙ ground (arith, date_of-filter w.kind w.id user h.watcheds))

  pub date_of-add_for :
      (now : ℕ) (w : WatchedForAdd) (ids : List String) (h : History)
      → date_of (add_for now w ids h).watcheds
        ≡ (if w.kind == k && (w.id == i && contains ids u) then some w.date else date_of h.watcheds)
  unfolding add_for
  date_of-add_for now w [] h = ground arith
  date_of-add_for now w (id ∷ ids) h = ground (
    arith,
    date_of-add_for now w ids
        (send (watched (record { user_ref = some id })) (store_add_watched now w id h)),
    date_of-store_add now w id h,
  )

  zero-eq : (d : ℤ) → is_zero d ≡ true → d ≡ pos 0
  zero-eq (pos n) h = ground arith
  zero-eq (negsuc n) h = ground arith

  mark-is_row :
      (now : ℕ) (kind id user : String) (r : Watched)
      → is_row k i u (mark now kind id user r) ≡ is_row k i u r
  mark-is_row now kind id user r = elim (Bool-cases (is_live kind id user r)) [
    | inl e ↦ rw e refl
    | inr e ↦ rw e refl
  ]

  unmarked-date :
      (kind id user : String) (r : Watched)
      → is_row k i u r ≡ true
      → is_live kind id user r ≡ false
      → r.date ≡ (if same_key kind id user then pos 0 else r.date)
  unmarked-date kind id user r h dead = elim (Bool-cases (same_key kind id user)) [
    | inl e ↦ rw e (zero-eq r.date (ground (arith, same_key-is_row kind id user r e h)))
    | inr e ↦ rw e refl
  ]

  -- What a deletion does to the row that is found, whether the `UPDATE` touches it or not.
  mark-date :
      (now : ℕ) (kind id user : String) (r : Watched)
      → is_row k i u r ≡ true
      → (mark now kind id user r).date ≡ (if same_key kind id user then pos 0 else r.date)
  mark-date now kind id user r h = elim (Bool-cases (is_live kind id user r)) [
    | inl e ↦ rw (e, sym (is_row-same kind id user r (ground arith)) ∙ h) refl
    | inr e ↦ rw e (unmarked-date kind id user r h e)
  ]

  date_of-map :
      (f : Watched → Watched) (b : Bool) (rows : List Watched)
      → ((r : Watched) → is_row k i u (f r) ≡ is_row k i u r)
      → ((r : Watched)
          → find (is_row k i u) rows ≡ some r
          → (f r).date ≡ (if b then pos 0 else r.date))
      → date_of (map f rows) ≡ (if b then zeroed (date_of rows) else date_of rows)
  date_of-map f b rows keep h =
      ground (arith, find-map (is_row k i u) f rows keep, found (find (is_row k i u) rows) refl)
    where
      found :
          (o : Option Watched)
          → find (is_row k i u) rows ≡ o
          → Option.map (λ r. r.date) (Option.map f o)
            ≡ (if b then zeroed (Option.map (λ r. r.date) o) else Option.map (λ r. r.date) o)
      found none e = ground arith
      found (some r) e = ground (arith, h r e)

  date_of-delete_row :
      (now : ℕ) (kind id user : String) (rows : List Watched)
      → date_of (delete_row now kind id user rows)
        ≡ (if same_key kind id user then zeroed (date_of rows) else date_of rows)
  unfolding delete_row
  date_of-delete_row now kind id user rows = elim (Bool-cases (any (is_live kind id user) rows)) [
    | inl e ↦ rw e (
        date_of-stamp now id (map (mark now kind id user) rows)
        ∙ date_of-map (mark now kind id user) (same_key kind id user) rows
            (mark-is_row now kind id user)
            (λ r f. mark-date now kind id user r (find-holds (is_row k i u) rows f)))
    | inr e ↦ rw e (
        sym (ap date_of (map-id rows))
        ∙ date_of-map (λ r. r) (same_key kind id user) rows (λ r. refl)
            (λ r f.
              unmarked-date kind id user r (find-holds (is_row k i u) rows f)
                (find-any-false (is_live kind id user) (is_row k i u) rows f e)))
  ]
    where
      map-id : (rs : List Watched) → map (λ r. r) rs ≡ rs
      map-id [] = refl
      map-id (r ∷ rs) = ap (λ x. r ∷ x) (map-id rs)

  date_of-delete_rows :
      (now : ℕ) (kind : String) (ids : List String) (user : String) (rows : List Watched)
      → date_of (delete_rows now kind ids user rows) ≡ (
          if kind == k && (contains ids i && user == u)
          then zeroed (date_of rows)
          else date_of rows)
  unfolding delete_rows
  date_of-delete_rows now kind [] user rows = ground arith
  date_of-delete_rows now kind (id ∷ ids) user rows = ground (
    arith,
    date_of-delete_rows now kind ids user (delete_row now kind id user rows),
    date_of-delete_row now kind id user rows,
  )

  pub date_of-remove_for :
      (now : ℕ) (w : WatchedForDelete) (users : List String) (h : History)
      → date_of (remove_for now w users h).watcheds ≡ (
          if w.kind == k && (contains w.ids i && contains users u)
          then zeroed (date_of h.watcheds)
          else date_of h.watcheds)
  unfolding remove_for store_delete_watched
  date_of-remove_for now w [] h = ground arith
  date_of-remove_for now w (user ∷ users) h = ground (
    arith,
    date_of-remove_for now w users
        (send (unwatched (record { user_ref = some user })) (store_delete_watched now w user h)),
    date_of-delete_rows now w.kind w.ids user h.watcheds,
  )
