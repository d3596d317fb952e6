-- ===== src/History/Watching.antt =====
-- What the operations write: the date of every media for every user, the progress that is left, and
-- the events sent.
use redseat_rust.Base.{
  ℕ, String, false, ◌&&◌, ◌≡◌, refl, sym, ◌∙◌, Option, some, List, [], ◌∷◌, ◌++◌, ok, err, ◌==◌,
  nat_eq, string_eq, contains, any, map, if◌then◌else◌, append_assoc, append-nil,
}
use redseat_rust.Base.Int.{ℤ}
use redseat_rust.Access.Users.{ConnectedUser}
use redseat_rust.Access.Checks.{Checked}
use redseat_rust.Events.{SseEvent, watched, unwatched}
use redseat_rust.Libraries.{LibraryTable}
use redseat_rust.History.{
  WatchedForAdd, WatchedForDelete, History, store_add_watched, store_delete_watched, add_for,
  remove_for, concerned, for_all, add_watched, remove_watched,
}
use redseat_rust.Base.Dict
use redseat_rust.Access.Roles.{UserRole}
use redseat_rust.Access.Checks.{check_role, user_id}
use redseat_rust.Libraries.{ServerLibrary, mappings_of, touches}
use redseat_rust.Libraries.Merging.{merged_users-untouched}
use redseat_rust.History.Dates.{date_of, zeroed, date_of-add_for, date_of-remove_for}

sent-add_for :
    (now : ℕ) (w : WatchedForAdd) (ids : List String) (h : History)
    → (add_for now w ids h).sent ≡ h.sent ++ map (λ id. watched (record { user_ref = some id })) ids
unfolding add_for store_add_watched
sent-add_for now w [] h = sym (append-nil h.sent)
sent-add_for now w (id ∷ ids) h =
    sent-add_for now w ids _ ∙ append_assoc h.sent (watched (record { user_ref = some id }) ∷ []) _

sent-remove_for :
    (now : ℕ) (w : WatchedForDelete) (ids : List String) (h : History)
    → (remove_for now w ids h).sent
      ≡ h.sent ++ map (λ id. unwatched (record { user_ref = some id })) ids
unfolding remove_for store_delete_watched
sent-remove_for now w [] h = sym (append-nil h.sent)
sent-remove_for now w (id ∷ ids) h =
    sent-remove_for now w ids _
    ∙ append_assoc h.sent (unwatched (record { user_ref = some id }) ∷ []) _

-- What a request leaves of the history: it concerns `users`, the dates are as `dates` says, and one
-- event is sent for each of the users.
pub record Wrote (table : LibraryTable) (user : ConnectedUser) (library : Option String)
    (h h' : History) (dates : List String → (k i u : String) → Option ℤ) (event : String → SseEvent)
    : Type 0 where
  pub users : List String
  pub are_concerned : concerned table user library ≡ ok users
  pub have_dates : (k i u : String) → date_of k i u h'.watcheds ≡ dates users k i u
  pub are_told : h'.sent ≡ h.sent ++ map event users

-- A media that is marked as watched is watched at that date by each user whose progress is merged
-- with the caller's in the library (without a library, by the caller alone), nothing else about the
-- dates changes, and one event is sent for each of these users.
pub add_watched-Wrote :
    (table : LibraryTable) (now : ℕ) (w : WatchedForAdd) (user : ConnectedUser)
    (library : Option String) (h : History)
    → (add_watched table now w user library h).0 ≡ ok tt
    → Wrote table user library h
        (add_watched table now w user library h).1
        (λ users k i u.
          if w.kind == k && (w.id == i && contains users u)
          then some w.date
          else date_of k i u h.watcheds)
        (λ id. watched (record { user_ref = some id }))
unfolding add_watched
add_watched-Wrote table now w user library h done = wrote (concerned table user library) refl done
  where
    wrote :
        (r : Checked (List String))
        → concerned table user library ≡ r
        → (for_all (add_for now w) r h).0 ≡ ok tt
        → Wrote table user library h
            (for_all (add_for now w) r h).1
            (λ users k i u.
              if w.kind == k && (w.id == i && contains users u)
              then some w.date
              else date_of k i u h.watcheds)
            (λ id. watched (record { user_ref = some id }))
    wrote (err e) c done = cc
    wrote (ok users) c done = record {
      users = users;
      are_concerned = c;
      have_dates = λ k i u. date_of-add_for k i u now w users h;
      are_told = sent-add_for now w users h;
    }

-- A media that is removed, under any of its ids, has the date 0 for each of these users who had a
-- row for it, nothing else about the dates changes, and one event is sent for each of the users.
pub remove_watched-Wrote :
    (table : LibraryTable) (now : ℕ) (w : WatchedForDelete) (user : ConnectedUser)
    (library : Option String) (h : History)
    → (remove_watched table now w user library h).0 ≡ ok tt
    → Wrote table user library h
        (remove_watched table now w user library h).1
        (λ users k i u.
          if w.kind == k && (contains w.ids i && contains users u)
          then zeroed (date_of k i u h.watcheds)
          else date_of k i u h.watcheds)
        (λ id. unwatched (record { user_ref = some id }))
unfolding remove_watched
remove_watched-Wrote table now w user library h done =
    wrote (concerned table user library) refl done
  where
    wrote :
        (r : Checked (List String))
        → concerned table user library ≡ r
        → (for_all (remove_for now w) r h).0 ≡ ok tt
        → Wrote table user library h
            (for_all (remove_for now w) r h).1
            (λ users k i u.
              if w.kind == k && (contains w.ids i && contains users u)
              then zeroed (date_of k i u h.watcheds)
              else date_of k i u h.watcheds)
            (λ id. unwatched (record { user_ref = some id }))
    wrote (err e) c done = cc
    wrote (ok users) c done = record {
      users = users;
      are_concerned = c;
      have_dates = λ k i u. date_of-remove_for k i u now w users h;
      are_told = sent-remove_for now w users h;
    }

-- Nothing is stored, and nobody is told, when the request names a library of which no mapping
-- touches the user: the watched date of the user itself is lost, and no error is returned.
add_watched_untouched :
    (table : LibraryTable) (now : ℕ) (w : WatchedForAdd) (user : ConnectedUser) (l id : String)
    (h : History) (lib : ServerLibrary)
    → check_role user UserRole.read ≡ ok tt
    → user_id user ≡ ok id
    → Dict.lookup l table ≡ some lib
    → any (touches id) (mappings_of lib) ≡ false
    → add_watched table now w user (some l) h ≡ (ok tt, h)
unfolding add_watched concerned add_for
add_watched_untouched table now w user l id h lib may who found alone =
    rw (may, who, merged_users-untouched table l id lib found alone) refl
