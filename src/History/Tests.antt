-- ===== src/History/Tests.antt =====
-- The theorems on the history at a user who is mapped to another in one library.
use redseat_rust.Base.{
  ◌≡◌, refl, ◌&&◌, false, none, some, [], ◌∷◌, contains, string_eq, nat_eq, ◌==◌, if◌then◌else◌,
}
use redseat_rust.Base.Int.{pos}
use redseat_rust.Base.Dict
use redseat_rust.Access.Roles.{user_role_ge}
use redseat_rust.Access.Users.{ConnectedUser}
use redseat_rust.Access.Checks.{check_role, is_admin, user_id}
use redseat_rust.Access.Tests.{reader}
use redseat_rust.Events.{watched, unwatched}
use redseat_rust.Libraries.{get_library_progress_merged_users, merge_loop, insert_all}
use redseat_rust.Libraries.Tests.{shelf}
use redseat_rust.History.{
  Watched, WatchedForAdd, WatchedForDelete, History, concerned, add_for, store_add_watched,
  add_watched, remove_watched,
}
use redseat_rust.History.Dates.{date_of, zeroed}
use redseat_rust.History.Watching.{Wrote, add_watched-Wrote, remove_watched-Wrote}
use redseat_rust.History.Reading.{HistoryQuery}

-- `a` is mapped to `b` in the library of films, as `c` is.
abbrev alice : ConnectedUser
alice = ConnectedUser.server (record reader { id = "a" })

abbrev no_history : History
no_history = record { watcheds = []; progresses = []; sent = [] }

abbrev film : WatchedForAdd
film = record { kind = "movie"; id = "imdb:tt1"; date = pos 5 }

abbrev same_film : WatchedForDelete
same_film = record { kind = "movie"; ids = "imdb:tt1" ∷ "tmdb:7" ∷ [] }

abbrev seen : History
seen = (add_watched shelf 100 film alice (some "films") no_history).1

told :
    seen.sent
    ≡ watched (record { user_ref = some "c" })
      ∷ watched (record { user_ref = some "b" })
      ∷ watched (record { user_ref = some "a" })
      ∷ []
unfolding add_watched concerned check_role is_admin user_id user_role_ge
    get_library_progress_merged_users merge_loop insert_all Dict.lookup add_for store_add_watched
told = refl

add_watched-Wrote_example :
    Wrote shelf alice
      (some "films")
      no_history
      seen
      (λ users k i u.
        if "movie" == k && ("imdb:tt1" == i && contains users u)
        then some (pos 5)
        else date_of k i u [])
      (λ id. watched (record { user_ref = some id }))
unfolding add_watched concerned check_role is_admin user_id user_role_ge
    get_library_progress_merged_users Dict.lookup
add_watched-Wrote_example = add_watched-Wrote shelf 100 film alice (some "films") no_history refl

remove_watched-Wrote_example :
    Wrote shelf alice
      (some "films")
      seen
      (remove_watched shelf 200 same_film alice (some "films") seen).1
      (λ users k i u.
        if "movie" == k && (contains ("imdb:tt1" ∷ "tmdb:7" ∷ []) i && contains users u)
        then zeroed (date_of k i u seen.watcheds)
        else date_of k i u seen.watcheds)
      (λ id. unwatched (record { user_ref = some id }))
unfolding remove_watched concerned check_role is_admin user_id user_role_ge
    get_library_progress_merged_users Dict.lookup
remove_watched-Wrote_example =
    remove_watched-Wrote shelf 200 same_film alice (some "films") seen refl

abbrev everything : HistoryQuery
everything = record { after = none; types = []; id = none; include_deleted = false }

abbrev row : Watched
row = record { kind = "movie"; id = "imdb:tt1"; user_ref = "b"; date = pos 5; modified = 100 }

abbrev with_row : History
with_row = record no_history { watcheds = row ∷ record row { user_ref = "z" } ∷ [] }
