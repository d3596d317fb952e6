-- ===== src/History/Reading.antt =====
-- The queries of the history: `get_watched`, `get_view_progress` and `get_all_view_progress` of
-- model/users.rs with their statements in model/store/sql/users.rs.
use redseat_rust.Base.{
  ℕ, String, Bool, true, false, ◌&&◌, ◌||◌, ◌≡◌, subst, Option, none, some, List, [], ◌∷◌, Result,
  ok, err, ◌>>=◌, ◌==◌, string_eq, eq_iff, contains, find, filter, if◌then◌else◌, unwrap_or,
  to_option, arith, All, inl, inr, Bool-cases,
}
use redseat_rust.Base.Int.{ℤ, pos, ltbℤ}
use redseat_rust.Access.Roles.{UserRole}
use redseat_rust.Access.Users.{ConnectedUser, RsError}
use redseat_rust.Access.Checks.{Checked, user_id, check_role}
use redseat_rust.Libraries.{LibraryTable, get_optional_library_mapped_user}
use redseat_rust.History.{Watched, ViewProgress, History}

-- The part of `HistoryQuery` that the statements read; `sort` stands for the `ORDER BY` clause.
pub record HistoryQuery : Type 0 where
  pub after : Option ℤ
  pub types : List String
  pub id : Option (List String)
  pub include_deleted : Bool

abbrev after_date : Option ℤ → ℕ → Bool
after_date none modified = true
after_date (some q) modified = ltbℤ q (pos modified)

abbrev of_types : List String → String → Bool
of_types [] kind = true
of_types types kind = contains types kind

abbrev in_ids : Option (List String) → String → Bool
in_ids none id = true
in_ids (some ids) id = contains ids id

abbrev pub selects : HistoryQuery → String → Watched → Bool
selects q user r =
    (q.include_deleted || ltbℤ (pos 0) r.date)
    && (after_date q.after r.modified
        && (of_types q.types r.kind && (r.user_ref == user && in_ids q.id r.id)))

abbrev selects_progress : HistoryQuery → String → ViewProgress → Bool
selects_progress q user r =
    after_date q.after r.modified
    && (of_types q.types r.kind && (r.user_ref == user && in_ids q.id r.id))

-- `other_users` is empty in every call.
unfoldable pub store_get_watched : HistoryQuery → String → History → List Watched
store_get_watched q user h = filter (selects q user) h.watcheds

unfoldable pub store_get_all_view_progress : HistoryQuery → String → History → List ViewProgress
store_get_all_view_progress q user h = filter (selects_progress q user) h.progresses

unfoldable pub store_get_view_progress : List String → String → History → Option ViewProgress
store_get_view_progress ids user h =
    find (λ r. r.user_ref == user && contains ids r.id) h.progresses

abbrev is_server_admin : ConnectedUser → Bool
is_server_admin ConnectedUser.server_admin = true
is_server_admin _ = false

-- `get_optional_library_mapped_user(..).await.ok().unwrap_or(user_id)`
abbrev pub progress_user : LibraryTable → Option String → String → String
progress_user table library_id user_id =
    unwrap_or (to_option (get_optional_library_mapped_user table library_id user_id)) user_id

abbrev lift : {A : Type 0} → Checked A → Result RsError A
lift (ok a) = ok a
lift (err e) = err (RsError.model e)

-- The user whose rows are read, after the guards.
unfoldable pub reader_of : LibraryTable → ConnectedUser → Option String → Result RsError String
reader_of table user library_id = do
  _ ← lift (check_role user UserRole.read)
  id ← lift (user_id user)
  ok (progress_user table library_id id)

-- `ORDER BY` is the parameter `order`, which sorts the rows that are read.
unfoldable pub get_watched :
    LibraryTable
    → (List Watched → List Watched)
    → HistoryQuery
    → ConnectedUser
    → Option String
    → History
    → Result RsError (List Watched)
unfolding reader_of store_get_watched
get_watched table order q user library_id h = lift (check_role user UserRole.read) >>= λ _.
    if is_server_admin user
    then ok []
    else reader_of table user library_id >>= λ id. ok (order (store_get_watched q id h))

unfoldable pub get_all_view_progress :
    LibraryTable
    → (List ViewProgress → List ViewProgress)
    → HistoryQuery
    → ConnectedUser
    → Option String
    → History
    → Result RsError (List ViewProgress)
unfolding reader_of store_get_all_view_progress
get_all_view_progress table order q user library_id h =
    if is_server_admin user
    then ok []
    else reader_of table user library_id >>= λ id. ok (order (store_get_all_view_progress q id h))

unfoldable pub get_view_progress :
    LibraryTable
    → List String
    → ConnectedUser
    → Option String
    → History
    → Result RsError (Option ViewProgress)
unfolding reader_of store_get_view_progress
get_view_progress table ids user library_id h =
    if is_server_admin user
    then ok none
    else reader_of table user library_id >>= λ id. ok (store_get_view_progress ids id h)

-- What a row that is read tells: it is of the reader, and was not removed unless the query asks for
-- removed rows too.
abbrev pub IsOwn : HistoryQuery → String → Watched → Type 0
IsOwn q id r = (r.user_ref ≡ id) × (q.include_deleted ≡ false → ltbℤ (pos 0) r.date ≡ true)

selected-IsOwn :
    (q : HistoryQuery) (id : String) (rows : List Watched)
    → All (IsOwn q id) (filter (selects q id) rows)
selected-IsOwn q id [] = tt
selected-IsOwn q id (r ∷ rs) = elim (Bool-cases (selects q id r)) [
  | inl e ↦
      rw e (((eq_iff r.user_ref id).0 (ground arith), λ d. ground arith), selected-IsOwn q id rs)
  | inr e ↦ rw e (selected-IsOwn q id rs)
]

-- The rows of the history that a user is given are the user's own, or those of the user that it is
-- mapped to in the library; unless the query asks for removed rows, none of them was removed. This
-- holds for every order in which they are given.
get_watched-IsOwn :
    (table : LibraryTable) (order : List Watched → List Watched) (q : HistoryQuery)
    (user : ConnectedUser) (library : Option String) (h : History) {rows : List Watched}
    → ((P : Watched → Type 0) (xs : List Watched) → All P xs → All P (order xs))
    → get_watched table order q user library h ≡ ok rows
    → (id : String) → user_id user ≡ ok id
    → All (IsOwn q (progress_user table library id)) rows
unfolding get_watched reader_of store_get_watched
get_watched-IsOwn table order q user library h {rows} only done id who =
    elim (Bool-cases (is_server_admin user)) [
      | inl e ↦ subst (All (IsOwn q (progress_user table library id))) {x = []} (ground arith) tt
      | inr e ↦ subst (All (IsOwn q (progress_user table library id))) (ground (arith, who)) (
          only (IsOwn q (progress_user table library id)) _
            (selected-IsOwn q (progress_user table library id) h.watcheds))
    ]
