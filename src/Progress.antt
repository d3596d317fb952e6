-- ===== src/Progress.antt =====
-- The progress of users in the media of a library: src/model/media_progresses.rs and the table
-- `media_progress` of src/model/store/sql/library/media_progress.rs.
mod Setting
mod Tests
use redseat_rust.Base.{
  ℕ, ◌≡◌, String, Bool, true, false, not, ◌&&◌, Option, none, some, List, [], ◌∷◌, ◌++◌, Result, ok,
  err, ◌>>=◌, ltb, ◌==◌, string_eq, filter, map, if◌then◌else◌,
}
use redseat_rust.Access.Users.{ConnectedUser, RsError, not_found}
use redseat_rust.Access.Checks.{Checked, user_id}
use redseat_rust.Libraries.{
  LibraryTable, UserMapping, get_library_mapped_user, get_library_mapped_users,
}
use redseat_rust.Sql.Query.{SqlOrder, desc}

pub record RsMediaProgress : Type 0 where
  pub media_ref : String
  pub user_ref : String
  pub progress : ℕ
  pub modified : ℕ

pub record MediaProgressesQuery : Type 0 where
  pub after : Option ℕ
  pub media : Option String
  pub order : SqlOrder

pub record MediasProgressMessage : Type 0 where
  pub library : String
  pub progress : RsMediaProgress

-- The table, and the messages that were broadcast.
pub record ProgressStore : Type 0 where
  pub rows : List RsMediaProgress
  pub sent : List MediasProgressMessage

abbrev pub is_row : String → String → RsMediaProgress → Bool
is_row media user r = r.media_ref == media && r.user_ref == user

abbrev after_modified : Option ℕ → ℕ → Bool
after_modified none modified = true
after_modified (some q) modified = ltb q modified

abbrev of_media : Option String → String → Bool
of_media none media = true
of_media (some q) media = media == q

abbrev pub selects : MediaProgressesQuery → String → RsMediaProgress → Bool
selects q user r =
    after_modified q.after r.modified && (of_media q.media r.media_ref && r.user_ref == user)

-- `INSERT OR REPLACE`, and the trigger that stamps the row.
unfoldable pub store_set_media_progress :
    ℕ → String → String → ℕ → List RsMediaProgress → List RsMediaProgress
store_set_media_progress now media user progress rows =
    filter (λ r. not (is_row media user r)) rows
    ++ (record { media_ref = media; user_ref = user; progress = progress; modified = now }) ∷ []

abbrev pub for_user : MediasProgressMessage → String → MediasProgressMessage
for_user message user = record message { progress = record message.progress { user_ref = user } }

abbrev pub if_user : Bool → MediasProgressMessage → List MediasProgressMessage
if_user true message = message ∷ []
if_user false message = []

-- The messages for the users that a mapping joins to the user of a message, at either end.
unfoldable pub mapped_messages :
    List UserMapping → MediasProgressMessage → List MediasProgressMessage
mapped_messages [] message = []
mapped_messages (m ∷ ms) message =
    if_user (message.progress.user_ref == m.to) (for_user message m.from)
    ++ if_user (message.progress.user_ref == m.from) (for_user message m.to)
    ++ mapped_messages ms message

abbrev pub mappings_or_none : Checked (List UserMapping) → List UserMapping
mappings_or_none (ok ms) = ms
mappings_or_none (err e) = []

-- The messages that `send_media_progress` broadcasts.
unfoldable pub send_media_progress :
    LibraryTable → MediasProgressMessage → List MediasProgressMessage
send_media_progress table message =
    mapped_messages (mappings_or_none (get_library_mapped_users table message.library)) message
    ++ message ∷ []

abbrev pub as_model : {A : Type 0} → Checked A → Result RsError A
as_model (ok a) = ok a
as_model (err e) = err (RsError.model e)

abbrev pub renamed : String → String → RsMediaProgress → RsMediaProgress
renamed user original r = if r.user_ref == user then record r { user_ref = original } else r

abbrev pub next_or : RsError → List RsMediaProgress → Result RsError RsMediaProgress
next_or e [] = err e
next_or e (r ∷ rs) = ok r

-- `ordered` is the ORDER BY clause.
module _ (ordered : SqlOrder → List RsMediaProgress → List RsMediaProgress) (table : LibraryTable)
    (library_id : String) where
  unfoldable pub store_get_medias_progresses :
      MediaProgressesQuery → String → List RsMediaProgress → List RsMediaProgress
  store_get_medias_progresses q user rows = ordered q.order (filter (selects q user) rows)

  unfoldable pub get_medias_progresses :
      MediaProgressesQuery → ConnectedUser → ProgressStore → Result RsError (List RsMediaProgress)
  get_medias_progresses q user st = do
    original ← as_model (user_id user)
    mapped ← as_model (get_library_mapped_user table library_id original)
    let progresses = store_get_medias_progresses q mapped st.rows
    ok (if not (mapped == original) then map (renamed mapped original) progresses else progresses)

  unfoldable pub get_media_progress :
      String → ConnectedUser → ProgressStore → Result RsError RsMediaProgress
  get_media_progress media user st = do
    progress ←
        get_medias_progresses (record { after = none; media = some media; order = desc }) user st
    next_or (not_found media) progress

  abbrev pub answered :
      ProgressStore
      → Result RsError RsMediaProgress
      → Result RsError RsMediaProgress × ProgressStore
  answered st (err e) = (err e, st)
  answered st (ok progress) = (
    ok progress,
    record st {
      sent =
          st.sent
          ++ send_media_progress table (record { library = library_id; progress = progress });
    },
  )

  abbrev pub set_for :
      ℕ
      → String
      → ℕ
      → ConnectedUser
      → Result RsError String
      → ProgressStore
      → Result RsError RsMediaProgress × ProgressStore
  set_for now media progress user (err e) st = (err e, st)
  set_for now media progress user (ok mapped) st =
      let stored = record st {
        rows = store_set_media_progress now media mapped progress st.rows;
      } in
      answered stored (get_media_progress media user stored)

  unfoldable pub set_media_progress :
      ℕ
      → String
      → ℕ
      → ConnectedUser
      → ProgressStore
      → Result RsError RsMediaProgress × ProgressStore
  set_media_progress now media progress user st =
      set_for now media progress user
        (as_model (user_id user) >>= λ id. as_model (get_library_mapped_user table library_id id))
        st
