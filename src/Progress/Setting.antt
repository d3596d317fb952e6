-- ===== src/Progress/Setting.antt =====
-- What setting the progress of a media stores, answers and tells.
use redseat_rust.Base.{
  ℕ, ◌≡◌, ◌∙◌, refl, ap, String, Bool, true, false, not, ◌&&◌, ◌||◌, none, some, List, [], ◌∷◌,
  ◌++◌, ok, ◌==◌, ==-refl, string_eq, any, filter, filter-append, map, arith, Bool-cases, inl, inr,
  if◌then◌else◌,
}
use redseat_rust.Base.Distinct.{any-append}
use redseat_rust.Access.Users.{ConnectedUser}
use redseat_rust.Access.Checks.{user_id}
use redseat_rust.Libraries.{
  LibraryTable, UserMapping, get_library_mapped_user, get_library_mapped_users,
}
use redseat_rust.Sql.Query.{SqlOrder, desc}
use redseat_rust.Progress.{
  RsMediaProgress, MediasProgressMessage, ProgressStore, is_row, store_set_media_progress, for_user,
  if_user, mapped_messages, mappings_or_none, send_media_progress, store_get_medias_progresses,
  renamed, get_medias_progresses, get_media_progress, set_media_progress,
}

filter-not : {A : Type 0} (p : A → Bool) (xs : List A) → filter p (filter (λ x. not (p x)) xs) ≡ []
filter-not p [] = refl
filter-not p (x ∷ xs) = ground (arith, filter-not p xs)

abbrev pub joins : String → String → UserMapping → Bool
joins user other m = (user == m.to && m.from == other) || (user == m.from && m.to == other)

abbrev pub is_told : String → List MediasProgressMessage → Bool
is_told user = any (λ m. m.progress.user_ref == user)

told_if :
    (user : String) (b : Bool) (message : MediasProgressMessage)
    → is_told user (if_user b message) ≡ (b && (message.progress.user_ref == user))
told_if user true message = ground arith
told_if user false message = refl

mapped-told :
    (user : String) (ms : List UserMapping) (message : MediasProgressMessage)
    → is_told user (mapped_messages ms message) ≡ any (joins message.progress.user_ref user) ms
unfolding mapped_messages
mapped-told user [] message = refl
mapped-told user (m ∷ ms) message =
    let told = λ (r : MediasProgressMessage). r.progress.user_ref == user in
    let to = if_user (message.progress.user_ref == m.to) (for_user message m.from) in
    let from = if_user (message.progress.user_ref == m.from) (for_user message m.to) in
    ground (
      arith,
      any-append told (to ++ from) (mapped_messages ms message),
      any-append told to from,
      told_if user (message.progress.user_ref == m.to) (for_user message m.from),
      told_if user (message.progress.user_ref == m.from) (for_user message m.to),
      mapped-told user ms message,
    )

-- A message tells the user whose progress it is, and those users whom a mapping of the library joins
-- to that user, at whichever end, and nobody else.
pub send_media_progress-told :
    (table : LibraryTable) (message : MediasProgressMessage) (user : String)
    → is_told user (send_media_progress table message) ≡ (
        (message.progress.user_ref == user)
        || any
            (joins message.progress.user_ref user)
            (mappings_or_none (get_library_mapped_users table message.library)))
unfolding send_media_progress
send_media_progress-told table message user =
    let ms = mappings_or_none (get_library_mapped_users table message.library) in
    ground (
      arith,
      any-append (λ m. m.progress.user_ref == user) (mapped_messages ms message) (message ∷ []),
      mapped-told user ms message,
    )

abbrev row : String → String → ℕ → ℕ → RsMediaProgress
row media user progress now = record {
  media_ref = media;
  user_ref = user;
  progress = progress;
  modified = now;
}

under_own_name :
    (media mapped id : String) (progress now : ℕ)
    → (if not (mapped == id)
        then map (renamed mapped id) (row media mapped progress now ∷ [])
        else row media mapped progress now ∷ [])
      ≡ row media id progress now ∷ []
under_own_name media mapped id progress now = elim (Bool-cases (mapped == id)) [
  | inl e ↦ rw e (ap (λ u. row media u progress now ∷ []) ((string_eq.same_iff mapped id).0 e))
  | inr e ↦ rw (e, ==-refl mapped) refl
]

module _ (ordered : SqlOrder → List RsMediaProgress → List RsMediaProgress) where
  only_row :
      (table : LibraryTable) (library_id : String) (o : SqlOrder) (now : ℕ) (media mapped : String)
      (progress : ℕ) (rows : List RsMediaProgress)
      → ((r : RsMediaProgress) → ordered o (r ∷ []) ≡ r ∷ [])
      → store_get_medias_progresses ordered table library_id
          (record { after = none; media = some media; order = o })
          mapped
          (store_set_media_progress now media mapped progress rows)
        ≡ (record { media_ref = media; user_ref = mapped; progress = progress; modified = now })
          ∷ []
  unfolding store_get_medias_progresses store_set_media_progress
  only_row table library_id o now media mapped progress rows one =
      ap (λ rs. ordered o rs)
        (filter-append (is_row media mapped) (filter (λ r. not (is_row media mapped r)) rows)
            (row media mapped progress now ∷ [])
          ∙ ap (λ rs. rs ++ filter (is_row media mapped) (row media mapped progress now ∷ []))
              (filter-not (is_row media mapped) rows)
          ∙ (rw (==-refl media, ==-refl mapped) refl))
      ∙ one (row media mapped progress now)

  got_back :
      (table : LibraryTable) (library_id : String) (now : ℕ) (media : String) (progress : ℕ)
      (user : ConnectedUser) (rows : List RsMediaProgress) (sent : List MediasProgressMessage)
      {id mapped : String}
      → ((o : SqlOrder) (r : RsMediaProgress) → ordered o (r ∷ []) ≡ r ∷ [])
      → user_id user ≡ ok id
      → get_library_mapped_user table library_id id ≡ ok mapped
      → get_media_progress ordered table library_id media user
          (record { rows = store_set_media_progress now media mapped progress rows; sent = sent })
        ≡ ok (row media id progress now)
  unfolding get_media_progress get_medias_progresses
  got_back table library_id now media progress user rows sent {id} {mapped} one who to =
      rw
        (
          who,
          to,
          only_row table library_id desc now media mapped progress rows (one desc),
          under_own_name media mapped id progress now,
        )
        refl

  -- Whoever sets the progress of a media is answered with it under its own name, after it is stored
  -- for the user whom the library maps it to, and it is told on.
  pub set_media_progress-answer :
      (table : LibraryTable) (library_id : String) (now : ℕ) (media : String) (progress : ℕ)
      (user : ConnectedUser) (st : ProgressStore) {id mapped : String}
      → ((o : SqlOrder) (r : RsMediaProgress) → ordered o (r ∷ []) ≡ r ∷ [])
      → user_id user ≡ ok id
      → get_library_mapped_user table library_id id ≡ ok mapped
      → set_media_progress ordered table library_id now media progress user st ≡ (
        ok (record { media_ref = media; user_ref = id; progress = progress; modified = now }),
        record {
          rows = store_set_media_progress now media mapped progress st.rows;
          sent =
              st.sent
              ++ send_media_progress table (record {
                library = library_id;
                progress = record {
                  media_ref = media;
                  user_ref = id;
                  progress = progress;
                  modified = now;
                };
              });
        },
      )
  unfolding set_media_progress
  set_media_progress-answer table library_id now media progress user st {id} {mapped} one who to =
      rw (who, to, got_back table library_id now media progress user st.rows st.sent one who to)
        refl
