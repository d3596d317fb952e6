-- ===== src/Progress/Tests.antt =====
-- The theorems on the progress of media at a library that maps two users to a third one.
use redseat_rust.Base.{◌≡◌, refl, false, ◌||◌, [], ◌++◌, ok, any, ◌==◌, string_eq}
use redseat_rust.Access.Users.{ConnectedUser}
use redseat_rust.Access.Checks.{user_id, check_library_role, is_admin}
use redseat_rust.Base.Dict
use redseat_rust.Access.Tests.{reader}
use redseat_rust.Libraries.{get_library_mapped_user, get_library_mapped_users}
use redseat_rust.Libraries.Tests.{shelf}
use redseat_rust.Progress.{
  RsMediaProgress, MediasProgressMessage, ProgressStore, store_set_media_progress,
  send_media_progress, mappings_or_none, set_media_progress, mapped_messages,
}
use redseat_rust.Progress.Setting.{
  is_told, joins, send_media_progress-told, set_media_progress-answer,
}

abbrev user_a : ConnectedUser
user_a = ConnectedUser.server (record reader { id = "a" })

abbrev half : RsMediaProgress
half = record { media_ref = "film"; user_ref = "a"; progress = 50; modified = 9 }

abbrev told : MediasProgressMessage
told = record { library = "films"; progress = half }

abbrev nothing_yet : ProgressStore
nothing_yet = record { rows = []; sent = [] }

is_user_a : user_id user_a ≡ ok "a"
unfolding user_id
is_user_a = refl

a_is_mapped : get_library_mapped_user shelf "films" "a" ≡ ok "b"
unfolding get_library_mapped_user Dict.lookup
a_is_mapped = refl

set_media_progress-answer_example :
    set_media_progress (λ o rs. rs) shelf "films" 9 "film" 50 user_a nothing_yet ≡ (
      ok half,
      record {
        rows = store_set_media_progress 9 "film" "b" 50 [];
        sent = [] ++ send_media_progress shelf told;
      },
    )
set_media_progress-answer_example =
    set_media_progress-answer (λ o rs. rs) shelf "films" 9 "film" 50 user_a nothing_yet
      (λ o r. refl) is_user_a a_is_mapped

send_media_progress-told_example : is_told "b" (send_media_progress shelf told) ≡ (
    (told.progress.user_ref == "b")
    || any (joins "a" "b") (mappings_or_none (get_library_mapped_users shelf "films")))
send_media_progress-told_example = send_media_progress-told shelf told "b"

-- The user `c`, whom the library maps to the same user, shares the progress and is not told.
c_is_not_told : is_told "c" (send_media_progress shelf told) ≡ false
unfolding send_media_progress mapped_messages get_library_mapped_users check_library_role is_admin
    Dict.lookup
c_is_not_told = refl
