-- ===== src/Accounts/Preferences.antt =====
-- Hidden libraries: `hide_library` and `unhide_library` of model/users.rs.
use redseat_rust.Base.{
  String, Bool, not, ◌&&◌, ◌≡◌, refl, find-holds, ap, none, some, List, [], ◌∷◌, ◌++◌, Result, ok,
  err, arith, eq_iff, eq_refl, ◌==◌, string_eq, contains, find, filter, map, if◌then◌else◌, ◌||◌,
  contains-append,
}
use mathlib.Core.Option
use redseat_rust.Access.Users.{
  ServerUserPreferences, ServerUser, ServerUserForUpdate, ConnectedUser, RsError,
}
use redseat_rust.Access.Checks.{Checked, check_registered, has_hidden_library}
use redseat_rust.Libraries.{LibraryTable}
use redseat_rust.Accounts.{
  UserRow, Accounts, lift, find_user, with_rights, store_get_user, updated, update_user,
}

-- `hide_library` and `unhide_library` write back the preferences that the session read earlier.
abbrev pub with_preferences : ServerUser → ServerUserPreferences → ServerUserForUpdate
with_preferences user preferences = record {
  id = user.id;
  name = none;
  role = none;
  preferences = some preferences;
}

abbrev pub hide : ServerUserPreferences → String → ServerUserPreferences
hide preferences library_id =
    if contains preferences.hidden_libraries library_id
    then preferences
    else record { hidden_libraries = preferences.hidden_libraries ++ library_id ∷ [] }

abbrev pub unhide : ServerUserPreferences → String → ServerUserPreferences
unhide preferences library_id = record {
  hidden_libraries = filter (λ id. not (id == library_id)) preferences.hidden_libraries;
}

unfoldable pub set_preferences :
    (ServerUserPreferences → ServerUserPreferences)
    → Accounts
    → Checked ServerUser
    → Checked (Unit {0}) × Accounts
unfolding update_user
set_preferences change acc (err e) = (err e, acc)
set_preferences change acc (ok user) =
    update_user user (with_preferences user (change user.preferences)) acc

unfoldable pub hide_library :
    String → ConnectedUser → Accounts → Result RsError (Unit {0}) × Accounts
hide_library library_id user acc =
    let (r, acc') = set_preferences (λ p. hide p library_id) acc (check_registered user) in
    (lift r, acc')

unfoldable pub unhide_library :
    String → ConnectedUser → Accounts → Result RsError (Unit {0}) × Accounts
unhide_library library_id user acc =
    let (r, acc') = set_preferences (λ p. unhide p library_id) acc (check_registered user) in
    (lift r, acc')

contains-hide :
    (p : ServerUserPreferences) (l x : String)
    → contains (hide p l).hidden_libraries x ≡ (l == x || contains p.hidden_libraries x)
contains-hide p l x = ground (arith, eq_iff l x, contains-append p.hidden_libraries (l ∷ []) x)

contains-unhide :
    (hidden : List String) (l x : String)
    → contains (filter (λ id. not (id == l)) hidden) x ≡ (not (l == x) && contains hidden x)
contains-unhide [] l x = ground arith
contains-unhide (h ∷ hs) l x =
    ground (arith, contains-unhide hs l x, eq_iff h l, eq_iff h x, eq_iff l x)

find-updated :
    (update : ServerUserForUpdate) (rows : List UserRow) (id : String)
    → find (λ r. r.id == id) (map (updated update) rows)
      ≡ Option.map (updated update) (find (λ r. r.id == id) rows)
find-updated update [] id = refl
find-updated update (r ∷ rs) id = ground (arith, find-updated update rs id)

module _ (table : LibraryTable) (l : String) (s : ServerUser) (acc : Accounts) where
  -- The user as the next request reads it: `h` says which libraries are hidden from it.
  abbrev pub NowHides : (String → Bool) → Result RsError (Unit {0}) × Accounts → Type 0
  NowHides h r =
      (r.0 ≡ ok tt)
      × ((u : ServerUser) × (store_get_user table r.1 s.id ≡ ok u)
          × ((x : String) → has_hidden_library (ConnectedUser.server u) x ≡ h x))

  abbrev with_row : Accounts → UserRow → ServerUserPreferences → ServerUser
  with_row acc' row p = with_rights table acc' (record row { preferences = p })

  stored_preferences :
      (p : ServerUserPreferences) {row : UserRow}
      → find_user acc s.id ≡ some row
      → let r = update_user s (with_preferences s p) acc in
        (r.0 ≡ ok tt) × (store_get_user table r.1 s.id ≡ ok (with_row r.1 row p))
  unfolding update_user store_get_user
  stored_preferences p {row} e = (
    ground (arith, eq_refl s.id),
    rw (eq_refl s.id) (
        rw (find-updated (with_preferences s p) acc.users s.id)
          (rw e (rw (find-holds (λ r. r.id == s.id) acc.users e) refl))),
  )

  -- A registered user who hides a library, or shows it again, gets no error, and its next request
  -- finds exactly this library changed from the preferences of the request: hidden by
  -- `hide_library`, whether it was hidden before or not, and not hidden after `unhide_library`.
  hide_library-NowHides :
      {row : UserRow}
      → find_user acc s.id ≡ some row
      → NowHides
          (λ x. l == x || has_hidden_library (ConnectedUser.server s) x)
          (hide_library l (ConnectedUser.server s) acc)
        × NowHides
            (λ x. not (l == x) && has_hidden_library (ConnectedUser.server s) x)
            (unhide_library l (ConnectedUser.server s) acc)
  unfolding hide_library unhide_library update_user store_get_user has_hidden_library
      check_registered with_rights set_preferences
  hide_library-NowHides {row} e =
      let hidden = stored_preferences (hide s.preferences l) e in
      let shown = stored_preferences (unhide s.preferences l) e in
      (
        (ap lift hidden.0, (_, hidden.1, contains-hide s.preferences l)),
        (ap lift shown.0, (_, shown.1, contains-unhide s.preferences.hidden_libraries l)),
      )
