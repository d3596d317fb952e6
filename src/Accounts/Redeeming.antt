-- ===== src/Accounts/Redeeming.antt =====
-- What an invitation gives and to whom, and what an unknown code leaves behind.
use redseat_rust.Base.{
  String, Bool, true, false, not, ◌≡◌, refl, sym, ◌∙◌, is_ok, ap, Option, none, some, List, [], ◌∷◌,
  ◌++◌, ok, err, arith, eq_refl, ◌==◌, string_eq, any, find, filter,
}
use redseat_rust.Access.Roles.{UserRole, user_role_ge}
use redseat_rust.Access.Users.{ServerUser, GuestUser, ConnectedUser}
use redseat_rust.Access.Checks.{Checked, is_admin, check_role}
use redseat_rust.Libraries.{LibraryTable}
use redseat_rust.Accounts.{
  UserRow, RightsRow, ServerLibraryInvitation, Accounts, with_rights, store_get_user, get_user,
  then_get, checked_add, add_user,
}
use redseat_rust.Accounts.Keys.{
  add_library_rights, creation_user, connected_user, grant, redeem_invitation, redeem_as,
  find_invitation,
}

checked_add-others :
    (table : LibraryTable) (user : ServerUser) (by : ConnectedUser) (acc : Accounts)
    (r : Checked (Unit {0}))
    → ((checked_add table user by acc r).1.invitations ≡ acc.invitations)
      × ((checked_add table user by acc r).1.rights ≡ acc.rights)
unfolding then_get
checked_add-others table user by acc (err e) = (refl, refl)
checked_add-others table user by acc (ok _) = (ground arith, ground arith)

connected_user-others :
    (table : LibraryTable) (u : ConnectedUser) (acc : Accounts)
    → ((connected_user table u acc).1.invitations ≡ acc.invitations)
      × ((connected_user table u acc).1.rights ≡ acc.rights)
unfolding connected_user add_user
connected_user-others table (ConnectedUser.guest g) acc =
    checked_add-others table (creation_user g) ConnectedUser.server_admin acc _
connected_user-others table u acc = (refl, refl)

find-filter-none :
    (code : String) (is : List ServerLibraryInvitation)
    → find (λ i. i.code == code) (filter (λ i. not (i.code == code)) is) ≡ none
find-filter-none code [] = refl
find-filter-none code (i ∷ is) = ground (arith, find-filter-none code is)

abbrev pub right_of : ServerUser → ServerLibraryInvitation → RightsRow
right_of user i = record {
  user_ref = user.id;
  library_ref = i.library;
  roles = i.roles;
  limits = i.limits;
}

-- How a redemption that succeeds was made.
pub record Redeemed (table : LibraryTable) (code : String) (u : ConnectedUser) (acc acc' : Accounts)
    (l : String) : Type 0 where
  pub invitation : ServerLibraryInvitation
  pub user : ServerUser
  pub invited : find_invitation acc code ≡ some invitation
  pub to_library : invitation.library ≡ l
  pub by_user : (connected_user table u acc).0 ≡ ok user
  pub rights : acc'.rights ≡ acc.rights ++ right_of user invitation ∷ []
  pub used_up : find_invitation acc' code ≡ none

grant-Redeemed :
    (code : String) (user : ServerUser) (acc : Accounts) (l : String)
    (i : Option ServerLibraryInvitation)
    → (grant code user acc i).0 ≡ ok l
    → (j : ServerLibraryInvitation) × (i ≡ some j)
      × (j.library ≡ l)
      × ((grant code user acc i).1.rights ≡ acc.rights ++ right_of user j ∷ [])
      × ((grant code user acc i).1.invitations ≡ filter (λ k. not (k.code == code)) acc.invitations)
unfolding grant add_library_rights
grant-Redeemed code user acc l none h = cc
grant-Redeemed code user acc l (some i) h = (i, refl, ground arith, ground arith, ground arith)

-- A redemption that succeeds was of an invitation with this code to the library that is returned;
-- the user (for a guest the new one) has, at the end of the rights, those of the invitation; and the
-- invitation is used up: the code is found no more.
pub redeem_invitation-Redeemed :
    (table : LibraryTable) (code : String) (u : ConnectedUser) (acc : Accounts) {l : String}
    → (redeem_invitation table code u acc).0 ≡ ok l
    → Redeemed table code u acc (redeem_invitation table code u acc).1 l
unfolding redeem_invitation
redeem_invitation-Redeemed table code u acc {l} h =
    redeemed (connected_user table u acc) refl (connected_user-others table u acc) h
  where
    redeemed :
        (r : Checked ServerUser × Accounts)
        → connected_user table u acc ≡ r
        → (r.1.invitations ≡ acc.invitations) × (r.1.rights ≡ acc.rights)
        → (redeem_as code r).0 ≡ ok l
        → Redeemed table code u acc (redeem_as code r).1 l
    redeemed (err e, acc') c same h = ground arith
    redeemed (ok user, acc') c same h =
        let (i, found, lib, rights, left) =
          grant-Redeemed code user acc' l (find_invitation acc' code) h in
        record {
          invitation = i;
          user = user;
          invited = ap (find (λ i. i.code == code)) (sym same.0) ∙ found;
          to_library = lib;
          by_user = ap (λ r. r.0) c;
          rights = rights ∙ ap (λ rs. rs ++ right_of user i ∷ []) same.1;
          used_up = ap (find (λ i. i.code == code)) left ∙ find-filter-none code acc'.invitations;
        }

find-append :
    (p : UserRow → Bool) (xs : List UserRow) (x : UserRow)
    → any p xs ≡ false
    → p x ≡ true
    → find p (xs ++ x ∷ []) ≡ some x
find-append p [] x h e = rw e
find-append p (y ∷ ys) x h e = ground (arith, find-append p ys x)

abbrev row_of : GuestUser → UserRow
row_of g = record {
  id = g.id;
  name = g.name;
  role = UserRole.read;
  preferences = record { hidden_libraries = [] };
}

-- A guest whose code is no invitation gets an error, but has become a user of the server: the next
-- request finds a registered user who passes `check_role` for `Read`.
redeem_invitation_registers :
    (table : LibraryTable) (code : String) (g : GuestUser) (acc : Accounts)
    → any (λ r. r.id == g.id) acc.users ≡ false
    → find_invitation acc code ≡ none
    → let r = redeem_invitation table code (ConnectedUser.guest g) acc in
      (is_ok r.0 ≡ false)
      × ((u : ServerUser) × (store_get_user table r.1 g.id ≡ ok u)
          × (check_role (ConnectedUser.server u) UserRole.read ≡ ok tt))
unfolding redeem_invitation connected_user add_user then_get get_user store_get_user grant
    check_role is_admin user_role_ge with_rights
redeem_invitation_registers table code g acc fresh unknown =
    let row = find-append (λ r. r.id == g.id) acc.users (row_of g) fresh (eq_refl g.id) in
    rw fresh (
      rw row (
        rw unknown (
          refl,
          (
            with_rights table (record acc { users = acc.users ++ row_of g ∷ [] }) (row_of g),
            rw row refl,
            refl,
          ),
        )))
