-- ===== src/Access/Roles/Order.antt =====
-- Levels and texts name the roles, and the comparison of levels orders them.
use redseat_rust.Base.{◌≡◌, refl, true, ok, arith}
use redseat_rust.Access.Roles.{
  UserRole, LibraryRole, user_role_of_level, user_role_level, user_role_to_sql,
  user_role_column_result, library_role_of_level, library_role_level, library_role_ge,
  library_role_eq, library_role_fmt, library_role_from_str,
}

-- A user's role is read back from its level and from the text stored in the database.
user_role_round_trip :
    (r : UserRole)
    → (user_role_of_level (user_role_level r) ≡ r)
      × (user_role_column_result (user_role_to_sql r) ≡ ok r)
unfolding user_role_of_level user_role_level user_role_column_result user_role_to_sql
user_role_round_trip UserRole.admin = (refl, refl)
user_role_round_trip UserRole.read = (refl, refl)
user_role_round_trip UserRole.write = (refl, refl)
user_role_round_trip UserRole.none = (refl, refl)

-- A library role is read back from its level and from the text that `Display` prints.
library_role_round_trip :
    (r : LibraryRole)
    → (library_role_of_level (library_role_level r) ≡ r)
      × (library_role_from_str (library_role_fmt r) ≡ ok r)
unfolding library_role_of_level library_role_level library_role_from_str library_role_fmt
library_role_round_trip LibraryRole.admin = (refl, refl)
library_role_round_trip LibraryRole.read = (refl, refl)
library_role_round_trip LibraryRole.write = (refl, refl)
library_role_round_trip LibraryRole.none = (refl, refl)

pub library_role_ge_trans :
    (a b c : LibraryRole)
    → library_role_ge a b ≡ true
    → library_role_ge b c ≡ true
    → library_role_ge a c ≡ true
unfolding library_role_ge
library_role_ge_trans a b c h k = ground arith

pub library_role_eq→≡ : (a b : LibraryRole) → library_role_eq a b ≡ true → a ≡ b
unfolding library_role_eq
library_role_eq→≡ a b h = ground arith
