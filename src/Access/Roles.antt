-- ===== src/Access/Roles.antt =====
-- The roles of a user on the server and in a library: `UserRole` of model/users.rs and
-- `LibraryRole` of domain/library.rs, with their `u8` levels, order and texts.
pub mod Order
use redseat_rust.Base.{
  ℕ, String, Bool, Result, ok, err, ltb, leb, ◌==◌, nat_eq, string_eq, if◌then◌else◌,
}

pub data UserRole : Type 0 where
  admin read write none : UserRole

pub data LibraryRole : Type 0 where
  admin read write none : LibraryRole

-- `FromSqlError::InvalidType`, or the parse error of the derived `FromStr`.
pub data RoleError : Type 0 where
  invalid_type : RoleError

unfoldable pub user_role_of_level : ℕ → UserRole
user_role_of_level level =
    if ltb level 9
    then UserRole.none
    else if ltb level 20
    then UserRole.read
    else if ltb level 30
    then UserRole.write
    else if level == 254
    then UserRole.admin
    else UserRole.none

unfoldable pub user_role_level : UserRole → ℕ
user_role_level UserRole.admin = 254
user_role_level UserRole.write = 20
user_role_level UserRole.read = 10
user_role_level UserRole.none = 0

-- `a >= b` by `partial_cmp`.
unfoldable pub user_role_ge : UserRole → UserRole → Bool
unfolding user_role_level
user_role_ge a b = leb (user_role_level b) (user_role_level a)

unfoldable pub user_role_to_sql : UserRole → String
user_role_to_sql UserRole.admin = "admin"
user_role_to_sql UserRole.read = "read"
user_role_to_sql UserRole.write = "write"
user_role_to_sql UserRole.none = "none"

-- `column_result`, by the derived `EnumString` with camelCase names.
unfoldable pub user_role_column_result : String → Result RoleError UserRole
user_role_column_result s =
    if s == "admin"
    then ok UserRole.admin
    else if s == "read"
    then ok UserRole.read
    else if s == "write"
    then ok UserRole.write
    else if s == "none"
    then ok UserRole.none
    else err invalid_type

unfoldable pub library_role_of_level : ℕ → LibraryRole
library_role_of_level level =
    if ltb level 9
    then LibraryRole.none
    else if ltb level 20
    then LibraryRole.read
    else if ltb level 30
    then LibraryRole.write
    else if level == 254
    then LibraryRole.admin
    else LibraryRole.none

unfoldable pub library_role_level : LibraryRole → ℕ
library_role_level LibraryRole.admin = 254
library_role_level LibraryRole.write = 20
library_role_level LibraryRole.read = 10
library_role_level LibraryRole.none = 0

unfoldable pub library_role_ge : LibraryRole → LibraryRole → Bool
unfolding library_role_level
library_role_ge a b = leb (library_role_level b) (library_role_level a)

-- The derived `==`.
unfoldable pub library_role_eq : LibraryRole → LibraryRole → Bool
unfolding library_role_level
library_role_eq a b = library_role_level a == library_role_level b

-- `Display`
unfoldable pub library_role_fmt : LibraryRole → String
library_role_fmt LibraryRole.admin = "admin"
library_role_fmt LibraryRole.read = "read"
library_role_fmt LibraryRole.write = "write"
library_role_fmt LibraryRole.none = "none"

-- The derived `EnumString` with camelCase names.
unfoldable pub library_role_from_str : String → Result RoleError LibraryRole
library_role_from_str s =
    if s == "admin"
    then ok LibraryRole.admin
    else if s == "read"
    then ok LibraryRole.read
    else if s == "write"
    then ok LibraryRole.write
    else if s == "none"
    then ok LibraryRole.none
    else err invalid_type
