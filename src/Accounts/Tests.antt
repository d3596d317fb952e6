-- ===== src/Accounts/Tests.antt =====
-- The theorems on accounts at a server with one user and one invitation.
use redseat_rust.Base.{◌≡◌, refl, ◌↔◌, false, none, some, [], ◌∷◌, ok, is_ok, string_eq}
use redseat_rust.Base.Int.{pos}
use redseat_rust.Access.Roles.{UserRole, LibraryRole}
use redseat_rust.Access.Users.{GuestUser, ClaimsLocalType, ConnectedUser}
use redseat_rust.Access.Tests.{ann, films_key}
use redseat_rust.Libraries.Tests.{shelf}
use redseat_rust.Accounts.{Accounts}
use redseat_rust.Accounts.Keys.{redeem_invitation, connected_user, add_library_rights, grant}
use redseat_rust.Accounts.Redeeming.{Redeemed, redeem_invitation-Redeemed}
use redseat_rust.Accounts.Tokens.{AuthMessage, Server, mw_must_be_admin, parse_auth_message}
use redseat_rust.Accounts.Trust.{Trusted, parse_auth_message_iff}

abbrev accounts : Accounts
accounts = record {
  users =
      record {
        id = "u1";
        name = "Ann";
        role = UserRole.read;
        preferences = record { hidden_libraries = [] };
      }
      ∷ [];
  rights = [];
  upload_keys = films_key ∷ [];
  invitations =
      record {
        code = "welcome";
        expires = none;
        library = "films";
        roles = LibraryRole.read ∷ [];
        limits = record {
          tags = false;
          people = false;
          albums = false;
          delay = none;
          user_id = none;
        };
      }
      ∷ [];
}

abbrev bob : GuestUser
bob = record { id = "u2"; name = "Bob" }

redeem_invitation-Redeemed_example :
    Redeemed shelf "welcome" ann accounts (redeem_invitation shelf "welcome" ann accounts).1 "films"
unfolding redeem_invitation connected_user grant add_library_rights
redeem_invitation-Redeemed_example = redeem_invitation-Redeemed shelf "welcome" ann accounts refl

abbrev request : AuthMessage
request = record { token = none; sharetoken = none; key = some "k1" }

abbrev here : Server
here = record {
  decode = λ token id. ok (record { sub = token; name = token; aud = id; exp = 0 });
  decode_local = λ token. ok (record { cr = token; kind = ClaimsLocalType.admin; exp = 0 });
  server_id = some "s1";
  now = pos 100;
  libraries = shelf;
  accounts = accounts;
}

parse_auth_message_iff_example :
    (parse_auth_message here request ≡ ok (ConnectedUser.upload_key films_key))
    ↔ Trusted here request (ConnectedUser.upload_key films_key)
parse_auth_message_iff_example =
    parse_auth_message_iff here request (ConnectedUser.upload_key films_key)

abbrev acting_admin : ConnectedUser
acting_admin =
    ConnectedUser.share
      (record { cr = "c"; kind = ClaimsLocalType.user_role UserRole.admin; exp = 10 })

refused_by_middleware : is_ok (mw_must_be_admin acting_admin) ≡ false
unfolding mw_must_be_admin
refused_by_middleware = refl
