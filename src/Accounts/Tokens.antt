-- ===== src/Accounts/Tokens.antt =====
-- How a request becomes a `ConnectedUser`: `verify` of tools/auth.rs, `parse_auth_message` and
-- `mw_must_be_admin` of routes/mw_auth.rs. The JWT library is the parameter `decode`, which checks a
-- token against the RSA key and, for the server's tokens, the audience.
use redseat_rust.Base.Int.{ℤ}
use redseat_rust.Base.{
  ℕ, String, Bool, true, false, Option, none, some, Result, ok, err, ◌>>=◌, string_eq,
  if◌then◌else◌,
}
use redseat_rust.Access.Users.{ServerUser, UploadKey, ConnectedUser, Error, RsError}
use redseat_rust.Access.Checks.{Checked, is_admin_role}
use redseat_rust.Libraries.{LibraryTable}
use redseat_rust.Accounts.{Accounts, store_get_user}
use redseat_rust.Base.Int.{ltbℤ}
use redseat_rust.Access.Users.{ClaimsLocal, ClaimsLocalType}
use redseat_rust.Accounts.Keys.{get_upload_key}

-- `jsonwebtoken::errors::ErrorKind`, with `other` for the kinds that the code does not name.
pub data ErrorKind : Type 0 where
  invalid_token invalid_signature expired_signature invalid_issuer invalid_audience : ErrorKind
  invalid_subject other : ErrorKind
  missing_required_claim : String → ErrorKind

pub record Claims : Type 0 where
  pub sub : String
  pub name : String
  pub aud : String
  pub exp : ℕ

pub record AuthMessage : Type 0 where
  pub token : Option String
  pub sharetoken : Option String
  pub key : Option String

abbrev pub of_kind : ErrorKind → RsError
of_kind invalid_token = RsError.auth_fail_token_wrong_format
of_kind expired_signature = RsError.auth_fail_expired_token
of_kind invalid_audience = RsError.auth_fail_not_for_this_server
of_kind _ = RsError.auth_fail_invalid_token

abbrev pub verified : {A : Type 0} → Result ErrorKind A → Result RsError A
verified (ok claims) = ok claims
verified (err kind) = err (of_kind kind)

-- What the requests are checked against: the decoders, the id of the server if it has one, the
-- clock, and the accounts.
pub record Server : Type 0 where
  pub decode : String → String → Result ErrorKind Claims
  pub decode_local : String → Result ErrorKind ClaimsLocal
  pub server_id : Option String
  pub now : ℤ
  pub libraries : LibraryTable
  pub accounts : Accounts

module _ (server : Server) where
  unfoldable pub verify : String → String → Result RsError Claims
  verify token server_id = verified (server.decode token server_id)

  unfoldable pub verify_local : String → Result RsError ClaimsLocal
  verify_local token = verified (server.decode_local token)

  abbrev pub user_of : Claims → Checked ServerUser → Result RsError ConnectedUser
  user_of claims (ok user) = ok (ConnectedUser.server user)
  user_of claims (err (Error.user_not_found id)) =
      ok (ConnectedUser.guest (record { id = claims.sub; name = claims.name }))
  user_of claims (err e) = err (RsError.model e)

  abbrev pub by_token : String → Option String → Result RsError ConnectedUser
  by_token token none = ok ConnectedUser.anonymous
  by_token token (some server_id) = do
    claims ← verify token server_id
    user_of claims (store_get_user server.libraries server.accounts claims.sub)

  abbrev pub is_expired : Option ℤ → Bool
  is_expired none = false
  is_expired (some expiry) = ltbℤ expiry server.now

  abbrev pub with_key : Result RsError UploadKey → Result RsError ConnectedUser
  with_key (err e) = err RsError.auth_fail
  with_key (ok key) =
      if is_expired key.expiry then err RsError.auth_fail else ok (ConnectedUser.upload_key key)

  abbrev pub by_key : Option String → Result RsError ConnectedUser
  by_key none = ok ConnectedUser.anonymous
  by_key (some key) = with_key (get_upload_key server.accounts key)

  abbrev pub by_sharetoken : Option String → Option String → Result RsError ConnectedUser
  by_sharetoken none key = by_key key
  by_sharetoken (some sharetoken) key = do
    claims ← verify_local sharetoken
    ok (ConnectedUser.share claims)

  unfoldable pub parse_auth_message : AuthMessage → Result RsError ConnectedUser
  unfolding verify verify_local store_get_user get_upload_key
  parse_auth_message auth = elim auth.token [
    | none ↦ by_sharetoken auth.sharetoken auth.key
    | some token ↦ by_token token server.server_id
  ]

abbrev pub is_admin_claim : ClaimsLocalType → Bool
is_admin_claim ClaimsLocalType.admin = true
is_admin_claim _ = false

abbrev pub share_must_be_admin : ClaimsLocalType → Result RsError (Unit {0})
share_must_be_admin kind = if is_admin_claim kind then ok tt else err RsError.forbiden

-- Whether `mw_must_be_admin` lets the request through.
unfoldable pub mw_must_be_admin : ConnectedUser → Result RsError (Unit {0})
mw_must_be_admin (ConnectedUser.server user) =
    if is_admin_role user.role then ok tt else err RsError.forbiden
mw_must_be_admin ConnectedUser.server_admin = ok tt
mw_must_be_admin (ConnectedUser.share share) = share_must_be_admin share.kind
mw_must_be_admin _ = err RsError.forbiden
