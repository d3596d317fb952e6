-- ===== src/Accounts/Trust.antt =====
-- Whom `parse_auth_message` and `mw_must_be_admin` trust.
use redseat_rust.Base.{
  String, Bool, false, not, ◌&&◌, ◌≡◌, ◌↔◌, refl, subst, is_ok, Option, none, some, Result, ok, err,
  arith, ◌>>=◌, ◌==◌, string_eq, find, ok_or, inl, inr, Bool-cases,
}
use redseat_rust.Access.Users.{ServerUser, UploadKey, ConnectedUser, Error, RsError}
use redseat_rust.Access.Checks.{is_admin, is_admin_role, is_admin_kind}
use redseat_rust.Accounts.{UserRow, find_user, store_get_user, found_user}
use redseat_rust.Access.Users.{ClaimsLocal, ClaimsLocalType}
use redseat_rust.Accounts.Keys.{get_upload_key}
use redseat_rust.Accounts.Tokens.{
  ErrorKind, Claims, AuthMessage, Server, verified, verify, verify_local, user_of, by_token,
  is_expired, with_key, by_key, by_sharetoken, parse_auth_message, share_must_be_admin,
  mw_must_be_admin,
}

-- What makes a request one of the user: a token that decodes for this server, of a known user or of
-- an unknown one, who is a guest; without a token a share token that decodes; without either a key
-- that stands in the table and is not expired; or none of them, or a token before the server has an
-- id.
pub data Trusted (server : Server) (auth : AuthMessage) : ConnectedUser → Type 0 where
  by_known :
      (token id : String) (claims : Claims) (user : ServerUser)
      → auth.token ≡ some token
      → server.server_id ≡ some id
      → server.decode token id ≡ ok claims
      → store_get_user server.libraries server.accounts claims.sub ≡ ok user
      → Trusted server auth (ConnectedUser.server user)
  by_unknown :
      (token id : String) (claims : Claims)
      → auth.token ≡ some token
      → server.server_id ≡ some id
      → server.decode token id ≡ ok claims
      → find_user server.accounts claims.sub ≡ none
      → Trusted server auth (ConnectedUser.guest (record { id = claims.sub; name = claims.name }))
  without_id :
      (token : String)
      → auth.token ≡ some token
      → server.server_id ≡ none
      → Trusted server auth ConnectedUser.anonymous
  by_share :
      (token : String) (claims : ClaimsLocal)
      → auth.token ≡ none
      → auth.sharetoken ≡ some token
      → server.decode_local token ≡ ok claims
      → Trusted server auth (ConnectedUser.share claims)
  by_upload :
      (id : String) (key : UploadKey)
      → auth.token ≡ none
      → auth.sharetoken ≡ none
      → auth.key ≡ some id
      → find (λ k. k.id == id) server.accounts.upload_keys ≡ some key
      → is_expired server key.expiry ≡ false
      → Trusted server auth (ConnectedUser.upload_key key)
  by_nothing :
      auth.token ≡ none
      → auth.sharetoken ≡ none
      → auth.key ≡ none
      → Trusted server auth ConnectedUser.anonymous

module _ (server : Server) (auth : AuthMessage) where
  abbrev Trusts : Result RsError ConnectedUser → Type 0
  Trusts (err e) = Unit
  Trusts (ok u) = Trusted server auth u

  user_of-Trusts :
      (token id : String) (claims : Claims)
      → auth.token ≡ some token
      → server.server_id ≡ some id
      → server.decode token id ≡ ok claims
      → Trusts (user_of server claims (store_get_user server.libraries server.accounts claims.sub))
  unfolding store_get_user
  user_of-Trusts token id claims t s d = cases (find_user server.accounts claims.sub) refl
    where
      cases :
          (row : Option UserRow)
          → find_user server.accounts claims.sub ≡ row
          → Trusts
              (user_of server claims (found_user server.libraries server.accounts claims.sub row))
      cases none e = by_unknown token id claims t s d e
      cases (some row) e = by_known token id claims _ t s d (rw e refl)

  by_token-Trusts :
      (token : String) → auth.token ≡ some token → Trusts (by_token server token server.server_id)
  unfolding verify
  by_token-Trusts token t = identified server.server_id refl
    where
      decoded :
          (id : String) (r : Result ErrorKind Claims)
          → server.server_id ≡ some id
          → server.decode token id ≡ r
          → Trusts (
              verified r >>= λ claims.
              user_of server claims (store_get_user server.libraries server.accounts claims.sub))
      decoded id (ok claims) s d = user_of-Trusts token id claims t s d
      decoded id (err kind) s d = tt

      identified : (id : Option String) → server.server_id ≡ id → Trusts (by_token server token id)
      identified none s = without_id token t s
      identified (some id) s = decoded id (server.decode token id) s refl

  with_key-Trusts :
      (id : String) (o : Option UploadKey)
      → auth.token ≡ none
      → auth.sharetoken ≡ none
      → auth.key ≡ some id
      → find (λ k. k.id == id) server.accounts.upload_keys ≡ o
      → Trusts (with_key server (ok_or o (RsError.model (Error.store "Query returned no rows"))))
  with_key-Trusts id none t s k e = tt
  with_key-Trusts id (some key) t s k e = elim (Bool-cases (is_expired server key.expiry)) [
    | inl old ↦ rw old tt
    | inr fresh ↦ rw fresh (by_upload id key t s k e fresh)
  ]

  by_key-Trusts :
      (key : Option String)
      → auth.token ≡ none
      → auth.sharetoken ≡ none
      → auth.key ≡ key
      → Trusts (by_key server key)
  unfolding get_upload_key
  by_key-Trusts none t s k = by_nothing t s k
  by_key-Trusts (some id) t s k =
      with_key-Trusts id (find (λ k. k.id == id) server.accounts.upload_keys) t s k refl

  by_sharetoken-Trusts :
      (share : Option String)
      → auth.token ≡ none
      → auth.sharetoken ≡ share
      → Trusts (by_sharetoken server share auth.key)
  unfolding verify_local
  by_sharetoken-Trusts none t s = by_key-Trusts auth.key t s refl
  by_sharetoken-Trusts (some token) t s = decoded (server.decode_local token) refl
    where
      decoded :
          (r : Result ErrorKind ClaimsLocal)
          → server.decode_local token ≡ r
          → Trusts (verified r >>= λ claims. ok (ConnectedUser.share claims))
      decoded (ok claims) d = by_share token claims t s d
      decoded (err kind) d = tt

  parse-Trusts : Trusts (parse_auth_message server auth)
  unfolding parse_auth_message
  parse-Trusts = cases auth.token refl
    where
      cases :
          (token : Option String)
          → auth.token ≡ token
          → Trusts (elim token [
            | none ↦ by_sharetoken server auth.sharetoken auth.key
            | some token ↦ by_token server token server.server_id
          ])
      cases none t = by_sharetoken-Trusts auth.sharetoken t refl
      cases (some token) t = by_token-Trusts token t

  Trusted-parse :
      {u : ConnectedUser} → Trusted server auth u → parse_auth_message server auth ≡ ok u
  unfolding parse_auth_message verify verify_local store_get_user get_upload_key
  Trusted-parse (by_known token id claims user t s d e) = rw (t, s, d, e) refl
  Trusted-parse (by_unknown token id claims t s d e) = rw (t, s, d, e) refl
  Trusted-parse (without_id token t s) = rw (t, s) refl
  Trusted-parse (by_share token claims t s d) = rw (t, s, d) refl
  Trusted-parse (by_upload id key t s k e fresh) = rw (t, s, k, e, fresh) refl
  Trusted-parse (by_nothing t s k) = rw (t, s, k) refl

  -- A request is one of the user `u` exactly if the relation `Trusted` says so. In particular no
  -- request is one of `ServerAdmin`, and an expired upload key or a token that does not decode for
  -- this server gives no user at all.
  pub parse_auth_message_iff :
      (u : ConnectedUser) → (parse_auth_message server auth ≡ ok u) ↔ Trusted server auth u
  parse_auth_message_iff u = (λ h. subst Trusts h parse-Trusts, Trusted-parse)

-- The claim of a share token is the user role `Admin`.
abbrev pub is_admin_role_claim : ClaimsLocalType → Bool
is_admin_role_claim (ClaimsLocalType.user_role role) = is_admin_role role
is_admin_role_claim _ = false

abbrev pub claims_admin_role : ConnectedUser → Bool
claims_admin_role (ConnectedUser.share c) = is_admin_role_claim c.kind
claims_admin_role _ = false

-- The middleware `mw_must_be_admin` lets through exactly the users for whom `is_admin` holds, but
-- for the bearers of a share token whose claim is the user role `Admin`, whom it refuses.
mw_must_be_admin-eq-is_admin :
    (u : ConnectedUser) → is_ok (mw_must_be_admin u) ≡ (is_admin u && not (claims_admin_role u))
unfolding mw_must_be_admin is_admin
mw_must_be_admin-eq-is_admin (ConnectedUser.server s) = ground arith
mw_must_be_admin-eq-is_admin (ConnectedUser.share c) = by_kind c.kind
  where
    by_kind :
        (k : ClaimsLocalType)
        → is_ok (share_must_be_admin k) ≡ (is_admin_kind k && not (is_admin_role_claim k))
    by_kind (ClaimsLocalType.user_role r) = ground arith
    by_kind (ClaimsLocalType.file l f) = refl
    by_kind (ClaimsLocalType.request_url u) = refl
    by_kind ClaimsLocalType.admin = refl
mw_must_be_admin-eq-is_admin ConnectedUser.server_admin = refl
mw_must_be_admin-eq-is_admin (ConnectedUser.guest g) = refl
mw_must_be_admin-eq-is_admin (ConnectedUser.upload_key k) = refl
mw_must_be_admin-eq-is_admin ConnectedUser.anonymous = refl
