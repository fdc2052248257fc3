-- ===== src/Accounts/Access.antt =====
-- Who a request is, logging in, refreshing and logging out in `AuthService`
-- (backend/app/application/services/auth_service.py).
pub mod Lockout
pub mod Rotation
use da_swarm.Base.{
  ℕ, String, ◌==◌, Bool, true, false, ◌&&◌, ◌||◌, not, Option, none, some, if◌then◌else◌,
}
use da_swarm.Swarm.Json.{Value, null, boolean, str, Fields, truthy, dict, get_or}
use da_swarm.Accounts.Errors.{
  Result, ok, err, unauthorized, bad_request, value_error, M, ◌>>=◌, ◌>>◌, pure, raise, raise_if,
}
use da_swarm.Accounts.Users.{User, new_user, get_user_by_id}
use da_swarm.Accounts.Sessions.{
  AuthSession, AuthClientType, unknown, Redis, get_session, touch, delete_session,
  delete_all_for_user,
}
use da_swarm.Accounts.Tokens.{get_else, verified, revoke_token}
use da_swarm.Accounts.Passwords.{
  AuthSettings, Services, AuthStore, ask_users, or_raise, fixed_user, authenticate_user,
}
use da_swarm.Accounts.Login.{
  AuthToken, ResolvedCredentials, CredentialSource, bearer, cookie, jwt_grace, Client, is_missing,
  or_else, is_text, text_of, on_sessions, ttl_seconds_for_client, create_auth_session, if_active,
  user_from_id, resolve_session_token, resolve_jwt_grace, or_try,
}

module _ (w : Services) (settings : AuthSettings) where
  abbrev pub Auth : Type 0 → Type 0
  Auth = M (AuthStore w)

  abbrev pub bool_of : Value → Auth Bool
  bool_of v = elim (w.to_bool v) [ none ↦ raise value_error | some b ↦ pure b ]

  -- The user that a token speaks of.
  unfoldable pub user_of_payload : ℕ → Fields → Auth (Option User)
  user_of_payload now payload = do
    id ← text_of (get_else "sub" null payload)
    fullname ← text_of (get_or "fullname" (str "user") payload)
    email ← text_of (get_else "email" null payload)
    role ← text_of (get_else "role" (str "user") payload)
    is_active ← bool_of (get_else "is_active" (boolean true) payload)
    user ← new_user w.lower (record {
      id = id;
      fullname = fullname;
      email = email;
      password_hash = none;
      role = role;
      is_active = is_active;
      created_at = now;
      updated_at = now;
      last_login_at = none;
    })
    pure (some user)

  -- The payload that `user_from_resolved` goes by, if it does.
  abbrev pub payload_of : ResolvedCredentials → Option Fields
  payload_of c = elim c.source [
    | bearer ↦ none
    | cookie ↦ none
    | jwt_grace ↦ elim c.jwt_payload [
      | none ↦ none
      | some p ↦ if truthy (dict p) then some p else none
    ]
  ]

  -- `user_from_resolved`
  unfoldable pub user_from_resolved : ℕ → ResolvedCredentials → Auth (Option User)
  user_from_resolved now c =
      if settings.auth_provider == "password"
      then user_from_id w settings now c.user_id
      else elim (payload_of c) [
        | none ↦ user_from_id w settings now c.user_id
        | some payload ↦ user_of_payload now payload
      ]

  abbrev pub if_resolved : ℕ → Option ResolvedCredentials → Auth (Option User)
  if_resolved now none = pure none
  if_resolved now (some c) = user_from_resolved now c

  -- `verify_token`
  unfoldable pub verify_user_token : ℕ → String → Auth (Option User)
  verify_user_token now token =
      or_try w settings (resolve_session_token w settings now token)
        (resolve_jwt_grace w settings now token)
      >>= λ c. if_resolved now c

  abbrev pub token_pair : String → Option User → AuthToken
  token_pair id user = record { access_token = id; refresh_token = id; user = user }

  -- `login_with_session`, with the identifier that the session gets.
  unfoldable pub login_with_session :
      ℕ → String → String → String → Client w settings → Auth AuthToken
  login_with_session now id email password c = do
    candidate ← authenticate_user w settings now email password
    user ← or_raise unauthorized candidate
    session ← create_auth_session w settings now id user c none
    pure (token_pair session.session_id (some user))

  -- What `refresh_access_token` does with a session that it found.
  unfoldable pub refresh_session : ℕ → String → String → Bool → AuthSession → Auth AuthToken
  refresh_session now id token rotate session = do
    candidate ← user_from_id w settings now session.user_id
    user ← or_raise unauthorized candidate
    raise_if (not user.is_active) unauthorized
    if rotate
        then (do
          on_sessions (delete_session w.redis w.encode w.decode w.depth now token)
          created ←
              create_auth_session w settings now id user
                (record {
                  client = session.client;
                  ip = session.ip;
                  user_agent = session.user_agent;
                })
                (some token)
          pure (token_pair created.session_id none))
        else (do
          on_sessions (
              touch w.redis w.encode w.decode w.depth now token
                (ttl_seconds_for_client w settings session.client))
          pure (token_pair token none))

  -- The active user in the database, of a payload's `sub`.
  abbrev pub user_of_sub : Value → Auth (Option User)
  user_of_sub (str id) =
      ask_users (λ users. if id == "" then none else if_active w settings (get_user_by_id id users))
  user_of_sub _ = pure none

  -- What it does with a refresh token from before there were sessions. Where it builds a user itself, it
  -- gives `None` for the email, which `User` does not take.
  unfoldable pub refresh_legacy : ℕ → String → Fields → Auth AuthToken
  refresh_legacy now id payload = do
    raise_if (not (is_text "refresh" (get_else "type" null payload))) unauthorized
    candidate ← user_of_sub (get_else "sub" null payload)
    user ←
        or_raise
          (if not (settings.auth_provider == "password") && truthy (get_else "sub" null payload)
            then value_error
            else unauthorized)
          candidate
    session ←
        create_auth_session w settings now id user
          (record { client = unknown; ip = none; user_agent = none }) none
    pure (token_pair session.session_id none)

  abbrev pub refresh_found : ℕ → String → String → Bool → Option AuthSession → Auth AuthToken
  refresh_found now id token rotate (some session) = refresh_session now id token rotate session
  refresh_found now id token rotate none =
      if settings.session_jwt_grace_enabled
      then elim (verified w.jwt_encode w.jwt_decode now token) [
        | none ↦ raise unauthorized
        | some payload ↦ refresh_legacy now id payload
      ]
      else raise unauthorized

  abbrev pub refresh_token_of : ℕ → String → Bool → String → Auth AuthToken
  refresh_token_of now id rotate token =
      on_sessions (get_session w.redis w.encode w.decode w.depth now token) >>= λ session.
      refresh_found now id token rotate session

  -- `refresh_access_token`
  unfoldable pub refresh_access_token :
      ℕ → String → Option String → Option String → Bool → Auth AuthToken
  refresh_access_token now id refresh_token cookie_session_id rotate =
      if is_missing (or_else refresh_token cookie_session_id)
      then raise unauthorized
      else elim (or_else refresh_token cookie_session_id) [
        | none ↦ raise unauthorized
        | some token ↦ refresh_token_of now id rotate token
      ]

  -- `logout`
  unfoldable pub logout : ℕ → String → Auth Bool
  logout now token = do
    raise_if (settings.auth_provider == "none") bad_request
    deleted ← on_sessions (delete_session w.redis w.encode w.decode w.depth now token)
    pure (if deleted then true else revoke_token token)

  -- `logout_all`
  unfoldable pub logout_all : ℕ → String → Auth ℕ
  logout_all now user_id = do
    raise_if (settings.auth_provider == "none") bad_request
    on_sessions (λ s.
        let (n, rest) = delete_all_for_user w.redis w.encode w.decode now user_id s in (ok n, rest))
