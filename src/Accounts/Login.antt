-- ===== src/Accounts/Login.antt =====
-- Sessions, credentials and logging out in `AuthService`
-- (backend/app/application/services/auth_service.py).
use da_swarm.Base.{
  ℕ, ◌+◌, ◌*◌, max, String, ◌==◌, Bool, true, false, ◌&&◌, Option, none, some, if◌then◌else◌,
}
use da_swarm.Base.Text.{codes, lower, same}
use da_swarm.Swarm.Json.{Value, null, str, Fields, truthy}
use da_swarm.Accounts.Errors.{ok, value_error, M, ◌>>=◌, ◌>>◌, pure, raise}
use da_swarm.Accounts.Users.{User, new_user, get_user_by_id}
use da_swarm.Accounts.Sessions.{
  AuthSession, AuthClientType, web, ios, android, unknown, create_session, get_session, touch,
}
use da_swarm.Accounts.Tokens.{get_else, verified}
use da_swarm.Accounts.Passwords.{AuthSettings, Services, AuthStore, ask_users, local_admin}

pub data CredentialSource : Type 0 where
  bearer cookie jwt_grace : CredentialSource

pub record ResolvedCredentials : Type 0 where
  pub session_id : Option String
  pub user_id : String
  pub source : CredentialSource
  pub jwt_payload : Option Fields

pub record AuthToken : Type 0 where
  pub access_token : String
  pub refresh_token : String
  pub user : Option User

-- `not s`
abbrev pub is_missing : Option String → Bool
is_missing none = true
is_missing (some s) = s == ""

-- `a or b`
abbrev pub or_else : Option String → Option String → Option String
or_else a b = if is_missing a then b else a

abbrev pub is_text : String → Value → Bool
is_text s (str t) = t == s
is_text s _ = false

-- What Pydantic takes for a text.
abbrev pub text_of : {S : Type 0} → Value → M S String
text_of (str s) = pure s
text_of _ = raise value_error

-- A call of the session store.
abbrev pub on_sessions : {w : Services} {A : Type 0} → M w.redis.State A → M (AuthStore w) A
on_sessions f s = let (a, sessions) = f s.sessions in (a, record s { sessions = sessions })

-- `parse_client`
unfoldable pub parse_client : Option String → AuthClientType
parse_client none = unknown
parse_client (some raw) =
    let name = lower (codes raw) in
    if same name (codes "web")
    then web
    else if same name (codes "ios")
    then ios
    else if same name (codes "android")
    then android
    else unknown

module _ (w : Services) (settings : AuthSettings) where
  abbrev pub Auth : Type 0 → Type 0
  Auth = M (AuthStore w)

  -- `_ttl_seconds_for_client`
  unfoldable pub ttl_seconds_for_client : AuthClientType → ℕ
  ttl_seconds_for_client ios = max 1 (settings.session_app_ttl_days * 24 * 3600)
  ttl_seconds_for_client android = max 1 (settings.session_app_ttl_days * 24 * 3600)
  ttl_seconds_for_client _ = max 1 (settings.session_web_ttl_days * 24 * 3600)

  -- What the client sent with a request for a session.
  pub record Client : Type 0 where
    pub client : AuthClientType
    pub ip : Option String
    pub user_agent : Option String

  -- The session that `create_auth_session` makes.
  abbrev pub new_session : ℕ → String → String → Client → Option String → AuthSession
  new_session now id user_id c rotated_from = record {
    session_id = id;
    user_id = user_id;
    client = c.client;
    created_at = now;
    expires_at = now + ttl_seconds_for_client c.client;
    last_seen_at = now;
    ip = c.ip;
    user_agent = c.user_agent;
    rotated_from = rotated_from;
  }

  -- `create_auth_session`
  unfoldable pub create_auth_session : ℕ → String → User → Client → Option String → Auth AuthSession
  create_auth_session now id user c rotated_from s =
      let session = new_session now id user.id c rotated_from in
      (
        ok session,
        record s {
          sessions =
              create_session w.redis w.encode w.decode now session (ttl_seconds_for_client c.client)
                s.sessions;
        },
      )

  abbrev pub if_active : Option User → Option User
  if_active none = none
  if_active (some u) = if u.is_active then some u else none

  -- `_user_from_id`
  unfoldable pub user_from_id : ℕ → String → Auth (Option User)
  user_from_id now user_id =
      if settings.auth_provider == "password"
      then ask_users (λ users. if_active (get_user_by_id user_id users))
      else if settings.auth_provider == "local" && user_id == "local_admin"
      then (new_user w.lower (local_admin w settings now settings.local_auth_email)
          >>= (λ u. pure (some u)))
      else pure none

  abbrev pub credentials_of : AuthSession → ResolvedCredentials
  credentials_of session = record {
    session_id = some session.session_id;
    user_id = session.user_id;
    source = bearer;
    jwt_payload = none;
  }

  -- `resolve_session_token`
  unfoldable pub resolve_session_token : ℕ → String → Auth (Option ResolvedCredentials)
  resolve_session_token now token =
      on_sessions (get_session w.redis w.encode w.decode w.depth now token) >>= λ session.
      elim session [
        | none ↦ pure none
        | some a ↦
            on_sessions
              (touch w.redis w.encode w.decode w.depth now token (ttl_seconds_for_client a.client))
            >> pure (some (credentials_of a))
      ]

  abbrev pub no_credentials : Auth (Option ResolvedCredentials)
  no_credentials = pure none

  -- `resolve_jwt_grace` on the payload of a token.
  unfoldable pub jwt_credentials : Fields → Auth (Option ResolvedCredentials)
  jwt_credentials payload =
      if is_text "access" (get_else "type" (str "access") payload)
        && truthy (get_else "sub" null payload)
      then (text_of (get_else "sub" null payload) >>= (λ user_id. pure (
          some (record {
            session_id = none;
            user_id = user_id;
            source = jwt_grace;
            jwt_payload = some payload;
          }))))
      else no_credentials

  -- `resolve_jwt_grace`
  unfoldable pub resolve_jwt_grace : ℕ → String → Auth (Option ResolvedCredentials)
  resolve_jwt_grace now token =
      if settings.session_jwt_grace_enabled
      then elim (verified w.jwt_encode w.jwt_decode now token) [
        | none ↦ no_credentials
        | some payload ↦ jwt_credentials payload
      ]
      else no_credentials

  abbrev pub or_try :
      Auth (Option ResolvedCredentials)
      → Auth (Option ResolvedCredentials)
      → Auth (Option ResolvedCredentials)
  or_try first second =
      first >>= λ c. elim c [ none ↦ second | some resolved ↦ pure (some resolved) ]

  abbrev pub from_cookie : Option ResolvedCredentials → Option ResolvedCredentials
  from_cookie none = none
  from_cookie (some c) = some (record c { source = cookie })

  -- `resolve_credentials`, the part for a bearer token and the part for a cookie.
  unfoldable pub resolve_bearer : ℕ → Option String → Auth (Option ResolvedCredentials)
  resolve_bearer now none = no_credentials
  resolve_bearer now (some token) =
      if token == ""
      then no_credentials
      else or_try (resolve_session_token now token) (resolve_jwt_grace now token)

  unfoldable pub resolve_cookie : ℕ → Option String → Auth (Option ResolvedCredentials)
  resolve_cookie now none = no_credentials
  resolve_cookie now (some id) =
      if id == ""
      then no_credentials
      else (resolve_session_token now id >>= (λ c. pure (from_cookie c)))

  unfoldable pub resolve_credentials :
      ℕ → Option String → Option String → Auth (Option ResolvedCredentials)
  resolve_credentials now bearer_token cookie_session_id =
      or_try (resolve_bearer now bearer_token) (resolve_cookie now cookie_session_id)
