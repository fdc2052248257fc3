-- ===== src/Accounts/Passwords.antt =====
-- Registration, passwords and the state of an account in `AuthService`
-- (backend/app/application/services/auth_service.py).
pub mod Registration
use da_swarm.Base.{
  ℕ, String, ◌==◌, Bool, true, false, ◌&&◌, ◌||◌, not, Option, none, some, List, eqb, ltb, length,
  if◌then◌else◌,
}
use da_swarm.Base.Text.{append, codes, strip}
use da_swarm.Swarm.Json.{Value, Fields}
use da_swarm.Accounts.Errors.{
  Result, ok, err, AuthError, unauthorized, validation, bad_request, value_error, M, ◌>>=◌, ◌>>◌,
  pure, raise, raise_if,
}
use da_swarm.Accounts.Users.{
  User, is_too_short, is_no_email, new_user, get_user_by_email, get_user_by_id, email_exists,
  create_user, update_user, update_last_login, deactivate, activate,
}
use da_swarm.Accounts.Sessions.{AuthSession, Redis}

-- The settings that the service reads.
pub record AuthSettings : Type 0 where
  pub auth_provider : String
  pub password_salt : Option String
  pub password_hash_rounds : ℕ
  pub local_auth_email : String
  pub local_auth_password : String
  pub session_web_ttl_days : ℕ
  pub session_app_ttl_days : ℕ
  pub session_jwt_grace_enabled : Bool

-- What the service calls: Redis, the JSON of sessions, how many calls deep Python goes, `str.lower`,
-- `pbkdf2_hmac` with the hexadecimal text of its result, PyJWT, and how Pydantic reads a boolean.
pub record Services : Type 1 where
  pub redis : Redis
  pub encode : AuthSession → String
  pub decode : String → Option AuthSession
  pub depth : ℕ
  pub lower : String → String
  pub pbkdf2 : String → String → ℕ → String
  pub jwt_encode : Fields → String
  pub jwt_decode : ℕ → String → Option Fields
  pub to_bool : Value → Option Bool

pub record AuthStore (w : Services) : Type 0 where
  pub users : List User
  pub sessions : w.redis.State

-- A call of the user repository.
abbrev pub on_users :
    {w : Services} {A : Type 0} → (List User → Result A × List User) → M (AuthStore w) A
on_users f s = let (a, users) = f s.users in (a, record s { users = users })

abbrev pub ask_users : {w : Services} {A : Type 0} → (List User → A) → M (AuthStore w) A
ask_users f s = (ok (f s.users), s)

-- `if not user: raise e`
abbrev pub or_raise : {S : Type 0} → AuthError → Option User → M S User
or_raise e none = raise e
or_raise e (some u) = pure u

-- `not password or len(password) < 6`
abbrev pub is_weak : String → Bool
is_weak password = ltb (length (codes password)) 6

module _ (w : Services) (settings : AuthSettings) where
  abbrev pub Auth : Type 0 → Type 0
  Auth = M (AuthStore w)

  -- `_hash_password` and `_pbkdf2_sha256`
  unfoldable pub hash_password : String → String
  hash_password password =
      let salt : String = elim settings.password_salt [ none ↦ "" | some t ↦ t ] in
      let rounds : ℕ =
        if eqb settings.password_hash_rounds 0 then 10 else settings.password_hash_rounds in
      append salt (w.pbkdf2 password salt rounds)

  -- `_verify_password`
  unfoldable pub verify_password : String → Option String → Bool
  verify_password password none = false
  verify_password password (some h) = not (h == "") && hash_password password == h

  -- The checks of `register_user`.
  unfoldable pub check_registration : String → String → String → Auth (Unit {0})
  check_registration fullname password email = do
    raise_if (not (settings.auth_provider == "password")) bad_request
    raise_if (is_too_short fullname) validation
    raise_if (is_no_email email) validation
    raise_if (is_weak password) validation
    exists ← ask_users (email_exists w.lower email)
    raise_if exists validation

  -- `register_user`
  unfoldable pub register_user : ℕ → String → String → String → String → String → Auth User
  register_user now id fullname password email role = do
    check_registration fullname password email
    user ← new_user w.lower (record {
      id = id;
      fullname = strip fullname;
      email = w.lower email;
      password_hash = some (hash_password password);
      role = role;
      is_active = true;
      created_at = now;
      updated_at = now;
      last_login_at = none;
    })
    on_users (create_user user)

  -- The user of a provider without a database.
  abbrev pub fixed_user : ℕ → String → String → String → String → User
  fixed_user now id fullname email role = record {
    id = id;
    fullname = fullname;
    email = email;
    password_hash = none;
    role = role;
    is_active = true;
    created_at = now;
    updated_at = now;
    last_login_at = none;
  }

  abbrev pub local_admin : ℕ → String → User
  local_admin now email = fixed_user now "local_admin" "Local Admin" email "admin"

  abbrev pub may_log_in : String → User → Bool
  may_log_in password u = u.is_active && verify_password password u.password_hash

  -- The part of `authenticate_user` for users of the database.
  unfoldable pub authenticate_password : ℕ → String → String → Auth (Option User)
  authenticate_password now email password =
      ask_users (get_user_by_email w.lower email) >>= λ candidate. elim candidate [
        | none ↦ pure none
        | some u ↦
            if may_log_in password u
            then (on_users (update_user (update_last_login now u))
                >> pure (some (update_last_login now u)))
            else pure none
      ]

  abbrev pub logged_in : User → Auth (Option User)
  logged_in u = new_user w.lower u >>= λ v. pure (some v)

  -- `authenticate_user`
  unfoldable pub authenticate_user : ℕ → String → String → Auth (Option User)
  authenticate_user now email password =
      if settings.auth_provider == "none"
      then logged_in (fixed_user now "anonymous" "anonymous" "anonymous@localhost" "user")
      else if settings.auth_provider == "local"
      then (if email == settings.local_auth_email && password == settings.local_auth_password
          then logged_in (local_admin now email)
          else pure none)
      else if settings.auth_provider == "password"
      then authenticate_password now email password
      else raise value_error

  -- `change_password`
  unfoldable pub change_password : ℕ → String → String → String → Auth Bool
  change_password now user_id old_password new_password = do
    candidate ← ask_users (get_user_by_id user_id)
    user ← or_raise validation candidate
    raise_if (not user.is_active) unauthorized
    raise_if (not (verify_password old_password user.password_hash)) unauthorized
    raise_if (is_weak new_password) validation
    on_users (
        update_user
          (record user { password_hash = some (hash_password new_password); updated_at = now }))
    pure true

  -- `change_fullname`
  unfoldable pub change_fullname : ℕ → String → String → Auth User
  change_fullname now user_id new_fullname = do
    candidate ← ask_users (get_user_by_id user_id)
    user ← or_raise validation candidate
    raise_if (not user.is_active) unauthorized
    raise_if (is_too_short new_fullname) validation
    on_users (update_user (record user { fullname = strip new_fullname; updated_at = now }))

  -- `deactivate_user`
  unfoldable pub deactivate_user : ℕ → String → Auth Bool
  deactivate_user now user_id = do
    candidate ← ask_users (get_user_by_id user_id)
    user ← or_raise validation candidate
    on_users (update_user (deactivate now user))
    pure true

  -- `activate_user`
  unfoldable pub activate_user : ℕ → String → Auth Bool
  activate_user now user_id = do
    candidate ← ask_users (get_user_by_id user_id)
    user ← or_raise validation candidate
    on_users (update_user (activate now user))
    pure true

  -- `reset_password`
  unfoldable pub reset_password : ℕ → String → String → Auth Bool
  reset_password now email new_password = do
    raise_if (not (settings.auth_provider == "password")) bad_request
    candidate ← ask_users (get_user_by_email w.lower email)
    user ← or_raise validation candidate
    raise_if (not user.is_active) unauthorized
    raise_if (is_weak new_password) validation
    on_users (
        update_user
          (record user { password_hash = some (hash_password new_password); updated_at = now }))
    pure true
