-- ===== src/Accounts/Access/Rotation.antt =====
-- Refreshing with a new session (backend/app/application/services/auth_service.py).
use da_swarm.Base.{
  eq_refl, ℕ, suc, ◌+◌, ◌≤◌, max, String, ◌==◌, true, false, Option, none, some, ◌≡◌, refl, arith,
  ltb, if◌then◌else◌,
}
use da_swarm.Accounts.Errors.{ok}
use da_swarm.Accounts.Users.{User}
use da_swarm.Accounts.Sessions.{
  AuthSession, Redis, IsRedis, session_key, user_index_key, create_session, get_session, remove,
}
use da_swarm.Accounts.Sessions.Index.{IsCodec}
use da_swarm.Accounts.Sessions.Corrupt.{create_session-get_session}
use da_swarm.Accounts.Passwords.{AuthSettings, Services, AuthStore}
use da_swarm.Accounts.Login.{ttl_seconds_for_client, new_session, create_auth_session, user_from_id}
use da_swarm.Accounts.Access.{token_pair, refresh_session, refresh_access_token}

-- The session that replaces `a`, which `token` named.
abbrev pub replacement :
    (w : Services) → AuthSettings → ℕ → String → String → User → AuthSession → AuthSession
replacement w settings now id token u a =
    new_session w settings now id u.id
      (record { client = a.client; ip = a.ip; user_agent = a.user_agent }) (some token)

module _ (w : Services) (settings : AuthSettings) (now : ℕ) (id token : String) (u : User)
    (a : AuthSession) where
  -- The store after the rotation.
  rotated : w.redis.State → w.redis.State
  rotated s =
      create_session w.redis w.encode w.decode now (replacement w settings now id token u a)
        (ttl_seconds_for_client w settings a.client)
        (w.redis.srem (user_index_key a.user_id) token (w.redis.delete (session_key token) s))

  refresh_access_token-rotated :
      (s : AuthStore w)
      → (token == "") ≡ false
      → get_session w.redis w.encode w.decode w.depth now token s.sessions
        ≡ (ok (some a), s.sessions)
      → user_from_id w settings now a.user_id s ≡ (ok (some u), s)
      → u.is_active ≡ true
      → refresh_access_token w settings now id (some token) none true s
        ≡ (ok (token_pair w settings id none), record s { sessions = rotated s.sessions })
  unfolding refresh_access_token refresh_session remove create_auth_session rotated
  refresh_access_token-rotated s shown there known active =
      rw (refresh_access_token, shown, shown, there, refresh_session, known, active, remove, there)
        refl

  get-rotated :
      (t : ℕ) (s : w.redis.State)
      → IsRedis w.redis
      → now ≤ t
      → (id == token) ≡ false
      → w.redis.get t (session_key token) (rotated s) ≡ none
  unfolding rotated create_session
  get-rotated t s redis late other = ground (
    arith,
    redis.get-sadd t u.id id token (set s),
    redis.get-setex now t (max 1 (ttl_seconds_for_client w settings a.client)) id token
        (w.encode (replacement w settings now id token u a)) (gone s),
    redis.get-srem t a.user_id token token (w.redis.delete (session_key token) s),
    redis.get-delete t (session_key token) token s,
    eq_refl token,
  )
    where
      gone : w.redis.State → w.redis.State
      gone s = w.redis.srem (user_index_key a.user_id) token (w.redis.delete (session_key token) s)

      set : w.redis.State → w.redis.State
      set s =
          w.redis.setex now (session_key id) (max 1 (ttl_seconds_for_client w settings a.client))
            (w.encode (replacement w settings now id token u a)) (gone s)

absent-get :
    (r : Redis) (encode : AuthSession → String) (decode : String → Option AuthSession) (depth t : ℕ)
    (token : String) (s : r.State)
    → r.get t (session_key token) s ≡ none
    → get_session r encode decode (suc depth) t token s ≡ (ok none, s)
unfolding get_session
absent-get r encode decode depth t token s e = rw (get_session, e) refl

-- A rotation gives a new session for the same login: the answer names it, it is found until its time is
-- over, and the old one is never found again.
pub refresh_access_token-rotates :
    (w : Services) (settings : AuthSettings) (now t : ℕ) (id token : String) (depth : ℕ) (u : User)
    (a : AuthSession) (s : AuthStore w)
    → IsRedis w.redis
    → IsCodec w.encode w.decode
    → now ≤ t
    → (id == token) ≡ false
    → (token == "") ≡ false
    → get_session w.redis w.encode w.decode w.depth now token s.sessions ≡ (ok (some a), s.sessions)
    → user_from_id w settings now a.user_id s ≡ (ok (some u), s)
    → u.is_active ≡ true
    → (s' : AuthStore w) × (refresh_access_token w settings now id (some token) none true s
        ≡ (ok (token_pair w settings id none), s'))
      × (get_session w.redis w.encode w.decode (suc depth) t token s'.sessions
          ≡ (ok none, s'.sessions))
      × ((get_session w.redis w.encode w.decode (suc depth) t id s'.sessions).0
          ≡ ok (
              if ltb t (now + max 1 (ttl_seconds_for_client w settings a.client))
              then some (replacement w settings now id token u a)
              else none))
unfolding rotated
refresh_access_token-rotates w settings now t id token depth u a s redis codec late other shown
      there known active =
    (
      record s { sessions = rotated w settings now id token u a s.sessions },
      refresh_access_token-rotated w settings now id token u a s shown there known active,
      absent-get w.redis w.encode w.decode depth t token _
          (get-rotated w settings now id token u a t s.sessions redis late other),
      create_session-get_session w.redis w.encode w.decode depth now t
          (ttl_seconds_for_client w settings a.client) (replacement w settings now id token u a) _
          redis codec late,
    )
