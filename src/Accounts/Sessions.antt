-- ===== src/Accounts/Sessions.antt =====
-- Login sessions (backend/app/domain/models/auth_session.py) and their store
-- (backend/app/infrastructure/external/session_auth/redis_session_store.py). Redis and the JSON text of a
-- session are parameters. Times are in whole seconds.
pub mod Index
pub mod Corrupt
pub mod History
use da_swarm.Base.{
  ℕ, zero, suc, ◌≤◌, ◌+◌, ◌-◌, max, String, ◌==◌, Bool, true, false, ◌&&◌, ◌||◌, not, Option, none,
  some, List, [], ◌∷◌, ◌≡◌, any, ltb, if◌then◌else◌,
}
use da_swarm.Accounts.Errors.{
  Result, ok, err, AuthError, recursion_error, M, ◌>>=◌, ◌>>◌, pure, raise,
}

pub data AuthClientType : Type 0 where
  web ios android unknown : AuthClientType

pub record AuthSession : Type 0 where
  pub session_id : String
  pub user_id : String
  pub client : AuthClientType
  pub created_at : ℕ
  pub expires_at : ℕ
  pub last_seen_at : ℕ
  pub ip : Option String
  pub user_agent : Option String
  pub rotated_from : Option String

-- `remaining_ttl_seconds`
abbrev pub remaining_ttl_seconds : ℕ → AuthSession → ℕ
remaining_ttl_seconds now s = s.expires_at - now

-- The keys of the store: `session:` and `user_sessions:` before an identifier, which no two of them share.
pub data Key : Type 0 where
  session_key : String → Key
  user_index_key : String → Key

abbrev pub same_key : Key → Key → Bool
same_key (session_key a) (session_key b) = a == b
same_key (user_index_key a) (user_index_key b) = a == b
same_key _ _ = false

abbrev pub contains : String → List String → Bool
contains a = any λ b. b == a

abbrev pub is_some : {A : Type 0} → Option A → Bool
is_some none = false
is_some (some _) = true

-- Redis: the commands that the store uses. A text is there until its time is over.
pub record Redis : Type 1 where
  pub State : Type 0
  pub get : ℕ → Key → State → Option String
  pub setex : ℕ → Key → ℕ → String → State → State
  pub delete : Key → State → State
  pub sadd : Key → String → State → State
  pub srem : Key → String → State → State
  pub smembers : Key → State → List String

-- Its documented behaviour on session keys, which hold texts, and index keys, which hold sets; `t` is a
-- time from the write at `now` on.
pub record IsRedis (r : Redis) : Type 0 where
  pub get-setex :
      (now t ttl : ℕ) (a b v : String) (s : r.State)
      → now ≤ t
      → r.get t (session_key b) (r.setex now (session_key a) ttl v s)
        ≡ (if a == b then if ltb t (now + ttl) then some v else none else r.get t (session_key b) s)
  pub get-delete :
      (t : ℕ) (k : Key) (b : String) (s : r.State)
      → r.get t (session_key b) (r.delete k s)
        ≡ (if same_key k (session_key b) then none else r.get t (session_key b) s)
  pub get-sadd :
      (t : ℕ) (u a b : String) (s : r.State)
      → r.get t (session_key b) (r.sadd (user_index_key u) a s) ≡ r.get t (session_key b) s
  pub get-srem :
      (t : ℕ) (u a b : String) (s : r.State)
      → r.get t (session_key b) (r.srem (user_index_key u) a s) ≡ r.get t (session_key b) s
  pub smembers-setex :
      (now ttl : ℕ) (u a v : String) (s : r.State)
      → r.smembers (user_index_key u) (r.setex now (session_key a) ttl v s)
        ≡ r.smembers (user_index_key u) s
  pub smembers-delete :
      (k : Key) (u : String) (s : r.State)
      → r.smembers (user_index_key u) (r.delete k s)
        ≡ (if same_key k (user_index_key u) then [] else r.smembers (user_index_key u) s)
  pub smembers-sadd :
      (u w a b : String) (s : r.State)
      → contains b (r.smembers (user_index_key w) (r.sadd (user_index_key u) a s))
        ≡ (u == w && a == b || contains b (r.smembers (user_index_key w) s))
  pub smembers-srem :
      (u w a b : String) (s : r.State)
      → contains b (r.smembers (user_index_key w) (r.srem (user_index_key u) a s))
        ≡ (contains b (r.smembers (user_index_key w) s) && not (u == w && a == b))

module _ (r : Redis) (encode : AuthSession → String) (decode : String → Option AuthSession) where
  -- `RedisSessionStore.create`
  unfoldable pub create_session : ℕ → AuthSession → ℕ → r.State → r.State
  create_session now session ttl s =
      r.sadd (user_index_key session.user_id) session.session_id
        (r.setex now (session_key session.session_id) (max 1 ttl) (encode session) s)

  -- `delete`, after it has looked for the session.
  unfoldable pub remove : ℕ → String → M r.State (Option AuthSession) → M r.State Bool
  remove now id look = look >>= λ found s.
      let gone = r.delete (session_key id) s in
      let there = is_some (r.get now (session_key id) s) in
      elim found [
        | none ↦ (ok there, gone)
        | some session ↦ (ok there, r.srem (user_index_key session.user_id) id gone)
      ]

  -- `get`, which calls `delete` on a text that it cannot read, which calls `get`: `depth` is how many
  -- calls deep Python goes before it raises `RecursionError`.
  unfoldable pub get_session : ℕ → ℕ → String → M r.State (Option AuthSession)
  get_session zero now id = raise recursion_error
  get_session (suc depth) now id = λ s.
      let again = get_session depth now id in
      elim (r.get now (session_key id) s) [
        | none ↦ (ok none, s)
        | some raw ↦ if raw == "" then (ok none, s) else elim (decode raw) [
          | some session ↦ (ok (some session), s)
          | none ↦ (remove now id again >> pure none) s
        ]
      ]

  module _ (depth : ℕ) where
    -- `touch`
    unfoldable pub touch : ℕ → String → ℕ → M r.State (Option AuthSession)
    touch now id ttl = get_session depth now id >>= λ found s. elim found [
      | none ↦ (ok none, s)
      | some session ↦
          let touched = record session { last_seen_at = now; expires_at = now + max 1 ttl } in
          (ok (some touched), r.setex now (session_key id) (max 1 ttl) (encode touched) s)
    ]

    -- `delete`
    abbrev pub delete_session : ℕ → String → M r.State Bool
    delete_session now id = remove now id (get_session depth now id)

  -- `DEL` of several keys: how many of them were there.
  unfoldable pub delete_keys : ℕ → List String → r.State → ℕ × r.State
  delete_keys now [] s = (0, s)
  delete_keys now (id ∷ ids) s =
      let (n, rest) = delete_keys now ids (r.delete (session_key id) s) in
      elim (r.get now (session_key id) s) [ none ↦ (n, rest) | some _ ↦ (suc n, rest) ]

  -- `delete_all_for_user`
  unfoldable pub delete_all_for_user : ℕ → String → r.State → ℕ × r.State
  delete_all_for_user now user s = elim (r.smembers (user_index_key user) s) [
    | [] ↦ (0, s)
    | id ∷ ids ↦
        let (n, rest) = delete_keys now (id ∷ ids) s in (n, r.delete (user_index_key user) rest)
  ]

  -- `list_ids_for_user`
  abbrev pub list_ids_for_user : String → r.State → List String
  list_ids_for_user user s = r.smembers (user_index_key user) s
