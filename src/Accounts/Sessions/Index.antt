-- ===== src/Accounts/Sessions/Index.antt =====
-- The index of a user's sessions names all of them
-- (backend/app/infrastructure/external/session_auth/redis_session_store.py).
use mathlib.Core.Bool.{false≢true}
use da_swarm.Base.{
  subst, ◌⊎◌, ℕ, ◌≤◌, max, String, ◌==◌, eq_iff, eq_refl, true, false, Option, none, some, List, [],
  ◌∷◌, ◌≡◌, refl, sym, ap, ◌∙◌, arith, inl, inr, if◌then◌else◌, Bool-cases,
}
use da_swarm.Accounts.Sessions.{
  AuthSession, Key, session_key, user_index_key, same_key, contains, Redis, IsRedis, create_session,
  delete_keys,
}

-- What the code relies on of the JSON text of a session.
pub record IsCodec (encode : AuthSession → String) (decode : String → Option AuthSession)
    : Type 0 where
  pub reads : (a : AuthSession) → decode (encode a) ≡ some a
  pub shows : (a : AuthSession) → (encode a == "") ≡ false

module _ (r : Redis) (decode : String → Option AuthSession) where
  -- The text under `id` is that of a session with this identifier, which its user's index names.
  pub record IsEntry (id raw : String) (s : r.State) : Type 0 where
    pub session : AuthSession
    pub shown : (raw == "") ≡ false
    pub decoded : decode raw ≡ some session
    pub named : session.session_id ≡ id
    pub indexed : contains id (r.smembers (user_index_key session.user_id) s) ≡ true

  -- From `now` on every text in the store is such an entry.
  abbrev pub IsIndexed : ℕ → r.State → Type 0
  IsIndexed now s =
      (t : ℕ) (id raw : String) → now ≤ t → r.get t (session_key id) s ≡ some raw → IsEntry id raw s

module _ {r : Redis} (redis : IsRedis r) where
  get-setex-inv :
      (now t ttl : ℕ) (a b v raw : String) (s : r.State)
      → now ≤ t
      → r.get t (session_key b) (r.setex now (session_key a) ttl v s) ≡ some raw
      → ((a ≡ b) × (v ≡ raw)) ⊎ (r.get t (session_key b) s ≡ some raw)
  get-setex-inv now t ttl a b v raw s h e =
      ground (arith, redis.get-setex now t ttl a b v s, eq_iff a b)

  get-delete-inv :
      (t : ℕ) (k : Key) (b raw : String) (s : r.State)
      → r.get t (session_key b) (r.delete k s) ≡ some raw
      → (same_key k (session_key b) ≡ false) × (r.get t (session_key b) s ≡ some raw)
  get-delete-inv t k b raw s e = ground (arith, redis.get-delete t k b s)

  contains-sadd :
      (u w a b : String) (s : r.State)
      → contains b (r.smembers (user_index_key w) s) ≡ true
      → contains b (r.smembers (user_index_key w) (r.sadd (user_index_key u) a s)) ≡ true
  contains-sadd u w a b s h = ground (arith, redis.smembers-sadd u w a b s)

  contains-sadd_self :
      (u a : String) (s : r.State)
      → contains a (r.smembers (user_index_key u) (r.sadd (user_index_key u) a s)) ≡ true
  contains-sadd_self u a s = rw (redis.smembers-sadd u u a a s, eq_refl u, eq_refl a) refl

  contains-srem :
      (u w a b : String) (s : r.State)
      → (a == b) ≡ false
      → contains b (r.smembers (user_index_key w) s) ≡ true
      → contains b (r.smembers (user_index_key w) (r.srem (user_index_key u) a s)) ≡ true
  contains-srem u w a b s n h = ground (arith, redis.smembers-srem u w a b s)

  -- `DEL` of session keys leaves the rest.
  get-delete_keys :
      (encode : AuthSession → String) (decode : String → Option AuthSession) (now t : ℕ)
      (b : String) (ids : List String) (s : r.State)
      → r.get t (session_key b) (delete_keys r encode decode now ids s).1
        ≡ (if contains b ids then none else r.get t (session_key b) s)
  unfolding delete_keys
  get-delete_keys encode decode now t b [] s = refl
  get-delete_keys encode decode now t b (id ∷ ids) s = ground (
    arith,
    redis.get-delete t (session_key id) b s,
    get-delete_keys encode decode now t b ids (r.delete (session_key id) s),
  )

  smembers-delete_keys :
      (encode : AuthSession → String) (decode : String → Option AuthSession) (now : ℕ) (u : String)
      (ids : List String) (s : r.State)
      → r.smembers (user_index_key u) (delete_keys r encode decode now ids s).1
        ≡ r.smembers (user_index_key u) s
  unfolding delete_keys
  smembers-delete_keys encode decode now u [] s = refl
  smembers-delete_keys encode decode now u (id ∷ ids) s = ground (
    arith,
    redis.smembers-delete (session_key id) u s,
    smembers-delete_keys encode decode now u ids (r.delete (session_key id) s),
  )

module _ {r : Redis} {encode : AuthSession → String} {decode : String → Option AuthSession}
    (redis : IsRedis r) (codec : IsCodec encode decode) where
  IsEntry-mono :
      (id raw : String) (s s' : r.State)
      → ((u : String)
          → contains id (r.smembers (user_index_key u) s) ≡ true
          → contains id (r.smembers (user_index_key u) s') ≡ true)
      → IsEntry r decode id raw s
      → IsEntry r decode id raw s'
  IsEntry-mono id raw s s' more e = record {
    session = e.session;
    shown = e.shown;
    decoded = e.decoded;
    named = e.named;
    indexed = more e.session.user_id e.indexed;
  }

  -- What was just written of a session that its user's index names.
  encode-IsEntry :
      (a : AuthSession) (s : r.State)
      → contains a.session_id (r.smembers (user_index_key a.user_id) s) ≡ true
      → IsEntry r decode a.session_id (encode a) s
  encode-IsEntry a s h = record {
    session = a;
    shown = codec.shows a;
    decoded = codec.reads a;
    named = refl;
    indexed = h;
  }

  -- A session is written, and nothing is taken out of an index.
  written-IsIndexed :
      (now ttl : ℕ) (a : AuthSession) (s s' : r.State)
      → ((t : ℕ) (b : String)
          → r.get t (session_key b) s'
            ≡ r.get t (session_key b) (r.setex now (session_key a.session_id) ttl (encode a) s))
      → ((u b : String)
          → contains b (r.smembers (user_index_key u) s) ≡ true
          → contains b (r.smembers (user_index_key u) s') ≡ true)
      → contains a.session_id (r.smembers (user_index_key a.user_id) s') ≡ true
      → IsIndexed r decode now s
      → IsIndexed r decode now s'
  written-IsIndexed now ttl a s s' texts more h v t id raw late e =
      elim (get-setex-inv redis now t ttl a.session_id id (encode a) raw s late
        (sym (texts t id) ∙ e)) [
          | inl (p, q) ↦
              subst (λ i. IsEntry r decode i raw s') p
                (subst (λ w. IsEntry r decode a.session_id w s') q (encode-IsEntry a s' h))
          | inr old ↦ IsEntry-mono id raw s s' (λ u. more u id) (v t id raw late old)
        ]

  pub create_session-IsIndexed :
      (now ttl : ℕ) (a : AuthSession) (s : r.State)
      → IsIndexed r decode now s
      → IsIndexed r decode now (create_session r encode decode now a ttl s)
  unfolding create_session
  create_session-IsIndexed now ttl a s =
      written-IsIndexed now (max 1 ttl) a s _ (λ t b. redis.get-sadd t a.user_id a.session_id b set)
        (λ u b m.
          contains-sadd redis a.user_id u a.session_id b set (
            ap (contains b) (redis.smembers-setex now (max 1 ttl) u a.session_id (encode a) s) ∙ m))
        (contains-sadd_self redis a.user_id a.session_id set)
    where
      set : r.State
      set = r.setex now (session_key a.session_id) (max 1 ttl) (encode a) s

  -- A session that is there is written again.
  pub setex-IsIndexed :
      (now ttl : ℕ) (a : AuthSession) (s : r.State)
      → contains a.session_id (r.smembers (user_index_key a.user_id) s) ≡ true
      → IsIndexed r decode now s
      → IsIndexed r decode now (r.setex now (session_key a.session_id) ttl (encode a) s)
  setex-IsIndexed now ttl a s h =
      written-IsIndexed now ttl a s _ (λ t b. refl) (λ u b m. kept u b ∙ m)
        (kept a.user_id a.session_id ∙ h)
    where
      kept :
          (u b : String)
          → contains b (
              r.smembers
                (user_index_key u)
                (r.setex now (session_key a.session_id) ttl (encode a) s))
            ≡ contains b (r.smembers (user_index_key u) s)
      kept u b = ap (contains b) (redis.smembers-setex now ttl u a.session_id (encode a) s)

  pub delete-IsIndexed :
      (now : ℕ) (id : String) (s : r.State)
      → IsIndexed r decode now s
      → IsIndexed r decode now (r.delete (session_key id) s)
  delete-IsIndexed now id s v t b raw late e =
      IsEntry-mono b raw s _
        (λ u m. ap (contains b) (redis.smembers-delete (session_key id) u s) ∙ m)
        (v t b raw late (get-delete-inv redis t (session_key id) b raw s e).1)

  pub drop-IsIndexed :
      (now : ℕ) (u id : String) (s : r.State)
      → IsIndexed r decode now s
      → IsIndexed r decode now (r.srem (user_index_key u) id (r.delete (session_key id) s))
  drop-IsIndexed now u id s v t b raw late e =
      let left = get-delete_inv' t b raw e in
      IsEntry-mono b raw s _
        (λ w m.
          contains-srem redis u w id b gone left.0
            (ap (contains b) (redis.smembers-delete (session_key id) w s) ∙ m))
        (v t b raw late left.1)
    where
      gone : r.State
      gone = r.delete (session_key id) s

      get-delete_inv' :
          (t : ℕ) (b raw : String)
          → r.get t (session_key b) (r.srem (user_index_key u) id gone) ≡ some raw
          → ((id == b) ≡ false) × (r.get t (session_key b) s ≡ some raw)
      get-delete_inv' t b raw e =
          get-delete-inv redis t (session_key id) b raw s (sym (redis.get-srem t u id b gone) ∙ e)

  -- What `delete_all_for_user` leaves in the store.
  unfoldable pub forget : ℕ → String → List String → r.State → r.State
  forget now user ids s = r.delete (user_index_key user) (delete_keys r encode decode now ids s).1

  get-forget :
      (now t : ℕ) (user b raw : String) (ids : List String) (s : r.State)
      → r.get t (session_key b) (forget now user ids s) ≡ some raw
      → (contains b ids ≡ false) × (r.get t (session_key b) s ≡ some raw)
  unfolding forget
  get-forget now t user b raw ids s e = ground (
    arith,
    redis.get-delete t (user_index_key user) b (delete_keys r encode decode now ids s).1,
    get-delete_keys redis encode decode now t b ids s,
  )

  smembers-forget :
      (now : ℕ) (user u : String) (ids : List String) (s : r.State)
      → (user == u) ≡ false
      → r.smembers (user_index_key u) (forget now user ids s) ≡ r.smembers (user_index_key u) s
  unfolding forget
  smembers-forget now user u ids s n = ground (
    arith,
    redis.smembers-delete (user_index_key user) u (delete_keys r encode decode now ids s).1,
    smembers-delete_keys redis encode decode now u ids s,
  )

  -- A session that survives is another user's.
  pub forget-others :
      (now t : ℕ) (user b raw : String) (s : r.State)
      → IsIndexed r decode now s
      → now ≤ t
      → r.get t (session_key b) (forget now user (r.smembers (user_index_key user) s) s) ≡ some raw
      → (e : IsEntry r decode b raw s) × ((user == e.session.user_id) ≡ false)
  forget-others now t user b raw s v late e =
      let left = get-forget now t user b raw (r.smembers (user_index_key user) s) s e in
      let entry = v t b raw late left.1 in
      (
        entry,
        elim (Bool-cases (user == entry.session.user_id)) [
          | inl same ↦ absurd (
              false≢true (
                sym left.0
                ∙ subst (λ u. contains b (r.smembers (user_index_key u) s) ≡ true)
                    (sym ((eq_iff user entry.session.user_id).0 same)) entry.indexed))
          | inr other ↦ other
        ],
      )

  pub forget-IsIndexed :
      (now : ℕ) (user : String) (s : r.State)
      → IsIndexed r decode now s
      → IsIndexed r decode now (forget now user (r.smembers (user_index_key user) s) s)
  forget-IsIndexed now user s v t b raw late e =
      let (entry, other) = forget-others now t user b raw s v late e in
      record {
        session = entry.session;
        shown = entry.shown;
        decoded = entry.decoded;
        named = entry.named;
        indexed =
            ap (contains b) (
              smembers-forget now user entry.session.user_id (r.smembers (user_index_key user) s) s
                other)
            ∙ entry.indexed;
      }
