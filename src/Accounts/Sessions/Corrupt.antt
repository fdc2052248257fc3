-- ===== src/Accounts/Sessions/Corrupt.antt =====
-- What `get` gives of a text that was written, and of one that cannot be read
-- (backend/app/infrastructure/external/session_auth/redis_session_store.py).
use da_swarm.Base.{
  ℕ, zero, suc, ◌+◌, ◌≤◌, max, String, ◌==◌, eq_refl, false, Option, none, some, ◌≡◌, refl, ltb,
  if◌then◌else◌, inl, inr, Bool-cases,
}
use da_swarm.Accounts.Errors.{ok, err, recursion_error}
use da_swarm.Accounts.Sessions.{
  AuthSession, session_key, Redis, IsRedis, create_session, remove, get_session,
}
use da_swarm.Accounts.Sessions.Index.{IsCodec}

-- A session that was created is or_raise, as it was, until the time that it was given is over, which is a second
-- at least.
pub create_session-get_session :
    (r : Redis) (encode : AuthSession → String) (decode : String → Option AuthSession)
    (depth now t ttl : ℕ) (a : AuthSession) (s : r.State)
    → IsRedis r
    → IsCodec encode decode
    → now ≤ t
    → (get_session r encode decode
        (suc depth)
        t
        a.session_id
        (create_session r encode decode now a ttl s)).0
      ≡ ok (if ltb t (now + max 1 ttl) then some a else none)
unfolding get_session create_session
create_session-get_session r encode decode depth now t ttl a s redis codec late =
    rw
      (
        get_session,
        redis.get-sadd t a.user_id a.session_id a.session_id
            (r.setex now (session_key a.session_id) (max 1 ttl) (encode a) s),
        redis.get-setex now t (max 1 ttl) a.session_id a.session_id (encode a) s late,
        eq_refl a.session_id,
      )
      (elim (Bool-cases (ltb t (now + max 1 ttl))) [
        | inl e ↦ rw (e, codec.shows a, codec.reads a) refl
        | inr e ↦ rw e refl
      ])

-- The store never gets rid of a text that it cannot read: `get` calls `delete`, which calls `get`, and it
-- raises at every depth of calls that Python allows, with the text still there.
pub get_session-corrupt :
    (r : Redis) (encode : AuthSession → String) (decode : String → Option AuthSession)
    (depth now : ℕ) (id raw : String) (s : r.State)
    → r.get now (session_key id) s ≡ some raw
    → (raw == "") ≡ false
    → decode raw ≡ none
    → get_session r encode decode depth now id s ≡ (err recursion_error, s)
unfolding get_session remove
get_session-corrupt r encode decode zero now id raw s there shown unread = refl
get_session-corrupt r encode decode (suc depth) now id raw s there shown unread =
    rw
      (
        get_session,
        there,
        shown,
        unread,
        remove,
        get_session-corrupt r encode decode depth now id raw s there shown unread,
      )
      refl
