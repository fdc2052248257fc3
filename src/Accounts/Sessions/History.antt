-- ===== src/Accounts/Sessions/History.antt =====
-- The session store under any history of its calls
-- (backend/app/infrastructure/external/session_auth/redis_session_store.py).
use mathlib.Core.Bool.{false≢true}
use da_swarm.Base.{
  ◌≢◌, subst, ◌⊎◌, ℕ, suc, ◌+◌, ◌≤◌, max, String, ◌==◌, eq_iff, true, false, Option, none, some,
  List, [], ◌∷◌, ◌≡◌, refl, sym, ap, ◌∙◌, arith, inl, inr, Bool-cases, Option-cases,
}
use da_swarm.Accounts.Errors.{ok}
use da_swarm.Accounts.Sessions.{
  AuthSession, session_key, user_index_key, contains, Redis, IsRedis, create_session, remove,
  get_session, touch, delete_session, delete_keys, delete_all_for_user,
}
use da_swarm.Accounts.Sessions.Index.{
  IsCodec, IsIndexed, create_session-IsIndexed, setex-IsIndexed, drop-IsIndexed, delete-IsIndexed,
  forget, forget-IsIndexed, forget-others,
}

pub data Call : Type 0 where
  creates : AuthSession → ℕ → Call
  gets : String → Call
  touches : String → ℕ → Call
  deletes : String → Call
  deletes_all : String → Call

module _ (r : Redis) (encode : AuthSession → String) (decode : String → Option AuthSession)
    (depth : ℕ) where
  unfoldable pub step : ℕ → Call → r.State → r.State
  step now (creates a ttl) s = create_session r encode decode now a ttl s
  step now (gets id) s = (get_session r encode decode depth now id s).1
  step now (touches id ttl) s = (touch r encode decode depth now id ttl s).1
  step now (deletes id) s = (delete_session r encode decode depth now id s).1
  step now (deletes_all user) s = (delete_all_for_user r encode decode now user s).1

  -- Calls with the seconds that pass before each: the time at the end, and the store.
  unfoldable pub run : ℕ → List (ℕ × Call) → r.State → ℕ × r.State
  run now [] s = (now, s)
  run now ((wait, c) ∷ cs) s = run (now + wait) cs (step (now + wait) c s)

some-inj {ℓ} : {A : Type ℓ} {a b : A} → some a ≡ some b → a ≡ b
some-inj e = cc

ok-inj {ℓ} : {A : Type ℓ} {a b : A} → ok a ≡ ok b → a ≡ b
ok-inj e = cc

none≢some {ℓ} : {A : Type ℓ} {a : A} → none ≢ some a
none≢some e = cc

module _ {r : Redis} {encode : AuthSession → String} {decode : String → Option AuthSession}
    (redis : IsRedis r) (codec : IsCodec encode decode) (depth : ℕ) where
  abbrev Found : ℕ → String → r.State → Type 0
  Found now id s =
      (get_session r encode decode (suc depth) now id s ≡ (ok none, s))
      ⊎ ((a : AuthSession) × (get_session r encode decode (suc depth) now id s ≡ (ok (some a), s))
          × (a.session_id ≡ id)
          × (contains id (r.smembers (user_index_key a.user_id) s) ≡ true)
          × ((raw : String) × (r.get now (session_key id) s ≡ some raw) × (decode raw ≡ some a)))

  -- In such a store `get` finds a readable session or nothing, and changes nothing.
  get_session-Found :
      (now : ℕ) (id : String) (s : r.State) → IsIndexed r decode now s → Found now id s
  unfolding get_session
  get_session-Found now id s v = elim (Option-cases (r.get now (session_key id) s)) [
    | inl e ↦ inl (rw (get_session, e) refl)
    | inr (raw, e) ↦
        let entry = v now id raw (omega arith) e in
        inr (
          entry.session,
          rw (get_session, e, entry.shown, entry.decoded) refl,
          entry.named,
          entry.indexed,
          (raw, e, entry.decoded),
        )
  ]

  get_session-IsIndexed :
      (now : ℕ) (id : String) (s : r.State)
      → IsIndexed r decode now s
      → IsIndexed r decode now (get_session r encode decode (suc depth) now id s).1
  get_session-IsIndexed now id s v = elim (get_session-Found now id s v) [
    | inl e ↦ subst (λ p. IsIndexed r decode now p.1) (sym e) v
    | inr (_, e, _, _, _) ↦ subst (λ p. IsIndexed r decode now p.1) (sym e) v
  ]

  touch-IsIndexed :
      (now : ℕ) (id : String) (ttl : ℕ) (s : r.State)
      → IsIndexed r decode now s
      → IsIndexed r decode now (touch r encode decode (suc depth) now id ttl s).1
  unfolding touch
  touch-IsIndexed now id ttl s v = elim (get_session-Found now id s v) [
    | inl e ↦ rw (touch, e) v
    | inr (a, e, named, indexed, _) ↦
        rw (touch, e)
          (subst
            (λ i.
              IsIndexed r decode now
                (r.setex now (session_key i) (max 1 ttl) (encode (touched a)) s))
            named
            (setex-IsIndexed redis codec now (max 1 ttl) (touched a) s
              (ap (λ i. contains i (r.smembers (user_index_key a.user_id) s)) named ∙ indexed) v))
  ]
    where
      touched : AuthSession → AuthSession
      touched a = record a { last_seen_at = now; expires_at = now + max 1 ttl }

  remove-IsIndexed :
      (now : ℕ) (id : String) (s : r.State)
      → IsIndexed r decode now s
      → IsIndexed r decode now (delete_session r encode decode (suc depth) now id s).1
  unfolding remove
  remove-IsIndexed now id s v = elim (get_session-Found now id s v) [
    | inl e ↦ rw (remove, e) (delete-IsIndexed redis codec now id s v)
    | inr (a, e, _, _, _) ↦ rw (remove, e) (drop-IsIndexed redis codec now a.user_id id s v)
  ]

  delete_all-cases {ℓ} :
      (P : r.State → Type ℓ) (now : ℕ) (user : String) (s : r.State)
      → (r.smembers (user_index_key user) s ≡ [] → P s)
      → P (forget redis codec now user (r.smembers (user_index_key user) s) s)
      → P (delete_all_for_user r encode decode now user s).1
  unfolding delete_all_for_user forget
  delete_all-cases P now user s nobody some_left =
      go (r.smembers (user_index_key user) s) nobody some_left
    where
      go :
          (ids : List String)
          → (ids ≡ [] → P s)
          → P (forget redis codec now user ids s)
          → P
              (elim ids as (λ _. ℕ × r.State) [
                | [] ↦ (0, s)
                | id ∷ rest ↦
                    let (n, left) = delete_keys r encode decode now (id ∷ rest) s in
                    (n, r.delete (user_index_key user) left)
              ]).1
      go [] n f = n refl
      go (id ∷ rest) n f = f

  step-IsIndexed :
      (now : ℕ) (c : Call) (s : r.State)
      → IsIndexed r decode now s
      → IsIndexed r decode now (step r encode decode (suc depth) now c s)
  unfolding step
  step-IsIndexed now (creates a ttl) s v = create_session-IsIndexed redis codec now ttl a s v
  step-IsIndexed now (gets id) s v = get_session-IsIndexed now id s v
  step-IsIndexed now (touches id ttl) s v = touch-IsIndexed now id ttl s v
  step-IsIndexed now (deletes id) s v = remove-IsIndexed now id s v
  step-IsIndexed now (deletes_all user) s v =
      delete_all-cases (IsIndexed r decode now) now user s (λ _. v)
        (forget-IsIndexed redis codec now user s v)

  run-IsIndexed :
      (now : ℕ) (cs : List (ℕ × Call)) (s : r.State)
      → IsIndexed r decode now s
      → IsIndexed r decode
          (run r encode decode (suc depth) now cs s).0
          (run r encode decode (suc depth) now cs s).1
  unfolding run
  run-IsIndexed now [] s v = v
  run-IsIndexed now ((wait, c) ∷ cs) s v =
      run-IsIndexed (now + wait) cs (step r encode decode (suc depth) (now + wait) c s)
        (step-IsIndexed (now + wait) c s (λ t id raw late. v t id raw (omega (arith, late))))

  -- What `get` gives was read from the store.
  get_session-reads :
      (now : ℕ) (id : String) (a : AuthSession) (s : r.State)
      → IsIndexed r decode now s
      → (get_session r encode decode (suc depth) now id s).0 ≡ ok (some a)
      → (raw : String) × (r.get now (session_key id) s ≡ some raw) × (decode raw ≡ some a)
  get_session-reads now id a s v found = elim (get_session-Found now id s v) [
    | inl e ↦ absurd (none≢some (ok-inj (sym (ap (λ p. p.0) e) ∙ found)))
    | inr (b, e, _, _, (raw, there, read)) ↦
        (raw, there, read ∙ ok-inj (sym (ap (λ p. p.0) e) ∙ found))
  ]

  -- No text that is left is a session of the user.
  left-by_others :
      (now : ℕ) (user : String) (s : r.State)
      → IsIndexed r decode now s
      → (t : ℕ) (id raw : String) (a : AuthSession) → now ≤ t
      → r.get t (session_key id) (delete_all_for_user r encode decode now user s).1 ≡ some raw
      → decode raw ≡ some a
      → (user == a.user_id) ≡ false
  left-by_others now user s v = delete_all-cases ByOthers now user s kept forgotten
    where
      ByOthers : r.State → Type 0
      ByOthers s' =
          (t : ℕ) (id raw : String) (a : AuthSession)
          → now ≤ t
          → r.get t (session_key id) s' ≡ some raw
          → decode raw ≡ some a
          → (user == a.user_id) ≡ false

      kept : r.smembers (user_index_key user) s ≡ [] → ByOthers s
      kept none_left t id raw a late e d =
          let entry = v t id raw late e in
          let same = some-inj (sym d ∙ entry.decoded) in
          elim (Bool-cases (user == a.user_id)) [
            | inl mine ↦ absurd (
                false≢true (
                  ap (contains id) (sym none_left)
                  ∙ ap (λ u. contains id (r.smembers (user_index_key u) s))
                      ((eq_iff user a.user_id).0 mine)
                  ∙ ap (λ b. contains id (r.smembers (user_index_key b.user_id) s)) same
                  ∙ entry.indexed))
            | inr other ↦ other
          ]

      forgotten : ByOthers (forget redis codec now user (r.smembers (user_index_key user) s) s)
      forgotten t id raw a late e d =
          let (entry, other) = forget-others redis codec now t user id raw s v late e in
          ap (λ b. user == b.user_id) (some-inj (sym d ∙ entry.decoded)) ∙ other

-- After any history of calls on an empty store, revoking all sessions of a user leaves none: whatever
-- `get` finds from then on belongs to someone else.
pub delete_all_for_user-get_session :
    (r : Redis) (encode : AuthSession → String) (decode : String → Option AuthSession)
    (depth start now later : ℕ) (history : List (ℕ × Call)) (s before : r.State) (user id : String)
    (a : AuthSession)
    → IsRedis r
    → IsCodec encode decode
    → ((t : ℕ) (b : String) → r.get t (session_key b) s ≡ none)
    → run r encode decode (suc depth) start history s ≡ (now, before)
    → (get_session r encode decode
        (suc depth)
        (now + later)
        id
        (delete_all_for_user r encode decode now user before).1).0
      ≡ ok (some a)
    → (user == a.user_id) ≡ false
unfolding step
delete_all_for_user-get_session r encode decode depth start now later history s before user id a
      redis codec empty ran found =
    let indexed =
      subst (λ p. IsIndexed r decode p.0 p.1) ran
        (run-IsIndexed redis codec depth start history s
          (λ t b raw _ e. absurd (none≢some (sym (empty t b) ∙ e)))) in
    let (raw, there, read) =
      get_session-reads redis codec depth (now + later) id a _
        (λ t b w late e.
          step-IsIndexed redis codec depth now (deletes_all user) before indexed t b w (omega arith)
            e)
        found in
    left-by_others redis codec depth now user before indexed (now + later) id raw a (omega arith)
      there read
