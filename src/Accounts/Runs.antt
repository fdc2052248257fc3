-- ===== src/Accounts/Runs.antt =====
-- A Redis in memory, and the theorems on sessions and accounts at concrete stores.
mod Codec
use da_swarm.Base.{
  eq_iff, ℕ, zero, suc, ◌+◌, ◌≤◌, String, ◌==◌, Bool, true, false, ◌&&◌, ◌||◌, not, Option, none,
  some, List, [], ◌∷◌, ◌≡◌, refl, arith, any, ltb, if◌then◌else◌,
}
use Codec.{read_session, write_session, session-IsCodec}
use da_swarm.Base.Table.{find_by}
use da_swarm.Base.Text.{append, strip}
use da_swarm.Accounts.Errors.{ok, err, recursion_error}
use da_swarm.Accounts.Users.{
  User, update_last_login, deactivate, replace_user, new_user, create_user, update_user,
  is_too_short, is_no_email, is_role, email_exists,
}
use da_swarm.Accounts.Sessions.History.{
  Call, creates, gets, run, step, delete_all_for_user-get_session,
}
use da_swarm.Accounts.Sessions.Corrupt.{create_session-get_session, get_session-corrupt}
use da_swarm.Accounts.Passwords.{
  Services, AuthSettings, AuthStore, register_user, check_registration, hash_password,
  authenticate_user, deactivate_user,
}
use da_swarm.Accounts.Passwords.Registration.{register_user-authenticate_user}
use da_swarm.Accounts.Login.{credentials_of, user_from_id, ttl_seconds_for_client}
use da_swarm.Accounts.Access.{user_from_resolved, refresh_access_token, token_pair}
use da_swarm.Accounts.Access.Lockout.{deactivate_user-user_from_resolved}
use da_swarm.Accounts.Access.Rotation.{replacement, refresh_access_token-rotates}
use da_swarm.Accounts.Sessions.{
  web, create_session, get_session, delete_all_for_user, delete_keys, AuthSession, Key, session_key,
  user_index_key, same_key, contains, Redis, IsRedis,
}

-- Texts with the time at which they go, and sets.
record Memory : Type 0 where
  texts : Key → Option (String × ℕ)
  sets : Key → List String

abbrev live : ℕ → Option (String × ℕ) → Option String
live t none = none
live t (some (v, e)) = if ltb t e then some v else none

without : String → List String → List String
without a [] = []
without a (b ∷ l) = let rest = without a l in if b == a then rest else b ∷ rest

contains-without :
    (a b : String) (l : List String) → contains b (without a l) ≡ (contains b l && not (a == b))
unfolding without
contains-without a b [] = refl
contains-without a b (x ∷ l) =
    ground (arith, contains-without a b l, eq_iff x a, eq_iff x b, eq_iff a b)

abbrev in_memory : Redis
in_memory = record {
  State = Memory;
  get = λ t k s. live t (s.texts k);
  setex = λ now k ttl v s. record s {
    texts = λ j. if same_key k j then some (v, now + ttl) else s.texts j;
  };
  delete = λ k s. record {
    texts = λ j. if same_key k j then none else s.texts j;
    sets = λ j. if same_key k j then [] else s.sets j;
  };
  sadd = λ k a s. record s { sets = λ j. if same_key k j then a ∷ s.sets j else s.sets j };
  srem = λ k a s. record s { sets = λ j. if same_key k j then without a (s.sets j) else s.sets j };
  smembers = λ k s. s.sets k;
}

in_memory-IsRedis : IsRedis in_memory
in_memory-IsRedis = record {
  get-setex = λ now t ttl a b v s late. ground arith;
  get-delete = λ t k b s. ground arith;
  get-sadd = λ t u a b s. refl;
  get-srem = λ t u a b s. refl;
  smembers-setex = λ now ttl u a v s. refl;
  smembers-delete = λ k u s. refl;
  smembers-sadd = λ u w a b s. ground arith;
  smembers-srem = λ u w a b s. ground (arith, contains-without a b (s.sets (user_index_key w)));
}

abbrev empty_memory : Memory
empty_memory = record { texts = λ k. none; sets = λ k. [] }

abbrev session_of : String → String → AuthSession
session_of id user = record {
  session_id = id;
  user_id = user;
  client = web;
  created_at = 0;
  expires_at = 9;
  last_seen_at = 0;
  ip = none;
  user_agent = none;
  rotated_from = none;
}

abbrev two_logins : List (ℕ × Call)
two_logins =
    (1, creates (session_of "s1" "u1") 9)
    ∷ (1, creates (session_of "s2" "u2") 9)
    ∷ (1, gets "s1")
    ∷ []

delete_all_for_user-get_session_example : ("u1" == "u2") ≡ false
unfolding run step create_session get_session delete_all_for_user delete_keys read_session
    write_session
delete_all_for_user-get_session_example =
    delete_all_for_user-get_session in_memory write_session read_session 2 0 3 1 two_logins
      empty_memory (run in_memory write_session read_session 3 0 two_logins empty_memory).1 "u1"
      "s2" (session_of "s2" "u2") in_memory-IsRedis session-IsCodec (λ t b. refl) refl refl

create_session-get_session_example :
    (get_session in_memory write_session read_session 3 5 "s1" (
      create_session in_memory write_session read_session 0
        (session_of "s1" "u1")
        9
        empty_memory)).0
    ≡ ok (some (session_of "s1" "u1"))
create_session-get_session_example =
    create_session-get_session in_memory write_session read_session 2 0 5 9 (session_of "s1" "u1")
      empty_memory in_memory-IsRedis session-IsCodec (omega arith)

-- A text that is no session.
abbrev corrupt_memory : Memory
corrupt_memory = record empty_memory { texts = λ k. some ("?", 9) }

get_session-corrupt_example :
    get_session in_memory write_session read_session 1000 5 "s1" corrupt_memory
    ≡ (err recursion_error, corrupt_memory)
unfolding read_session
get_session-corrupt_example =
    get_session-corrupt in_memory write_session read_session 1000 5 "s1" "?" corrupt_memory refl
      refl refl

abbrev plain_services : Services
plain_services = record {
  redis = in_memory;
  encode = write_session;
  decode = read_session;
  depth = 3;
  lower = λ s. s;
  pbkdf2 = λ password salt rounds. "#";
  jwt_encode = λ claims. "jwt";
  jwt_decode = λ now token. none;
  to_bool = λ v. none;
}

abbrev with_passwords : AuthSettings
with_passwords = record {
  auth_provider = "password";
  password_salt = some "salt";
  password_hash_rounds = 0;
  local_auth_email = "admin@example.com";
  local_auth_password = "admin";
  session_web_ttl_days = 14;
  session_app_ttl_days = 30;
  session_jwt_grace_enabled = true;
}

abbrev nobody : AuthStore plain_services
nobody = record { users = []; sessions = empty_memory }

abbrev grace : User
grace = record {
  id = "u1";
  fullname = "Grace";
  email = "grace@navy";
  password_hash = some "salt#";
  role = "user";
  is_active = true;
  created_at = 7;
  updated_at = 7;
  last_login_at = none;
}

abbrev with_grace : AuthStore plain_services
with_grace = record { users = grace ∷ []; sessions = empty_memory }

register_user-authenticate_user_example :
    authenticate_user plain_services with_passwords 9 "grace@navy" "secret" with_grace ≡ (
      ok (some (update_last_login 9 grace)),
      record with_grace { users = replace_user (update_last_login 9 grace) (grace ∷ []) },
    )
unfolding register_user check_registration hash_password new_user create_user is_too_short
    is_no_email is_role email_exists append strip
register_user-authenticate_user_example =
    register_user-authenticate_user plain_services with_passwords 7 9 "u1" " Grace" "secret"
      "grace@navy" "user" "grace@navy" grace nobody with_grace refl (λ p salt rounds. refl) refl
      refl

abbrev with_session : AuthStore plain_services
with_session = record {
  users = grace ∷ [];
  sessions =
      create_session in_memory write_session read_session 0 (session_of "s1" "u1") 9 empty_memory;
}

deactivate_user-user_from_resolved_example :
    user_from_resolved plain_services with_passwords 9
      (credentials_of plain_services with_passwords (session_of "s1" "u1"))
      (record with_session { users = deactivate 8 grace ∷ [] })
    ≡ (ok none, record with_session { users = deactivate 8 grace ∷ [] })
unfolding deactivate_user update_user find_by replace_user
deactivate_user-user_from_resolved_example =
    deactivate_user-user_from_resolved plain_services with_passwords 8 9
      (credentials_of plain_services with_passwords (session_of "s1" "u1")) true with_session _ refl
      refl

refresh_access_token-rotates_example :
    (s' : AuthStore plain_services) × (refresh_access_token plain_services with_passwords 5 "s2"
        (some "s1")
        none
        true
        with_session
      ≡ (ok (token_pair plain_services with_passwords "s2" none), s'))
    × (get_session in_memory write_session read_session 3 6 "s1" s'.sessions
        ≡ (ok none, s'.sessions))
    × ((get_session in_memory write_session read_session 3 6 "s2" s'.sessions).0
        ≡ ok (
            some
              (replacement plain_services with_passwords 5 "s2" "s1" grace (session_of "s1" "u1"))))
unfolding create_session get_session read_session write_session user_from_id find_by
    ttl_seconds_for_client
refresh_access_token-rotates_example =
    refresh_access_token-rotates plain_services with_passwords 5 6 "s2" "s1" 2 grace
      (session_of "s1" "u1") with_session in_memory-IsRedis session-IsCodec (omega arith) refl refl
      refl refl refl
