-- ===== src/Accounts/Runs/Codec.antt =====
-- A text for each session, for the runs: every field with its end marked, one after the other.
use Prim.Native.Char.{code}
use Prim.Native.Nat.{zero}
use da_swarm.Base.Text.{is_empty, is_empty_iff}
use da_swarm.Base.{
  ◌∙◌, ℕ, suc, String, ◌==◌, false, Option, none, some, ◌≡◌, refl, eqb, if◌then◌else◌,
}
use da_swarm.Accounts.Sessions.{AuthSession, AuthClientType, web, ios, android, unknown}
use da_swarm.Accounts.Sessions.Index.{IsCodec}

abbrev pub Reader : Type 0 → Type 0
Reader A = String → Option (A × String)

abbrev then_read : {A B : Type 0} → Option (A × String) → (A → Reader B) → Option (B × String)
then_read none f = none
then_read (some (a, rest)) f = f a rest

abbrev mapped : {A B : Type 0} → (A → B) → Option (A × String) → Option (B × String)
mapped f none = none
mapped f (some (a, rest)) = some (f a, rest)

write_text : String → String → String
write_text String.[] rest = String.◌∷◌ "." rest
write_text (String.◌∷◌ c s) rest = String.◌∷◌ "i" (String.◌∷◌ c (write_text s rest))

read_text : Reader String
read_text String.[] = none
read_text (String.◌∷◌ m String.[]) = if eqb (code m) b'.' then some ("", String.[]) else none
read_text (String.◌∷◌ m (String.◌∷◌ c s)) =
    let more = mapped (String.◌∷◌ c) (read_text s) in
    if eqb (code m) b'.' then some ("", String.◌∷◌ c s) else more

read-write_text : (s rest : String) → read_text (write_text s rest) ≡ some (s, rest)
unfolding read_text write_text
read-write_text String.[] String.[] = refl
read-write_text String.[] (String.◌∷◌ c rest) = refl
read-write_text (String.◌∷◌ c s) rest = rw (read-write_text s rest) refl

write_nat : ℕ → String → String
write_nat zero rest = String.◌∷◌ "." rest
write_nat (suc n) rest = String.◌∷◌ "i" (write_nat n rest)

read_nat : Reader ℕ
read_nat String.[] = none
read_nat (String.◌∷◌ m s) =
    let more = mapped suc (read_nat s) in if eqb (code m) b'.' then some (0, s) else more

read-write_nat : (n : ℕ) (rest : String) → read_nat (write_nat n rest) ≡ some (n, rest)
unfolding read_nat write_nat
read-write_nat zero rest = refl
read-write_nat (suc n) rest = rw (read-write_nat n rest) refl

write_option : Option String → String → String
unfolding write_text
write_option none rest = String.◌∷◌ "." rest
write_option (some s) rest = String.◌∷◌ "i" (write_text s rest)

read_option : Reader (Option String)
unfolding read_text
read_option String.[] = none
read_option (String.◌∷◌ m s) =
    if eqb (code m) b'.' then some (none, s) else mapped some (read_text s)

read-write_option :
    (o : Option String) (rest : String) → read_option (write_option o rest) ≡ some (o, rest)
unfolding read_option write_option
read-write_option none rest = refl
read-write_option (some s) rest = rw (read-write_text s rest) refl

client_number : AuthClientType → ℕ
client_number web = 0
client_number ios = 1
client_number android = 2
client_number unknown = 3

client_of : ℕ → AuthClientType
client_of n = if eqb n 0 then web else if eqb n 1 then ios else if eqb n 2 then android else unknown

client_of-number : (c : AuthClientType) → client_of (client_number c) ≡ c
unfolding client_of client_number
client_of-number web = refl
client_of-number ios = refl
client_of-number android = refl
client_of-number unknown = refl

unfoldable pub write_session : AuthSession → String
unfolding write_text write_nat write_option client_number
write_session a = write_text a.session_id (
    write_text a.user_id (
      write_nat (client_number a.client) (
        write_nat a.created_at (
          write_nat a.expires_at (
            write_nat a.last_seen_at
              (write_option a.ip (write_option a.user_agent (write_option a.rotated_from ""))))))))

parsed : Reader AuthSession
unfolding read_text read_nat read_option client_of
parsed s0 = then_read (read_text s0) λ session_id s1. then_read (read_text s1) λ user_id s2.
    then_read (read_nat s2) λ client s3. then_read (read_nat s3) λ created_at s4.
      then_read (read_nat s4) λ expires_at s5. then_read (read_nat s5) λ last_seen_at s6.
        then_read (read_option s6) λ ip s7. then_read (read_option s7) λ user_agent s8.
          then_read (read_option s8) λ rotated_from s9. some (
            record {
              session_id = session_id;
              user_id = user_id;
              client = client_of client;
              created_at = created_at;
              expires_at = expires_at;
              last_seen_at = last_seen_at;
              ip = ip;
              user_agent = user_agent;
              rotated_from = rotated_from;
            },
            s9,
          )

unfoldable pub read_session : String → Option AuthSession
unfolding parsed
read_session s = elim (parsed s) [ none ↦ none | some (a, _) ↦ some a ]

parsed-write_session : (a : AuthSession) → parsed (write_session a) ≡ some (a, "")
unfolding parsed write_session
parsed-write_session a =
    rw
      (
        parsed,
        read-write_text a.session_id _,
        read-write_text a.user_id _,
        read-write_nat (client_number a.client) _,
        read-write_nat a.created_at _,
        read-write_nat a.expires_at _,
        read-write_nat a.last_seen_at _,
        read-write_option a.ip _,
        read-write_option a.user_agent _,
        read-write_option a.rotated_from "",
        client_of-number a.client,
      )
      refl

read_session-write_session : (a : AuthSession) → read_session (write_session a) ≡ some a
unfolding read_session
read_session-write_session a = rw (read_session, parsed-write_session a) refl

not_empty : (s rest : String) → is_empty (write_text s rest) ≡ false
unfolding write_text is_empty
not_empty String.[] rest = refl
not_empty (String.◌∷◌ c s) rest = refl

write_session-not_empty : (a : AuthSession) → (write_session a == "") ≡ false
unfolding write_session
write_session-not_empty a = is_empty_iff (write_session a) ∙ not_empty a.session_id _

pub session-IsCodec : IsCodec write_session read_session
session-IsCodec = record { reads = read_session-write_session; shows = write_session-not_empty }
