-- ===== src/Swarm/Commands/Replay.antt =====
-- The idempotency of `Service.execute`: a key is answered once, and then from its record.
use da_swarm.Base.{
  String, ◌≡◌, refl, ◌≢◌, inl, inr, true, some, arith, ◌==◌, eq_iff, eq_refl, Option-cases,
}
use da_swarm.Base.Table.{find}
use da_swarm.Swarm.Errors.{conflict, ok, err, Result-cases}
use da_swarm.Swarm.Json.{Value, dict}
use da_swarm.Swarm.Contracts.{walk, validate_metadata}
use da_swarm.Swarm.Database.{Idem, Db, World, ◌>>=◌, ◌>>◌, pure, lift, gets, ask, modify, if_found}
use da_swarm.Swarm.Commands.Discovery.{Command, command_value}
use da_swarm.Swarm.Commands.{perform, idem_key, remember, replayed, execute}

-- A first run leaves the record of its key; its result is the record's.
remember-idem :
    (cmd : Command) (actor fingerprint : String) (x : Value × String) (w : World) (db : Db)
    (r : Value) (db' : Db)
    → remember cmd actor fingerprint x w db ≡ ok (r, db')
    → (old : Idem) × (find idem_key cmd.idempotency_key db'.idem ≡ some old)
      × (old.fingerprint ≡ fingerprint)
      × (old.result ≡ r)
unfolding remember ◌>>=◌ ◌>>◌ ask modify pure find
remember-idem cmd actor fingerprint (result, trace) w db r db' h = (
  record {
    key = cmd.idempotency_key;
    operation = cmd.action;
    fingerprint = fingerprint;
    result = result;
    created_at = w.clock;
  },
  ground (arith, eq_refl cmd.idempotency_key),
  refl,
  ground arith,
)

-- What a command that committed has left under its key.
execute-idem :
    (cmd : Command) (actor : String) (w : World) (db : Db) (r : Value) (db' : Db)
    → execute cmd actor w db ≡ ok (r, db')
    → (old : Idem) × (find idem_key cmd.idempotency_key db'.idem ≡ some old)
      × (old.fingerprint ≡ w.digest (command_value cmd))
      × (old.result ≡ r)
      × (cmd.mode == "LIVE" ≡ true)
unfolding execute replayed if_found ◌>>=◌ ◌>>◌ lift gets ask pure
execute-idem cmd actor w db r db' h =
    elim (Option-cases (find idem_key cmd.idempotency_key db.idem)) [
      | inr (old, e) ↦ (
        old,
        ground arith,
        ground (arith, eq_iff old.fingerprint (w.digest (command_value cmd))),
        ground arith,
        ground arith,
      )
      | inl e ↦ elim (Result-cases (perform cmd actor w db)) [
        | inl (c, e') ↦ absurd (ground arith)
        | inr ((x, mid), e') ↦
            let (old, there, same, answer) =
              remember-idem cmd actor (w.digest (command_value cmd)) x w mid r db' (ground arith) in
            (old, there, same, answer, ground arith)
      ]
    ]

-- Running a committed command again on the tables that it left, at any time and by whomever, answers what
-- the first run answered and changes nothing, provided that the fingerprint function is the same and that
-- the payload still passes the secrets filter.
pub execute-replay :
    (cmd : Command) (actor again : String) (w w' : World) (db : Db) (r : Value) (db' : Db)
    → execute cmd actor w db ≡ ok (r, db')
    → w'.digest ≡ w.digest
    → walk w'.environ (dict cmd.payload) ≡ ok tt
    → execute cmd again w' db' ≡ ok (r, db')
unfolding execute replayed if_found validate_metadata ◌>>=◌ ◌>>◌ lift gets ask pure
execute-replay cmd actor again w w' db r db' h d clean =
    let (old, there, same, answer, live) = execute-idem cmd actor w db r db' h in
    let shown : (old.fingerprint == w'.digest (command_value cmd)) ≡ true =
      rw (same, d) (eq_refl _) in
    ground arith

-- A key that was used for a command with another fingerprint is refused as a conflict, if the command is
-- live and its payload passes the secrets filter.
execute-key_reused :
    (cmd : Command) (actor : String) (w : World) (db : Db) (old : Idem)
    → find idem_key cmd.idempotency_key db.idem ≡ some old
    → old.fingerprint ≢ w.digest (command_value cmd)
    → (cmd.mode == "LIVE") ≡ true
    → walk w.environ (dict cmd.payload) ≡ ok tt
    → execute cmd actor w db ≡ err conflict
unfolding execute replayed if_found validate_metadata ◌>>=◌ ◌>>◌ lift gets ask pure
execute-key_reused cmd actor w db old e ne live clean =
    ground (arith, eq_iff old.fingerprint (w.digest (command_value cmd)))
