-- ===== src/Swarm/Service/Versions.antt =====
-- Optimistic locking and status machines (`Service.change`,
-- backend/app/swarm/application/service.py): versions guard every write of an object.
use da_swarm.Base.{ℕ, String, Bool, ◌&&◌, ◌≡◌, some, arith, ◌==◌, eq_iff, eqb, ◌+◌}
use da_swarm.Base.Table.{find, key-find, find-update_where}
use da_swarm.Swarm.Errors.{ok, err, conflict}
use da_swarm.Swarm.Json.{Fields}
use da_swarm.Swarm.Database.{Object, Event, Db, World, ◌>>=◌, lift, gets, ask}
use da_swarm.Swarm.Objects.{object_key, Source, checked_update}
use da_swarm.Swarm.Service.{change, get}
use da_swarm.Swarm.Service.Writes.{change-Changed, Changed-same}

-- A change reads the version it was given, and the object is stored with the next one.
change-version :
    (id : String) (version : ℕ) (source : Source) (event_type : String) (patch : Fields) (w : World)
    (db : Db) (new : Object) (ev : Event) (db' : Db)
    → change id version source event_type patch w db ≡ ok ((new, ev), db')
    → (old : Object) × (find object_key id db.objects ≡ some old)
      × (old.version ≡ version)
      × (new.version ≡ version + 1)
      × (find object_key id db'.objects ≡ some new)
change-version id version source event_type patch w db new ev db' h =
    let c = change-Changed id version source event_type patch w db new ev db' h in
    let (same, _, read, next) = Changed-same c in
    let p : Object → Bool = λ o. o.id == id && eqb o.version version in
    let at_key = key-find object_key id db.objects c.old c.found in
    let updated =
      find-update_where object_key p (λ _. new) (λ r e. ground (arith, eq_iff r.id id)) id
        db.objects in
    (
      c.old,
      c.found,
      read,
      next,
      rw (c.logged.objects) (ground (arith, updated, c.found, eq_iff c.old.id id)),
    )

-- Of two changes that read the same version only the first commits: the second is refused as a conflict,
-- whatever it wants to write, so no update is lost.
pub change-change :
    (id : String) (version : ℕ) (source again : Source) (event_type then_type : String)
    (patch later : Fields) (w w' : World) (db : Db) (new : Object) (ev : Event) (db' : Db)
    → change id version source event_type patch w db ≡ ok ((new, ev), db')
    → change id version again then_type later w' db' ≡ err conflict
unfolding change get checked_update ◌>>=◌ lift gets ask
change-change id version source again event_type then_type patch later w w' db new ev db' h =
    let (_, _, _, next, found) =
      change-version id version source event_type patch w db new ev db' h in
    ground arith
