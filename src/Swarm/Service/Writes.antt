-- ===== src/Swarm/Service/Writes.antt =====
-- What `Service.create` and `Service.change` do when they succeed.
use da_swarm.Base.{
  ℕ, ◌+◌, String, ◌≡◌, ◌&&◌, Option, none, some, ◌∷◌, ◌==◌, arith, eqb, Option-cases, inl, inr,
}
use da_swarm.Base.Table.{key-find, find, update_where}
use da_swarm.Swarm.Errors.{Error, ok, err, Result-cases}
use da_swarm.Swarm.Json.{Value, Fields, end}
use da_swarm.Swarm.Contracts.{Environ}
use da_swarm.Swarm.Database.{
  Object, Event, Db, World, Tx, ◌>>=◌, ◌>>◌, pure, lift, gets, ask, modify, uid,
}
use da_swarm.Swarm.Objects.{patched, new_object, Source, object_key, checked_update, created_event}
use da_swarm.Swarm.Service.{get, event, create, change, insert_object, write_object}
use da_swarm.Swarm.Service.Events.{Logged, event-Logged}

abbrev pub with_object : Object → Db → Db
with_object o db = record db { objects = o ∷ db.objects }

abbrev pub rewritten : String → ℕ → Object → Db → Db
rewritten id version new db = record db {
  objects =
      update_where (λ (o : Object). o.id == id && eqb o.version version) (λ _. new) db.objects;
}

-- A successful `change` of the object `old` to `new`.
pub record Changed (id : String) (version : ℕ) (source : Source) (event_type : String)
    (patch : Fields) (w : World) (db : Db) (new : Object) (ev : Event) (db' : Db) : Type 0 where
  pub old : Object
  pub found : find object_key id db.objects ≡ some old
  pub update : Object
  pub applied : checked_update w.environ old version patch ≡ ok update
  pub result : new ≡ record update { version = version + 1; updated_at = w.clock }
  pub logged : Logged event_type (some new) source (rewritten id version new db) ev db'

pub change-Changed :
    (id : String) (version : ℕ) (source : Source) (event_type : String) (patch : Fields) (w : World)
    (db : Db) (new : Object) (ev : Event) (db' : Db)
    → change id version source event_type patch w db ≡ ok ((new, ev), db')
    → Changed id version source event_type patch w db new ev db'
unfolding change get write_object ◌>>=◌ ◌>>◌ lift gets ask modify pure
change-Changed id version source event_type patch w db new ev db' h =
    elim (Option-cases (find object_key id db.objects)) [
      | inl e ↦ absurd (ground arith)
      | inr (old, e) ↦ elim (Result-cases (checked_update w.environ old version patch)) [
        | inl (c, e') ↦ absurd (ground arith)
        | inr (u, e') ↦ record {
          old = old;
          found = e;
          update = u;
          applied = e';
          result = ground arith;
          logged = ground (
            arith,
            event-Logged event_type (some new) source end w (rewritten id version new db) ev db',
          );
        }
      ]
    ]

pub checked_update-id :
    (w : World) (o : Object) (version : ℕ) (patch : Fields) (u : Object)
    → checked_update w.environ o version patch ≡ ok u
    → (u.id ≡ o.id) × (u.object_type ≡ o.object_type) × (o.version ≡ version)
unfolding checked_update patched
checked_update-id w o version patch u h = ground arith

module _ {id : String} {version : ℕ} {source : Source} {event_type : String} {patch : Fields}
    {w : World} {db : Db} {new : Object} {ev : Event} {db' : Db}
    (c : Changed id version source event_type patch w db new ev db') where
  -- A change keeps the object's identity and kind, and counts its version up by one.
  pub Changed-same :
      (new.id ≡ id)
      × (new.object_type ≡ c.old.object_type)
      × (c.old.version ≡ version)
      × (new.version ≡ version + 1)
  Changed-same =
      let kept = checked_update-id w c.old version patch c.update c.applied in
      let at_key = key-find object_key id db.objects c.old c.found in
      (ground (arith, c.result), ground (arith, c.result), ground arith, ground (arith, c.result))

-- A successful `create` of `new`.
pub record Created (kind title : String) (given : Value) (source : Source) (w : World) (db : Db)
    (new : Object) (ev : Event) (db' : Db) : Type 0 where
  pub fresh : find object_key new.id db.objects ≡ none
  pub built : new_object w.environ w.clock new.id kind title given ≡ ok new
  pub event_type : String
  pub drawn : ℕ
  pub logged :
      Logged event_type (some new) source (with_object new (record db { drawn = drawn })) ev db'

new_object-id :
    (env : Environ) (now : ℕ) (id kind title : String) (given : Value) (o : Object)
    → new_object env now id kind title given ≡ ok o
    → o.id ≡ id
unfolding new_object
new_object-id env now id kind title given o h = ground arith

insert_object-eq-ok :
    (o : Object) (w : World) (db : Db) (u : Unit {0}) (db' : Db)
    → insert_object o w db ≡ ok (u, db')
    → (find object_key o.id db.objects ≡ none) × (db' ≡ with_object o db)
unfolding insert_object ◌>>=◌ ◌>>◌ lift gets modify
insert_object-eq-ok o w db u db' h = ground arith

-- The identifier of the new object, and the count of identifiers drawn by then.
abbrev pub chosen : Option String → World → Db → String × ℕ
chosen none w db = (w.uuid db.drawn, db.drawn + 1)
chosen (some given) w db = (given, db.drawn)

abbrev drawn_to : ℕ → Db → Db
drawn_to n db = record db { drawn = n }

-- `create` with its identifier chosen: the insertion, and the event of it.
log_new : Object → String → Source → Tx (Object × Event)
log_new obj event_type source = do
  insert_object obj
  ev ← event event_type (some obj) source end
  pure (obj, ev)

log_new-eq-ok :
    (o : Object) (event_type : String) (source : Source) (w : World) (db : Db) (new : Object)
    (ev : Event) (db' : Db)
    → log_new o event_type source w db ≡ ok ((new, ev), db')
    → (new ≡ o)
      × (find object_key o.id db.objects ≡ none)
      × Logged event_type (some o) source (with_object o db) ev db'
unfolding log_new insert_object ◌>>=◌ ◌>>◌ lift gets modify pure
log_new-eq-ok o event_type source w db new ev db' h =
    ground (arith, event-Logged event_type (some o) source end w (with_object o db) ev db')

create-eq-log_new :
    (kind title : String) (given : Value) (source : Source) (event_type id : Option String)
    (w : World) (db : Db) (o : Object)
    → new_object w.environ w.clock (chosen id w db).0 kind title given ≡ ok o
    → create kind title given source event_type id w db
      ≡ log_new o
          (elim event_type [ none ↦ created_event kind | some t ↦ t ])
          source
          w
          (drawn_to (chosen id w db).1 db)
unfolding create log_new uid ◌>>=◌ ◌>>◌ lift ask pure
create-eq-log_new kind title given source event_type none w db o e = rw e
create-eq-log_new kind title given source event_type (some id) w db o e = rw e

create-refused :
    (kind title : String) (given : Value) (source : Source) (event_type id : Option String)
    (w : World) (db : Db) (c : Error)
    → new_object w.environ w.clock (chosen id w db).0 kind title given ≡ err c
    → create kind title given source event_type id w db ≡ err c
unfolding create uid ◌>>=◌ ◌>>◌ lift ask pure
create-refused kind title given source event_type none w db c e = rw e
create-refused kind title given source event_type (some id) w db c e = rw e

pub create-Created :
    (kind title : String) (given : Value) (source : Source) (event_type id : Option String)
    (w : World) (db : Db) (new : Object) (ev : Event) (db' : Db)
    → create kind title given source event_type id w db ≡ ok ((new, ev), db')
    → Created kind title given source w db new ev db'
create-Created kind title given source event_type id w db new ev db' h =
    elim (Result-cases (new_object w.environ w.clock (chosen id w db).0 kind title given)) [
      | inl (c, e) ↦ absurd (cc (create-refused kind title given source event_type id w db c e))
      | inr (o, e) ↦
          let t : String = elim event_type [ none ↦ created_event kind | some t ↦ t ] in
          let (same, fresh, logged) =
            log_new-eq-ok o t source w (drawn_to (chosen id w db).1 db) new ev db'
              (cc (h, create-eq-log_new kind title given source event_type id w db o e)) in
          record {
            fresh = rw same fresh;
            built =
                cc (
                  same,
                  e,
                  new_object-id w.environ w.clock (chosen id w db).0 kind title given o e,
                );
            event_type = t;
            drawn = (chosen id w db).1;
            logged = rw same logged;
          }
    ]
