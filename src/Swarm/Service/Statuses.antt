-- ===== src/Swarm/Service/Statuses.antt =====
-- Status machines (`Service.change` and `validate_transition`,
-- backend/app/swarm/application/service.py, backend/app/swarm/domain/contracts.py).
use da_swarm.Base.{
  ℕ, String, Bool, true, false, ◌≡◌, refl, Option, none, some, arith, inl, inr, ◌⊎◌, ◌==◌, eq_iff,
  Bool-cases,
}
use da_swarm.Base.Table.{find}
use da_swarm.Swarm.Errors.{ok, conflict, require}
use da_swarm.Swarm.Json.{Value, Fields, get_field, null, boolean, int, real, str, arr, dict}
use da_swarm.Swarm.Contracts.{mem, targets_of, assoc, states, validate_transition, Machine, Environ}
use da_swarm.Swarm.Contracts.Machines.{terminal-targets}
use da_swarm.Swarm.Database.{Object, Event, Db, World}
use da_swarm.Swarm.Objects.{object_key, Source, checked_update, check_status, patched, text_column}
use da_swarm.Swarm.Service.{change}
use da_swarm.Swarm.Service.Writes.{change-Changed, Changed-same}

-- Where the status of an object may go in one step: nowhere, along its machine, or to the empty text.
abbrev pub Moves : Machine → String → String → Type 0
Moves m old new = (new ≡ old) ⊎ ((new ≡ "") ⊎ (mem new (targets_of m old) ≡ true))

require-ok : (b : Bool) → require b conflict ≡ ok tt → b ≡ true
require-ok true h = refl
require-ok false h = cc

validate_transition-eq-ok :
    (kind old new : String) (m : Machine)
    → assoc kind states ≡ some m
    → validate_transition kind old new ≡ ok tt
    → mem new (targets_of m old) ≡ true
unfolding validate_transition
validate_transition-eq-ok kind old new m e h =
    require-ok (mem new (targets_of m old)) (rw (validate_transition, e) at h)

checked_update-parts :
    (env : Environ) (o : Object) (version : ℕ) (patch : Fields) (u : Object)
    → checked_update env o version patch ≡ ok u
    → (check_status o patch ≡ ok tt) × (patched o patch ≡ ok u)
unfolding checked_update
checked_update-parts env o version patch u h = ground arith

text-Moves :
    (o u : Object) (patch : Fields) (m : Machine) (s : String)
    → assoc o.object_type states ≡ some m
    → get_field "status" patch ≡ some (str s)
    → check_status o patch ≡ ok tt
    → patched o patch ≡ ok u
    → Moves m o.status u.status
unfolding check_status patched text_column
text-Moves o u patch m s e g c p =
    let is_s : u.status ≡ s = ground arith in
    elim (Bool-cases (s == "")) [
      | inl x ↦ inr (inl (ground (arith, eq_iff s "")))
      | inr x ↦ elim (Bool-cases (s == o.status)) [
        | inl y ↦ inl (ground (arith, eq_iff s o.status))
        | inr y ↦
            inr (
              inr (rw is_s (validate_transition-eq-ok o.object_type o.status s m e (ground arith))))
      ]
    ]

patched-Moves :
    (o u : Object) (patch : Fields) (m : Machine)
    → assoc o.object_type states ≡ some m
    → check_status o patch ≡ ok tt
    → patched o patch ≡ ok u
    → Moves m o.status u.status
unfolding patched text_column
patched-Moves o u patch m e c p = go (get_field "status" patch) refl
  where
    go : (v : Option Value) → get_field "status" patch ≡ v → Moves m o.status u.status
    go none g = inl (ground arith)
    go (some (str s)) g = text-Moves o u patch m s e g c p
    go (some null) g = absurd (ground arith)
    go (some (boolean b)) g = absurd (ground arith)
    go (some (int i)) g = absurd (ground arith)
    go (some (real i)) g = absurd (ground arith)
    go (some (arr l)) g = absurd (ground arith)
    go (some (dict d)) g = absurd (ground arith)

-- A change that commits moves the status of an object with a state machine along a transition of the
-- machine, unless it leaves the status alone or empties it.
pub change-Moves :
    (id : String) (version : ℕ) (source : Source) (event_type : String) (patch : Fields) (w : World)
    (db : Db) (new : Object) (ev : Event) (db' : Db) (m : Machine)
    → change id version source event_type patch w db ≡ ok ((new, ev), db')
    → assoc new.object_type states ≡ some m
    → (old : Object) × (find object_key id db.objects ≡ some old) × Moves m old.status new.status
change-Moves id version source event_type patch w db new ev db' m h e =
    let c = change-Changed id version source event_type patch w db new ev db' h in
    let (_, kind, _, _) = Changed-same c in
    let (checked, applied) =
      checked_update-parts w.environ c.old version patch c.update c.applied in
    let moves = patched-Moves c.old c.update patch m (rw kind at e) checked applied in
    (c.old, c.found, rw (c.result) moves)

-- No change moves an object out of a status that its machine lists as terminal, except to the empty text.
pub change-terminal :
    (id : String) (version : ℕ) (source : Source) (event_type : String) (patch : Fields) (w : World)
    (db : Db) (old new : Object) (ev : Event) (db' : Db) (m : Machine)
    → find object_key id db.objects ≡ some old
    → assoc new.object_type states ≡ some m
    → mem old.status m.terminal ≡ true
    → change id version source event_type patch w db ≡ ok ((new, ev), db')
    → (new.status ≡ old.status) ⊎ (new.status ≡ "")
change-terminal id version source event_type patch w db old new ev db' m found kind ended h =
    let (o, same, moves) =
      change-Moves id version source event_type patch w db new ev db' m h kind in
    let none_left = terminal-targets new.object_type m old.status kind ended in
    elim moves [
      | inl e ↦ inl (ground (arith, e))
      | inr (inl e) ↦ inr e
      | inr (inr e) ↦ absurd (ground (arith, none_left new.status))
    ]
