-- ===== src/Swarm/Dispatcher/Delivery.antt =====
-- Delivery at least once (`Dispatcher`, backend/app/swarm/infrastructure/dispatch.py).
use da_swarm.Base.{
  ℕ, String, Bool, true, false, Option, none, some, List, [], ◌∷◌, ◌==◌, ◌≡◌, refl, sym, ◌∙◌, arith,
  inl, inr, ◌⊎◌, map, take, All, Bool-cases, Option-cases, eq_iff,
}
use mathlib.Core.Path.{subst}
use da_swarm.Base.Table.{update_where}
use da_swarm.Swarm.Errors.{Error, ok}
use da_swarm.Swarm.Database.{Entry, Db, World, Body, ◌>>=◌, ◌>>◌, gets, ask, modify, pure}
use da_swarm.Swarm.Dispatcher.{is_undelivered, select, by_age, delivered, mark, deliver, once}

module _ (publish : Entry → Option Error) (now : ℕ) (e : Entry) (l : List Entry) (db : Db) where
  deliver-taken :
      publish e ≡ none → deliver publish now (e ∷ l) db ≡ deliver publish now l (mark now e none db)
  unfolding deliver
  deliver-taken k = rw (deliver, k) refl

  deliver-refused :
      (x : Error) → publish e ≡ some x → deliver publish now (e ∷ l) db ≡ mark now e (some x) db
  unfolding deliver
  deliver-refused x k = rw (deliver, k) refl

module _ (P : Entry → Type 0) where
  -- What an update keeps of every row.
  update_where-All :
      (p : Entry → Bool) (f : Entry → Entry) (l : List Entry)
      → ((e : Entry) → p e ≡ true → P e → P (f e))
      → All P l
      → All P (update_where p f l)
  unfolding update_where
  update_where-All p f [] keep a = tt
  update_where-All p f (e ∷ l) keep (pe, a) = elim (Bool-cases (p e)) [
    | inl t ↦ rw t (keep e t pe, update_where-All p f l keep a)
    | inr t ↦ rw t (pe, update_where-All p f l keep a)
  ]

  deliver-All :
      (publish : Entry → Option Error) (now : ℕ) (l : List Entry) (db : Db)
      → ((e f : Entry) → f.id ≡ e.id → P f → P (delivered now (publish e) f))
      → All P db.outbox
      → All P (deliver publish now l db).outbox
  unfolding mark deliver
  deliver-All publish now [] db keep a = a
  deliver-All publish now (e ∷ l) db keep a =
      let next =
        update_where-All (λ f. f.id == e.id) (delivered now (publish e)) db.outbox
          (λ f t. keep e f (ground (arith, eq_iff f.id e.id))) a in
      elim (Option-cases (publish e)) [
        | inl k ↦
            rw (deliver-taken publish now e l db k)
              (deliver-All publish now l (mark now e none db) keep (rw k at next))
        | inr (x, k) ↦ rw (deliver-refused publish now e l db x k) (rw k at next)
      ]

-- Delivery is at least once: if every dispatched row of the outbox was taken by the transport, then so was
-- every one after a round, whatever the transport refused in it.
pub once-AtLeastOnce :
    (publish : Entry → Option Error) (WasTaken : String → Type 0) (w : World) (db : Db) (n : ℕ)
    (db' : Db)
    → ((e : Entry) → publish e ≡ none → WasTaken e.id)
    → All (λ f. (is_undelivered f ≡ true) ⊎ WasTaken f.id) db.outbox
    → once publish w db ≡ ok (n, db')
    → All (λ f. (is_undelivered f ≡ true) ⊎ WasTaken f.id) db'.outbox
unfolding once is_undelivered ◌>>=◌ ◌>>◌ gets ask modify pure
once-AtLeastOnce publish WasTaken w db n db' taken a h =
    let entries = take 100 (by_age (select is_undelivered db.outbox)) in
    let e : deliver publish w.clock entries db ≡ db' = ground arith in
    rw e at (
      deliver-All (λ f. (is_undelivered f ≡ true) ⊎ WasTaken f.id) publish w.clock entries db keep
        a)
  where
    keep :
        (e f : Entry)
        → f.id ≡ e.id
        → (is_undelivered f ≡ true) ⊎ WasTaken f.id
        → (is_undelivered (delivered w.clock (publish e) f) ≡ true)
          ⊎ WasTaken (delivered w.clock (publish e) f).id
    keep e f same h = elim (Option-cases (publish e)) [
      | inl k ↦ rw k (inr (rw (sym same) at (taken e k)))
      | inr (x, k) ↦ rw k h
    ]

-- What a round never touches of a row.
abbrev pub content : Entry → String × String × String × Body × ℕ
content e = (e.id, e.topic, e.message_key, e.payload, e.created_at)

delivered-content :
    (now : ℕ) (o : Option Error) (e : Entry) → content (delivered now o e) ≡ content e
delivered-content now none e = refl
delivered-content now (some x) e = refl

update_where-content :
    (p : Entry → Bool) (now : ℕ) (o : Option Error) (l : List Entry)
    → map content (update_where p (delivered now o) l) ≡ map content l
unfolding update_where
update_where-content p now o [] = refl
update_where-content p now o (e ∷ l) = elim (Bool-cases (p e)) [
  | inl t ↦ rw (t, delivered-content now o e, update_where-content p now o l)
  | inr t ↦ rw (t, update_where-content p now o l)
]

deliver-content :
    (publish : Entry → Option Error) (now : ℕ) (l : List Entry) (db : Db)
    → map content (deliver publish now l db).outbox ≡ map content db.outbox
unfolding deliver mark
deliver-content publish now [] db = refl
deliver-content publish now (e ∷ l) db = elim (Option-cases (publish e)) [
  | inl k ↦ rw (deliver-taken publish now e l db k) (
      deliver-content publish now l (mark now e none db)
      ∙ update_where-content (λ f. f.id == e.id) now none db.outbox)
  | inr (x, k) ↦
      rw (deliver-refused publish now e l db x k)
        (update_where-content (λ f. f.id == e.id) now (some x) db.outbox)
]

-- Once the transport takes everything, a round leaves nothing of its batch pending.
module _ (publish : Entry → Option Error) (takes : (e : Entry) → publish e ≡ none) (now : ℕ) where
  settled :
      (k : String) (l : List Entry) (db : Db)
      → All (λ f. f.id ≡ k → is_undelivered f ≡ false) db.outbox
      → All (λ f. f.id ≡ k → is_undelivered f ≡ false) (deliver publish now l db).outbox
  unfolding is_undelivered
  settled k l db a =
      deliver-All (λ f. f.id ≡ k → is_undelivered f ≡ false) publish now l db
        (λ e f same keep. rw (takes e) (λ _. refl)) a

  marked :
      (e : Entry) (l : List Entry)
      → All
          (λ f. f.id ≡ e.id → is_undelivered f ≡ false)
          (update_where (λ (f : Entry). f.id == e.id) (delivered now none) l)
  unfolding update_where is_undelivered
  marked e [] = tt
  marked e (f ∷ l) = elim (Bool-cases (f.id == e.id)) [
    | inl t ↦ rw t (λ _. refl, marked e l)
    | inr t ↦ rw t (λ s. absurd (ground (arith, eq_iff f.id e.id)), marked e l)
  ]

  deliver-settles :
      (l : List Entry) (db : Db)
      → All
          (λ (e : Entry).
            All (λ f. f.id ≡ e.id → is_undelivered f ≡ false) (deliver publish now l db).outbox)
          l
  unfolding deliver mark
  deliver-settles [] db = tt
  deliver-settles (e ∷ l) db =
      subst
        (λ (d : Db).
          All (λ (e : Entry). All (λ f. f.id ≡ e.id → is_undelivered f ≡ false) d.outbox) (e ∷ l))
        (sym (deliver-taken publish now e l db (takes e)))
        (
          settled e.id l (mark now e none db) (marked e db.outbox),
          deliver-settles l (mark now e none db),
        )

-- When the transport takes everything, no row of the batch (the hundred oldest that were pending) is
-- pending after the round.
pub once-settles :
    (publish : Entry → Option Error) (w : World) (db : Db) (n : ℕ) (db' : Db)
    → ((e : Entry) → publish e ≡ none)
    → once publish w db ≡ ok (n, db')
    → All
        (λ (e : Entry). All (λ f. f.id ≡ e.id → is_undelivered f ≡ false) db'.outbox)
        (take 100 (by_age (select is_undelivered db.outbox)))
unfolding once ◌>>=◌ ◌>>◌ gets ask modify pure
once-settles publish w db n db' takes h =
    let entries = take 100 (by_age (select is_undelivered db.outbox)) in
    let e : deliver publish w.clock entries db ≡ db' = ground arith in
    rw e at (deliver-settles publish takes w.clock entries db)

-- A round loses no row and changes nothing of one but its delivery columns.
pub once-content :
    (publish : Entry → Option Error) (w : World) (db : Db) (n : ℕ) (db' : Db)
    → once publish w db ≡ ok (n, db')
    → map content db'.outbox ≡ map content db.outbox
unfolding once ◌>>=◌ ◌>>◌ gets ask modify pure
once-content publish w db n db' h =
    let entries = take 100 (by_age (select is_undelivered db.outbox)) in
    let e : deliver publish w.clock entries db ≡ db' = ground arith in
    rw e at (deliver-content publish w.clock entries db)
