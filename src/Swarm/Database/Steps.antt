-- ===== src/Swarm/Database/Steps.antt =====
-- How a transaction that commits has run: one inversion for each way to build one, and the
-- invariants that it keeps.
use da_swarm.Base.{◌≡◌, refl, Bool, true, false, Option, none, some, if◌then◌else◌}
use da_swarm.Swarm.Errors.{Error, Result, ok, err}
use da_swarm.Swarm.Database.{
  if_found, Db, World, Tx, ◌>>=◌, ◌>>◌, pure, raise, lift, gets, ask, modify,
}

module _ {A B : Type 0} (w : World) (db : Db) {r : B × Db} where
  pub >>=-eq-ok :
      (m : Tx A) (f : A → Tx B)
      → (m >>= f) w db ≡ ok r
      → (a : A) × (db' : Db) × (m w db ≡ ok (a, db')) × (f a w db' ≡ ok r)
  unfolding ◌>>=◌
  >>=-eq-ok m f h = go (m w db) refl h
    where
      go :
          (x : Result (A × Db))
          → m w db ≡ x
          → (elim x [ ok (a, db') ↦ f a w db' | err e ↦ err e ]) ≡ ok r
          → (a : A) × (db' : Db) × (m w db ≡ ok (a, db')) × (f a w db' ≡ ok r)
      go (ok (a, db')) e h = (a, db', e, h)
      go (err c) e h = cc

  pub >>-eq-ok :
      (m : Tx A) (n : Tx B)
      → (m >> n) w db ≡ ok r
      → (a : A) × (db' : Db) × (m w db ≡ ok (a, db')) × (n w db' ≡ ok r)
  unfolding ◌>>=◌ ◌>>◌
  >>-eq-ok m n h = go (m w db) refl h
    where
      go :
          (x : Result (A × Db))
          → m w db ≡ x
          → (elim x [ ok (a, db') ↦ n w db' | err e ↦ err e ]) ≡ ok r
          → (a : A) × (db' : Db) × (m w db ≡ ok (a, db')) × (n w db' ≡ ok r)
      go (ok (a, db')) e h = (a, db', e, h)
      go (err c) e h = cc

  -- A check leaves the state alone.
  pub lift-eq-ok :
      (x : Result A) (f : A → Tx B)
      → (lift x >>= f) w db ≡ ok r
      → (a : A) × (x ≡ ok a) × (f a w db ≡ ok r)
  unfolding ◌>>=◌ lift
  lift-eq-ok (ok a) f h = (a, refl, h)
  lift-eq-ok (err c) f h = cc

-- A transaction that commits from a state with `P` ends, with its result, in a state with `Q`.
pub record Triple {A : Type 0} (P : Db → Type 0) (m : Tx A) (Q : A → Db → Type 0) : Type 0 where
  pub at : (w : World) (db : Db) → P db → (a : A) (db' : Db) → m w db ≡ ok (a, db') → Q a db'

-- Whenever it commits, it keeps `P`.
abbrev pub Keeps : {A : Type 0} → (Db → Type 0) → Tx A → Type 0
Keeps P m = Triple P m (λ _. P)

module _ {A : Type 0} {P : Db → Type 0} where
  pub Keeps-pure : (a : A) → Keeps P (pure a)
  unfolding pure
  Keeps-pure a = record { at = λ w db p a' db' h. let e : db ≡ db' = cc in rw e at p }

  pub Keeps-raise : (e : Error) → Keeps P (raise {A = A} e)
  unfolding raise
  Keeps-raise e = record { at = λ w db p a' db' h. absurd (cc) }

  pub Keeps-lift : (x : Result A) → Keeps P (lift x)
  unfolding lift
  Keeps-lift (ok a) = record { at = λ w db p a' db' h. let e : db ≡ db' = cc in rw e at p }
  Keeps-lift (err c) = record { at = λ w db p a' db' h. absurd (cc) }

  pub Keeps-gets : (f : Db → A) → Keeps P (gets f)
  unfolding gets
  Keeps-gets f = record { at = λ w db p a' db' h. let e : db ≡ db' = cc in rw e at p }

  pub Keeps-ask : (f : World → A) → Keeps P (ask f)
  unfolding ask
  Keeps-ask f = record { at = λ w db p a' db' h. let e : db ≡ db' = cc in rw e at p }

  pub Keeps-if : (b : Bool) (m n : Tx A) → Keeps P m → Keeps P n → Keeps P (if b then m else n)
  Keeps-if true m n km kn = km
  Keeps-if false m n km kn = kn

module _ {P : Db → Type 0} where
  pub Keeps-modify : (f : Db → Db) → ((db : Db) → P db → P (f db)) → Keeps P (modify f)
  unfolding modify
  Keeps-modify f keep = record {
    at = λ w db p a' db' h. let e : f db ≡ db' = cc in rw e at (keep db p);
  }

module _ {A B : Type 0} {P : Db → Type 0} {Q : A → Db → Type 0} {R : B → Db → Type 0} where
  pub Triple-bind :
      (m : Tx A) (f : A → Tx B)
      → Triple P m Q
      → ((a : A) → Triple (Q a) (f a) R)
      → Triple P (m >>= f) R
  Triple-bind m f tm tf = record {
    at = λ w db p b db' h.
        let (a, mid, e, e') = >>=-eq-ok w db m f h in
        (tf a).at w mid (tm.at w db p a mid e) b db' e';
  }

module _ {A B : Type 0} {P : Db → Type 0} where
  pub Keeps-bind :
      (m : Tx A) (f : A → Tx B) → Keeps P m → ((a : A) → Keeps P (f a)) → Keeps P (m >>= f)
  Keeps-bind m f km kf = Triple-bind m f km kf

  -- `>>` is `>>=` with the result dropped.
  pub Keeps-then : (m : Tx A) (n : Tx B) → Keeps P m → Keeps P n → Keeps P (m >> n)
  unfolding ◌>>◌
  Keeps-then m n km kn = Triple-bind m (λ _. n) km (λ _. kn)

  pub Keeps-if_found :
      (o : Option A) (f : A → Tx B) (m : Tx B)
      → ((a : A) → Keeps P (f a))
      → Keeps P m
      → Keeps P (if_found o f m)
  unfolding if_found
  Keeps-if_found none f m kf km = km
  Keeps-if_found (some a) f m kf km = kf a

pub ruleset keeps_rules = (
  Keeps-pure, Keeps-raise, Keeps-lift, Keeps-gets, Keeps-ask, Keeps-if, Keeps-bind, Keeps-then,
  Keeps-if_found,
)

-- The same in one world, whose clock the result may speak of.
pub record Runs {A : Type 0} (w : World) (P : Db → Type 0) (m : Tx A) (Q : A → Db → Type 0)
    : Type 0 where
  pub at : (db : Db) → P db → (a : A) (db' : Db) → m w db ≡ ok (a, db') → Q a db'

module _ {A : Type 0} {P : Db → Type 0} {Q : A → Db → Type 0} where
  pub Triple-Runs : (w : World) (m : Tx A) → Triple P m Q → Runs w P m Q
  Triple-Runs w m t = record { at = t.at w }

module _ {A B : Type 0} {P : Db → Type 0} {Q : A → Db → Type 0} {R : B → Db → Type 0} where
  pub Runs-bind :
      (w : World) (m : Tx A) (f : A → Tx B)
      → Runs w P m Q
      → ((a : A) → Runs w (Q a) (f a) R)
      → Runs w P (m >>= f) R
  Runs-bind w m f tm tf = record {
    at = λ db p b db' h.
        let (a, mid, e, e') = >>=-eq-ok w db m f h in (tf a).at mid (tm.at db p a mid e) b db' e';
  }
