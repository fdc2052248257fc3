-- ===== src/Accounts/Errors.antt =====
-- The exceptions of the account services (backend/app/application/errors/exceptions.py and those of the
-- language and the database), and calls that change a state and may raise: what was changed by then stays.
use da_swarm.Base.{Bool, true, false, ◌≡◌, refl}

pub data AuthError : Type 0 where
  unauthorized validation bad_request : AuthError
  value_error duplicate_key recursion_error : AuthError

pub data Result {ℓ} (A : Type ℓ) : Type ℓ where
  ok : A → Result A
  err : AuthError → Result A

abbrev pub M : Type 0 → Type 0 → Type 0
M S A = S → Result A × S

abbrev pub after : {S A B : Type 0} → (A → M S B) → Result A × S → Result B × S
after f (ok a, s) = f a s
after f (err e, s) = (err e, s)

infixl 5 ◌>>=◌ ◌>>◌
abbrev pub ◌>>=◌ : {S A B : Type 0} → M S A → (A → M S B) → M S B
◌>>=◌ m f s = after f (m s)

abbrev pub ◌>>◌ : {S A B : Type 0} → M S A → M S B → M S B
m >> k = m >>= λ _. k

abbrev pub pure : {S A : Type 0} → A → M S A
pure a s = (ok a, s)

abbrev pub raise : {S A : Type 0} → AuthError → M S A
raise e s = (err e, s)

-- `if b: raise e`
abbrev pub raise_if : {S : Type 0} → Bool → AuthError → M S (Unit {0})
raise_if true e s = (err e, s)
raise_if false e s = (ok tt, s)

-- A call that did not raise had a first part that did not.
pub after-ok :
    {S A B : Type 0} (p : Result A × S) (f : A → M S B) (b : B) (s' : S)
    → after f p ≡ (ok b, s')
    → (a : A) × (s : S) × (p ≡ (ok a, s)) × (f a s ≡ (ok b, s'))
after-ok (ok a, s) f b s' h = (a, s, refl, h)
after-ok (err e, s) f b s' h = cc
