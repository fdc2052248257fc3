-- ===== src/Swarm/Contracts/Secrets.antt =====
-- What `validate_metadata` lets through (backend/app/swarm/domain/contracts.py).
use da_swarm.Base.Text.{codes, lower, upper, same, ends_with, contains}
use da_swarm.Base.Text.Search.{not-same, not-ends_with, not-contains, any-All}
use da_swarm.Base.{
  ℕ, Bool, true, ◌&&◌, ◌⊎◌, ◌≢◌, ◌≤◌, leb, any, length, Bool-cases, String, false, not, ◌≡◌, refl,
  List, [], ◌∷◌, ◌++◌, arith, inl, inr, All, All-append,
}
use da_swarm.Swarm.Errors.{Result, ok, err, require, forbidden, Result-cases, ◌>>◌}
use da_swarm.Swarm.Json.{
  Value, null, boolean, int, real, str, arr, dict, Items, nil, cons, Fields, end, field,
}
use da_swarm.Swarm.Contracts.{
  Environ, forbidden_keys, forbidden_suffixes, secret_words, is_forbidden, holds_secret, walk,
  walk_items, walk_fields, validate_metadata,
}

-- Every text and every key that occurs anywhere in a value.
mutual
  pub texts_in : Value → List String
  texts_in (dict d) = texts_in_fields d
  texts_in (arr l) = texts_in_items l
  texts_in (str s) = s ∷ []
  texts_in _ = []

  pub texts_in_items : Items → List String
  texts_in_items nil = []
  texts_in_items (cons v l) = texts_in v ++ texts_in_items l

  pub texts_in_fields : Fields → List String
  texts_in_fields end = []
  texts_in_fields (field _ v d) = texts_in v ++ texts_in_fields d

mutual
  pub keys_in : Value → List String
  keys_in (dict d) = keys_in_fields d
  keys_in (arr l) = keys_in_items l
  keys_in _ = []

  pub keys_in_items : Items → List String
  keys_in_items nil = []
  keys_in_items (cons v l) = keys_in v ++ keys_in_items l

  pub keys_in_fields : Fields → List String
  keys_in_fields end = []
  keys_in_fields (field k v d) = k ∷ (keys_in v ++ keys_in_fields d)

-- No key of credentials: in lower case it is none of the names, and ends in none of the endings.
abbrev pub IsNoSecretKey : String → Type 0
IsNoSecretKey k =
    All (λ w. lower (codes k) ≢ codes w)
      ("password" ∷ "token" ∷ "access_token" ∷ "api_key" ∷ "authorization" ∷ "cookie" ∷ "secret"
        ∷ "credentials" ∷ [])
    × All (λ w. (a : List ℕ) → lower (codes k) ≢ a ++ codes w)
        ("_password" ∷ "_token" ∷ "_api_key" ∷ "_secret" ∷ [])

-- A variable of the environment whose name, in upper case, has none of the words of a secret in it.
abbrev pub IsNoSecretName : String → Type 0
IsNoSecretName k =
    All (λ w. (a b : List ℕ) → upper (codes k) ≢ a ++ (codes w ++ b))
      ("PASSWORD" ∷ "SECRET" ∷ "API_KEY" ∷ "ACCESS_TOKEN" ∷ [])

-- A text with no secret of the environment in it: each variable has another name, has a value of at most five
-- characters, or its value does not stand in the text.
abbrev pub IsNoSecretText : Environ → String → Type 0
IsNoSecretText env t =
    All
      (λ (k, v).
        IsNoSecretName k
        ⊎ ((length (codes v) ≤ 5) ⊎ ((a b : List ℕ) → codes t ≢ a ++ (codes v ++ b))))
      env

-- Keys that are no secret's, and texts that hold no secret of the environment.
abbrev pub AreClean : Environ → List String → List String → Type 0
AreClean env keys texts = All IsNoSecretKey keys × All (IsNoSecretText env) texts

is_forbidden-IsNoSecretKey : (k : String) → is_forbidden k ≡ false → IsNoSecretKey k
unfolding is_forbidden
is_forbidden-IsNoSecretKey k h = (
  any-All (λ w. same (lower (codes k)) (codes w)) (λ w. lower (codes k) ≢ codes w)
      (λ w e. not-same (lower (codes k)) (codes w) e) forbidden_keys (ground arith),
  any-All (λ w. ends_with (lower (codes k)) (codes w))
      (λ w. (a : List ℕ) → lower (codes k) ≢ a ++ codes w)
      (λ w e. not-ends_with (lower (codes k)) (codes w) e) forbidden_suffixes (ground arith),
)

no_secret_name :
    (k : String)
    → any (λ w. contains (upper (codes k)) (codes w)) secret_words ≡ false
    → IsNoSecretName k
no_secret_name k =
    any-All (λ w. contains (upper (codes k)) (codes w))
      (λ w. (a b : List ℕ) → upper (codes k) ≢ a ++ (codes w ++ b))
      (λ w e. not-contains (upper (codes k)) (codes w) e) secret_words

and_false : (x y z : Bool) → x ≡ true → y ≡ false → x && not y && z ≡ false → z ≡ false
and_false x y z p q r = ground arith

holds_secret-IsNoSecretText :
    (env : Environ) (t : String) → holds_secret env t ≡ false → IsNoSecretText env t
unfolding holds_secret
holds_secret-IsNoSecretText env t h =
    any-All
      (λ (k, v).
        any (λ w. contains (upper (codes k)) (codes w)) secret_words
        && not (leb (length (codes v)) 5)
        && contains (codes t) (codes v))
      (λ (k, v).
        IsNoSecretName k
        ⊎ ((length (codes v) ≤ 5) ⊎ ((a b : List ℕ) → codes t ≢ a ++ (codes v ++ b))))
      one env h
  where
    one :
        (kv : String × String)
        → any (λ w. contains (upper (codes kv.0)) (codes w)) secret_words
            && not (leb (length (codes kv.1)) 5)
            && contains (codes t) (codes kv.1)
          ≡ false
        → IsNoSecretName kv.0
          ⊎ ((length (codes kv.1) ≤ 5) ⊎ ((a b : List ℕ) → codes t ≢ a ++ (codes kv.1 ++ b)))
    one (k, v) e =
        elim (Bool-cases (any (λ w. contains (upper (codes k)) (codes w)) secret_words)) [
          | inr n ↦ inl (no_secret_name k n)
          | inl y ↦ elim (Bool-cases (leb (length (codes v)) 5)) [
            | inl short ↦ inr (inl (ground arith))
            | inr long ↦ inr (inr (not-contains (codes t) (codes v) (and_false _ _ _ y long e)))
          ]
        ]

AreClean-append :
    (env : Environ) (ks ks' ts ts' : List String)
    → AreClean env ks ts
    → AreClean env ks' ts'
    → AreClean env (ks ++ ks') (ts ++ ts')
AreClean-append env ks ks' ts ts' a b = (All-append _ ks ks' a.0 b.0, All-append _ ts ts' a.1 b.1)

then-ok : (a b : Result (Unit {0})) → (a >> b) ≡ ok tt → (a ≡ ok tt) × (b ≡ ok tt)
then-ok (ok tt) b h = (refl, h)
then-ok (err e) b h = cc

mutual
  unfolding walk walk_items walk_fields keys_in texts_in keys_in_items texts_in_items keys_in_fields
      texts_in_fields

  walk-AreClean :
      (env : Environ) (v : Value) → walk env v ≡ ok tt → AreClean env (keys_in v) (texts_in v)
  walk-AreClean env (dict d) h = walk_fields-AreClean env d h
  walk-AreClean env (arr l) h = walk_items-AreClean env l h
  walk-AreClean env (str s) h = (tt, (holds_secret-IsNoSecretText env s (ground arith), tt))
  walk-AreClean env null h = (tt, tt)
  walk-AreClean env (boolean b) h = (tt, tt)
  walk-AreClean env (int i) h = (tt, tt)
  walk-AreClean env (real i) h = (tt, tt)

  walk_items-AreClean :
      (env : Environ) (l : Items)
      → walk_items env l ≡ ok tt
      → AreClean env (keys_in_items l) (texts_in_items l)
  walk_items-AreClean env nil h = (tt, tt)
  walk_items-AreClean env (cons v l) h =
      let (a, b) = then-ok (walk env v) (walk_items env l) h in
      AreClean-append env _ _ _ _ (walk-AreClean env v a) (walk_items-AreClean env l b)

  walk_fields-AreClean :
      (env : Environ) (d : Fields)
      → walk_fields env d ≡ ok tt
      → AreClean env (keys_in_fields d) (texts_in_fields d)
  walk_fields-AreClean env end h = (tt, tt)
  walk_fields-AreClean env (field k v d) h =
      let (a, b) = then-ok (require (not (is_forbidden k)) forbidden) _ h in
      let (c, e) = then-ok (walk env v) (walk_fields env d) b in
      let (x, y) =
        AreClean-append env _ _ _ _ (walk-AreClean env v c) (walk_fields-AreClean env d e) in
      ((is_forbidden-IsNoSecretKey k (ground arith), x), y)

-- A value that passes holds, at any depth, no key that names credentials and no text in which the value of a
-- variable of the environment stands that is named like a secret and is longer than five characters, and it
-- passes unchanged.
pub validate_metadata-AreClean :
    (env : Environ) (v checked : Value)
    → validate_metadata env v ≡ ok checked
    → (checked ≡ v) × AreClean env (keys_in v) (texts_in v)
unfolding validate_metadata
validate_metadata-AreClean env v checked h = elim (Result-cases (walk env v)) [
  | inl (c, e) ↦ absurd (ground arith)
  | inr (tt, e) ↦ (ground arith, walk-AreClean env v e)
]
