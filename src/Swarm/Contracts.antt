-- ===== src/Swarm/Contracts.antt =====
-- backend/app/swarm/domain/contracts.py: the contract tables, and the checks at the write boundary.
mod Tables
unfoldable pub use Tables.*
pub mod Machines
pub mod Secrets
use da_swarm.Base.{
  String, Bool, true, false, ◌||◌, ◌&&◌, not, Option, none, some, List, [], ◌∷◌, ◌==◌, leb, any,
  length, if◌then◌else◌,
}
use da_swarm.Base.Text.{codes, same, lower, upper, ends_with, contains}
use da_swarm.Swarm.Errors.{Result, ok, err, conflict, forbidden, require, ◌>>◌}
use da_swarm.Swarm.Json.{Value, str, arr, dict, Items, nil, cons, Fields, end, field}

-- `x in l` on texts.
unfoldable pub mem : String → List String → Bool
mem x [] = false
mem x (y ∷ l) = if y == x then true else mem x l

-- `d.get(k)` on the tables.
unfoldable pub assoc {ℓ} : {A : Type ℓ} → String → List (String × A) → Option A
assoc k [] = none
assoc k ((j, a) ∷ l) = if j == k then some a else assoc k l

-- `STATES[kind]['transitions'].get(previous, [])`
unfoldable pub targets_of : Machine → String → List String
targets_of m previous = elim (assoc previous m.transitions) [ none ↦ [] | some l ↦ l ]

unfoldable pub validate_transition : String → String → String → Result (Unit {0})
validate_transition kind previous target = elim (assoc kind states) [
  | none ↦ ok tt
  | some m ↦ require (mem target (targets_of m previous)) conflict
]

abbrev pub forbidden_keys : List String
forbidden_keys =
    "password" ∷ "token" ∷ "access_token" ∷ "api_key" ∷ "authorization" ∷ "cookie" ∷ "secret"
    ∷ "credentials" ∷ []

abbrev pub forbidden_suffixes : List String
forbidden_suffixes = "_password" ∷ "_token" ∷ "_api_key" ∷ "_secret" ∷ []

abbrev pub secret_words : List String
secret_words = "PASSWORD" ∷ "SECRET" ∷ "API_KEY" ∷ "ACCESS_TOKEN" ∷ []

-- `os.environ`, as names with values.
abbrev pub Environ : Type 0
Environ = List (String × String)

unfoldable pub is_forbidden : String → Bool
is_forbidden k =
    any (λ w. same (lower (codes k)) (codes w)) forbidden_keys
    || any (λ w. ends_with (lower (codes k)) (codes w)) forbidden_suffixes

-- A text that holds the value of a variable whose name speaks of a secret.
unfoldable pub holds_secret : Environ → String → Bool
holds_secret env x =
    any
      (λ (k, v).
        any (λ w. contains (upper (codes k)) (codes w)) secret_words
        && not (leb (length (codes v)) 5)
        && contains (codes x) (codes v))
      env

unfoldable mutual
  pub walk : Environ → Value → Result (Unit {0})
  walk env (dict d) = walk_fields env d
  walk env (arr l) = walk_items env l
  walk env (str x) = require (not (holds_secret env x)) forbidden
  walk env _ = ok tt

  pub walk_items : Environ → Items → Result (Unit {0})
  walk_items env nil = ok tt
  walk_items env (cons v l) = walk env v >> walk_items env l

  pub walk_fields : Environ → Fields → Result (Unit {0})
  walk_fields env end = ok tt
  walk_fields env (field k v d) =
      require (not (is_forbidden k)) forbidden >> (walk env v >> walk_fields env d)

-- Reject secrets at the write boundary.
unfoldable pub validate_metadata : Environ → Value → Result Value
unfolding walk
validate_metadata env v = walk env v >> ok v
