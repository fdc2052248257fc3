-- ===== src/Swarm/Json.antt =====
-- JSON values: what `payload`, `metadata` and the configuration hold. A `real` counts millionths.
use da_swarm.Base.{
  ℕ, zero, ◌+◌, ◌*◌, String, Bool, true, false, Option, none, some, List, [], ◌∷◌, ◌==◌, not,
  if◌then◌else◌,
}
use da_swarm.Base.Int.{ℤ, pos, negsuc}

mutual
  pub data Value : Type 0 where
    null : Value
    boolean : Bool → Value
    int : ℤ → Value
    real : ℤ → Value
    str : String → Value
    arr : Items → Value
    dict : Fields → Value

  pub data Items : Type 0 where
    nil : Items
    cons : Value → Items → Items

  pub data Fields : Type 0 where
    end : Fields
    field : String → Value → Fields → Fields

abbrev pub nat : ℕ → Value
nat n = int (pos n)

-- `d.get(k)`
unfoldable pub get_field : String → Fields → Option Value
get_field k end = none
get_field k (field j v d) = if j == k then some v else get_field k d

-- `d[k] = v`: a key keeps its place, a new one goes last.
unfoldable pub set_field : String → Value → Fields → Fields
set_field k v end = field k v end
set_field k v (field j u d) = if j == k then field k v d else field j u (set_field k v d)

-- `d.update(p)`, `{**d, **p}`
unfoldable pub update_fields : Fields → Fields → Fields
unfolding set_field
update_fields d end = d
update_fields d (field k v p) = update_fields (set_field k v d) p

unfoldable pub field_names : Fields → List String
field_names end = []
field_names (field k v d) = k ∷ field_names d

-- `bool(v)`
unfoldable pub truthy : Value → Bool
truthy null = false
truthy (boolean b) = b
truthy (int (pos zero)) = false
truthy (int _) = true
truthy (real (pos zero)) = false
truthy (real _) = true
truthy (str s) = not (s == "")
truthy (arr nil) = false
truthy (arr (cons _ _)) = true
truthy (dict end) = false
truthy (dict (field _ _ _)) = true

-- `d.get(k) or default`
unfoldable pub get_or : String → Value → Fields → Value
unfolding get_field truthy
get_or k v d = elim (get_field k d) [ none ↦ v | some u ↦ if truthy u then u else v ]

-- A number in millionths; JSON's booleans are numbers to Python.
unfoldable pub millionths : Value → Option ℤ
millionths (int (pos n)) = some (pos (n * 1_000_000))
millionths (int (negsuc n)) = some (negsuc (n * 1_000_000 + 999_999))
millionths (real m) = some m
millionths (boolean true) = some (pos 1_000_000)
millionths (boolean false) = some (pos 0)
millionths _ = none

abbrev pub items : Items → List Value
items nil = []
items (cons v l) = v ∷ items l
