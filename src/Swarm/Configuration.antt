-- ===== src/Swarm/Configuration.antt =====
-- `DEFAULT_CONFIG` (backend/app/swarm/domain/contracts.py) and `Service.validate_config`
-- (backend/app/swarm/application/service.py).
use da_swarm.Base.{
  all, ℕ, ◌+◌, ◌*◌, String, Bool, true, false, ◌&&◌, none, some, List, [], ◌∷◌, map, ◌==◌, ltb,
  if◌then◌else◌,
}
use da_swarm.Base.Int.{ℤ, pos, pos_part, leb_ℤ}
use da_swarm.Swarm.Errors.{
  value_error, key_error, type_error, Result, ok, err, ◌>>=◌, ◌>>◌, require,
}
use da_swarm.Swarm.Json.{
  field, Value, real, str, arr, dict, Items, nil, cons, Fields, end, nat, get_field, field_names,
  millionths, items,
}
use da_swarm.Swarm.Contracts.{mem, assoc, resources}
use Prim.Native.String.{compare}
use Prim.Native.Nat.{Ordering}

abbrev pub default_config : Fields
default_config =
    field "routing_weights"
      (dict (
        field "semantic_fit" (real (pos 550_000))
          (field "novelty" (real (pos 200_000)) (field "quality" (real (pos 250_000)) end))))
      (field "model_version" (str "heuristic-v1") (
        field "lease_seconds" (nat 30) (
          field "max_attempts" (nat 5) (
            field "max_media_bytes" (nat 100_000_000) (
              field "max_duration_seconds" (nat 300) (
                field "max_resolution" (nat 3840) (
                  field "graph_limit" (nat 500) (
                    field "exploration_fraction" (real (pos 100_000)) (
                      field "paused_queues" (arr nil) (
                        field "providers"
                          (dict (
                            field "transcription" (str "placeholder") (
                              field "embedding" (str "placeholder")
                                (field "vision" (str "placeholder") end))))
                          end))))))))))

-- `d[k]`
unfoldable pub item : String → Fields → Result Value
item k d = elim (get_field k d) [ none ↦ err key_error | some v ↦ ok v ]

-- A number where Python compares one.
unfoldable pub number : Value → Result ℤ
number v = elim (millionths v) [ none ↦ err type_error | some m ↦ ok m ]

-- `if not lo <= d[k] <= hi: raise ValueError`
unfoldable pub in_range : ℕ → ℕ → Value → Result (Unit {0})
in_range lo hi v = do
  m ← number v
  require (leb_ℤ (pos (lo * 1_000_000)) m && leb_ℤ m (pos (hi * 1_000_000))) value_error

-- Every value lies in [0, 1]; the sum of the values, in millionths.
unfoldable pub sum_weights : Fields → Result ℕ
sum_weights end = ok 0
sum_weights (field k v d) = do
  in_range 0 1 v
  m ← number v
  rest ← sum_weights d
  ok (pos_part m + rest)

abbrev pub weight_names : List String
weight_names = "semantic_fit" ∷ "novelty" ∷ "quality" ∷ []

-- `set(d) == set(names)`
unfoldable pub same_names : Fields → List String → Bool
same_names d names =
    all (λ k. mem k names) (field_names d) && all (λ k. mem k (field_names d)) names

unfoldable pub valid_weights : Value → Result (Unit {0})
valid_weights (dict d) = do
  require (same_names d weight_names) value_error
  total ← sum_weights d
  require (ltb 0 total) value_error
valid_weights (arr _) = err value_error
valid_weights (str _) = err value_error
valid_weights _ = err type_error

unfoldable pub positive : Value → Result (Unit {0})
positive v = elim (millionths v) [
  | none ↦ err value_error
  | some m ↦ require (ltb 0 (pos_part m)) value_error
]

-- What a `for` loop over the value visits.
unfoldable pub characters : String → List Value
characters String.[] = []
characters (String.◌∷◌ c s) = str (String.◌∷◌ c String.[]) ∷ characters s

unfoldable pub iterate : Value → Result (List Value)
iterate (arr l) = ok (items l)
iterate (str s) = ok (characters s)
iterate (dict d) = ok (map str (field_names d))
iterate _ = err type_error

-- `q in RESOURCES`
unfoldable pub is_queue : Value → Bool
is_queue (str q) = elim (assoc q resources) [ none ↦ false | some _ ↦ true ]
is_queue _ = false

unfoldable pub are_placeholders : Fields → Bool
are_placeholders end = true
are_placeholders (field k (str s) d) = s == "placeholder" && are_placeholders d
are_placeholders (field k _ d) = false

unfoldable pub valid_providers : Value → Result (Unit {0})
valid_providers (dict d) = require (are_placeholders d) value_error
valid_providers _ = err type_error

unfoldable pub validate_config : Fields → Result (Unit {0})
validate_config d = do
  lease ← item "lease_seconds" d
  in_range 1 3600 lease
  attempts ← item "max_attempts" d
  in_range 1 20 attempts
  graph ← item "graph_limit" d
  in_range 1 2000 graph
  exploration ← item "exploration_fraction" d
  in_range 0 1 exploration
  weights ← item "routing_weights" d
  valid_weights weights
  bytes ← item "max_media_bytes" d
  positive bytes
  duration ← item "max_duration_seconds" d
  positive duration
  resolution ← item "max_resolution" d
  positive resolution
  paused ← item "paused_queues" d
  queues ← iterate paused
  require (all is_queue queues) value_error
  providers ← item "providers" d
  valid_providers providers

-- The texts of `set(data['paused_queues'])`; a valid configuration holds nothing else there.
unfoldable pub texts : List Value → List String
texts [] = []
texts (str s ∷ l) = s ∷ texts l
texts (_ ∷ l) = texts l

-- `sorted(set(l))`, one element at a time.
unfoldable pub insert_sorted : String → List String → List String
insert_sorted x [] = x ∷ []
insert_sorted x (y ∷ l) =
    let rest = insert_sorted x l in
    elim (compare x y) [ Ordering.lt ↦ x ∷ y ∷ l | Ordering.eq ↦ y ∷ l | Ordering.gt ↦ y ∷ rest ]

unfoldable pub sorted_set : List String → List String
sorted_set [] = []
sorted_set (x ∷ l) = insert_sorted x (sorted_set l)

unfoldable pub discard : String → List String → List String
discard x [] = []
discard x (y ∷ l) = let rest = discard x l in if y == x then rest else y ∷ rest

unfoldable pub to_items : List String → Items
to_items [] = nil
to_items (s ∷ l) = cons (str s) (to_items l)
