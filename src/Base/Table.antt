-- ===== src/Base/Table.antt =====
-- Database tables as lists of rows with a textual key, newest row first: the first row that
-- meets a condition, an update of all rows that meet one, and an insertion that a primary key guards.
use mathlib.Core.Path.{◌≡◌, refl}
use mathlib.Core.Bool.{Bool, true}
use mathlib.Core.Option
use mathlib.Core.Option.{Option, none, some}
use mathlib.Core.List.{List, [], ◌∷◌}
use native.Mathlib.Omega.{arith}
use text.Mathlib.Text.{◌==◌}
use text.Mathlib.TextEquality.{eq_iff}
use Prim.Native.Nat.{ℕ, ◌+◌}
use Prim.Native.String.{String}
use mathlib.Core.Logic.{◌≢◌, inl, inr}
use da_swarm.Base.Lists.{All}
use da_swarm.Base.Tests.{if◌then◌else◌, Bool-cases}

module _ {A : Type 0} where
  -- `select ... where p`, its first row.
  unfoldable pub find_by : (A → Bool) → List A → Option A
  find_by p [] = none
  find_by p (r ∷ rs) = if p r then some r else find_by p rs

  -- `update ... where p`, and the number of rows that it matched.
  unfoldable pub update_where : (A → Bool) → (A → A) → List A → List A
  update_where p f [] = []
  update_where p f (r ∷ rs) = (if p r then f r else r) ∷ update_where p f rs

  unfoldable pub count_where : (A → Bool) → List A → ℕ
  count_where p [] = 0
  count_where p (r ∷ rs) = let n = count_where p rs in if p r then n + 1 else n

module _ {A : Type 0} (key : A → String) where
  unfoldable pub find : String → List A → Option A
  find k [] = none
  find k (r ∷ rs) = if key r == k then some r else find k rs

  pub key-find : (k : String) (l : List A) (r : A) → find k l ≡ some r → key r ≡ k
  unfolding find
  key-find k [] r h = cc
  key-find k (x ∷ l) r h = ground (arith, key-find k l r, eq_iff (key x) k)

  -- What is not found is on no row.
  pub find-none-All : (k : String) (l : List A) → find k l ≡ none → All (λ r. key r ≢ k) l
  unfolding find
  find-none-All k [] h = tt
  find-none-All k (x ∷ l) h = elim (Bool-cases (key x == k)) [
    | inl e ↦ absurd (ground arith)
    | inr e ↦ (ground (arith, eq_iff (key x) k), find-none-All k l (ground arith))
  ]

  pub find-cons :
      (k : String) (r : A) (l : List A) → find k (r ∷ l) ≡ (if key r == k then some r else find k l)
  unfolding find
  find-cons k r l = refl

  -- An update that keeps keys changes what each key finds, and no more.
  pub find-update_where :
      (p : A → Bool) (f : A → A) (keeps : (r : A) → p r ≡ true → key (f r) ≡ key r) (k : String)
      (l : List A)
      → find k (update_where p f l) ≡ Option.map (λ r. if p r then f r else r) (find k l)
  unfolding find update_where
  find-update_where p f keeps k [] = refl
  find-update_where p f keeps k (x ∷ l) = ground (arith, keeps x, find-update_where p f keeps k l)
