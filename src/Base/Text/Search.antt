-- ===== src/Base/Text/Search.antt =====
-- What the searches in texts find: a part that stands in a text is found, so that one that is not found does
-- not stand in it.
use mathlib.Core.Bool.{false≢true}
use da_swarm.Base.Tests.{Bool-cases}
use da_swarm.Base.Lists.{any, All}
use da_swarm.Base.Text.{same, starts_with, ends_with, contains, same_iff_refl}
use Prim.Native.Nat.{ℕ}
use mathlib.Core.Bool.{Bool, true, false, ◌||◌}
use mathlib.Core.List.{List, [], ◌∷◌, ◌++◌}
use mathlib.Core.Logic.{inl, inr, ◌≢◌}
use mathlib.Core.Path.{◌≡◌, refl, sym, ap, ◌∙◌}
use native.Mathlib.Omega.{arith}

or-true : (b : Bool) → (b || true) ≡ true
or-true true = refl
or-true false = refl

starts_with-append : (w b : List ℕ) → starts_with (w ++ b) w ≡ true
starts_with-append [] [] = refl
starts_with-append [] (x ∷ b) = refl
starts_with-append (x ∷ w) b = ground (arith, starts_with-append w b)

contains-append : (a w b : List ℕ) → contains (a ++ (w ++ b)) w ≡ true
contains-append [] [] [] = refl
contains-append [] [] (x ∷ b) = refl
contains-append [] (x ∷ w) b = rw (starts_with-append (x ∷ w) b) refl
contains-append (x ∷ a) w b =
    rw (contains-append a w b) (or-true (starts_with (x ∷ (a ++ (w ++ b))) w))

ends_with-append : (a w : List ℕ) → ends_with (a ++ w) w ≡ true
ends_with-append [] [] = refl
ends_with-append [] (x ∷ w) = rw (same_iff_refl (x ∷ w)) refl
ends_with-append (x ∷ a) w = rw (ends_with-append a w) (or-true (same (x ∷ (a ++ w)) w))

pub not-same : (s w : List ℕ) → same s w ≡ false → s ≢ w
not-same s w h e = false≢true (sym h ∙ ap (λ z. same z w) e ∙ same_iff_refl w)

pub not-ends_with : (s w : List ℕ) → ends_with s w ≡ false → (a : List ℕ) → s ≢ a ++ w
not-ends_with s w h a e = false≢true (sym h ∙ ap (λ z. ends_with z w) e ∙ ends_with-append a w)

pub not-contains : (s w : List ℕ) → contains s w ≡ false → (a b : List ℕ) → s ≢ a ++ (w ++ b)
not-contains s w h a b e = false≢true (sym h ∙ ap (λ z. contains z w) e ∙ contains-append a w b)

-- What no element passes.
pub any-All :
    {A : Type 0} (p : A → Bool) (Q : A → Type 0)
    → ((x : A) → p x ≡ false → Q x)
    → (l : List A) → any p l ≡ false
    → All Q l
any-All p Q f [] h = tt
any-All p Q f (x ∷ l) h = elim (Bool-cases (p x)) [
  | inl e ↦ absurd (ground arith)
  | inr e ↦ (f x e, any-All p Q f l (ground arith))
]
