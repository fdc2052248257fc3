-- ===== src/Base/Text.antt =====
-- Texts as lists of code points, with the parts of Python's `str` that the program uses on them.
pub mod Search
use Prim.Native.Char.{Char, code}
use Prim.Native.Nat.{ℕ, zero, suc, ◌+◌, ◌-◌}
use Prim.Native.String.{String}
use mathlib.Core.Path.{◌≡◌, refl}
use mathlib.Core.Bool.{Bool, true, false, ◌&&◌, ◌||◌}
use mathlib.Core.List.{List, [], ◌∷◌, ◌++◌, map}
use text.Mathlib.Text.{◌==◌}
use text.Mathlib.TextEquality.{eq_iff}
use mathlib.Core.Path.{ap}
use mathlib.Core.Bool.{false≢true}
use mathlib.Core.Logic.{◌⊎◌, inl, inr}
use da_swarm.Base.Tests.{Bool-cases}
use da_swarm.Base.Tests.{leb, ltb, eqb, if◌then◌else◌}
use native.Mathlib.Omega.{arith}

abbrev pub codes : String → List ℕ
codes String.[] = []
codes (String.◌∷◌ c s) = code c ∷ codes s

-- Equality of texts.
abbrev pub same : List ℕ → List ℕ → Bool
same [] [] = true
same (a ∷ s) (b ∷ t) = eqb a b && same s t
same _ _ = false

-- `s.startswith(p)`, `s.endswith(p)` and `p in s`.
abbrev pub starts_with : List ℕ → List ℕ → Bool
starts_with s [] = true
starts_with [] (b ∷ p) = false
starts_with (a ∷ s) (b ∷ p) = eqb a b && starts_with s p

abbrev pub ends_with : List ℕ → List ℕ → Bool
ends_with [] p = same [] p
ends_with (a ∷ s) p = same (a ∷ s) p || ends_with s p

abbrev pub contains : List ℕ → List ℕ → Bool
contains [] p = starts_with [] p
contains (a ∷ s) p = starts_with (a ∷ s) p || contains s p

-- `c.lower()`: ASCII, and the one other letter (the Kelvin sign) whose lower case is an ASCII letter.
abbrev pub lower_code : ℕ → ℕ
lower_code c = if leb b'A' c && leb c b'Z' then c + 32 else if eqb c 0x212a then b'k' else c

abbrev pub lower : List ℕ → List ℕ
lower = map lower_code

-- The other letters whose upper case has ASCII letters in it.
abbrev pub special_uppers : List (ℕ × List ℕ)
special_uppers =
    (0xdf, b'S' ∷ b'S' ∷ [])
    ∷ (0x131, b'I' ∷ [])
    ∷ (0x149, 0x2bc ∷ b'N' ∷ [])
    ∷ (0x17f, b'S' ∷ [])
    ∷ (0x1f0, b'J' ∷ 0x30c ∷ [])
    ∷ (0x1e96, b'H' ∷ 0x331 ∷ [])
    ∷ (0x1e97, b'T' ∷ 0x308 ∷ [])
    ∷ (0x1e98, b'W' ∷ 0x30a ∷ [])
    ∷ (0x1e99, b'Y' ∷ 0x30a ∷ [])
    ∷ (0x1e9a, b'A' ∷ 0x2be ∷ [])
    ∷ (0xfb00, b'F' ∷ b'F' ∷ [])
    ∷ (0xfb01, b'F' ∷ b'I' ∷ [])
    ∷ (0xfb02, b'F' ∷ b'L' ∷ [])
    ∷ (0xfb03, b'F' ∷ b'F' ∷ b'I' ∷ [])
    ∷ (0xfb04, b'F' ∷ b'F' ∷ b'L' ∷ [])
    ∷ (0xfb05, b'S' ∷ b'T' ∷ [])
    ∷ (0xfb06, b'S' ∷ b'T' ∷ [])
    ∷ []

unfoldable pub special_upper : List (ℕ × List ℕ) → ℕ → List ℕ
special_upper [] c = c ∷ []
special_upper ((d, s) ∷ t) c = let rest = special_upper t c in if eqb d c then s else rest

abbrev pub upper_code : ℕ → ℕ
upper_code c = if leb b'a' c && leb c b'z' then c - 32 else c

-- `s.upper()`, but for letters that stay what they are where only ASCII letters are looked for.
abbrev pub upper : List ℕ → List ℕ
upper [] = []
upper (c ∷ s) =
    let rest = upper s in
    if ltb c 128 then upper_code c ∷ rest else special_upper special_uppers c ++ rest

pub same_iff_refl : (s : List ℕ) → same s s ≡ true
same_iff_refl [] = refl
same_iff_refl (a ∷ s) = ground (arith, same_iff_refl s)

pub eq_of_same : (s t : List ℕ) → same s t ≡ true → s ≡ t
eq_of_same [] [] h = refl
eq_of_same [] (b ∷ t) h = ground arith
eq_of_same (a ∷ s) [] h = ground arith
eq_of_same (a ∷ s) (b ∷ t) h = ground (arith, eq_of_same s t)

-- What Python's `str.strip` takes off.
abbrev pub is_space : ℕ → Bool
is_space c =
    leb 9 c && leb c 13
    || leb 28 c && leb c 32
    || eqb c 0x85
    || eqb c 0xa0
    || eqb c 0x1680
    || leb 0x2000 c && leb c 0x200a
    || leb 0x2028 c && leb c 0x2029
    || eqb c 0x202f
    || eqb c 0x205f
    || eqb c 0x3000

-- `s.lstrip()`, `s.rstrip()`, `s.strip()` and `s[:n]`.
unfoldable pub lstrip : String → String
lstrip String.[] = String.[]
lstrip (String.◌∷◌ c s) = let rest = lstrip s in if is_space (code c) then rest else String.◌∷◌ c s

unfoldable pub rstrip : String → String
rstrip String.[] = String.[]
rstrip (String.◌∷◌ c s) =
    let rest = rstrip s in if is_space (code c) && rest == "" then String.[] else String.◌∷◌ c rest

unfoldable pub strip : String → String
unfolding lstrip rstrip
strip s = rstrip (lstrip s)

unfoldable pub prefix : ℕ → String → String
prefix zero s = String.[]
prefix (suc n) String.[] = String.[]
prefix (suc n) (String.◌∷◌ c s) = String.◌∷◌ c (prefix n s)

-- `s + t`
unfoldable pub append : String → String → String
append String.[] t = t
append (String.◌∷◌ c s) t = String.◌∷◌ c (append s t)

unfoldable pub is_empty : String → Bool
is_empty String.[] = true
is_empty (String.◌∷◌ _ _) = false

-- Only the empty text is `""`.
pub is_empty_iff : (s : String) → (s == "") ≡ is_empty s
unfolding is_empty
is_empty_iff String.[] = refl
is_empty_iff (String.◌∷◌ c s) = elim (Bool-cases (String.◌∷◌ c s == "")) [
  | inl e ↦ absurd (false≢true (ap is_empty ((eq_iff (String.◌∷◌ c s) "").0 e)))
  | inr e ↦ e
]

lstrip-cases :
    (s : String)
    → (lstrip s ≡ String.[])
      ⊎ ((c : Char) × (r : String) × (lstrip s ≡ String.◌∷◌ c r) × (is_space (code c) ≡ false))
unfolding lstrip
lstrip-cases String.[] = inl refl
lstrip-cases (String.◌∷◌ c s) = elim (Bool-cases (is_space (code c))) [
  | inl h ↦ rw h (lstrip-cases s)
  | inr h ↦ rw h (inr (c, s, refl, h))
]

rstrip-rstrip : (s : String) → rstrip (rstrip s) ≡ rstrip s
unfolding rstrip
rstrip-rstrip String.[] = refl
rstrip-rstrip (String.◌∷◌ c s) = elim (Bool-cases (is_space (code c) && rstrip s == "")) [
  | inl h ↦ rw h refl
  | inr h ↦ rw (h, rstrip-rstrip s, h) refl
]

-- What is stripped has nothing more to strip.
pub strip-strip : (s : String) → strip (strip s) ≡ strip s
unfolding strip lstrip rstrip
strip-strip s = elim (lstrip-cases s) [
  | inl h ↦ rw h refl
  | inr (c, r, h, n) ↦ rw (h) (inner c r n)
]
  where
    inner :
        (c : Char) (r : String)
        → is_space (code c) ≡ false
        → rstrip (lstrip (rstrip (String.◌∷◌ c r))) ≡ rstrip (String.◌∷◌ c r)
    inner c r n = rw (n, n, rstrip, n, rstrip-rstrip r) refl
