-- ===== src/Base/Int.antt =====
-- Signed integers over the native numbers: Python's `int` where a value may be negative.
use da_swarm.Base.{ℕ, suc, ◌+◌, ◌≤◌, Bool, leb, if◌then◌else◌}

-- `negsuc n` is -(n + 1).
pub data ℤ : Type 0 where
  pos : ℕ → ℤ
  negsuc : ℕ → ℤ

abbrev pub pos_part : ℤ → ℕ
pos_part (pos n) = n
pos_part (negsuc n) = 0

abbrev pub neg_part : ℤ → ℕ
neg_part (pos n) = 0
neg_part (negsuc n) = suc n

infix 50 ◌≤ℤ◌
abbrev pub ◌≤ℤ◌ : ℤ → ℤ → Type 0
a ≤ℤ b = pos_part a + neg_part b ≤ pos_part b + neg_part a

abbrev pub leb_ℤ : ℤ → ℤ → Bool
leb_ℤ a b = leb (pos_part a + neg_part b) (pos_part b + neg_part a)

-- `max(lo, min(x, hi))` for bounds that are not negative.
abbrev pub clamp : ℕ → ℕ → ℤ → ℕ
clamp lo hi x =
    let n = pos_part x in let m = if leb n hi then n else hi in if leb lo m then m else lo
