-- ===== src/Skills/Archive/Split.antt =====
-- The parts of a path: what stays of them when the front of the path is cut off.
use da_swarm.Base.{
  ℕ, Bool, true, false, List, [], ◌∷◌, ◌++◌, ◌≡◌, refl, ap, All, any, length, take, drop, arith,
  inl, inr, Bool-cases, eqb, eqb_iff,
}
use da_swarm.Base.Text.{same, starts_with, ends_with, eq_of_same}
use da_swarm.Skills.Archive.{Chars, slash, onto_first, split, strip_slashes}

abbrev tail : List Chars → List Chars
tail [] = []
tail (p ∷ l) = l

module _ (P : Chars → Type 0) where
  All-tail : (l : List Chars) → All P l → All P (tail l)
  All-tail [] a = tt
  All-tail (p ∷ l) (_, a) = a

  All-onto_first : (c : ℕ) (l : List Chars) → All P (onto_first c l) → All P (tail l)
  All-onto_first c [] a = tt
  All-onto_first c (p ∷ l) (_, a) = a

  -- A character less in front leaves all parts but the first.
  split-rest : (c : ℕ) (s : Chars) → All P (split (c ∷ s)) → All P (tail (split s))
  unfolding split
  split-rest c s a = elim (Bool-cases (eqb c slash)) [
    | inl e ↦ All-tail (split s) (rw e at a).1
    | inr e ↦ All-onto_first c (split s) (rw e at a)
  ]

  tail-rest : (c : ℕ) (s : Chars) → All P (tail (split (c ∷ s))) → All P (tail (split s))
  unfolding split
  tail-rest c s a = elim (Bool-cases (eqb c slash)) [
    | inl e ↦ All-tail (split s) (rw e at a)
    | inr e ↦ tail_of_onto (split s) (rw e at a)
  ]
    where
      tail_of_onto : (l : List Chars) → All P (tail (onto_first c l)) → All P (tail l)
      tail_of_onto [] a = tt
      tail_of_onto (p ∷ l) a = a

  -- After a slash, all parts of what follows are parts of the whole.
  after_slash : (a b : Chars) → All P (tail (split (a ++ (slash ∷ b)))) → All P (split b)
  unfolding split
  after_slash [] b h = h
  after_slash (c ∷ a) b h = after_slash a b (tail-rest c (a ++ (slash ∷ b)) h)

  pub split-after_slash : (a b : Chars) → All P (split (a ++ (slash ∷ b))) → All P (split b)
  split-after_slash a b h = after_slash a b (All-tail (split (a ++ (slash ∷ b))) h)

  pub split-strip_slashes : (s : Chars) → All P (split s) → All P (split (strip_slashes s))
  unfolding strip_slashes
  split-strip_slashes [] h = h
  split-strip_slashes (c ∷ s) h = elim (Bool-cases (eqb c slash)) [
    | inl e ↦
        let is_slash : c ≡ slash = (eqb_iff c slash).0 e in
        rw e (split-strip_slashes s (split-after_slash [] s (rw is_slash at h)))
    | inr e ↦ rw e h
  ]

pub strip_slashes-relative : (s : Chars) → starts_with (strip_slashes s) (slash ∷ []) ≡ false
unfolding strip_slashes
strip_slashes-relative [] = refl
strip_slashes-relative (c ∷ s) = elim (Bool-cases (eqb c slash)) [
  | inl e ↦ rw e (strip_slashes-relative s)
  | inr e ↦ rw e (ground arith)
]

-- What `startswith` and `endswith` say of the text.
pub starts_with-append : (s p : Chars) → starts_with s p ≡ true → s ≡ p ++ drop (length p) s
starts_with-append s [] h = refl
starts_with-append [] (b ∷ p) h = cc
starts_with-append (a ∷ s) (b ∷ p) h =
    let e : a ≡ b = ground arith in
    let rest = starts_with-append s p (ground (arith, h)) in rw e (ap (λ t. b ∷ t) rest)

pub ends_with-append : (s p : Chars) → ends_with s p ≡ true → (q : Chars) × (s ≡ q ++ p)
ends_with-append [] p h = ([], eq_of_same [] p h)
ends_with-append (a ∷ s) p h = elim (Bool-cases (same (a ∷ s) p)) [
  | inl e ↦ ([], eq_of_same (a ∷ s) p e)
  | inr e ↦ let (q, i) = ends_with-append s p (ground (arith, h)) in (a ∷ q, ap (λ t. a ∷ t) i)
]

pub take-length-append : (a b : Chars) → take (length a) (a ++ b) ≡ a
take-length-append [] [] = refl
take-length-append [] (x ∷ b) = refl
take-length-append (x ∷ a) b = rw (take-length-append a b)

pub any-All : (p : Chars → Bool) (l : List Chars) → any p l ≡ false → All (λ x. p x ≡ false) l
any-All p [] h = tt
any-All p (x ∷ l) h = (ground (arith, h), any-All p l (ground (arith, h)))
