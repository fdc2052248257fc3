-- ===== src/Swarm/Contracts/Machines.antt =====
-- What the state machine tables promise (backend/swarm_contracts/state_machines.yaml).
use da_swarm.Base.{
  String, Bool, true, false, ◌≡◌, refl, some, List, [], ◌∷◌, arith, ◌==◌, eq_iff, inl, inr,
  Bool-cases, all,
}
use da_swarm.Swarm.Contracts.{mem, assoc, targets_of, states, Machine}

-- What a check of every entry of a table says of the one that is found.
assoc-all :
    {A : Type 0} (p : A → Bool) (k : String) (l : List (String × A)) (a : A)
    → all (λ x. p x.1) l ≡ true
    → assoc k l ≡ some a
    → p a ≡ true
unfolding assoc
assoc-all p k [] a h e = cc
assoc-all p k ((j, b) ∷ l) a h e = elim (Bool-cases (j == k)) [
  | inl t ↦ let same : b ≡ a = ground arith in let t : p b ≡ true = ground arith in rw same at t
  | inr f ↦ assoc-all p k l a (ground (arith, h)) (ground arith)
]

mem-all :
    (p : String → Bool) (k : String) (l : List String)
    → all p l ≡ true
    → mem k l ≡ true
    → p k ≡ true
unfolding mem
mem-all p k [] h e = cc
mem-all p k (x ∷ l) h e = elim (Bool-cases (x == k)) [
  | inl t ↦
      let same : x ≡ k = ground (arith, eq_iff x k) in
      let t : p x ≡ true = ground arith in rw same at t
  | inr f ↦ mem-all p k l (ground (arith, h)) (ground arith)
]

is_empty : List String → Bool
is_empty [] = true
is_empty (_ ∷ _) = false

-- No transition leaves a status that a machine lists as terminal.
ends_well : Machine → Bool
unfolding is_empty
ends_well m = all (λ s. is_empty (targets_of m s)) m.terminal

states-ends_well : all (λ x. ends_well x.1) states ≡ true
unfolding ends_well is_empty targets_of assoc
states-ends_well = refl

pub terminal-targets :
    (kind : String) (m : Machine) (status : String)
    → assoc kind states ≡ some m
    → mem status m.terminal ≡ true
    → (target : String) → mem target (targets_of m status) ≡ false
unfolding ends_well is_empty mem
terminal-targets kind m status e t target =
    let ok_machine = assoc-all ends_well kind states m states-ends_well e in
    let ends = mem-all (λ s. is_empty (targets_of m s)) status m.terminal ok_machine t in
    go (targets_of m status) ends
  where
    go : (l : List String) → is_empty l ≡ true → mem target l ≡ false
    go [] e = refl
    go (x ∷ l) e = cc
