-- ===== src/Accounts/Users/Updates.antt =====
-- What the user repository holds after a write
-- (backend/app/infrastructure/repositories/user_repository.py).
use da_swarm.Base.{
  String, ◌==◌, eq_iff, eq_refl, Bool, true, false, ◌&&◌, not, some, List, [], ◌∷◌, ◌++◌, ◌≡◌, refl,
  ap, any, arith, inl, inr, Option-cases, Bool-cases,
}
use da_swarm.Base.Table.{find_by}
use da_swarm.Accounts.Errors.{ok}
use da_swarm.Accounts.Users.{User, get_user_by_id, create_user, replace_user, update_user}

pub id-get_user_by_id :
    (id : String) (users : List User) (u : User) → get_user_by_id id users ≡ some u → u.id ≡ id
unfolding find_by
id-get_user_by_id id [] u h = cc
id-get_user_by_id id (v ∷ users) u h = ground (arith, eq_iff v.id id, id-get_user_by_id id users u)

pub get_user_by_id-replace_user :
    (u v : User) (users : List User)
    → get_user_by_id u.id users ≡ some v
    → get_user_by_id u.id (replace_user u users) ≡ some u
unfolding find_by replace_user
get_user_by_id-replace_user u v [] h = cc
get_user_by_id-replace_user u v (x ∷ users) h =
    ground (arith, eq_refl u.id, get_user_by_id-replace_user u v users)

-- A write that is accepted is what the repository gives under the identifier.
pub update_user-get :
    (u v : User) (users after : List User)
    → update_user u users ≡ (ok v, after)
    → get_user_by_id u.id after ≡ some u
unfolding update_user
update_user-get u v users after h = elim (Option-cases (get_user_by_id u.id users)) [
  | inl e ↦ ground (arith, e)
  | inr (x, e) ↦ ground (arith, e, get_user_by_id-replace_user u x users e)
]

module _ {A : Type 0} (p : A → Bool) where
  find_by-append :
      (l : List A) (a : A) → any p l ≡ false → p a ≡ true → find_by p (l ++ (a ∷ [])) ≡ some a
  unfolding find_by
  find_by-append [] a h k = rw k refl
  find_by-append (x ∷ l) a h k = ground (arith, find_by-append l a)

  find_by-append_some :
      (l : List A) (a : A) → p a ≡ true → (b : A) × (find_by p (l ++ (a ∷ [])) ≡ some b)
  unfolding find_by
  find_by-append_some [] a k = (a, rw k refl)
  find_by-append_some (x ∷ l) a k = elim (Bool-cases (p x)) [
    | inl h ↦ (x, rw h refl)
    | inr h ↦ rw h (find_by-append_some l a k)
  ]

  any-and-append :
      (q : A → Bool) (l : List A) (a : A)
      → any p l ≡ false
      → q a ≡ false
      → any (λ x. q x && p x) (l ++ (a ∷ [])) ≡ false
  any-and-append q [] a h k = rw k refl
  any-and-append q (x ∷ l) a h k = ground (arith, any-and-append q l a)

-- What `create_user` took is given under its email.
pub create_user-get :
    (u v : User) (users after : List User)
    → create_user u users ≡ (ok v, after)
    → (v ≡ u) × (find_by (λ (x : User). x.email == u.email) after ≡ some u)
unfolding create_user
create_user-get u v users after h =
    elim (Bool-cases (any (λ (x : User). x.email == u.email) users)) [
      | inl e ↦ ground (arith, e)
      | inr e ↦
          ground (
            arith,
            e,
            find_by-append (λ (x : User). x.email == u.email) users u e (eq_refl u.email),
          )
    ]

-- A user that was just created can be written again with another content.
pub update_user-create_user :
    (u v w : User) (users after : List User)
    → create_user u users ≡ (ok v, after)
    → (w.id ≡ u.id) × (w.email ≡ u.email)
    → update_user w after ≡ (ok w, replace_user w after)
unfolding create_user update_user
update_user-create_user u v w users after h same =
    elim (Bool-cases (any (λ (x : User). x.email == u.email) users)) [
      | inl e ↦ ground (arith, e)
      | inr e ↦
          let (b, there) =
            find_by-append_some (λ (x : User). x.id == u.id) users u (eq_refl u.id) in
          ground (
            arith,
            e,
            there,
            same.0,
            same.1,
            any-and-append (λ (x : User). x.email == u.email) (λ (x : User). not (x.id == u.id))
                users u e (ap not (eq_refl u.id)),
          )
    ]
