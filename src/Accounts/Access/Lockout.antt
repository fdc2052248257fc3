-- ===== src/Accounts/Access/Lockout.antt =====
-- Who is deactivated is out (backend/app/application/services/auth_service.py).
use da_swarm.Base.{
  ℕ, String, Bool, true, false, none, some, ◌≡◌, refl, ap, subst, arith, inl, inr, Option-cases,
}
use da_swarm.Accounts.Errors.{after-ok, Result, ok, after, pure, validation}
use da_swarm.Accounts.Users.{User, get_user_by_id, update_user, deactivate}
use da_swarm.Accounts.Users.Updates.{update_user-get, id-get_user_by_id}
use da_swarm.Accounts.Passwords.{
  AuthSettings, Services, AuthStore, or_raise, on_users, deactivate_user,
}
use da_swarm.Accounts.Login.{ResolvedCredentials, user_from_id}
use da_swarm.Accounts.Access.{user_from_resolved}

module _ (w : Services) (settings : AuthSettings) where
  -- A deactivated user is still in the database.
  deactivate_user-get :
      (now : ℕ) (id : String) (done : Bool) (s s' : AuthStore w)
      → deactivate_user w settings now id s ≡ (ok done, s')
      → (u : User) × (get_user_by_id id s'.users ≡ some u) × (u.is_active ≡ false)
  unfolding deactivate_user
  deactivate_user-get now id done s s' h = elim (Option-cases (get_user_by_id id s.users)) [
    | inl e ↦ ground (arith, e)
    | inr (u, e) ↦
        let (v, s1, written, rest) =
          after-ok (on_users {w = w} (update_user (deactivate now u)) s) (λ _. pure true) done s'
            (subst
              (λ o.
                after
                  (λ v t.
                    after (λ _. pure true) (on_users {w = w} (update_user (deactivate now v)) t))
                  (or_raise validation o s)
                ≡ (ok done, s'))
              e h) in
        let same_id = id-get_user_by_id id s.users u e in
        (
          deactivate now u,
          subst (λ i. get_user_by_id i s'.users ≡ some (deactivate now u)) same_id
              (update_user-get (deactivate now u) v s.users s'.users (
                subst
                  (λ (t : AuthStore w). update_user (deactivate now u) s.users ≡ (ok v, t.users))
                  (ap (λ p. p.1) rest)
                  (ap (λ (p : Result User × AuthStore w). (p.0, p.1.users)) written))),
          refl,
        )
  ]

-- Once a user is deactivated, no credentials of that user, session or token, give a user any more.
pub deactivate_user-user_from_resolved :
    (w : Services) (settings : AuthSettings) (now later : ℕ) (c : ResolvedCredentials) (done : Bool)
    (s s' : AuthStore w)
    → settings.auth_provider ≡ "password"
    → deactivate_user w settings now c.user_id s ≡ (ok done, s')
    → user_from_resolved w settings later c s' ≡ (ok none, s')
unfolding user_from_resolved user_from_id
deactivate_user-user_from_resolved w settings now later c done s s' provider h =
    let (u, there, inactive) = deactivate_user-get w settings now c.user_id done s s' h in
    simp (provider, there, inactive)
