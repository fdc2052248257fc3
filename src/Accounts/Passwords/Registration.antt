-- ===== src/Accounts/Passwords/Registration.antt =====
-- Who registered can log in (backend/app/application/services/auth_service.py).
use da_swarm.Base.{
  subst, ℕ, String, ◌==◌, eq_refl, true, false, Option, none, some, List, ◌≡◌, refl, sym, ap, ◌∙◌,
  arith,
}
use da_swarm.Base.Table.{find_by}
use da_swarm.Base.Text.{is_empty, is_empty_iff, append, strip}
use da_swarm.Accounts.Errors.{after-ok, Result, ok}
use da_swarm.Accounts.Users.{
  User, new_user, get_user_by_email, create_user, update_user, replace_user, update_last_login,
}
use da_swarm.Accounts.Users.Updates.{create_user-get, update_user-create_user}
use da_swarm.Accounts.Passwords.{
  check_registration, AuthSettings, Services, AuthStore, hash_password, verify_password,
  register_user, authenticate_password, authenticate_user, may_log_in, on_users,
}

module _ (w : Services) (settings : AuthSettings) where
  -- The user that registration makes.
  abbrev registered : ℕ → String → String → String → String → String → User
  registered now id fullname password email role = record {
    id = id;
    fullname = strip (strip fullname);
    email = w.lower (strip (w.lower email));
    password_hash = some (hash_password w settings password);
    role = role;
    is_active = true;
    created_at = now;
    updated_at = now;
    last_login_at = none;
  }

  new_user-ok :
      {S : Type 0} (u v : User) (s s' : S)
      → new_user w.lower u s ≡ (ok v, s')
      → (record u { fullname = strip u.fullname; email = w.lower (strip u.email) } ≡ v) × (s ≡ s')
  unfolding new_user
  new_user-ok u v s s' h = ground arith

  check_registration-ok :
      (fullname password email : String) (s s' : AuthStore w)
      → check_registration w settings fullname password email s ≡ (ok tt, s')
      → s ≡ s'
  unfolding check_registration
  check_registration-ok fullname password email s s' h = ground arith

  on_users-ok :
      {A : Type 0} (f : List User → Result A × List User) (a : A) (s s' : AuthStore w)
      → on_users {w = w} f s ≡ (ok a, s')
      → f s.users ≡ (ok a, s'.users)
  on_users-ok {A} f a s s' h = ap (λ (p : Result A × AuthStore w). (p.0, p.1.users)) h

  register_user-create :
      (now : ℕ) (id fullname password email role : String) (u : User) (s s' : AuthStore w)
      → register_user w settings now id fullname password email role s ≡ (ok u, s')
      → create_user (registered now id fullname password email role) s.users ≡ (ok u, s'.users)
  unfolding register_user
  register_user-create now id fullname password email role u s s' h =
      let (_, s1, checked, rest) =
        after-ok (check_registration w settings fullname password email s) _ u s' h in
      let (v, s2, made, last) = after-ok (new_user w.lower _ s1) _ u s' rest in
      let same = new_user-ok _ v s1 s2 made in
      subst (λ x. create_user x s.users ≡ (ok u, s'.users)) (sym same.0)
        (subst (λ (t : AuthStore w). create_user v t.users ≡ (ok u, s'.users))
          (sym (check_registration-ok fullname password email s s1 checked ∙ same.1))
          (on_users-ok (create_user v) u s2 s' last))

is_empty-append : (s t : String) → is_empty t ≡ false → is_empty (append s t) ≡ false
unfolding append is_empty
is_empty-append String.[] t h = h
is_empty-append (String.◌∷◌ c s) t h = refl

append-not_empty : (s t : String) → (t == "") ≡ false → (append s t == "") ≡ false
append-not_empty s t h = is_empty_iff (append s t) ∙ is_empty-append s t (sym (is_empty_iff t) ∙ h)

module _ (w : Services) (settings : AuthSettings) where
  authenticate_user-password :
      (now : ℕ) (email password : String) (s : AuthStore w)
      → settings.auth_provider ≡ "password"
      → authenticate_user w settings now email password s
        ≡ authenticate_password w settings now email password s
  unfolding authenticate_user
  authenticate_user-password now email password s e = simp (e)

  may_log_in-hash_password :
      (password : String) (u : User)
      → ((p salt : String) (rounds : ℕ) → (w.pbkdf2 p salt rounds == "") ≡ false)
      → u.is_active ≡ true
      → u.password_hash ≡ some (hash_password w settings password)
      → may_log_in w settings password u ≡ true
  unfolding verify_password hash_password
  may_log_in-hash_password password u hashes active hash =
      rw
        (
          active,
          hash,
          verify_password,
          hash_password-not_empty,
          eq_refl (hash_password w settings password),
        )
        refl
    where
      hash_password-not_empty : (hash_password w settings password == "") ≡ false
      hash_password-not_empty = append-not_empty _ _ (hashes password _ _)

  authenticate_password-found :
      (now : ℕ) (email password : String) (u : User) (s : AuthStore w) (users : List User)
      → get_user_by_email w.lower email s.users ≡ some u
      → may_log_in w settings password u ≡ true
      → update_user (update_last_login now u) s.users ≡ (ok (update_last_login now u), users)
      → authenticate_password w settings now email password s
        ≡ (ok (some (update_last_login now u)), record s { users = users })
  unfolding authenticate_password
  authenticate_password-found now email password u s users there may written =
      rw (authenticate_password, there, may, written) refl

-- Who registered can log in with that password, by the email in any spelling that `lower` takes for the
-- same, and is the user that was registered.
pub register_user-authenticate_user :
    (w : Services) (settings : AuthSettings) (now later : ℕ)
    (id fullname password email role address : String) (u : User) (s s' : AuthStore w)
    → settings.auth_provider ≡ "password"
    → ((p salt : String) (rounds : ℕ) → (w.pbkdf2 p salt rounds == "") ≡ false)
    → w.lower (strip (w.lower email)) ≡ w.lower address
    → register_user w settings now id fullname password email role s ≡ (ok u, s')
    → authenticate_user w settings later address password s' ≡ (
      ok (some (update_last_login later u)),
      record s' { users = replace_user (update_last_login later u) s'.users },
    )
register_user-authenticate_user w settings now later id fullname password email role address u s s'
      provider hashes same h =
    let reg = registered w settings now id fullname password email role in
    let created = register_user-create w settings now id fullname password email role u s s' h in
    let (is_reg, there) = create_user-get reg u s.users s'.users created in
    authenticate_user-password w settings later address password s' provider
    ∙ subst
        (λ v. authenticate_password w settings later address password s' ≡ (
          ok (some (update_last_login later v)),
          record s' { users = replace_user (update_last_login later v) s'.users },
        ))
        (sym is_reg)
        (authenticate_password-found w settings later address password reg s' _
          (subst (λ e. get_by e s'.users ≡ some reg) same there)
          (may_log_in-hash_password w settings password reg hashes refl refl)
          (update_user-create_user reg u (update_last_login later reg) s.users s'.users created
            (refl, refl)))
  where
    get_by : String → List User → Option User
    get_by e = find_by λ (x : User). x.email == e
