-- ===== src/Accounts/Users.antt =====
-- Users (backend/app/domain/models/user.py) and their repository
-- (backend/app/infrastructure/repositories/user_repository.py) as a list, oldest first, whose emails are
-- unique. `lower` stands for `str.lower`, which knows all of Unicode.
pub mod Updates
use da_swarm.Base.{
  ℕ, String, ◌==◌, Bool, true, false, ◌&&◌, ◌||◌, not, Option, none, some, List, [], ◌∷◌, ◌++◌, any,
  ltb, eqb, length, if◌then◌else◌,
}
use da_swarm.Base.Table.{find_by, update_where}
use da_swarm.Base.Text.{codes, strip}
use da_swarm.Accounts.Errors.{
  Result, ok, err, value_error, duplicate_key, M, ◌>>=◌, ◌>>◌, pure, raise_if,
}

pub record User : Type 0 where
  pub id : String
  pub fullname : String
  pub email : String
  pub password_hash : Option String
  pub role : String
  pub is_active : Bool
  pub created_at : ℕ
  pub updated_at : ℕ
  pub last_login_at : Option ℕ

-- `not v or len(v.strip()) < 2`
unfoldable pub is_too_short : String → Bool
is_too_short name = name == "" || ltb (length (codes (strip name))) 2

-- `not v or '@' not in v`
unfoldable pub is_no_email : String → Bool
is_no_email email = not (any (eqb b'@') (codes email))

-- `UserRole(v)`
unfoldable pub is_role : String → Bool
is_role v = v == "admin" || v == "user"

module _ (lower : String → String) where
  -- `User(...)` with its validators.
  unfoldable pub new_user : {S : Type 0} → User → M S User
  new_user u = do
    raise_if (is_too_short u.fullname) value_error
    raise_if (is_no_email u.email) value_error
    raise_if (not (is_role u.role)) value_error
    pure (record u { fullname = strip u.fullname; email = lower (strip u.email) })

  -- `get_user_by_email`
  abbrev pub get_user_by_email : String → List User → Option User
  get_user_by_email email = find_by λ (u : User). u.email == lower email

  -- `email_exists`
  unfoldable pub email_exists : String → List User → Bool
  email_exists email users = any (λ (u : User). u.email == lower email) users

-- `get_user_by_id`
abbrev pub get_user_by_id : String → List User → Option User
get_user_by_id id = find_by λ (u : User). u.id == id

-- `create_user`; the index on emails is unique.
unfoldable pub create_user : User → List User → Result User × List User
create_user user users =
    if any (λ (u : User). u.email == user.email) users
    then (err duplicate_key, users)
    else (ok user, users ++ (user ∷ []))

unfoldable pub replace_user : User → List User → List User
replace_user user [] = []
replace_user user (u ∷ l) =
    let rest = replace_user user l in if u.id == user.id then user ∷ l else u ∷ rest

-- `update_user`
unfoldable pub update_user : User → List User → Result User × List User
update_user user users = elim (get_user_by_id user.id users) [
  | none ↦ (err value_error, users)
  | some _ ↦
      if any (λ (u : User). not (u.id == user.id) && u.email == user.email) users
      then (err duplicate_key, users)
      else (ok user, replace_user user users)
]

-- `update_last_login`, `deactivate` and `activate`
abbrev pub update_last_login : ℕ → User → User
update_last_login now u = record u { last_login_at = some now; updated_at = now }

abbrev pub deactivate : ℕ → User → User
deactivate now u = record u { is_active = false; updated_at = now }

abbrev pub activate : ℕ → User → User
activate now u = record u { is_active = true; updated_at = now }
