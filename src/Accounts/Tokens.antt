-- ===== src/Accounts/Tokens.antt =====
-- The JSON web tokens of `TokenService` (backend/app/application/services/token_service.py). The library
-- that signs and reads them (PyJWT) is a parameter: the type of signed tokens, `encode`, and `decode`, which
-- gives nothing for whatever it raises; signing does not fail. Times are in whole seconds.
pub mod Lifetime
use da_swarm.Accounts.Users.{User}
use da_swarm.Base.{
  ◌&&◌, eqb, ℕ, ◌+◌, ◌*◌, String, Bool, true, false, not, Option, none, some, List, [], ◌∷◌, ltb,
  if◌then◌else◌,
}
use da_swarm.Base.Int.{ℤ, pos, negsuc}
use da_swarm.Swarm.Json.{
  real, Value, null, boolean, int, str, Fields, end, field, nat, get_field, truthy, dict,
}

-- `jwt_access_token_expire_minutes` and `jwt_refresh_token_expire_days`.
pub record Settings : Type 0 where
  pub access_minutes : ℕ
  pub refresh_days : ℕ

-- The dictionary that `get_user_from_token` returns.
pub record TokenUser : Type 0 where
  pub id : Value
  pub fullname : Value
  pub email : Value
  pub role : Value
  pub is_active : Value
  pub token_type : Value

-- `payload.get(k, default)`
unfoldable pub get_else : String → Value → Fields → Value
get_else k default d = elim (get_field k d) [ none ↦ default | some v ↦ v ]

unfoldable pub access_claims : Settings → ℕ → User → Fields
access_claims settings now user = field "sub" (str user.id) (
    field "fullname" (str user.fullname) (
      field "email" (str user.email) (
        field "role" (str user.role) (
          field "is_active" (boolean user.is_active) (
            field "iat" (nat now) (
              field "exp" (nat (now + settings.access_minutes * 60))
                (field "type" (str "access") end)))))))

unfoldable pub refresh_claims : Settings → ℕ → User → Fields
refresh_claims settings now user = field "sub" (str user.id) (
    field "fullname" (str user.fullname) (
      field "iat" (nat now) (
        field "exp" (nat (now + settings.refresh_days * 86_400))
          (field "type" (str "refresh") end))))

unfoldable pub resource_claims : ℕ → String → String → String → ℕ → Fields
resource_claims now resource_type resource_id user_id expire_minutes =
    field "resource_type" (str resource_type) (
      field "resource_id" (str resource_id) (
        field "user_id" (str user_id) (
          field "iat" (nat now) (
            field "exp" (nat (now + expire_minutes * 60))
              (field "type" (str "resource_access") end)))))

-- `exp and exp < now`; what has no order with a number raises, and the answer is the same as for a token
-- that is over. Fractions are in millionths.
unfoldable pub has_expired : ℕ → Value → Bool
has_expired now (int (pos n)) = truthy (int (pos n)) && ltb n now
has_expired now (int (negsuc n)) = true
has_expired now (real (pos n)) = truthy (real (pos n)) && ltb n (now * 1_000_000)
has_expired now (real (negsuc n)) = true
has_expired now (boolean b) = b && ltb 1 now
has_expired now v = truthy v

module _ {Token : Type 0} (encode : Fields → Token) (decode : ℕ → Token → Option Fields) where
  -- `create_access_token`
  unfoldable pub create_access_token : Settings → ℕ → User → Token
  create_access_token settings now user = encode (access_claims settings now user)

  -- `create_refresh_token`
  unfoldable pub create_refresh_token : Settings → ℕ → User → Token
  create_refresh_token settings now user = encode (refresh_claims settings now user)

  -- `create_resource_access_token`
  unfoldable pub create_resource_access_token : ℕ → String → String → String → ℕ → Token
  create_resource_access_token now resource_type resource_id user_id expire_minutes =
      encode (resource_claims now resource_type resource_id user_id expire_minutes)

  -- `verify_token`
  unfoldable pub verify_token : ℕ → Token → Option Fields
  verify_token now token = elim (decode now token) [
    | none ↦ none
    | some payload ↦ if has_expired now (get_else "exp" null payload) then none else some payload
  ]

  -- `if not payload: return None`
  unfoldable pub verified : ℕ → Token → Option Fields
  verified now token = elim (verify_token now token) [
    | none ↦ none
    | some payload ↦ if truthy (dict payload) then some payload else none
  ]

  -- `get_user_from_token`
  unfoldable pub get_user_from_token : ℕ → Token → Option TokenUser
  get_user_from_token now token = elim (verified now token) [
    | none ↦ none
    | some payload ↦ some (record {
      id = get_else "sub" null payload;
      fullname = get_else "fullname" null payload;
      email = get_else "email" null payload;
      role = get_else "role" null payload;
      is_active = get_else "is_active" (boolean true) payload;
      token_type = get_else "type" (str "access") payload;
    })
  ]

  -- `is_token_valid`
  unfoldable pub is_token_valid : ℕ → Token → Bool
  is_token_valid now token = elim (verify_token now token) [ none ↦ false | some _ ↦ true ]

  -- `get_token_expiration`, where the time is a whole number of seconds that is not before 1970.
  unfoldable pub get_token_expiration : ℕ → Token → Option ℕ
  get_token_expiration now token = elim (verified now token) [
    | none ↦ none
    | some payload ↦ elim (get_else "exp" null payload) [
      | int z ↦ elim z [ pos n ↦ if eqb n 0 then none else some n | negsuc _ ↦ none ]
      | _ ↦ none
    ]
  ]

-- `revoke_token`, which revokes nothing.
abbrev pub revoke_token : {Token : Type 0} → Token → Bool
revoke_token token = true
