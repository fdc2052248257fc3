-- ===== src/Accounts/Tokens/Lifetime.antt =====
-- What a token says, and for how long (backend/app/application/services/token_service.py).
use da_swarm.Base.{
  ◌≤◌, ◌⊎◌, ℕ, ◌+◌, ◌*◌, ◌<◌, String, true, false, Option, none, some, ◌≡◌, refl, arith, inl, inr,
}
use da_swarm.Swarm.Json.{null, boolean, str, Fields, nat, get_field, truthy}
use da_swarm.Accounts.Users.{User}
use da_swarm.Accounts.Tokens.{
  Settings, get_else, access_claims, refresh_claims, resource_claims, has_expired,
  create_access_token, create_refresh_token, create_resource_access_token, verify_token, verified,
  get_user_from_token, is_token_valid,
}

-- Claims as the service writes them: the times of issue and of expiry, a subject that is a text if there is
-- one, and no other claim that the library looks at.
pub record IsTimed (claims : Fields) (issued e : ℕ) : Type 0 where
  pub issue : get_field "iat" claims ≡ some (nat issued)
  pub expiry : get_field "exp" claims ≡ some (nat e)
  pub subject :
      (get_field "sub" claims ≡ none) ⊎ ((s : String) × (get_field "sub" claims ≡ some (str s)))
  pub no_start : get_field "nbf" claims ≡ none
  pub no_audience : get_field "aud" claims ≡ none
  pub no_issuer : get_field "iss" claims ≡ none
  pub no_identifier : get_field "jti" claims ≡ none

-- What the code relies on of the library: a token that it signed is read back as it was, from its time of
-- issue until its time is over.
pub record ReadsInTime {Token : Type 0} (encode : Fields → Token)
    (decode : ℕ → Token → Option Fields) : Type 0 where
  pub reads :
      (claims : Fields) (issued e now : ℕ)
      → IsTimed claims issued e
      → issued ≤ now
      → now < e
      → decode now (encode claims) ≡ some claims

-- What the code relies on of it at any time: a token that it signed is read as it was or refused.
pub record ReadsOrRefuses {Token : Type 0} (encode : Fields → Token)
    (decode : ℕ → Token → Option Fields) : Type 0 where
  pub signed :
      (claims : Fields) (issued e now : ℕ)
      → IsTimed claims issued e
      → (decode now (encode claims) ≡ some claims) ⊎ (decode now (encode claims) ≡ none)

access-IsTimed :
    (settings : Settings) (issued : ℕ) (user : User)
    → IsTimed (access_claims settings issued user) issued (issued + settings.access_minutes * 60)
unfolding access_claims get_field
access-IsTimed settings issued user = record {
  issue = refl;
  expiry = refl;
  subject = inr (user.id, refl);
  no_start = refl;
  no_audience = refl;
  no_issuer = refl;
  no_identifier = refl;
}

refresh-IsTimed :
    (settings : Settings) (issued : ℕ) (user : User)
    → IsTimed (refresh_claims settings issued user) issued (issued + settings.refresh_days * 86_400)
unfolding refresh_claims get_field
refresh-IsTimed settings issued user = record {
  issue = refl;
  expiry = refl;
  subject = inr (user.id, refl);
  no_start = refl;
  no_audience = refl;
  no_issuer = refl;
  no_identifier = refl;
}

resource-IsTimed :
    (issued : ℕ) (kind id user_id : String) (minutes : ℕ)
    → IsTimed (resource_claims issued kind id user_id minutes) issued (issued + minutes * 60)
unfolding resource_claims get_field
resource-IsTimed issued kind id user_id minutes = record {
  issue = refl;
  expiry = refl;
  subject = inl refl;
  no_start = refl;
  no_audience = refl;
  no_issuer = refl;
  no_identifier = refl;
}

in_time : (e now : ℕ) → now < e → has_expired now (nat e) ≡ false
unfolding has_expired
in_time e now h = ground arith

over_time : (e now : ℕ) → 0 < e → e < now → has_expired now (nat e) ≡ true
unfolding has_expired truthy
over_time e now p h = ground arith

exp_of :
    (claims : Fields) (e : ℕ)
    → get_field "exp" claims ≡ some (nat e)
    → get_else "exp" null claims ≡ nat e
unfolding get_else
exp_of claims e h = rw (get_else, h) refl

module _ {Token : Type 0} {encode : Fields → Token} {decode : ℕ → Token → Option Fields} where
  verify-reads :
      ReadsInTime encode decode
      → (claims : Fields) (issued e now : ℕ) → IsTimed claims issued e
      → issued ≤ now
      → now < e
      → verify_token encode decode now (encode claims) ≡ some claims
  unfolding verify_token
  verify-reads jwt claims issued e now t p h =
      rw
        (
          verify_token,
          jwt.reads claims issued e now t p h,
          exp_of claims e t.expiry,
          in_time e now h,
        )
        refl

  -- When its time is over, a token gives nobody and is not valid.
  verify-refuses :
      ReadsOrRefuses encode decode
      → (claims : Fields) (issued e now : ℕ) → IsTimed claims issued e
      → 0 < e
      → e < now
      → (get_user_from_token encode decode now (encode claims) ≡ none)
        × (is_token_valid encode decode now (encode claims) ≡ false)
  unfolding get_user_from_token verified is_token_valid verify_token
  verify-refuses jwt claims issued e now t p h =
      let refused = nothing in
      (rw (get_user_from_token, verified, refused) refl, rw (is_token_valid, refused) refl)
    where
      nothing : verify_token encode decode now (encode claims) ≡ none
      nothing = elim (jwt.signed claims issued e now t) [
        | inl q ↦ rw (verify_token, q, exp_of claims e t.expiry, over_time e now p h) refl
        | inr q ↦ rw (verify_token, q) refl
      ]

-- From its time of issue until it runs out, an access token gives back the user that it was made for, with
-- the type of an access token.
pub create_access_token-user :
    {Token : Type 0} (encode : Fields → Token) (decode : ℕ → Token → Option Fields)
    (settings : Settings) (issued now : ℕ) (user : User)
    → ReadsInTime encode decode
    → issued ≤ now
    → now < issued + settings.access_minutes * 60
    → get_user_from_token encode decode now (create_access_token encode decode settings issued user)
      ≡ some (record {
        id = str user.id;
        fullname = str user.fullname;
        email = str user.email;
        role = str user.role;
        is_active = boolean user.is_active;
        token_type = str "access";
      })
unfolding get_user_from_token verified create_access_token access_claims get_else get_field truthy
create_access_token-user encode decode settings issued now user jwt p h =
    let read =
      verify-reads jwt (access_claims settings issued user) issued _ now
        (access-IsTimed settings issued user) p h in
    rw (get_user_from_token, verified, read) refl

-- From its time of issue until it runs out, a refresh token and a resource token are read each with its own
-- type; the refresh token names its user, the resource token none.
pub other_tokens-type :
    {Token : Type 0} (encode : Fields → Token) (decode : ℕ → Token → Option Fields)
    (settings : Settings) (issued now : ℕ) (user : User) (kind id user_id : String) (minutes : ℕ)
    → ReadsInTime encode decode
    → issued ≤ now
    → now < issued + settings.refresh_days * 86_400
    → now < issued + minutes * 60
    → (get_user_from_token encode decode now
          (create_refresh_token encode decode settings issued user)
        ≡ some (record {
          id = str user.id;
          fullname = str user.fullname;
          email = null;
          role = null;
          is_active = boolean true;
          token_type = str "refresh";
        }))
      × (get_user_from_token encode decode now
            (create_resource_access_token encode decode issued kind id user_id minutes)
          ≡ some (record {
            id = null;
            fullname = null;
            email = null;
            role = null;
            is_active = boolean true;
            token_type = str "resource_access";
          }))
unfolding get_user_from_token verified create_refresh_token create_resource_access_token
    refresh_claims resource_claims get_else get_field truthy
other_tokens-type encode decode settings issued now user kind id user_id minutes jwt p h h' =
    let refresh =
      verify-reads jwt (refresh_claims settings issued user) issued _ now
        (refresh-IsTimed settings issued user) p h in
    let resource =
      verify-reads jwt (resource_claims issued kind id user_id minutes) issued _ now
        (resource-IsTimed issued kind id user_id minutes) p h' in
    (
      rw (get_user_from_token, verified, refresh) refl,
      rw (get_user_from_token, verified, resource) refl,
    )

-- A token of any kind whose expiry lies before the present second gives no user and is not valid, also where
-- the library would read it still.
pub expired_tokens-none :
    {Token : Type 0} (encode : Fields → Token) (decode : ℕ → Token → Option Fields)
    (settings : Settings) (issued now : ℕ) (user : User) (kind id user_id : String) (minutes : ℕ)
    → ReadsOrRefuses encode decode
    → 0 < issued
    → issued + settings.access_minutes * 60 < now
    → issued + settings.refresh_days * 86_400 < now
    → issued + minutes * 60 < now
    → let access = create_access_token encode decode settings issued user in
      let refresh = create_refresh_token encode decode settings issued user in
      let resource = create_resource_access_token encode decode issued kind id user_id minutes in
      ((get_user_from_token encode decode now access ≡ none)
        × (is_token_valid encode decode now access ≡ false))
      × ((get_user_from_token encode decode now refresh ≡ none)
          × (is_token_valid encode decode now refresh ≡ false))
      × ((get_user_from_token encode decode now resource ≡ none)
          × (is_token_valid encode decode now resource ≡ false))
unfolding create_access_token create_refresh_token create_resource_access_token
expired_tokens-none encode decode settings issued now user kind id user_id minutes jwt p h h' h'' =
    (
      verify-refuses jwt _ issued _ now (access-IsTimed settings issued user) (omega arith) h,
      verify-refuses jwt _ issued _ now (refresh-IsTimed settings issued user) (omega arith) h',
      verify-refuses jwt _ issued _ now (resource-IsTimed issued kind id user_id minutes)
          (omega arith) h'',
    )
