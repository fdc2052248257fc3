-- ===== src/Accounts/Urls.antt =====
-- The signed URLs of `TokenService` (backend/app/application/services/token_service.py). What `urlparse`
-- with `parse_qs` reads from a URL, what `urlencode` with `urlunparse` writes, the HMAC of a text under the
-- secret key in hexadecimal, and `int` and `str` of a number are parameters; `int` gives nothing for what
-- raises or is negative. Scheme and host are not kept.
pub mod Signing
pub mod Forgery
use da_swarm.Base.{
  ℕ, ◌+◌, ◌*◌, String, ◌==◌, Bool, true, false, ◌&&◌, ◌||◌, not, Option, none, some, List, [], ◌∷◌,
  ltb, if◌then◌else◌,
}
use da_swarm.Base.Text.{append}

-- A dictionary of the parameters of a URL, in their order.
abbrev pub Query : Type 0
Query = List (String × List String)

pub record Url : Type 0 where
  pub path : String
  pub params : String
  pub query : Query
  pub fragment : String

-- `query_params[k] = vs`
unfoldable pub set_param : String → List String → Query → Query
set_param k vs [] = (k, vs) ∷ []
set_param k vs ((k', vs') ∷ q) =
    let rest = set_param k vs q in if k' == k then (k', vs) ∷ q else (k', vs') ∷ rest

-- `query_params.get(k, [None])[0]`, where an empty list raises.
unfoldable pub first_param : String → Query → Option String
first_param k [] = none
first_param k ((k', vs) ∷ q) = let rest = first_param k q in if k' == k then first vs else rest
  where
    first : List String → Option String
    first [] = none
    first (v ∷ _) = some v

-- `base_query_params`
unfoldable pub base_params : Query → Query
base_params [] = []
base_params ((k, vs) ∷ q) =
    let rest = base_params q in if k == "signature" || k == "expires" then rest else (k, vs) ∷ rest

abbrev pub with_query : Query → Url → Url
with_query q u = record u { query = q }

-- `f"{final_url}|{expires_timestamp}"`, with what `str` writes of the time.
abbrev pub payload_data : String → String → String
payload_data base expires = append base (append "|" expires)

module _ (parse : String → Option Url) (unparse : Url → String) (mac : String → String)
    (show : ℕ → String) (read : String → Option ℕ) where
  -- The URL that `create_signed_url` writes, for a URL `base` that is read as `u`.
  unfoldable pub sign : String → ℕ → Url → Url
  sign base expires u =
      with_query
        (set_param "expires" (show expires ∷ [])
          (set_param "signature" (mac (payload_data base (show expires)) ∷ []) u.query))
        u

  -- `create_signed_url`; it raises where the base URL cannot be read.
  unfoldable pub create_signed_url : ℕ → String → ℕ → Option String
  create_signed_url now base_url expire_minutes = elim (parse base_url) [
    | none ↦ none
    | some u ↦ some (unparse (sign base_url (now + expire_minutes * 60) u))
  ]

  -- The check of a signature and a time that are there and not empty.
  unfoldable pub check_signature : ℕ → Url → String → String → Bool
  check_signature now u signature expires_str = elim (read expires_str) [
    | none ↦ false
    | some expires ↦
        not (ltb expires now)
        && signature
          == mac (payload_data (unparse (with_query (base_params u.query) u)) (show expires))
  ]

  unfoldable pub verify_parsed : ℕ → Url → Option String → Option String → Bool
  verify_parsed now u (some signature) (some expires_str) =
      not (signature == "")
      && not (expires_str == "")
      && check_signature now u signature expires_str
  verify_parsed now u _ _ = false

  -- `verify_signed_url`
  unfoldable pub verify_signed_url : ℕ → String → Bool
  verify_signed_url now request_url = elim (parse request_url) [
    | none ↦ false
    | some u ↦ verify_parsed now u (first_param "signature" u.query) (first_param "expires" u.query)
  ]
