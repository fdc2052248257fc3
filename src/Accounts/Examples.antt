-- ===== src/Accounts/Examples.antt =====
-- The theorems on tokens at a concrete user, with claims that go unsigned.
use da_swarm.Base.{
  ◌∙◌, eq_iff, sym, ap, ◌≤◌, ◌==◌, [], eqb, suc, ◌∷◌, String, inr, inl, Bool-cases, Bool, ℕ, ◌<◌,
  true, false, not, Option, none, some, ◌≡◌, refl, arith, ltb, if◌then◌else◌,
}
use da_swarm.Base.Int.{pos}
use da_swarm.Swarm.Json.{Value, Fields, null, boolean, int, str, nat, get_field}
use Prim.Native.Char.{code}
use Prim.Native.Nat.{zero}
use mathlib.Core.Bool.{false≢true}
use mathlib.Core.Option
use da_swarm.Base.Text.{append, is_empty, is_empty_iff}
use da_swarm.Accounts.Urls.{
  payload_data, check_signature, set_param, verify_parsed, Url, Query, verify_signed_url,
  create_signed_url, sign, first_param, base_params, with_query,
}
use da_swarm.Accounts.Urls.Signing.{is_unsigned, IsSigner, create_signed_url-verify}
use da_swarm.Accounts.Urls.Forgery.{has_no_bar, IsForgeryProof, verify_signed_url-authentic}
use da_swarm.Accounts.Users.{User}
use da_swarm.Accounts.Tokens.{
  is_token_valid, create_resource_access_token, create_refresh_token, create_access_token, Settings,
  get_user_from_token,
}
use da_swarm.Accounts.Tokens.Lifetime.{
  ReadsInTime, ReadsOrRefuses, create_access_token-user, other_tokens-type, expired_tokens-none,
}

abbrev ada : User
ada = record {
  id = "u1";
  fullname = "Ada";
  email = "ada@example.org";
  password_hash = none;
  role = "user";
  is_active = true;
  created_at = 0;
  updated_at = 0;
  last_login_at = none;
}

abbrev half_an_hour : Settings
half_an_hour = record { access_minutes = 30; refresh_days = 7 }

unfoldable plain : Fields → Fields
plain claims = claims

unfoldable over : ℕ → Option Value → Bool
over now (some (int (pos e))) = not (ltb now e)
over now _ = false

unfoldable plain_read : ℕ → Fields → Option Fields
plain_read now claims = if over now (get_field "exp" claims) then none else some claims

over-nat : (now e : ℕ) → now < e → over now (some (nat e)) ≡ false
unfolding over
over-nat now e h = ground arith

plain-ReadsInTime : ReadsInTime plain plain_read
unfolding plain plain_read
plain-ReadsInTime = record {
  reads = λ claims issued e now t p h. rw (plain_read, t.expiry, over-nat now e h) refl;
}

plain-ReadsOrRefuses : ReadsOrRefuses plain plain_read
unfolding plain plain_read
plain-ReadsOrRefuses = record {
  signed = λ claims issued e now t. elim (Bool-cases (over now (get_field "exp" claims))) [
    | inl q ↦ inr (rw (plain_read, q) refl)
    | inr q ↦ inl (rw (plain_read, q) refl)
  ];
}

create_access_token-user_example :
    get_user_from_token plain plain_read 2000
      (create_access_token plain plain_read half_an_hour 1000 ada)
    ≡ some (record {
      id = str "u1";
      fullname = str "Ada";
      email = str "ada@example.org";
      role = str "user";
      is_active = boolean true;
      token_type = str "access";
    })
create_access_token-user_example =
    create_access_token-user plain plain_read half_an_hour 1000 2000 ada plain-ReadsInTime
      (omega arith) (omega arith)

other_tokens-type_example :
    (get_user_from_token plain plain_read 2000
        (create_refresh_token plain plain_read half_an_hour 1000 ada)
      ≡ some (record {
        id = str "u1";
        fullname = str "Ada";
        email = null;
        role = null;
        is_active = boolean true;
        token_type = str "refresh";
      }))
    × (get_user_from_token plain plain_read 2000
          (create_resource_access_token plain plain_read 1000 "file" "f1" "u1" 60)
        ≡ some (record {
          id = null;
          fullname = null;
          email = null;
          role = null;
          is_active = boolean true;
          token_type = str "resource_access";
        }))
other_tokens-type_example =
    other_tokens-type plain plain_read half_an_hour 1000 2000 ada "file" "f1" "u1" 60
      plain-ReadsInTime (omega arith) (omega arith) (omega arith)

expired_tokens-none_example :
    let access = create_access_token plain plain_read half_an_hour 1000 ada in
    let refresh = create_refresh_token plain plain_read half_an_hour 1000 ada in
    let resource = create_resource_access_token plain plain_read 1000 "file" "f1" "u1" 60 in
    ((get_user_from_token plain plain_read 1_000_000 access ≡ none)
      × (is_token_valid plain plain_read 1_000_000 access ≡ false))
    × ((get_user_from_token plain plain_read 1_000_000 refresh ≡ none)
        × (is_token_valid plain plain_read 1_000_000 refresh ≡ false))
    × ((get_user_from_token plain plain_read 1_000_000 resource ≡ none)
        × (is_token_valid plain plain_read 1_000_000 resource ≡ false))
expired_tokens-none_example =
    expired_tokens-none plain plain_read half_an_hour 1000 1_000_000 ada "file" "f1" "u1" 60
      plain-ReadsOrRefuses (omega arith) (omega arith) (omega arith) (omega arith)

-- A number in tallies, a signature that shows what it signs, and URLs without escapes.
unfoldable tally : ℕ → String → String
tally zero s = String.◌∷◌ "." s
tally (suc n) s = String.◌∷◌ "i" (tally n s)

abbrev seal : String → String
seal text = String.◌∷◌ "#" text

abbrev show_tally : ℕ → String
show_tally n = tally n ""

unfoldable read_tally : String → Option ℕ
read_tally String.[] = none
read_tally (String.◌∷◌ c s) =
    let rest = read_tally s in if eqb (code c) b'i' then Option.map suc rest else some 0

read_tally-show : (n : ℕ) → read_tally (show_tally n) ≡ some n
unfolding read_tally tally
read_tally-show zero = refl
read_tally-show (suc n) = rw (read_tally-show n) refl

abbrev has_text : String → Bool
has_text String.[] = false
has_text (String.◌∷◌ _ _) = true

tally-has_text : (n : ℕ) (s : String) → has_text (tally n s) ≡ true
unfolding tally
tally-has_text zero s = refl
tally-has_text (suc n) s = refl

tally_not_empty : (n : ℕ) (s : String) → (tally n s == "") ≡ false
tally_not_empty n s = elim (Bool-cases (tally n s == "")) [
  | inl q ↦
      absurd (false≢true (sym (ap has_text ((eq_iff (tally n s) "").0 q)) ∙ tally-has_text n s))
  | inr q ↦ q
]

tally-IsSigner : IsSigner seal show_tally read_tally
unfolding is_empty
tally-IsSigner = record {
  read_show = read_tally-show;
  shown = λ n. tally_not_empty n "";
  signs = λ text. is_empty_iff (seal text);
}

abbrev tail_of : String → String
tail_of String.[] = String.[]
tail_of (String.◌∷◌ c s) = s

tally-has_no_bar : (n : ℕ) → has_no_bar (show_tally n) ≡ true
unfolding has_no_bar tally
tally-has_no_bar zero = refl
tally-has_no_bar (suc n) = rw (tally-has_no_bar n) refl

tally-IsForgeryProof : IsForgeryProof seal show_tally read_tally
tally-IsForgeryProof = record {
  injective = λ s t e. ap tail_of e;
  read_show = read_tally-show;
  without_bar = tally-has_no_bar;
}

abbrev joined : String → String → String
joined String.[] t = t
joined (String.◌∷◌ c s) t = String.◌∷◌ c (joined s t)

abbrev written : Query → String
written [] = ""
written ((k, []) ∷ q) = written q
written ((k, v ∷ _) ∷ q) = joined k (joined "=" (joined v (joined "&" (written q))))

abbrev plain_unparse : Url → String
plain_unparse u = joined u.path (joined "?" (written u.query))

abbrev vnc : Url
vnc = record { path = "/vnc"; params = ""; query = ("view", "1" ∷ []) ∷ []; fragment = "" }

abbrev vnc_signed : Url
vnc_signed = record vnc {
  query =
      ("view", "1" ∷ [])
      ∷ ("signature", seal (payload_data "/vnc?view=1&" (show_tally 65)) ∷ [])
      ∷ ("expires", show_tally 65 ∷ [])
      ∷ [];
}

-- A reader that knows these two URLs.
abbrev plain_parse : String → Option Url
plain_parse s =
    if s == plain_unparse vnc
    then some vnc
    else if s == plain_unparse vnc_signed
    then some vnc_signed
    else none

create_signed_url-verify_example :
    Option.map (verify_signed_url plain_parse plain_unparse seal show_tally read_tally 40) (
      create_signed_url plain_parse plain_unparse seal show_tally read_tally 5
        (plain_unparse vnc)
        1)
    ≡ some true
unfolding sign set_param tally is_unsigned append is_empty
create_signed_url-verify_example =
    create_signed_url-verify plain_parse plain_unparse seal show_tally read_tally 5 40 1 vnc
      tally-IsSigner refl refl refl

verify_signed_url-authentic_example :
    (plain_unparse (with_query (base_params vnc_signed.query) vnc_signed) ≡ "/vnc?view=1&")
    × ((s : String) × (first_param "expires" vnc_signed.query ≡ some s) × (read_tally s ≡ some 65))
    × (40 ≤ 65)
unfolding append first_param tally verify_signed_url verify_parsed check_signature base_params
    read_tally
verify_signed_url-authentic_example =
    verify_signed_url-authentic plain_parse plain_unparse seal show_tally read_tally 40 65
      vnc_signed (plain_unparse vnc_signed) "/vnc?view=1&" tally-IsForgeryProof refl refl refl
