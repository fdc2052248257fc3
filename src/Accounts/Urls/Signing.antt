-- ===== src/Accounts/Urls/Signing.antt =====
-- A URL that was signed verifies until its time (backend/app/application/services/token_service.py).
use da_swarm.Base.{
  ap, ℕ, ◌+◌, ◌*◌, String, ◌==◌, Bool, true, false, ◌&&◌, not, Option, some, [], ◌∷◌, ◌++◌, ◌≡◌,
  refl, arith, ltb,
}
use da_swarm.Accounts.Urls.{
  payload_data, Query, Url, set_param, first_param, base_params, with_query, sign,
  create_signed_url, check_signature, verify_parsed, verify_signed_url,
}
use text.Mathlib.TextPositions.{eq_refl}
use mathlib.Core.Option

-- A query that does not use the two names of a signature.
unfoldable pub is_unsigned : Query → Bool
is_unsigned [] = true
is_unsigned ((k, vs) ∷ q) =
    let rest = is_unsigned q in not (k == "signature") && not (k == "expires") && rest

unfoldable pub signed_query : String → String → Query → Query
signed_query s e q = q ++ (("signature", s ∷ []) ∷ ("expires", e ∷ []) ∷ [])

set_signature :
    (s e : String) (q : Query)
    → is_unsigned q ≡ true
    → set_param "expires" (e ∷ []) (set_param "signature" (s ∷ []) q) ≡ signed_query s e q
unfolding is_unsigned set_param signed_query
set_signature s e [] h = refl
set_signature s e ((k, vs) ∷ q) h = ground (arith, set_signature s e q)

first_param-signature :
    (s e : String) (q : Query)
    → is_unsigned q ≡ true
    → first_param "signature" (signed_query s e q) ≡ some s
unfolding is_unsigned first_param signed_query
first_param-signature s e [] h = refl
first_param-signature s e ((k, vs) ∷ q) h = ground (arith, first_param-signature s e q)

first_param-expires :
    (s e : String) (q : Query)
    → is_unsigned q ≡ true
    → first_param "expires" (signed_query s e q) ≡ some e
unfolding is_unsigned first_param signed_query
first_param-expires s e [] h = refl
first_param-expires s e ((k, vs) ∷ q) h = ground (arith, first_param-expires s e q)

base_params-signed :
    (s e : String) (q : Query) → is_unsigned q ≡ true → base_params (signed_query s e q) ≡ q
unfolding is_unsigned base_params signed_query
base_params-signed s e [] h = refl
base_params-signed s e ((k, vs) ∷ q) h = ground (arith, base_params-signed s e q)

and_true : (b : Bool) → (b && true) ≡ b
and_true true = refl
and_true false = refl

-- What the code relies on: `int` reads back what `str` writes of a number, and neither that nor a signature
-- is empty.
pub record IsSigner (mac : String → String) (show : ℕ → String) (read : String → Option ℕ)
    : Type 0 where
  pub read_show : (n : ℕ) → read (show n) ≡ some n
  pub shown : (n : ℕ) → (show n == "") ≡ false
  pub signs : (text : String) → (mac text == "") ≡ false

module _ (parse : String → Option Url) (unparse : Url → String) {mac : String → String}
    {show : ℕ → String} {read : String → Option ℕ} (signer : IsSigner mac show read) where
  check_signature-signed :
      (now expires : ℕ) (u v : Url)
      → with_query (base_params v.query) v ≡ u
      → check_signature parse unparse mac show read now v
          (mac (payload_data (unparse u) (show expires)))
          (show expires)
        ≡ not (ltb expires now)
  unfolding check_signature
  check_signature-signed now expires u v h =
      rw
        (
          check_signature,
          signer.read_show expires,
          h,
          eq_refl (mac (payload_data (unparse u) (show expires))),
        )
        (and_true (not (ltb expires now)))

  verify_parsed-signed :
      (now expires : ℕ) (u : Url)
      → is_unsigned u.query ≡ true
      → (let q =
            signed_query (mac (payload_data (unparse u) (show expires))) (show expires) u.query in
          verify_parsed parse unparse mac show read now
            (with_query q u)
            (first_param "signature" q)
            (first_param "expires" q)
          ≡ not (ltb expires now))
  unfolding verify_parsed
  verify_parsed-signed now expires u h =
      let q = signed_query (mac (payload_data (unparse u) (show expires))) (show expires) u.query in
      rw
        (
          first_param-signature (mac (payload_data (unparse u) (show expires))) (show expires)
              u.query h,
          first_param-expires (mac (payload_data (unparse u) (show expires))) (show expires) u.query
              h,
          verify_parsed,
          signer.signs (payload_data (unparse u) (show expires)),
          signer.shown expires,
        )
        (check_signature-signed now expires u (with_query q u) (
          ap (λ q'. with_query q' u)
            (base_params-signed (mac (payload_data (unparse u) (show expires))) (show expires)
              u.query h)))

-- A signed URL verifies until its time and no longer, if the base URL has no parameter of a signature, is
-- written as the library writes URLs, and the library reads back the signed one.
pub create_signed_url-verify :
    (parse : String → Option Url) (unparse : Url → String) (mac : String → String)
    (show : ℕ → String) (read : String → Option ℕ) (issued now minutes : ℕ) (u : Url)
    → IsSigner mac show read
    → parse (unparse u) ≡ some u
    → is_unsigned u.query ≡ true
    → (let signed = sign parse unparse mac show read (unparse u) (issued + minutes * 60) u in
        parse (unparse signed) ≡ some signed)
    → Option.map
        (verify_signed_url parse unparse mac show read now)
        (create_signed_url parse unparse mac show read issued (unparse u) minutes)
      ≡ some (not (ltb (issued + minutes * 60) now))
unfolding create_signed_url verify_signed_url sign
create_signed_url-verify parse unparse mac show read issued now minutes u signer h k r =
    rw
      (
        create_signed_url,
        h,
        verify_signed_url,
        r,
        sign,
        set_signature (mac (payload_data (unparse u) (show (issued + minutes * 60))))
            (show (issued + minutes * 60)) u.query k,
      )
      (ap some (verify_parsed-signed parse unparse signer now (issued + minutes * 60) u k))
