-- ===== src/Accounts/Urls/Forgery.antt =====
-- What a URL with a signature that verifies is (backend/app/application/services/token_service.py).
use mathlib.Core.Bool.{false≢true}
use mathlib.Core.Path.{subst}
use Prim.Native.Char.{Char, code}
use da_swarm.Base.{
  eq_iff, ◌∙◌, sym, ◌≤◌, ap, ℕ, String, ◌==◌, Bool, true, false, ◌&&◌, not, Option, none, some, ◌≡◌,
  refl, arith, ltb, eqb,
}
use da_swarm.Base.Text.{append}
use da_swarm.Accounts.Urls.{
  payload_data, Url, first_param, base_params, with_query, check_signature, verify_parsed,
  verify_signed_url,
}

and_elim : (a b : Bool) → (a && b) ≡ true → (a ≡ true) × (b ≡ true)
and_elim true b h = (refl, h)
and_elim false b h = absurd (false≢true h)

not_over : (n now : ℕ) → not (ltb n now) ≡ true → now ≤ n
not_over n now h = ground arith

-- A text without the bar that stands between the URL and the time.
unfoldable pub has_no_bar : String → Bool
has_no_bar String.[] = true
has_no_bar (String.◌∷◌ c s) = let rest = has_no_bar s in not (eqb (code c) b'|') && rest

after_bar : (s t : String) → has_no_bar (append s (append "|" t)) ≡ false
unfolding append has_no_bar
after_bar String.[] t = refl
after_bar (String.◌∷◌ c s) t = ground (arith, after_bar s t)

abbrev tail_of : String → String
tail_of String.[] = String.[]
tail_of (String.◌∷◌ c s) = s

abbrev head_of : Char → String → Char
head_of c String.[] = c
head_of c (String.◌∷◌ d s) = d

-- What was signed says which URL and which time: it splits at its last bar.
payload_data-splits :
    (base base' t t' : String)
    → has_no_bar t ≡ true
    → has_no_bar t' ≡ true
    → payload_data base t ≡ payload_data base' t'
    → (base ≡ base') × (t ≡ t')
unfolding append
payload_data-splits String.[] String.[] t t' a b e = (refl, ap tail_of e)
payload_data-splits String.[] (String.◌∷◌ c base') t t' a b e =
    absurd (false≢true (sym (after_bar base' t') ∙ ap has_no_bar (sym (ap tail_of e)) ∙ a))
payload_data-splits (String.◌∷◌ c base) String.[] t t' a b e =
    absurd (false≢true (sym (after_bar base t) ∙ ap has_no_bar (ap tail_of e) ∙ b))
payload_data-splits (String.◌∷◌ c base) (String.◌∷◌ d base') t t' a b e =
    let rest = payload_data-splits base base' t t' a b (ap tail_of e) in
    (ap (λ s. String.◌∷◌ c s) rest.0 ∙ ap (λ x. String.◌∷◌ x base') (ap (head_of c) e), rest.1)

-- What the code relies on: no two texts have the same HMAC, `int` reads back what `str` writes of a number,
-- and that is written without a bar.
pub record IsForgeryProof (mac : String → String) (show : ℕ → String) (read : String → Option ℕ)
    : Type 0 where
  pub injective : (s t : String) → mac s ≡ mac t → s ≡ t
  pub read_show : (n : ℕ) → read (show n) ≡ some n
  pub without_bar : (n : ℕ) → has_no_bar (show n) ≡ true

-- Two signatures that agree are of the same URL and time.
signed-splits :
    (mac : String → String) (show : ℕ → String) (read : String → Option ℕ) (b b' : String)
    (n n' : ℕ)
    → IsForgeryProof mac show read
    → mac (payload_data b (show n)) ≡ mac (payload_data b' (show n'))
    → (b ≡ b') × (n ≡ n')
signed-splits mac show read b b' n n' proof e =
    let (same_base, same_time) =
      payload_data-splits b b' (show n) (show n') (proof.without_bar n) (proof.without_bar n')
        (proof.injective _ _ e) in
    let both : some n ≡ some n' =
      sym (proof.read_show n) ∙ ap read same_time ∙ proof.read_show n' in
    (same_base, cc)

check_signature-authentic :
    (parse : String → Option Url) (unparse : Url → String) (mac : String → String)
    (show : ℕ → String) (read : String → Option ℕ) (now expires : ℕ) (u : Url) (base s : String)
    → IsForgeryProof mac show read
    → check_signature parse unparse mac show read now u (mac (payload_data base (show expires))) s
      ≡ true
    → (unparse (with_query (base_params u.query) u) ≡ base)
      × (read s ≡ some expires)
      × (now ≤ expires)
unfolding check_signature
check_signature-authentic parse unparse mac show read now expires u base s proof = go (read s)
  where
    go :
        (o : Option ℕ)
        → elim o [
          | none ↦ false
          | some n ↦
              not (ltb n now)
              && mac (payload_data base (show expires))
                == mac (payload_data (unparse (with_query (base_params u.query) u)) (show n))
        ]
          ≡ true
        → (unparse (with_query (base_params u.query) u) ≡ base)
          × (o ≡ some expires)
          × (now ≤ expires)
    go none q = absurd (false≢true q)
    go (some n) q =
        let both = and_elim (not (ltb n now)) _ q in
        let same_input =
          signed-splits mac show read base _ expires n proof ((eq_iff _ _).0 (both.1)) in
        let in_time = not_over n now (both.0) in
        (
          sym (same_input.0),
          ap some (sym (same_input.1)),
          subst (λ m. now ≤ m) (sym (same_input.1)) in_time,
        )

verify_parsed-authentic :
    (parse : String → Option Url) (unparse : Url → String) (mac : String → String)
    (show : ℕ → String) (read : String → Option ℕ) (now expires : ℕ) (u : Url) (base : String)
    (o : Option String)
    → IsForgeryProof mac show read
    → verify_parsed parse unparse mac show read now u
        (some (mac (payload_data base (show expires))))
        o
      ≡ true
    → (unparse (with_query (base_params u.query) u) ≡ base)
      × ((s : String) × (o ≡ some s) × (read s ≡ some expires))
      × (now ≤ expires)
unfolding verify_parsed
verify_parsed-authentic parse unparse mac show read now expires u base none proof h =
    absurd (false≢true h)
verify_parsed-authentic parse unparse mac show read now expires u base (some s) proof h =
    let checked = (and_elim _ _ h).1 in
    let all =
      check_signature-authentic parse unparse mac show read now expires u base s proof checked in
    (all.0, (s, refl, all.1), all.2)

-- Nobody can move a signature: a URL that verifies with the signature that was made for a base URL and a
-- time is that base URL, carries that time, and comes no later, if no two texts have the same HMAC and `str`
-- of a number is read back by `int` and holds no bar.
pub verify_signed_url-authentic :
    (parse : String → Option Url) (unparse : Url → String) (mac : String → String)
    (show : ℕ → String) (read : String → Option ℕ) (now expires : ℕ) (u : Url)
    (request base : String)
    → IsForgeryProof mac show read
    → parse request ≡ some u
    → first_param "signature" u.query ≡ some (mac (payload_data base (show expires)))
    → verify_signed_url parse unparse mac show read now request ≡ true
    → (unparse (with_query (base_params u.query) u) ≡ base)
      × ((s : String) × (first_param "expires" u.query ≡ some s) × (read s ≡ some expires))
      × (now ≤ expires)
unfolding verify_signed_url
verify_signed_url-authentic parse unparse mac show read now expires u request base proof h k v =
    verify_parsed-authentic parse unparse mac show read now expires u base
      (first_param "expires" u.query) proof (sym (rw (verify_signed_url, h, k) refl) ∙ v)
