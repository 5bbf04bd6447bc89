-- ===== src/Http/Auth/Credentials.antt =====
-- What `verifyBasicAuth` accepts.
use mathlib.Core.Bool.{false≢true}
use nodejs_wss_service_bridg.Base.{
  ℕ, suc, ◌≡◌, ◌↔◌, inl, inr, refl, ap, ◌∙◌, Bool, true, false, List, [], ◌∷◌, ◌++◌, Option, none,
  some, ◌==◌, take, drop, has, length, arith, if_true, Option-cases, Bool-cases, and-left,
  and-right,
}
use nodejs_wss_service_bridg.Base.Text.{
  Text, codes, text_eq, text_eq_iff, split, is_empty, index_of,
}
use nodejs_wss_service_bridg.Base.Splits.{split-two, split_of_two}
use nodejs_wss_service_bridg.Http.Headers.{to_lower}
use nodejs_wss_service_bridg.Http.Auth.{
  safe_equal, check_pair, check_parts, verify_basic_auth, basic_authorization,
}

index_of-splits :
    (x : ℕ) (s : Text) (i : ℕ)
    → index_of x s ≡ some i
    → (s ≡ take i s ++ x ∷ drop (suc i) s) × (has x (take i s) ≡ false)
unfolding index_of
index_of-splits x [] i e = ground arith
index_of-splits x (c ∷ s) i e = elim (Bool-cases (c == x)) [
  | inl at ↦
      let first : i ≡ 0 = ground (arith, e) in
      let sign : c ≡ x = ground arith in rw (first, sign) (refl, refl)
  | inr past ↦ elim (Option-cases (index_of x s)) [
    | inl e0 ↦ absurd (ground (arith, e, e0))
    | inr (j, e1) ↦
        let next : i ≡ suc j = ground (arith, e, e1) in
        let (same, absent) = index_of-splits x s j e1 in
        rw next (ap (λ r. c ∷ r) same, ground (arith, past, absent))
  ]
]

index_of-append : (x : ℕ) (u p : Text) → has x u ≡ false → index_of x (u ++ x ∷ p) ≡ some (length u)
unfolding index_of
index_of-append x [] p h = ground arith
index_of-append x (c ∷ u) p h = ground (arith, index_of-append x u p)

take-append : (u r : Text) → take (length u) (u ++ r) ≡ u
take-append [] r = refl
take-append (c ∷ u) r = ap (λ t. c ∷ t) (take-append u r)

drop-append : (x : ℕ) (u r : Text) → drop (suc (length u)) (u ++ x ∷ r) ≡ r
drop-append x [] r = refl
drop-append x (c ∷ u) r = drop-append x u r

not_empty_middle : (a : Text) (x : ℕ) (b : Text) → is_empty (a ++ x ∷ b) ≡ false
not_empty_middle [] x b = refl
not_empty_middle (c ∷ a) x b = refl

module _ (digest : Text → List ℕ) (decode : Text → Text) where
  -- The header names the scheme Basic and a token, which stands for a name without a colon and a
  -- password, and these have the digests of the name and the password that are expected.
  pub record HasCredentials (header : Option Text) (username password : Text) : Type 0 where
    pub scheme : Text
    pub token : Text
    pub user : Text
    pub pass : Text
    pub is_header : header ≡ some (scheme ++ b' ' ∷ token)
    pub scheme_solid : has b' ' scheme ≡ false
    pub token_solid : has b' ' token ≡ false
    pub is_basic : to_lower scheme ≡ codes "basic"
    pub is_decoded : decode token ≡ user ++ b':' ∷ pass
    pub user_plain : has b':' user ≡ false
    pub same_user : digest user ≡ digest username
    pub same_pass : digest pass ≡ digest password

  check_pair-splits :
      (s : Text) (i : ℕ) (username password : Text)
      → check_pair digest decode s (some i) username password ≡ true
      → (digest (take i s) ≡ digest username) × (digest (drop (suc i) s) ≡ digest password)
  check_pair-splits s i username password e =
      let first = and-left (safe_equal digest decode (take i s) username) _ e in
      let second = and-right (safe_equal digest decode (take i s) username) _ e in
      ((text_eq_iff _ _).0 first, (text_eq_iff _ _).0 second)

  verified-HasCredentials :
      (s scheme token username password : Text)
      → split b' ' s ≡ scheme ∷ token ∷ []
      → check_parts digest decode (scheme ∷ token ∷ []) username password ≡ true
      → HasCredentials (some s) username password
  verified-HasCredentials s scheme token username password parts e =
      let decoded = decode token in
      elim (Bool-cases (text_eq (to_lower scheme) (codes "basic"))) [
        | inl basic ↦ elim (Option-cases (index_of b':' decoded)) [
          | inl e0 ↦ absurd (ground (arith, e, e0))
          | inr (i, e1) ↦
              let (same, first, second) = split-two b' ' s scheme token parts in
              let (halves, plain) = index_of-splits b':' decoded i e1 in
              let pair : check_pair digest decode decoded (some i) username password ≡ true =
                ground (arith, e, basic, e1) in
              let (user_ok, pass_ok) = check_pair-splits decoded i username password pair in
              record {
                scheme = scheme;
                token = token;
                user = take i decoded;
                pass = drop (suc i) decoded;
                is_header = ap (λ t. some t) same;
                scheme_solid = first;
                token_solid = second;
                is_basic = (text_eq_iff _ _).0 basic;
                is_decoded = halves;
                user_plain = plain;
                same_user = user_ok;
                same_pass = pass_ok;
              }
        ]
        | inr other ↦ absurd (ground (arith, e, other))
      ]

  not_two :
      (s : Text) (parts : List Text) (username password : Text)
      → split b' ' s ≡ parts
      → check_parts digest decode parts username password ≡ true
      → HasCredentials (some s) username password
  not_two s (scheme ∷ token ∷ []) username password parts e =
      verified-HasCredentials s scheme token username password parts e
  not_two s [] username password parts e = absurd (false≢true e)
  not_two s (a ∷ []) username password parts e = absurd (false≢true e)
  not_two s (a ∷ b ∷ c ∷ rest) username password parts e = absurd (false≢true e)

  pair_checked :
      (s user pass username password : Text)
      → s ≡ user ++ b':' ∷ pass
      → has b':' user ≡ false
      → digest user ≡ digest username
      → digest pass ≡ digest password
      → check_pair digest decode s (index_of b':' s) username password ≡ true
  pair_checked s user pass username password same plain user_ok pass_ok =
      rw (same, index_of-append b':' user pass plain)
        (ground (
          arith,
          (text_eq_iff (digest user) (digest username)).1 user_ok,
          (text_eq_iff (digest pass) (digest password)).1 pass_ok,
          take-append user (b':' ∷ pass),
          drop-append b':' user pass,
        ))

  credentials-verified :
      (header : Option Text) (username password : Text)
      → HasCredentials header username password
      → verify_basic_auth digest decode header username password ≡ true
  unfolding verify_basic_auth
  credentials-verified header username password h =
      rw
        (
          h.is_header,
          not_empty_middle h.scheme b' ' h.token,
          split_of_two b' ' h.scheme h.token h.scheme_solid h.token_solid,
        )
        (if_true {A = Bool} false ((text_eq_iff _ _).1 h.is_basic)
          ∙ pair_checked (decode h.token) h.user h.pass username password h.is_decoded h.user_plain
              h.same_user h.same_pass)

  -- `verifyBasicAuth` accepts a header exactly when it has the right credentials: it is a scheme and a
  -- token with one blank between them, the scheme is `basic` in any case, and the token is decoded to
  -- a text of which the part before the first colon has the digest of the user's name, and the part
  -- after it the digest of the password.
  pub verify_basic_auth_iff :
      (header : Option Text) (username password : Text)
      → (verify_basic_auth digest decode header username password ≡ true)
        ↔ HasCredentials header username password
  unfolding verify_basic_auth
  verify_basic_auth_iff none username password =
      (λ e. absurd (false≢true e), credentials-verified none username password)
  verify_basic_auth_iff (some []) username password =
      (λ e. absurd (false≢true e), credentials-verified (some []) username password)
  verify_basic_auth_iff (some (c ∷ s)) username password = (
    λ e. not_two (c ∷ s) (split b' ' (c ∷ s)) username password refl e,
    credentials-verified (some (c ∷ s)) username password,
  )

-- A client that is configured with a user's name without a colon, and with the password, gets in:
-- `verifyBasicAuth` accepts the header that the tunnel client and the TCP agent send, if Base64 is
-- decoded to what was encoded and has no blanks.
pub basic_authorization-verified :
    (digest : Text → List ℕ) (decode encode : Text → Text)
    → ((s : Text) → decode (encode s) ≡ s)
    → ((s : Text) → has b' ' (encode s) ≡ false)
    → (username password : Text) → has b':' username ≡ false
    → verify_basic_auth digest decode
        (some (basic_authorization encode username password))
        username
        password
      ≡ true
unfolding basic_authorization to_lower
basic_authorization-verified digest decode encode decodes solid username password plain =
    (verify_basic_auth_iff digest decode (some (basic_authorization encode username password))
        username password).1
      record {
        scheme = codes "Basic";
        token = encode (username ++ b':' ∷ password);
        user = username;
        pass = password;
        is_header = refl;
        scheme_solid = refl;
        token_solid = solid (username ++ b':' ∷ password);
        is_basic = refl;
        is_decoded = decodes (username ++ b':' ∷ password);
        user_plain = plain;
        same_user = refl;
        same_pass = refl;
      }
