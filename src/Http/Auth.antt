-- ===== src/Http/Auth.antt =====
-- src/shared/utils.js: `safeEqual` and `verifyBasicAuth`. `digest` is SHA-256 of the UTF-8 bytes of a
-- text, and `decode` reads a text as Base64 and its bytes as UTF-8.
pub mod Credentials
use nodejs_wss_service_bridg.Base.{
  ℕ, suc, Bool, false, ◌&&◌, List, [], ◌∷◌, ◌++◌, Option, none, some, if◌then◌else◌, take, drop,
}
use nodejs_wss_service_bridg.Base.Text.{Text, codes, text_eq, split, is_empty, index_of}
use nodejs_wss_service_bridg.Http.Headers.{to_lower}

-- The header `Authorization` of the tunnel client (serve/client.js) and of the TCP agent
-- (serve/tcp-agent.js); `encode` writes the UTF-8 bytes of a text as Base64.
unfoldable pub basic_authorization : (Text → Text) → Text → Text → Text
basic_authorization encode username password =
    codes "Basic " ++ encode (username ++ b':' ∷ password)

module _ (digest : Text → List ℕ) (decode : Text → Text) where
  -- `safeEqual`, on texts; digests have one length, and `timingSafeEqual` compares their bytes.
  abbrev pub safe_equal : Text → Text → Bool
  safe_equal a b = text_eq (digest a) (digest b)

  -- The decoded text is the user's name up to the first colon, and then the password.
  abbrev pub check_pair : Text → Option ℕ → Text → Text → Bool
  check_pair decoded none username password = false
  check_pair decoded (some i) username password =
      safe_equal (take i decoded) username && safe_equal (drop (suc i) decoded) password

  abbrev pub check_parts : List Text → Text → Text → Bool
  check_parts (scheme ∷ token ∷ []) username password =
      let decoded = decode token in
      if text_eq (to_lower scheme) (codes "basic")
      then check_pair decoded (index_of b':' decoded) username password
      else false
  check_parts _ username password = false

  -- `verifyBasicAuth`, of the header `authorization`.
  unfoldable pub verify_basic_auth : Option Text → Text → Text → Bool
  unfolding text_eq to_lower index_of split
  verify_basic_auth none username password = false
  verify_basic_auth (some header) username password =
      if is_empty header then false else check_parts (split b' ' header) username password
