-- ===== src/Http/Headers.antt =====
-- src/shared/utils.js: `sanitizeHeaders`. A header's value that is `undefined` or `null` is `none`.
use nodejs_wss_service_bridg.Base.{
  ℕ, ◌+◌, Bool, false, ◌&&◌, ◌||◌, List, [], ◌∷◌, Option, none, some, leb, ◌==◌, if◌then◌else◌,
}
use nodejs_wss_service_bridg.Base.Text.{Text, codes, text_eq}

-- `toLowerCase`, exact for each text whose lower case is ASCII: of the other letters only the Kelvin
-- sign has an ASCII letter for its lower case.
unfoldable pub lower_code : ℕ → ℕ
lower_code c = if leb b'A' c && leb c b'Z' then c + 32 else if c == 0x212a then b'k' else c

unfoldable pub to_lower : Text → Text
unfolding lower_code
to_lower [] = []
to_lower (c ∷ s) = lower_code c ∷ to_lower s

-- HOP_BY_HOP_HEADERS
abbrev pub hop_by_hop_headers : List Text
hop_by_hop_headers =
    codes "connection"
    ∷ codes "keep-alive"
    ∷ codes "proxy-authenticate"
    ∷ codes "proxy-authorization"
    ∷ codes "te"
    ∷ codes "trailer"
    ∷ codes "transfer-encoding"
    ∷ codes "upgrade"
    ∷ codes "proxy-connection"
    ∷ []

unfoldable pub text_in : Text → List Text → Bool
text_in s [] = false
text_in s (t ∷ ts) = text_eq t s || text_in s ts

-- The two tests of the loop on a header's name.
unfoldable pub is_dropped : Bool → Text → Bool
unfolding text_in to_lower
is_dropped remove_host key =
    let lower = to_lower key in
    text_in lower hop_by_hop_headers || remove_host && text_eq lower (codes "host")

-- `out[key] = value` with this key sets a prototype and no header.
abbrev is_proto : Text → Bool
is_proto key = text_eq key (codes "__proto__")

module _ {ℓ} {V : Type ℓ} where
  -- `sanitizeHeaders`, on the entries of an object.
  unfoldable pub sanitize_headers : Bool → List (Text × Option V) → List (Text × V)
  unfolding is_dropped
  sanitize_headers remove_host [] = []
  sanitize_headers remove_host ((key, none) ∷ headers) = sanitize_headers remove_host headers
  sanitize_headers remove_host ((key, some value) ∷ headers) =
      let rest = sanitize_headers remove_host headers in
      if is_dropped remove_host key || is_proto key then rest else (key, value) ∷ rest
