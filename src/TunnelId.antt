-- ===== src/TunnelId.antt =====
-- src/shared/tunnel-id.js: normalizing a tunnel id. A value that is `null` or `undefined` is `none`;
-- any other is the text that `String` gives for it. The messages' names are left out.
pub mod Laws
use nodejs_wss_service_bridg.Base.{
  ℕ, suc, ◌-◌, Bool, true, false, ◌&&◌, ◌||◌, List, [], ◌∷◌, Option, none, some, leb, ◌==◌,
  if◌then◌else◌, length, Result, ok, err,
}
use nodejs_wss_service_bridg.Base.Text.{Text, trim, is_empty}

pub data IdError : Type 0 where
  required malformed : IdError

abbrev pub is_alnum : ℕ → Bool
is_alnum c = leb b'A' c && leb c b'Z' || leb b'a' c && leb c b'z' || leb b'0' c && leb c b'9'

-- [A-Za-z0-9._-]
abbrev pub is_id_char : ℕ → Bool
is_id_char c = is_alnum c || c == b'.' || c == b'_' || c == b'-'

abbrev pub all_id_chars : Text → Bool
all_id_chars [] = true
all_id_chars (c ∷ s) = is_id_char c && all_id_chars s

-- TUNNEL_ID_PATTERN
unfoldable pub matches_pattern : Text → Bool
matches_pattern [] = false
matches_pattern (c ∷ s) = is_alnum c && (all_id_chars s && leb (length s) 63)

abbrev to_text : Option Text → Text
to_text none = []
to_text (some s) = s

unfoldable pub normalize_tunnel_id : Bool → Option Text → Result IdError Text
normalize_tunnel_id is_required value =
    let normalized = trim (to_text value) in
    if is_empty normalized
    then (if is_required then err required else ok [])
    else if matches_pattern normalized
    then ok normalized
    else err malformed
