-- ===== src/Config.antt =====
-- src/shared/config.js: the readers of environment variables and `validateConfig`. The value of a
-- variable that is not set is `none`. The texts of the errors are constructors with what is
-- interpolated in them, but for the variable's name.
pub mod Ports
use nodejs_wss_service_bridg.Base.{
  ℕ, Bool, true, false, not, ◌&&◌, ◌||◌, ◌+◌, ◌-◌, List, [], ◌∷◌, ◌++◌, Option, none, some, ltb,
  leb, ◌==◌, if◌then◌else◌, has, Result, ok, err, ◌>>=◌,
}
use nodejs_wss_service_bridg.Base.Text.{
  Text, codes, trim, split, is_empty, is_decimal, decimal, text_eq,
}
use nodejs_wss_service_bridg.IpAllowlist.{is_valid_ip_or_cidr}
use nodejs_wss_service_bridg.Http.Headers.{text_in}

pub data ConfigError : Type 0 where
  invalid_number invalid_boolean invalid_port invalid_ip : Text → ConfigError
  below_minimum above_maximum : ℕ → ℕ → ConfigError
  negative : Text → ConfigError
  no_credentials paths_equal : ConfigError
  low_water_too_high frame_too_large : ℕ → ℕ → ConfigError

abbrev pub value_or_empty : Option Text → Text
value_or_empty none = []
value_or_empty (some raw) = raw

-- The loop body of `readPortList`: the set `seen` has the elements of the list `ports`.
unfoldable pub add_port : Text → List ℕ → Result ConfigError (List ℕ)
unfolding trim decimal
add_port s ports =
    let trimmed = trim s in
    let n = decimal 0 trimmed in
    if is_empty trimmed
    then ok ports
    else if not (is_decimal trimmed)
    then err (invalid_port trimmed)
    else if leb n 0 || ltb 65535 n
    then err (invalid_port trimmed)
    else ok (if has n ports then ports else ports ++ n ∷ [])

unfoldable pub add_ports : List Text → List ℕ → Result ConfigError (List ℕ)
unfolding add_port
add_ports [] ports = ok ports
add_ports (s ∷ rest) ports = do next ← add_port s ports; add_ports rest next

-- `readPortList`
unfoldable pub read_port_list : Option Text → Result ConfigError (List ℕ)
unfolding add_ports split
read_port_list value =
    let raw = value_or_empty value in if is_empty raw then ok [] else add_ports (split b',' raw) []

-- `readBoolean`, of a value that is set.
abbrev pub boolean_of : Text → Result ConfigError Bool
boolean_of raw =
    if text_eq raw (codes "true") || text_eq raw (codes "1")
    then ok true
    else if text_eq raw (codes "false") || text_eq raw (codes "0")
    then ok false
    else err (invalid_boolean raw)

unfoldable pub read_boolean : Bool → Option Text → Result ConfigError Bool
unfolding text_eq
read_boolean default_value none = ok default_value
read_boolean default_value (some raw) = if is_empty raw then ok default_value else boolean_of raw

-- The limits of `readInteger` that are given.
pub record Limits : Type 0 where
  pub min : ℕ
  pub max : Option ℕ

abbrev pub too_high : Option ℕ → ℕ → Bool
too_high none n = false
too_high (some top) n = ltb top n

abbrev pub limit_of : Option ℕ → ℕ
limit_of none = 0
limit_of (some top) = top

-- A numeral with a sign before it is a number below 0, or 0, which is `-0` in the source.
abbrev pub is_negative : Text → Bool
is_negative [] = false
is_negative (c ∷ s) = c == b'-' && is_decimal s

abbrev pub without_sign : Text → Text
without_sign [] = []
without_sign (c ∷ s) = if c == b'-' then s else c ∷ s

-- The tests of `readInteger` on the number; `below` says that it is below 0.
abbrev pub check_limits : Limits → Text → Bool → Option ℕ → Result ConfigError ℕ
check_limits limits raw below none = err (invalid_number raw)
check_limits limits raw below (some n) =
    if below && ltb 0 n
    then err (negative raw)
    else if ltb n limits.min
    then err (below_minimum n limits.min)
    else if too_high limits.max n
    then err (above_maximum n (limit_of limits.max))
    else ok n

module _ (nearest : ℕ → Option ℕ) where
  -- `readInteger`, every call of which gives a `min`, at least 0. `nearest` is the floating-point
  -- number for a numeral's value, `none` where that is Infinity.
  unfoldable pub read_integer : ℕ → Limits → Option Text → Result ConfigError ℕ
  unfolding trim decimal
  read_integer default_value limits none = ok default_value
  read_integer default_value limits (some raw) =
      let trimmed = trim raw in
      if is_empty raw
      then ok default_value
      else if not (is_decimal trimmed || is_negative trimmed)
      then err (invalid_number raw)
      else check_limits limits raw (is_negative trimmed)
          (nearest (decimal 0 (without_sign trimmed)))

module _ (other : Text → Option ℕ) where
  -- The loop body of `readIpList`, and `readIpList`.
  unfoldable pub add_entry : Text → List Text → Result ConfigError (List Text)
  unfolding trim is_valid_ip_or_cidr text_in
  add_entry s entries =
      let trimmed = trim s in
      if is_empty trimmed
      then ok entries
      else if not (is_valid_ip_or_cidr other trimmed)
      then err (invalid_ip trimmed)
      else ok (if text_in trimmed entries then entries else entries ++ trimmed ∷ [])

  unfoldable pub add_entries : List Text → List Text → Result ConfigError (List Text)
  unfolding add_entry
  add_entries [] entries = ok entries
  add_entries (s ∷ rest) entries = do next ← add_entry s entries; add_entries rest next

  unfoldable pub read_ip_list : Option Text → Result ConfigError (List Text)
  unfolding add_entries split
  read_ip_list value =
      let raw = value_or_empty value in
      if is_empty raw then ok [] else add_entries (split b',' raw) []

pub record Values : Type 0 where
  pub username : Text
  pub password : Text
  pub ws_low_water : ℕ
  pub ws_high_water : ℕ
  pub tunnel_path : Text
  pub tcp_agent_path : Text
  pub max_frame_payload : ℕ
  pub ws_max_payload : ℕ

abbrev pub protocol_overhead : ℕ
protocol_overhead = 64

-- `validateConfig` up to its warning: the error with which the process ends. The smallest
-- WS_MAX_PAYLOAD is above the overhead, so the subtraction does not stop at 0.
unfoldable pub validate_config : Values → Option ConfigError
unfolding text_eq
validate_config v =
    if is_empty v.username || is_empty v.password
    then some no_credentials
    else if leb v.ws_high_water v.ws_low_water
    then some (low_water_too_high v.ws_low_water v.ws_high_water)
    else if text_eq v.tunnel_path v.tcp_agent_path
    then some paths_equal
    else if ltb (v.ws_max_payload - protocol_overhead) v.max_frame_payload
    then some (frame_too_large v.max_frame_payload v.ws_max_payload)
    else none
