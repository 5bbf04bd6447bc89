-- ===== src/IpAllowlist.antt =====
-- src/shared/ipAllowlist.js: which addresses a list of IPv4 addresses and CIDR ranges allows. The part
-- of an address that is not a plain decimal numeral (`1e1`, `0x7f`, ` 5`) is read by the parameter
-- `other`: what `Number` makes of it, truncated, and `none` where it is not finite, below 0 or
-- above 255.
pub mod Masks
pub mod Networks
use Prim.Native.Nat.{bit_and}
use nodejs_wss_service_bridg.Base.{
  ℕ, suc, ◌+◌, ◌-◌, ◌*◌, ◌%◌, ◌^◌, Bool, true, false, ◌&&◌, ◌||◌, not, List, [], ◌∷◌, Option, none,
  some, ltb, leb, ◌==◌, if◌then◌else◌, length, take, drop,
}
use nodejs_wss_service_bridg.Base.Text.{
  Text, codes, is_digit, is_empty, all_digits, decimal, split, text_eq, trim_start, index_of,
}

-- The digits at the start of a text.
unfoldable pub leading_digits : Text → Text
leading_digits [] = []
leading_digits (c ∷ s) = if is_digit c then c ∷ leading_digits s else []

abbrev read_digits : Text → Option ℕ
read_digits [] = none
read_digits (c ∷ s) = some (decimal 0 (c ∷ s))

-- `Number.parseInt(text, 10)`; `none` for NaN and for a number below 0.
abbrev pub only_zero : Option ℕ → Option ℕ
only_zero none = none
only_zero (some n) = if n == 0 then some 0 else none

abbrev signed : Text → Option ℕ
signed [] = none
signed (c ∷ s) =
    if c == b'-'
    then only_zero (read_digits (leading_digits s))
    else if c == b'+'
    then read_digits (leading_digits s)
    else read_digits (leading_digits (c ∷ s))

unfoldable pub parse_int : Text → Option ℕ
unfolding leading_digits decimal trim_start
parse_int s = signed (trim_start s)

abbrev pub second_or_empty : List Text → Text
second_or_empty (range ∷ bits ∷ rest) = bits
second_or_empty _ = []

abbrev pub first_or_empty : List Text → Text
first_or_empty [] = []
first_or_empty (range ∷ rest) = range

-- `normalizeIp`; an address that is missing is `none`.
unfoldable pub normalize_ip : Option Text → Text
unfolding text_eq
normalize_ip none = []
normalize_ip (some addr) = if text_eq (take 7 addr) (codes "::ffff:") then drop 7 addr else addr

abbrev pub has_slash : Text → Bool
has_slash s = elim (index_of b'/' s) [ none ↦ false | some i ↦ true ]

-- `bits === 0 ? 0 : (~0 << (32 - bits)) >>> 0`
unfoldable pub mask : ℕ → ℕ
mask bits = if bits == 0 then 0 else (2 ^ 32 - 1) * 2 ^ (32 - bits) % 2 ^ 32

abbrev small : ℕ → Option ℕ
small n = if leb n 255 then some n else none

-- The octets do not overlap in the word.
abbrev pub word : Option ℕ → Option ℕ → Option ℕ → Option ℕ → Option ℕ
word (some a) (some b) (some c) (some d) = some (a * 2 ^ 24 + b * 2 ^ 16 + c * 2 ^ 8 + d)
word _ _ _ _ = none

-- The end of `matchCidr`: both words are there, and agree under the mask.
abbrev pub agree : ℕ → Option ℕ → Option ℕ → Bool
agree bits (some ip) (some range) = bit_and ip (mask bits) == bit_and range (mask bits)
agree bits _ _ = false

abbrev pub in_range : Option ℕ → Option ℕ → Option ℕ → Bool
in_range none ip range = false
in_range (some bits) ip range = if ltb 32 bits then false else agree bits ip range

abbrev pub is_word : Option ℕ → Bool
is_word none = false
is_word (some n) = true

abbrev pub fits_word : Option ℕ → Bool
fits_word none = false
fits_word (some bits) = leb bits 32

module _ (other : Text → Option ℕ) where
  -- One part of an address; `Number('')` is 0.
  unfoldable pub octet : Text → Option ℕ
  octet s = if is_empty s then some 0 else if all_digits s then small (decimal 0 s) else other s

  abbrev pub of_parts : List Text → Option ℕ
  of_parts (a ∷ b ∷ c ∷ d ∷ []) = word (octet a) (octet b) (octet c) (octet d)
  of_parts _ = none

  -- `ipToInt`
  unfoldable pub ip_to_int : Text → Option ℕ
  unfolding octet
  ip_to_int ip = of_parts (split b'.' ip)

  -- `matchCidr`
  unfoldable pub match_cidr : Text → Text → Bool
  unfolding parse_int ip_to_int text_eq
  match_cidr ip cidr =
      let parts = split b'/' cidr in
      if not (has_slash cidr)
      then text_eq ip cidr
      else in_range (parse_int (second_or_empty parts)) (ip_to_int ip)
          (ip_to_int (first_or_empty parts))

  -- `allowlist.some(...)`
  unfoldable pub some_entry : Text → List Text → Bool
  unfolding match_cidr
  some_entry ip [] = false
  some_entry ip (entry ∷ entries) = match_cidr ip entry || some_entry ip entries

  -- `isIpAllowed`
  unfoldable pub is_ip_allowed : Option Text → List Text → Bool
  unfolding normalize_ip some_entry
  is_ip_allowed addr [] = true
  is_ip_allowed addr (entry ∷ entries) = some_entry (normalize_ip addr) (entry ∷ entries)

  -- `isValidIpOrCidr`, on a text.
  unfoldable pub is_valid_ip_or_cidr : Text → Bool
  unfolding parse_int ip_to_int
  is_valid_ip_or_cidr entry =
      let parts = split b'/' entry in
      if is_empty entry
      then false
      else if not (has_slash entry)
      then is_word (ip_to_int entry)
      else fits_word (parse_int (second_or_empty parts))
        && is_word (ip_to_int (first_or_empty parts))
