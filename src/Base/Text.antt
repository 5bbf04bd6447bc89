-- ===== src/Base/Text.antt =====
-- JavaScript strings as lists of code units: trimming, splitting, searching, decimal digits.
use Prim.Native.Char.{code}
use nodejs_wss_service_bridg.Base.{
  ℕ, suc, ◌↔◌, ◌+◌, ◌-◌, ◌*◌, ◌≡◌, refl, String, Bool, true, false, ◌&&◌, ◌||◌, List, [], ◌∷◌,
  Option, none, some, arith, leb, ◌==◌, if◌then◌else◌, All,
}

abbrev pub Text : Type 0
Text = List ℕ

abbrev pub codes : String → Text
codes String.[] = []
codes (String.◌∷◌ c s) = code c ∷ codes s

-- White space and line ends, as `String.prototype.trim` removes them.
unfoldable pub is_space : ℕ → Bool
is_space c =
    leb 9 c && leb c 13
    || c == 0x20
    || c == 0xa0
    || c == 0x1680
    || leb 0x2000 c && leb c 0x200a
    || c == 0x2028
    || c == 0x2029
    || c == 0x202f
    || c == 0x205f
    || c == 0x3000
    || c == 0xfeff

unfoldable pub trim_start : Text → Text
trim_start [] = []
trim_start (c ∷ s) = if is_space c then trim_start s else c ∷ s

abbrev pub cons_end : ℕ → Text → Text
cons_end c [] = if is_space c then [] else c ∷ []
cons_end c (d ∷ s) = c ∷ d ∷ s

unfoldable pub trim_end : Text → Text
trim_end [] = []
trim_end (c ∷ s) = cons_end c (trim_end s)

unfoldable pub trim : Text → Text
unfolding trim_start trim_end is_space
trim s = trim_end (trim_start s)

-- `s.split(sep)` for a separator of one code unit.
abbrev cons_first : ℕ → List Text → List Text
cons_first c [] = (c ∷ []) ∷ []
cons_first c (w ∷ ws) = (c ∷ w) ∷ ws

unfoldable pub split : ℕ → Text → List Text
split sep [] = [] ∷ []
split sep (c ∷ s) = let rest = split sep s in if c == sep then [] ∷ rest else cons_first c rest

-- `indexOf` and `lastIndexOf`; `none` stands for -1.
abbrev shift : Option ℕ → Option ℕ
shift none = none
shift (some i) = some (suc i)

unfoldable pub index_of : ℕ → Text → Option ℕ
index_of x [] = none
index_of x (c ∷ s) = if c == x then some 0 else shift (index_of x s)

abbrev last_or : Bool → Option ℕ → Option ℕ
last_or here (some i) = some (suc i)
last_or here none = if here then some 0 else none

unfoldable pub last_index_of : ℕ → Text → Option ℕ
last_index_of x [] = none
last_index_of x (c ∷ s) = last_or (c == x) (last_index_of x s)

abbrev pub is_digit : ℕ → Bool
is_digit c = leb b'0' c && leb c b'9'

unfoldable pub all_digits : Text → Bool
all_digits [] = true
all_digits (c ∷ s) = is_digit c && all_digits s

-- /^\d+$/
abbrev pub is_decimal : Text → Bool
is_decimal [] = false
is_decimal (c ∷ s) = is_digit c && all_digits s

-- The value of a decimal numeral, most significant digit first.
unfoldable pub decimal : ℕ → Text → ℕ
decimal acc [] = acc
decimal acc (c ∷ s) = decimal (acc * 10 + (c - b'0')) s

abbrev pub is_empty : Text → Bool
is_empty [] = true
is_empty (c ∷ s) = false

pub is_empty-eq-true : (s : Text) → is_empty s ≡ true → s ≡ []
is_empty-eq-true [] h = refl
is_empty-eq-true (c ∷ s) h = ground arith

-- No code unit of the text is white space.
abbrev pub IsSolid : Text → Type 0
IsSolid s = All (λ c. is_space c ≡ false) s

trim_end_of_IsSolid : (s : Text) → IsSolid s → trim_end s ≡ s
unfolding trim_end
trim_end_of_IsSolid [] h = refl
trim_end_of_IsSolid (c ∷ []) h = ground (arith, h.0)
trim_end_of_IsSolid (c ∷ d ∷ s) h = ground (arith, trim_end_of_IsSolid (d ∷ s) h.1)

pub trim_of_IsSolid : (s : Text) → IsSolid s → trim s ≡ s
unfolding trim trim_start
trim_of_IsSolid [] h = refl
trim_of_IsSolid (c ∷ s) h = ground (arith, trim_end_of_IsSolid (c ∷ s) h, h.0)

-- `===` on strings.
unfoldable pub text_eq : Text → Text → Bool
text_eq [] [] = true
text_eq (c ∷ s) (d ∷ t) = c == d && text_eq s t
text_eq _ _ = false

pub text_eq_iff : (s t : Text) → (text_eq s t ≡ true) ↔ (s ≡ t)
unfolding text_eq
text_eq_iff [] [] = ground arith
text_eq_iff [] (d ∷ t) = ground arith
text_eq_iff (c ∷ s) [] = ground arith
text_eq_iff (c ∷ s) (d ∷ t) = ground (arith, text_eq_iff s t)
