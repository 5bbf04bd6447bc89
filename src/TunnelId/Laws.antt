-- ===== src/TunnelId/Laws.antt =====
-- What a normalized tunnel id is.
use nodejs_wss_service_bridg.Base.{
  ℕ, ◌≤◌, ◌≡◌, ◌↔◌, ◌⊎◌, ◌≢◌, refl, take, Bool, true, false, [], ◌∷◌, Option, none, some, arith,
  length, ok, All, Bool-cases, inl, inr,
}
use nodejs_wss_service_bridg.Base.Text.{
  Text, trim, trim_of_IsSolid, IsSolid, is_space, is_empty-eq-true,
}
use nodejs_wss_service_bridg.TunnelId.{
  is_alnum, is_id_char, all_id_chars, matches_pattern, normalize_tunnel_id,
}

-- A tunnel id: a letter or digit, then at most 63 letters, digits, dots, underscores or dashes.
pub record IsTunnelId (s : Text) : Type 0 where
  pub bounded : length s ≤ 64
  pub chars : All (λ c. is_id_char c ≡ true) s
  pub first : All (λ c. is_alnum c ≡ true) (take 1 s)
  pub nonempty : s ≢ []

id_char_solid : (c : ℕ) → is_id_char c ≡ true → is_space c ≡ false
unfolding is_space
id_char_solid c h = ground arith

all_id_chars-IsSolid : (s : Text) → all_id_chars s ≡ true → IsSolid s
all_id_chars-IsSolid [] h = tt
all_id_chars-IsSolid (c ∷ s) h =
    (id_char_solid c (ground arith), all_id_chars-IsSolid s (ground arith))

matches_pattern-IsSolid : (s : Text) → matches_pattern s ≡ true → IsSolid s
unfolding matches_pattern
matches_pattern-IsSolid [] h = tt
matches_pattern-IsSolid (c ∷ s) h =
    (id_char_solid c (ground arith), all_id_chars-IsSolid s (ground arith))

all_id_chars-All : (s : Text) → (all_id_chars s ≡ true) ↔ All (λ c. is_id_char c ≡ true) s
all_id_chars-All [] = ground arith
all_id_chars-All (c ∷ s) = ground (arith, all_id_chars-All s)

pub matches_pattern_iff : (s : Text) → (matches_pattern s ≡ true) ↔ IsTunnelId s
unfolding matches_pattern
matches_pattern_iff [] = (λ e. cc, λ h. absurd (h.nonempty refl))
matches_pattern_iff (c ∷ s) = (
  λ e. record {
    bounded = ground arith;
    chars = (ground arith, (all_id_chars-All s).0 (ground arith));
    first = (ground arith, tt);
    nonempty = λ n. cc;
  },
  λ h. ground (arith, (all_id_chars-All s).1 h.chars.1, h.first.0),
)

-- Whatever the value, a result that is returned is either the empty text, where no id is required, or
-- a tunnel id.
pub normalize_tunnel_id_sound :
    (is_required : Bool) (value : Option Text) (s : Text)
    → normalize_tunnel_id is_required value ≡ ok s
    → ((is_required ≡ false) × (s ≡ [])) ⊎ IsTunnelId s
unfolding normalize_tunnel_id
normalize_tunnel_id_sound r none s h = ground (arith, trim_of_IsSolid [] tt)
normalize_tunnel_id_sound r (some v) s h = elim (Bool-cases (matches_pattern (trim v))) [
  | inl good ↦ ground (arith, (matches_pattern_iff (trim v)).0 good, is_empty-eq-true (trim v))
  | inr bad ↦ ground (arith, is_empty-eq-true (trim v))
]

-- Every tunnel id is accepted and is its own normal form, whether or not an id is required.
pub normalize_tunnel_id_complete :
    (is_required : Bool) (s : Text) → IsTunnelId s → normalize_tunnel_id is_required (some s) ≡ ok s
unfolding normalize_tunnel_id
normalize_tunnel_id_complete r s h =
    let good = (matches_pattern_iff s).1 h in
    rw (trim_of_IsSolid s (matches_pattern-IsSolid s good), good)
      (ground (arith, is_empty-eq-true s))
