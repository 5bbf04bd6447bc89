-- ===== src/Base/Splits.antt =====
-- What `split` makes of a text.
use nodejs_wss_service_bridg.Base.{
  ℕ, ◌≡◌, ◌≢◌, ◌⊎◌, inl, inr, refl, ap, ◌∙◌, false, List, [], ◌∷◌, ◌++◌, arith, ◌==◌, has,
  Bool-cases,
}
use nodejs_wss_service_bridg.Base.Text.{Text, split}

pub List-cases : (ws : List Text) → (ws ≡ []) ⊎ ((w : Text) × (rest : List Text) × (ws ≡ w ∷ rest))
List-cases [] = inl refl
List-cases (w ∷ rest) = inr (w, rest, refl)

pub split-some : (sep : ℕ) (s : Text) → split sep s ≢ []
unfolding split
split-some sep [] e = ground arith
split-some sep (c ∷ s) e = elim (List-cases (split sep s)) [
  | inl e0 ↦ ground (arith, split-some sep s)
  | inr (w, rest, e1) ↦ ground arith
]

pub split-one : (sep : ℕ) (s w : Text) → split sep s ≡ w ∷ [] → (s ≡ w) × (has sep w ≡ false)
unfolding split
split-one sep [] w e = let empty : [] ≡ w = ground (arith, e) in (empty, rw (← empty) refl)
split-one sep (c ∷ s) w e = elim (Bool-cases (c == sep)) [
  | inl at ↦ absurd (ground (arith, split-some sep s))
  | inr past ↦ elim (List-cases (split sep s)) [
    | inl e0 ↦ absurd (split-some sep s e0)
    | inr (v, rest, e1) ↦
        let last : rest ≡ [] = ground (arith, e, e1) in
        let (same, absent) = split-one sep s v (e1 ∙ ap (λ r. v ∷ r) last) in
        let whole : w ≡ c ∷ v = ground (arith, e, e1) in
        (rw whole (ap (λ r. c ∷ r) same), rw whole (ground (arith, past, absent)))
  ]
]

pub split-two :
    (sep : ℕ) (s a b : Text)
    → split sep s ≡ a ∷ b ∷ []
    → (s ≡ a ++ sep ∷ b) × (has sep a ≡ false) × (has sep b ≡ false)
unfolding split
split-two sep [] a b e = ground arith
split-two sep (c ∷ s) a b e = elim (Bool-cases (c == sep)) [
  | inl at ↦
      let empty : a ≡ [] = ground (arith, e) in
      let rest : split sep s ≡ b ∷ [] = ground (arith, e) in
      let (same, absent) = split-one sep s b rest in
      let sign : c ≡ sep = ground arith in
      (rw (empty, sign) (ap (λ r. sep ∷ r) same), rw empty refl, absent)
  | inr past ↦ elim (List-cases (split sep s)) [
    | inl e0 ↦ absurd (split-some sep s e0)
    | inr (v, rest, e1) ↦
        let last : rest ≡ b ∷ [] = ground (arith, e, e1) in
        let (same, first, second) = split-two sep s v b (e1 ∙ ap (λ r. v ∷ r) last) in
        let whole : a ≡ c ∷ v = ground (arith, e, e1) in
        (rw whole (ap (λ r. c ∷ r) same), rw whole (ground (arith, past, first)), second)
  ]
]

pub split_of_one : (sep : ℕ) (w : Text) → has sep w ≡ false → split sep w ≡ w ∷ []
unfolding split
split_of_one sep [] h = refl
split_of_one sep (c ∷ w) h = ground (arith, split_of_one sep w)

pub split_of_two :
    (sep : ℕ) (a b : Text)
    → has sep a ≡ false
    → has sep b ≡ false
    → split sep (a ++ sep ∷ b) ≡ a ∷ b ∷ []
unfolding split
split_of_two sep [] b h k = ground (arith, split_of_one sep b k)
split_of_two sep (c ∷ a) b h k = ground (arith, split_of_two sep a b)

-- A separator ends the pieces before it, and starts those behind it.
pub split-middle : (sep : ℕ) (s b : Text) → split sep (s ++ sep ∷ b) ≡ split sep s ++ split sep b
unfolding split
split-middle sep [] b = ground arith
split-middle sep (c ∷ s) b = elim (Bool-cases (c == sep)) [
  | inl at ↦ rw at (ap (λ r. [] ∷ r) (split-middle sep s b))
  | inr past ↦ elim (List-cases (split sep s)) [
    | inl none_left ↦ absurd (split-some sep s none_left)
    | inr (w, rest, e) ↦ rw (past, split-middle sep s b, e) refl
  ]
]
