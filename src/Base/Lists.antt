-- ===== src/Base/Lists.antt =====
-- Lists measured by native numbers, and predicates on lists that compute.
use Prim.Native.Nat.{ℕ, zero, suc, ◌+◌, ◌-◌, ◌≤◌, min}
use mathlib.Core.Path.{◌≡◌, refl, ap}
use mathlib.Core.Logic.{◌≢◌}
use mathlib.Core.Bool.{Bool, true, false, ◌||◌}
use mathlib.Core.List.{List, [], ◌∷◌, ◌++◌}
use native.Mathlib.Omega.{arith}
use nodejs_wss_service_bridg.Base.Tests.{◌==◌, if◌then◌else◌}

module _ {ℓ} {A : Type ℓ} where
  abbrev pub length : List A → ℕ
  length [] = 0
  length (x ∷ xs) = suc (length xs)

  abbrev pub take : ℕ → List A → List A
  take zero xs = []
  take (suc n) [] = []
  take (suc n) (x ∷ xs) = x ∷ take n xs

  abbrev pub drop : ℕ → List A → List A
  drop zero xs = xs
  drop (suc n) [] = []
  drop (suc n) (x ∷ xs) = drop n xs

  pub length-append : (xs ys : List A) → length (xs ++ ys) ≡ length xs + length ys
  length-append [] ys = omega arith
  length-append (x ∷ xs) ys = omega (arith, length-append xs ys)

  pub take-append-drop : (n : ℕ) (xs : List A) → take n xs ++ drop n xs ≡ xs
  take-append-drop zero xs = refl
  take-append-drop (suc n) [] = refl
  take-append-drop (suc n) (x ∷ xs) = ap (λ r. x ∷ r) (take-append-drop n xs)

  pub length-take : (n : ℕ) (xs : List A) → length (take n xs) ≡ min n (length xs)
  length-take zero xs = omega arith
  length-take (suc n) [] = omega arith
  length-take (suc n) (x ∷ xs) = omega (arith, length-take n xs)

  pub length-drop : (n : ℕ) (xs : List A) → length (drop n xs) ≡ length xs - n
  length-drop zero xs = omega arith
  length-drop (suc n) [] = omega arith
  length-drop (suc n) (x ∷ xs) = omega (arith, length-drop n xs)

module _ {ℓ κ} {A : Type ℓ} (P : A → Type κ) where
  abbrev pub All : List A → Type κ
  All [] = Unit
  All (x ∷ xs) = P x × All xs

  pub All-append : (xs ys : List A) → All xs → All ys → All (xs ++ ys)
  All-append [] ys p q = q
  All-append (x ∷ xs) ys p q = (p.0, All-append xs ys p.1 q)

-- Membership in a list of numbers, as a test.
abbrev pub has : ℕ → List ℕ → Bool
has a [] = false
has a (x ∷ xs) = x == a || has a xs

pub has-append : (a : ℕ) (xs ys : List ℕ) → has a (xs ++ ys) ≡ (has a xs || has a ys)
has-append a [] ys = refl
has-append a (x ∷ xs) ys = ground (arith, has-append a xs ys)

-- No number stands twice.
abbrev pub Distinct : List ℕ → Type 0
Distinct [] = Unit
Distinct (x ∷ xs) = (has x xs ≡ false) × Distinct xs

pub Distinct-snoc : (xs : List ℕ) (a : ℕ) → Distinct xs → has a xs ≡ false → Distinct (xs ++ a ∷ [])
Distinct-snoc [] a d h = (refl, tt)
Distinct-snoc (x ∷ xs) a d h =
    (ground (arith, has-append x xs (a ∷ [])), Distinct-snoc xs a d.1 (ground arith))

pub Distinct-middle :
    (xs : List ℕ) (a : ℕ) (ys : List ℕ) → Distinct (xs ++ a ∷ ys) → has a xs ≡ false
Distinct-middle [] a ys d = refl
Distinct-middle (x ∷ xs) a ys d =
    ground (arith, Distinct-middle xs a ys d.1, has-append x xs (a ∷ ys), d.0)

-- The list without the first occurrence of a number.
abbrev pub remove : ℕ → List ℕ → List ℕ
remove a [] = []
remove a (x ∷ xs) = if x == a then xs else x ∷ remove a xs

pub length-remove : (a : ℕ) (xs : List ℕ) → has a xs ≡ true → suc (length (remove a xs)) ≡ length xs
length-remove a [] h = ground arith
length-remove a (x ∷ xs) h = ground (arith, length-remove a xs)

pub has-remove_ne : (a b : ℕ) (xs : List ℕ) → a ≢ b → has a (remove b xs) ≡ has a xs
has-remove_ne a b [] h = refl
has-remove_ne a b (x ∷ xs) h = ground (arith, has-remove_ne a b xs h)

pub length-remove-le : (a : ℕ) (xs : List ℕ) → length (remove a xs) ≤ length xs
length-remove-le a [] = omega arith
length-remove-le a (x ∷ xs) = ground (arith, length-remove-le a xs)

pub remove-Distinct :
    (a : ℕ) (xs : List ℕ) → Distinct xs → Distinct (remove a xs) × (has a (remove a xs) ≡ false)
remove-Distinct a [] d = (tt, refl)
remove-Distinct a (x ∷ xs) d = ground (arith, remove-Distinct a xs d.1, has-remove_ne x a xs)

-- Distinct numbers that all stand in a list are at most as many as its entries.
pub Distinct-length-le :
    (xs ys : List ℕ) → Distinct xs → All (λ x. has x ys ≡ true) xs → length xs ≤ length ys
Distinct-length-le [] ys d h = omega arith
Distinct-length-le (x ∷ xs) ys d h =
    omega (arith, length-remove x ys h.0, Distinct-length-le xs (remove x ys) d.1 (keep xs d.0 h.1))
  where
    keep :
        (zs : List ℕ)
        → has x zs ≡ false
        → All (λ z. has z ys ≡ true) zs
        → All (λ z. has z (remove x ys) ≡ true) zs
    keep [] e k = tt
    keep (z ∷ zs) e k = (ground (arith, has-remove_ne z x ys), keep zs (ground arith) k.1)
