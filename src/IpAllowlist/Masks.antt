-- ===== src/IpAllowlist/Masks.antt =====
-- The mask of a CIDR range: two words agree under it exactly when they agree above the host bits.
use Prim.Native.Nat.{bit_and, bit_and-bitwise, digits, min}
use native.Mathlib.Nat.{pow-suc, mul-div_cancel, div-div-eq-div-mul, div-lt_iff_lt-mul, one-le-pow}
use nodejs_wss_service_bridg.Base.{
  ℕ, zero, suc, ◌+◌, ◌-◌, ◌*◌, ◌/◌, ◌%◌, ◌^◌, ◌≤◌, ◌<◌, ◌≡◌, ◌↔◌, refl, sym, ap, ◌∙◌, arith, ◌==◌,
  ==_iff, Bool, true, ◌&&◌,
}
use nodejs_wss_service_bridg.IpAllowlist.{mask}

-- The digits of `bit_and` with any fuel that is enough.
abbrev conjoin : ℕ → ℕ → ℕ → ℕ
conjoin fuel a b = digits (λ b. zero) min fuel a b

conjoin_enough : (n m a b : ℕ) → a ≤ n → a ≤ m → conjoin n a b ≡ conjoin m a b
conjoin_enough zero zero a b p q = refl
conjoin_enough zero (suc m) zero b p q = refl
conjoin_enough zero (suc m) (suc a) b p q = absurd (omega arith)
conjoin_enough (suc n) zero zero b p q = refl
conjoin_enough (suc n) zero (suc a) b p q = absurd (omega arith)
conjoin_enough (suc n) (suc m) zero b p q = refl
conjoin_enough (suc n) (suc m) (suc a) b p q =
    omega (arith, conjoin_enough n m (suc a / 2) (b / 2) (omega arith) (omega arith))

-- The lowest digit, and the rest.
lowest_digit : (a b : ℕ) → bit_and a b ≡ bit_and (a / 2) (b / 2) * 2 + min (a % 2) (b % 2)
lowest_digit zero b = omega (arith, bit_and-bitwise 0 b, bit_and-bitwise 0 (b / 2))
lowest_digit (suc a) b = omega (
  arith,
  bit_and-bitwise (suc a) b,
  bit_and-bitwise (suc a / 2) (b / 2),
  conjoin_enough a (suc a / 2) (suc a / 2) (b / 2) (omega arith) (omega arith),
)

doubled : (b : ℕ) → 2 ^ suc b ≡ 2 ^ b * 2
doubled b = pow-suc 2 b

positive : (b : ℕ) → 0 < 2 ^ b
positive b = one-le-pow b 2 (omega arith)

none_at_all : (fuel x : ℕ) → x ≤ fuel → bit_and x 0 ≡ 0
none_at_all fuel zero h = refl
none_at_all zero (suc x) h = absurd (omega arith)
none_at_all (suc fuel) (suc x) h =
    omega (arith, lowest_digit (suc x) 0, none_at_all fuel (suc x / 2) (omega arith))

-- A zero at the end of the mask drops the digit over it.
bit_and_even : (x m : ℕ) → bit_and x (m * 2) ≡ bit_and (x / 2) m * 2
bit_and_even x m =
    let half : m * 2 / 2 ≡ m = omega arith in
    omega (arith, lowest_digit x (m * 2), ap (bit_and (x / 2)) half)

bit_and_shifted : (k x m : ℕ) → bit_and x (m * 2 ^ k) ≡ bit_and (x / 2 ^ k) m * 2 ^ k
bit_and_shifted zero x m =
    let all : m * 1 ≡ m = omega arith in
    let same : x / 1 ≡ x = omega arith in
    omega (arith, ap (bit_and x) all, ap (λ y. bit_and y m) same)
bit_and_shifted (suc k) x m =
    let again : m * 2 ^ suc k ≡ m * 2 ^ k * 2 = rw (doubled k) (omega arith) in
    let by_two : x / 2 / 2 ^ k ≡ x / 2 ^ suc k =
      div-div-eq-div-mul x 2 (2 ^ k) ∙ ap (λ n. x / n) (omega (arith, doubled k)) in
    let below = bit_and_shifted k (x / 2) m in
    let word = bit_and (x / 2 ^ suc k) m in
    ap (bit_and x) again
    ∙ bit_and_even x (m * 2 ^ k)
    ∙ ap (λ n. n * 2) (below ∙ ap (λ y. bit_and y m * 2 ^ k) by_two)
    ∙ (rw (doubled k) (omega arith))

-- Ones keep the digits that they cover.
bit_and_ones : (b y : ℕ) → y < 2 ^ b → bit_and y (2 ^ b - 1) ≡ y
bit_and_ones zero zero h = refl
bit_and_ones zero (suc y) h = absurd (omega arith)
bit_and_ones (suc b) y h =
    let half : (2 ^ suc b - 1) / 2 ≡ 2 ^ b - 1 = omega (arith, doubled b, positive b) in
    let odd : (2 ^ suc b - 1) % 2 ≡ 1 = omega (arith, doubled b, positive b) in
    let below = bit_and_ones b (y / 2) (omega (arith, doubled b)) in
    omega (arith, lowest_digit y (2 ^ suc b - 1), ap (bit_and (y / 2)) half, below, odd)

-- The mask of `b` network bits over `k` host bits keeps the network part of a word.
masked : (b k x : ℕ) → x < 2 ^ b * 2 ^ k → bit_and x ((2 ^ b - 1) * 2 ^ k) ≡ x / 2 ^ k * 2 ^ k
masked b k x h =
    bit_and_shifted k x (2 ^ b - 1)
    ∙ ap (λ n. n * 2 ^ k) (bit_and_ones b (x / 2 ^ k) ((div-lt_iff_lt-mul (positive k)).1 h))

-- A property of the numbers below a bound, checked one by one.
all_below : ℕ → (ℕ → Bool) → Bool
all_below zero p = true
all_below (suc n) p = p n && all_below n p

below_all : (n : ℕ) (p : ℕ → Bool) (x : ℕ) → all_below n p ≡ true → x < n → p x ≡ true
unfolding all_below
below_all zero p x h lt = absurd (omega arith)
below_all (suc n) p x h lt = ground (arith, below_all n p x)

mask_table : all_below 33 (λ b. mask b == (2 ^ b - 1) * 2 ^ (32 - b)) ≡ true
unfolding all_below mask
mask_table = refl

width_table : all_below 33 (λ b. 2 ^ b * 2 ^ (32 - b) == 2 ^ 32) ≡ true
unfolding all_below
width_table = refl

bit_and-mask :
    (bits x : ℕ)
    → bits ≤ 32
    → x < 2 ^ 32
    → bit_and x (mask bits) ≡ x / 2 ^ (32 - bits) * 2 ^ (32 - bits)
bit_and-mask bits x h lt =
    let is_mask =
      (==_iff _ _).0
        (below_all 33 (λ b. mask b == (2 ^ b - 1) * 2 ^ (32 - b)) bits mask_table (omega arith)) in
    let width =
      (==_iff _ _).0
        (below_all 33 (λ b. 2 ^ b * 2 ^ (32 - b) == 2 ^ 32) bits width_table (omega arith)) in
    ap (bit_and x) is_mask ∙ masked bits (32 - bits) x (rw width lt)

-- Two words agree under the mask of a range exactly when their network parts are equal.
pub mask_iff :
    (bits x y : ℕ)
    → bits ≤ 32
    → x < 2 ^ 32
    → y < 2 ^ 32
    → ((bit_and x (mask bits) == bit_and y (mask bits)) ≡ true)
      ↔ (x / 2 ^ (32 - bits) ≡ y / 2 ^ (32 - bits))
mask_iff bits x y h p q =
    let left = bit_and-mask bits x h p in
    let right = bit_and-mask bits y h q in
    let host = 2 ^ (32 - bits) in
    (
      λ e.
          let same : x / host * host ≡ y / host * host = sym left ∙ (==_iff _ _).0 e ∙ right in
          sym (mul-div_cancel (x / host) (positive (32 - bits)))
          ∙ ap (λ n. n / host) same
          ∙ mul-div_cancel (y / host) (positive (32 - bits)),
      λ e. (==_iff _ _).1 (left ∙ ap (λ n. n * host) e ∙ sym right),
    )
