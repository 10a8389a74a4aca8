-- ===== src/Prelude/Bits.antt =====
-- The binary digits of `bit_xor` and `bit_and`: both work digit by digit, so they go through a
-- division and a remainder by a power of two.
use Prim.Native.Nat.{
  ℕ, zero, suc, ◌+◌, ◌-◌, ◌*◌, ◌/◌, ◌%◌, ◌^◌, ◌≤◌, ◌<◌, min, bit_and, bit_xor, bit_and-bitwise,
  bit_xor-bitwise, digits, differ,
}
use mathlib.Core.Path.{◌≡◌, refl, sym, ap, ◌∙◌}
use native.Mathlib.Omega.{arith}
use native.Mathlib.Nat.{
  add-mul-mod_self_left, div-add-mod, div-div-eq-div-mul, mod-eq_of_lt, mod-lt, pow-succ',
}

-- A bitwise operation by its digits: `z` once the first number has run out.
module _ (z : ℕ → ℕ) (f : ℕ → ℕ → ℕ) (low : (b : ℕ) → z b ≡ z (b / 2) * 2 + f 0 (b % 2)) where
  -- One more unit of fuel than the number needs changes nothing, nor do more.
  digits_extra : (n a b : ℕ) → a ≤ n → digits z f (suc n) a b ≡ digits z f n a b
  digits_extra n zero b h = elim n as (λ m. digits z f (suc m) 0 b ≡ digits z f m 0 b) [
    | zero ↦ refl
    | suc m ↦ refl
  ]
  digits_extra zero (suc a) b h = absurd (omega arith)
  digits_extra (suc n) (suc a) b h =
      let half = suc a / 2 in
      ap (λ high. high * 2 + f (suc a % 2) (b % 2)) (digits_extra n half (b / 2) (omega arith))

  enough : (k m a b : ℕ) → a ≤ m → digits z f (m + k) a b ≡ digits z f m a b
  enough zero m a b h = ap (λ n. digits z f n a b) {x = m + 0} {y = m} (omega arith)
  enough (suc k) m a b h =
      ap (λ n. digits z f n a b) {x = m + suc k} {y = suc (m + k)} (omega arith)
      ∙ digits_extra (m + k) a b (omega arith)
      ∙ enough k m a b h

  digits_step :
      (a b : ℕ) → digits z f a a b ≡ digits z f (a / 2) (a / 2) (b / 2) * 2 + f (a % 2) (b % 2)
  digits_step zero b = low b
  digits_step (suc a) b =
      let half = suc a / 2 in
      ap (λ n. digits z f n half (b / 2) * 2 + f (suc a % 2) (b % 2)) {x = a}
        {y = half + (a - half)} (omega arith)
      ∙ ap (λ high. high * 2 + f (suc a % 2) (b % 2))
          (enough (a - half) half half (b / 2) (omega arith))

differ_lem : (x y : ℕ) → x < 2 → y < 2 → differ x y ≡ (x + y) % 2
differ_lem zero y p q = omega arith
differ_lem (suc zero) zero p q = refl
differ_lem (suc zero) (suc zero) p q = refl
differ_lem (suc zero) (suc (suc y)) p q = absurd (omega arith)
differ_lem (suc (suc x)) y p q = absurd (omega arith)

pub bit_xor_step : (a b : ℕ) → bit_xor a b ≡ bit_xor (a / 2) (b / 2) * 2 + (a + b) % 2
bit_xor_step a b = omega (
  arith,
  bit_xor-bitwise a b,
  bit_xor-bitwise (a / 2) (b / 2),
  digits_step (λ b. b) differ (λ b. omega arith) a b,
  differ_lem (a % 2) (b % 2) (omega arith) (omega arith),
)

pub bit_and_step : (a b : ℕ) → bit_and a b ≡ bit_and (a / 2) (b / 2) * 2 + min (a % 2) (b % 2)
bit_and_step a b =
    bit_and-bitwise a b
    ∙ digits_step (λ b. zero) min (λ b. omega arith) a b
    ∙ ap (λ d. d * 2 + min (a % 2) (b % 2)) (sym (bit_and-bitwise (a / 2) (b / 2)))

-- Dividing once more by two.
div_pow_suc : (x k : ℕ) → x / 2 ^ suc k ≡ x / 2 / 2 ^ k
div_pow_suc x k = ap (λ m. x / m) (pow-succ' 2 k) ∙ sym (div-div-eq-div-mul x 2 (2 ^ k))

mod_double : (x m : ℕ) → 0 < m → x % (2 * m) ≡ x / 2 % m * 2 + x % 2
mod_double x m h =
    ap (λ y. y % (2 * m)) parts
    ∙ add-mul-mod_self_left (x / 2 % m * 2 + x % 2) (2 * m) (x / 2 / m)
    ∙ mod-eq_of_lt (omega (arith, mod-lt (x / 2) h))
  where
    parts : x ≡ x / 2 % m * 2 + x % 2 + 2 * m * (x / 2 / m)
    parts = grind (arith, div-add-mod (x / 2) m)

pow_pos : (k : ℕ) → 0 < 2 ^ k
pow_pos zero = omega arith
pow_pos (suc k) = omega (arith, pow-succ' 2 k, pow_pos k)

mod_pow_suc : (x k : ℕ) → x % 2 ^ suc k ≡ x / 2 % 2 ^ k * 2 + x % 2
mod_pow_suc x k = ap (λ m. x % m) (pow-succ' 2 k) ∙ mod_double x (2 ^ k) (pow_pos k)

div_one : (x : ℕ) → x / 1 ≡ x
div_one x = omega arith

mod_one : (x : ℕ) → x % 1 ≡ 0
mod_one x = omega arith

-- What is used of an operation: it takes the lowest digits to the lowest digit.
module _ (op : ℕ → ℕ → ℕ) (f : ℕ → ℕ → ℕ) (small : (a b : ℕ) → f a b < 2)
    (step : (a b : ℕ) → op a b ≡ op (a / 2) (b / 2) * 2 + f (a % 2) (b % 2)) where
  op_half : (a b : ℕ) → op a b / 2 ≡ op (a / 2) (b / 2)
  op_half a b = omega (arith, step a b, small (a % 2) (b % 2))

  op_low : (a b : ℕ) → op a b % 2 ≡ f (a % 2) (b % 2)
  op_low a b = omega (arith, step a b, small (a % 2) (b % 2))

  op-div : (k a b : ℕ) → op a b / 2 ^ k ≡ op (a / 2 ^ k) (b / 2 ^ k)
  op-div zero a b =
      div_one (op a b)
      ∙ ap (λ t. op t b) (sym (div_one a))
      ∙ ap (λ t. op (a / 1) t) (sym (div_one b))
  op-div (suc k) a b =
      div_pow_suc (op a b) k
      ∙ ap (λ t. t / 2 ^ k) (op_half a b)
      ∙ op-div k (a / 2) (b / 2)
      ∙ ap (λ t. op t (b / 2 / 2 ^ k)) (sym (div_pow_suc a k))
      ∙ ap (λ t. op (a / 2 ^ suc k) t) (sym (div_pow_suc b k))

  op-mod : op 0 0 ≡ 0 → (k a b : ℕ) → op a b % 2 ^ k ≡ op (a % 2 ^ k) (b % 2 ^ k)
  op-mod e zero a b =
      mod_one (op a b)
      ∙ sym e
      ∙ ap (λ t. op t 0) (sym (mod_one a))
      ∙ ap (λ t. op (a % 1) t) (sym (mod_one b))
  op-mod e (suc k) a b =
      mod_pow_suc (op a b) k
      ∙ omega (
        arith,
        ap (λ t. t % 2 ^ k) (op_half a b),
        op-mod e k (a / 2) (b / 2),
        op_low a b,
        joined (a / 2 % 2 ^ k) (b / 2 % 2 ^ k) (a % 2) (b % 2) (omega arith) (omega arith),
      )
      ∙ ap (λ t. op t (b / 2 % 2 ^ k * 2 + b % 2)) (sym (mod_pow_suc a k))
      ∙ ap (λ t. op (a % 2 ^ suc k) t) (sym (mod_pow_suc b k))
    where
      joined : (u v r s : ℕ) → r < 2 → s < 2 → op (u * 2 + r) (v * 2 + s) ≡ op u v * 2 + f r s
      joined u v r s p q =
          step (u * 2 + r) (v * 2 + s)
          ∙ ap (λ t. op t ((v * 2 + s) / 2) * 2 + f ((u * 2 + r) % 2) ((v * 2 + s) % 2)) {y = u}
              (omega arith)
          ∙ ap (λ t. op u t * 2 + f ((u * 2 + r) % 2) ((v * 2 + s) % 2)) {y = v} (omega arith)
          ∙ ap (λ t. op u v * 2 + f t ((v * 2 + s) % 2)) {y = r} (omega arith)
          ∙ ap (λ t. op u v * 2 + f r t) {y = s} (omega arith)

-- The laws of `bit_xor`.
abbrev sum_digit : ℕ → ℕ → ℕ
sum_digit a b = (a + b) % 2

xor_digits : (a b : ℕ) → bit_xor a b ≡ bit_xor (a / 2) (b / 2) * 2 + sum_digit (a % 2) (b % 2)
xor_digits a b = omega (arith, bit_xor_step a b)

pub bit_xor-div : (k a b : ℕ) → bit_xor a b / 2 ^ k ≡ bit_xor (a / 2 ^ k) (b / 2 ^ k)
bit_xor-div k a b = op-div bit_xor sum_digit (λ a b. omega arith) xor_digits k a b

pub bit_xor-mod : (k a b : ℕ) → bit_xor a b % 2 ^ k ≡ bit_xor (a % 2 ^ k) (b % 2 ^ k)
bit_xor-mod k a b = op-mod bit_xor sum_digit (λ a b. omega arith) xor_digits refl k a b

pub bit_and-div : (k a b : ℕ) → bit_and a b / 2 ^ k ≡ bit_and (a / 2 ^ k) (b / 2 ^ k)
bit_and-div k a b =
    op-div bit_and (λ x y. min (x % 2) (y % 2)) (λ a b. omega arith)
      (λ a b. omega (arith, bit_and_step a b)) k a b

pub bit_and-mod : (k a b : ℕ) → bit_and a b % 2 ^ k ≡ bit_and (a % 2 ^ k) (b % 2 ^ k)
bit_and-mod k a b =
    op-mod bit_and (λ x y. min (x % 2) (y % 2)) (λ a b. omega arith)
      (λ a b. omega (arith, bit_and_step a b)) refl k a b

-- Induction along halving, on fuel.
xor_twice_fuel : (n a b : ℕ) → a ≤ n → b ≤ n → bit_xor (bit_xor a b) b ≡ a
xor_twice_fuel zero zero zero p q = refl
xor_twice_fuel zero zero (suc b) p q = absurd (omega arith)
xor_twice_fuel zero (suc a) b p q = absurd (omega arith)
xor_twice_fuel (suc n) a b p q = omega (
  arith,
  bit_xor_step (bit_xor a b) b,
  bit_xor_step a b,
  ap (λ t. bit_xor t (b / 2)) {x = bit_xor a b / 2} {y = bit_xor (a / 2) (b / 2)}
      (omega (arith, bit_xor_step a b)),
  xor_twice_fuel n (a / 2) (b / 2) (omega arith) (omega arith),
)

pub bit_xor_twice : (a b : ℕ) → bit_xor (bit_xor a b) b ≡ a
bit_xor_twice a b = xor_twice_fuel (a + b) a b (omega arith) (omega arith)

-- Two numbers differ in no digit only if they are equal.
xor_zero_fuel : (n a b : ℕ) → a ≤ n → b ≤ n → bit_xor a b ≡ 0 → a ≡ b
xor_zero_fuel zero a b p q h = omega arith
xor_zero_fuel (suc n) a b p q h = omega (
  arith,
  bit_xor_step a b,
  xor_zero_fuel n (a / 2) (b / 2) (omega arith) (omega arith) (omega (arith, bit_xor_step a b)),
)

pub bit_xor_zero : (a b : ℕ) → bit_xor a b ≡ 0 → a ≡ b
bit_xor_zero a b h = xor_zero_fuel (a + b) a b (omega arith) (omega arith) h

xor_self_fuel : (n a : ℕ) → a ≤ n → bit_xor a a ≡ 0
xor_self_fuel zero zero p = refl
xor_self_fuel zero (suc a) p = absurd (omega arith)
xor_self_fuel (suc n) a p = omega (arith, bit_xor_step a a, xor_self_fuel n (a / 2) (omega arith))

pub bit_xor_self : (a : ℕ) → bit_xor a a ≡ 0
bit_xor_self a = xor_self_fuel a a (omega arith)

xor_fixed_fuel : (n a b : ℕ) → a ≤ n → b ≤ n → bit_xor a b ≡ a → b ≡ 0
xor_fixed_fuel zero a b p q h = omega arith
xor_fixed_fuel (suc n) a b p q h = omega (
  arith,
  bit_xor_step a b,
  xor_fixed_fuel n (a / 2) (b / 2) (omega arith) (omega arith) (omega (arith, bit_xor_step a b)),
)

pub bit_xor_fixed : (a b : ℕ) → bit_xor a b ≡ a → b ≡ 0
bit_xor_fixed a b h = xor_fixed_fuel (a + b) a b (omega arith) (omega arith) h

-- Below a bound that the halves stay under.
halves_and_zero : (bound a : ℕ) → a < suc bound → bit_and a 0 ≡ 0
halves_and_zero zero a h = ap (λ t. bit_and t 0) {x = a} {y = 0} (omega arith)
halves_and_zero (suc bound) a h =
    omega (arith, bit_and_step a 0, halves_and_zero bound (a / 2) (omega arith))

pub bit_and-zero : (a : ℕ) → bit_and a 0 ≡ 0
bit_and-zero a = halves_and_zero a a (omega arith)

bit_and-one : (a : ℕ) → bit_and a 1 ≡ a % 2
bit_and-one a = omega (arith, bit_and_step a 1, bit_and-zero (a / 2))

-- A mask of the digit 15 picks that digit.
pub bit_and_mask : (a : ℕ) → bit_and a 0x8000 ≡ a / 0x8000 % 2 * 0x8000
bit_and_mask a = omega (
  arith,
  bit_and-div 15 a 0x8000,
  bit_and-mod 15 a 0x8000,
  bit_and-one (a / 0x8000),
  bit_and-zero (a % 0x8000),
)

-- A digit of both is the lesser of the two digits.
pub bit_and_digit : (k a b : ℕ) → bit_and a b / 2 ^ k % 2 ≡ min (a / 2 ^ k % 2) (b / 2 ^ k % 2)
bit_and_digit k a b = omega (arith, bit_and-div k a b, bit_and_step (a / 2 ^ k) (b / 2 ^ k))
