-- ===== src/Prelude/Bits.antt =====
-- Laws of the bit operations at variables: one digit at a time, then by strong induction.
use Prim.Native.Nat.{
  ℕ, zero, suc, ◌+◌, ◌*◌, ◌/◌, ◌%◌, ◌-◌, ◌^◌, ◌≤◌, ◌<◌, min, max, bit_and, bit_or, bit_xor, digits,
  bitwise, differ, bit_and-bitwise, bit_or-bitwise, bit_xor-bitwise,
}
use Prim.Native.Nat.add
use mathlib.Core.Path.{◌≡◌, refl, ap}
use mathlib.Core.WellFounded.{Acc, WellFounded, induction}
use native.Mathlib.Nat.{pow-suc, one-le-pow}
use native.Mathlib.Omega.{arith}

Acc-below : (k n : ℕ) → n < k → Acc ◌<◌ n
Acc-below zero n h = elim h [ ]
Acc-below (suc k) n h = Acc.intro n (λ m hm. Acc-below k m (omega arith))

pub lt_wf : WellFounded ◌<◌
lt_wf = record { apply = λ n. Acc-below (suc n) n (omega arith) }

-- The count of digits to go is only fuel: from the first number upwards it makes no difference.
module _ (rest : ℕ → ℕ) (op : ℕ → ℕ → ℕ) where
  fuel-irrelevant :
      (spare fuel a b : ℕ) → a ≤ fuel → digits rest op (fuel + spare) a b ≡ digits rest op fuel a b
  fuel-irrelevant spare zero zero b h = unspent spare
    where
      unspent : (n : ℕ) → digits rest op (0 + n) 0 b ≡ digits rest op 0 0 b
      unspent zero = refl
      unspent (suc n) = rw add.zero
  fuel-irrelevant spare zero (suc a) b h = absurd (omega arith)
  fuel-irrelevant spare (suc fuel) zero b h = rw add.suc
  fuel-irrelevant spare (suc fuel) (suc a) b h =
      rw add.suc (rw (fuel-irrelevant spare fuel (suc a / 2) (b / 2) (omega arith)))

  bitwise_digit :
      (a b : ℕ)
      → bitwise rest op (suc a) b ≡ bitwise rest op (suc a / 2) (b / 2) * 2 + op (suc a % 2) (b % 2)
  bitwise_digit a b =
      let half = suc a / 2 in
      let split : half + (a - half) ≡ a = omega arith in
      let same = fuel-irrelevant (a - half) half half (b / 2) (omega arith) in
      ap (λ (x : ℕ). x * 2 + op (suc a % 2) (b % 2)) (rw split at same)

pub zero-bit_xor : (n : ℕ) → bit_xor 0 n ≡ n
zero-bit_xor n = bit_xor-bitwise 0 n

pub bit_xor_step : (m n : ℕ) → bit_xor m n ≡ bit_xor (m / 2) (n / 2) * 2 + differ (m % 2) (n % 2)
bit_xor_step zero n = rw zero-bit_xor (simp zero-bit_xor (omega arith))
bit_xor_step (suc m) n = simp bit_xor-bitwise (bitwise_digit (λ y. y) differ m n)

pub bit_and_step : (m n : ℕ) → bit_and m n ≡ bit_and (m / 2) (n / 2) * 2 + min (m % 2) (n % 2)
bit_and_step zero n = simp bit_and-bitwise (omega arith)
bit_and_step (suc m) n = simp bit_and-bitwise (bitwise_digit (λ y. 0) min m n)

pub bit_or_step : (m n : ℕ) → bit_or m n ≡ bit_or (m / 2) (n / 2) * 2 + max (m % 2) (n % 2)
bit_or_step zero n = simp bit_or-bitwise (omega arith)
bit_or_step (suc m) n = simp bit_or-bitwise (bitwise_digit (λ y. y) max m n)

-- Exclusive or on single digits.
differ-lt : (x y : ℕ) → x < 2 → y < 2 → differ x y < 2
differ-lt zero y hx hy = hy
differ-lt (suc zero) zero hx hy = omega arith
differ-lt (suc zero) (suc zero) hx hy = omega arith
differ-lt (suc zero) (suc (suc y)) hx hy = absurd (omega arith)
differ-lt (suc (suc x)) y hx hy = absurd (omega arith)

differ-differ : (x y : ℕ) → x < 2 → y < 2 → differ x (differ x y) ≡ y
differ-differ zero y hx hy = refl
differ-differ (suc zero) zero hx hy = refl
differ-differ (suc zero) (suc zero) hx hy = refl
differ-differ (suc zero) (suc (suc y)) hx hy = absurd (omega arith)
differ-differ (suc (suc x)) y hx hy = absurd (omega arith)

-- The second use of a key takes the first one back.
bit_xor_cancel_step :
    (a : ℕ)
    → ((m : ℕ) → m < a → (b : ℕ) → bit_xor m (bit_xor m b) ≡ b)
    → (b : ℕ) → bit_xor a (bit_xor a b) ≡ b
bit_xor_cancel_step zero ih b = rw zero-bit_xor (zero-bit_xor b)
bit_xor_cancel_step (suc a) ih b =
    let d = differ (suc a % 2) (b % 2) in
    let x = bit_xor (suc a / 2) (b / 2) in
    let bit : d < 2 = differ-lt (suc a % 2) (b % 2) (omega arith) (omega arith) in
    let high : bit_xor (suc a) b / 2 ≡ x = omega (arith, bit_xor_step (suc a) b) in
    let low : bit_xor (suc a) b % 2 ≡ d = omega (arith, bit_xor_step (suc a) b) in
    rw (bit_xor_step (suc a) (bit_xor (suc a) b)) (
      rw (high, low)
        (rw
          (
            ih (suc a / 2) (omega arith) (b / 2),
            differ-differ (suc a % 2) (b % 2) (omega arith) (omega arith),
          )
          (omega arith)))

pub bit_xor_cancel : (a b : ℕ) → bit_xor a (bit_xor a b) ≡ b
bit_xor_cancel a =
    induction lt_wf {C = λ n. (b : ℕ) → bit_xor n (bit_xor n b) ≡ b} a bit_xor_cancel_step

pub bit_xor-lt : (k a b : ℕ) → a < 2 ^ k → b < 2 ^ k → bit_xor a b < 2 ^ k
bit_xor-lt zero zero zero ha hb = omega arith
bit_xor-lt zero zero (suc b) ha hb = absurd (omega arith)
bit_xor-lt zero (suc a) b ha hb = absurd (omega arith)
bit_xor-lt (suc k) a b ha hb = omega (
  arith,
  pow-suc 2 k,
  bit_xor_step a b,
  differ-lt (a % 2) (b % 2) (omega arith) (omega arith),
  bit_xor-lt k (a / 2) (b / 2) (omega (arith, pow-suc 2 k)) (omega (arith, pow-suc 2 k)),
)

bit_or-zero : (n a : ℕ) → a ≤ n → bit_or a 0 ≡ a
bit_or-zero zero zero h = refl
bit_or-zero zero (suc a) h = absurd (omega arith)
bit_or-zero (suc n) zero h = refl
bit_or-zero (suc n) (suc a) h =
    omega (arith, bit_or_step (suc a) 0, bit_or-zero n (suc a / 2) (omega arith))

bit_and-zero : (n a : ℕ) → a ≤ n → bit_and a 0 ≡ 0
bit_and-zero zero zero h = refl
bit_and-zero zero (suc a) h = absurd (omega arith)
bit_and-zero (suc n) zero h = refl
bit_and-zero (suc n) (suc a) h =
    omega (arith, bit_and_step (suc a) 0, bit_and-zero n (suc a / 2) (omega arith))

double_pow : (q k : ℕ) → q * 2 ^ suc k ≡ 2 * (q * 2 ^ k)
double_pow q k = omega (arith, ap (λ (t : ℕ). q * t) (pow-suc 2 k))

-- A number shifted past a field of `k` bits, or-ed with the field, is their sum.
pub bit_or_sum : (k q r : ℕ) → r < 2 ^ k → bit_or (q * 2 ^ k) r ≡ q * 2 ^ k + r
bit_or_sum zero q zero h = omega (arith, bit_or-zero (q * 1) (q * 1) (omega arith))
bit_or_sum zero q (suc r) h = absurd (omega arith)
bit_or_sum (suc k) q r h = rw (double_pow q k) (
    ground (
      arith,
      bit_or_step (2 * (q * 2 ^ k)) r,
      pow-suc 2 k,
      bit_or_sum k q (r / 2) (omega (arith, pow-suc 2 k)),
    ))

-- A mask of `k` ones is the remainder by `2 ^ k`.
pub bit_and_ones : (k a : ℕ) → bit_and a (2 ^ k - 1) ≡ a % 2 ^ k
bit_and_ones zero a = rw (bit_and-zero a a (omega arith)) (omega arith)
bit_and_ones (suc k) a =
    let p = 2 ^ k in
    let some_bit : 1 ≤ p = one-le-pow k 2 (omega arith) in
    let half : (p * 2 - 1) / 2 ≡ p - 1 = omega arith in
    let rest : a % (p * 2) ≡ a / 2 % p * 2 + a % 2 = grind arith in
    rw (pow-suc 2 k) (rw (bit_and_step a (p * 2 - 1), half, bit_and_ones k (a / 2)) (omega arith))
