-- ===== src/Base/Bits.antt =====
-- Laws of the native bit operations at variables, by the recursion on the lowest digit.
use Prim.Native.Nat.{
  ℕ, zero, suc, ◌+◌, ◌-◌, ◌*◌, ◌/◌, ◌%◌, ◌^◌, ◌≤◌, ◌<◌, min, max, bit_and, bit_or, bit_xor, differ,
  digits, bitwise, bit_and-bitwise, bit_or-bitwise, bit_xor-bitwise,
}
use mathlib.Core.Path.{◌≡◌, refl, sym, ap, ◌∙◌}
use mathlib.Core.Bool.{Bool, true, ◌&&◌}
use native.Mathlib.Nat.{pow-suc, pow-succ', one-le-pow, div-div-eq-div-mul}
use native.Mathlib.Omega.{arith}

module _ (rest : ℕ → ℕ) (join : ℕ → ℕ → ℕ) where
  digits_enough : (n m x y : ℕ) → x ≤ n → x ≤ m → digits rest join n x y ≡ digits rest join m x y
  digits_enough zero zero x y p q = refl
  digits_enough zero (suc m) zero y p q = refl
  digits_enough zero (suc m) (suc x) y p q = absurd (omega arith)
  digits_enough (suc n) zero zero y p q = refl
  digits_enough (suc n) zero (suc x) y p q = absurd (omega arith)
  digits_enough (suc n) (suc m) zero y p q = refl
  digits_enough (suc n) (suc m) (suc x) y p q =
      rw (digits_enough n m (suc x / 2) (y / 2) (omega arith) (omega arith))

  bitwise_next :
      (x y : ℕ)
      → bitwise rest join (suc x) y
        ≡ 2 * bitwise rest join (suc x / 2) (y / 2) + join (suc x % 2) (y % 2)
  bitwise_next x y =
      let half = suc x / 2 in
      omega (arith, digits_enough x half half (y / 2) (omega arith) (omega arith))

-- The lowest digit of each operation, and the rest.
bit_and_halves : (x y : ℕ) → bit_and x y ≡ 2 * bit_and (x / 2) (y / 2) + min (x % 2) (y % 2)
bit_and_halves (suc x) y = simp bit_and-bitwise (bitwise_next (λ _. 0) min x y)
bit_and_halves zero y = simp bit_and-bitwise (omega arith)

pub bit_or_halves : (x y : ℕ) → bit_or x y ≡ 2 * bit_or (x / 2) (y / 2) + max (x % 2) (y % 2)
bit_or_halves (suc x) y = simp bit_or-bitwise (bitwise_next (λ t. t) max x y)
bit_or_halves zero y = simp bit_or-bitwise (omega arith)

differ_digits : (x y : ℕ) → x < 2 → y < 2 → differ x y ≡ (x + y) % 2
differ_digits zero zero h k = refl
differ_digits zero (suc zero) h k = refl
differ_digits (suc zero) zero h k = refl
differ_digits (suc zero) (suc zero) h k = refl
differ_digits zero (suc (suc y)) h k = absurd (omega arith)
differ_digits (suc zero) (suc (suc y)) h k = absurd (omega arith)
differ_digits (suc (suc x)) y h k = absurd (omega arith)

zero-bit_xor : (b : ℕ) → bit_xor 0 b ≡ b
zero-bit_xor b = bit_xor-bitwise 0 b

bit_xor_halves : (a b : ℕ) → bit_xor a b ≡ 2 * bit_xor (a / 2) (b / 2) + (a % 2 + b % 2) % 2
bit_xor_halves zero b = omega (arith, zero-bit_xor b, zero-bit_xor (b / 2))
bit_xor_halves (suc a) b = simp bit_xor-bitwise (
    omega (
      arith,
      bitwise_next (λ y. y) differ a b,
      differ_digits (suc a % 2) (b % 2) (omega arith) (omega arith),
    ))

-- The digit of weight 2 ^ k.
abbrev pub bit_at : ℕ → ℕ → ℕ
bit_at x k = x / 2 ^ k % 2

half-two-pow-suc : (k : ℕ) → (2 ^ suc k / 2 ≡ 2 ^ k) × (2 ^ suc k % 2 ≡ 0)
half-two-pow-suc k = (omega (arith, pow-suc 2 k), omega (arith, pow-suc 2 k))

pub shift-suc : (x k : ℕ) → x / 2 ^ suc k ≡ x / 2 / 2 ^ k
shift-suc x k = rw (div-div-eq-div-mul x 2 (2 ^ k), ← pow-succ' 2 k)

-- The digit of weight 2 ^ (k + 1) is the digit of weight 2 ^ k of the half.
pub bit_at-suc : (x k : ℕ) → bit_at x (suc k) ≡ bit_at (x / 2) k
bit_at-suc x k = ap (λ t. t % 2) (shift-suc x k)

and_zero_fuel : (n a : ℕ) → a ≤ n → bit_and a 0 ≡ 0
and_zero_fuel n zero h = refl
and_zero_fuel zero (suc a) h = absurd (omega arith)
and_zero_fuel (suc n) (suc a) h =
    omega (arith, bit_and_halves (suc a) 0, and_zero_fuel n (suc a / 2) (omega arith))

bit_and-zero : (a : ℕ) → bit_and a 0 ≡ 0
bit_and-zero a = and_zero_fuel a a (omega arith)

or_zero_fuel : (n a : ℕ) → a ≤ n → bit_or a 0 ≡ a
or_zero_fuel n zero h = refl
or_zero_fuel zero (suc a) h = absurd (omega arith)
or_zero_fuel (suc n) (suc a) h =
    omega (arith, bit_or_halves (suc a) 0, or_zero_fuel n (suc a / 2) (omega arith))

bit_or-zero : (a : ℕ) → bit_or a 0 ≡ a
bit_or-zero a = or_zero_fuel a a (omega arith)

-- A mask of one bit keeps that digit in its place.
pub bit_and_bit : (k a : ℕ) → bit_and a (2 ^ k) ≡ bit_at a k * 2 ^ k
bit_and_bit zero a = omega (arith, bit_and_halves a 1, bit_and-zero (a / 2))
bit_and_bit (suc k) a = ground (
  arith,
  bit_and_halves a (2 ^ suc k),
  half-two-pow-suc k,
  bit_and_bit k (a / 2),
  bit_at-suc a k,
  ap (λ (t : ℕ). bit_at (a / 2) k * t) (pow-suc 2 k),
)

pub bit_at-bit_and : (k a b : ℕ) → bit_at (bit_and a b) k ≡ min (bit_at a k) (bit_at b k)
bit_at-bit_and zero a b = omega (arith, bit_and_halves a b)
bit_at-bit_and (suc k) a b =
    rw
      (
        bit_at-suc (bit_and a b) k,
        bit_at-suc a k,
        bit_at-suc b k,
        ← bit_at-bit_and k (a / 2) (b / 2),
      )
      (ap (λ t. bit_at t k) (omega (arith, bit_and_halves a b)))

pub bit_at-bit_or : (k a b : ℕ) → bit_at (bit_or a b) k ≡ max (bit_at a k) (bit_at b k)
bit_at-bit_or zero a b = omega (arith, bit_or_halves a b)
bit_at-bit_or (suc k) a b =
    rw
      (bit_at-suc (bit_or a b) k, bit_at-suc a k, bit_at-suc b k, ← bit_at-bit_or k (a / 2) (b / 2))
      (ap (λ t. bit_at t k) (omega (arith, bit_or_halves a b)))

pub bit_at-bit_xor : (k a b : ℕ) → bit_at (bit_xor a b) k ≡ (bit_at a k + bit_at b k) % 2
bit_at-bit_xor zero a b = omega (arith, bit_xor_halves a b)
bit_at-bit_xor (suc k) a b =
    rw
      (
        bit_at-suc (bit_xor a b) k,
        bit_at-suc a k,
        bit_at-suc b k,
        ← bit_at-bit_xor k (a / 2) (b / 2),
      )
      (ap (λ t. bit_at t k) (omega (arith, bit_xor_halves a b)))

-- `(q << k) | r` is a sum when `r` fits `k` bits.
pub bit_or_fields : (k hi lo : ℕ) → lo < 2 ^ k → bit_or (hi * 2 ^ k) lo ≡ hi * 2 ^ k + lo
bit_or_fields zero hi lo fits = ground (arith, bit_or-zero hi)
bit_or_fields (suc k) hi lo fits = ground (
  arith,
  bit_or_halves (hi * 2 ^ suc k) lo,
  ap (λ (t : ℕ). hi * t) (pow-suc 2 k),
  pow-suc 2 k,
  bit_or_fields k hi (lo / 2),
)

and_low_fields : (k hi lo : ℕ) → lo < 2 ^ k → bit_and (hi * 2 ^ k + lo) (2 ^ k - 1) ≡ lo
and_low_fields zero hi lo fits = rw bit_and-zero (omega arith)
and_low_fields (suc k) hi lo fits = ground (
  arith,
  bit_and_halves (hi * 2 ^ suc k + lo) (2 ^ suc k - 1),
  ap (λ (t : ℕ). hi * t) (pow-suc 2 k),
  pow-suc 2 k,
  one-le-pow k 2,
  and_low_fields k hi (lo / 2),
)

-- A mask of the `k` low bits is the remainder by 2 ^ k.
pub bit_and_mask : (k a : ℕ) → bit_and a (2 ^ k - 1) ≡ a % 2 ^ k
bit_and_mask k a = ground (arith, one-le-pow k 2, and_low_fields k (a / 2 ^ k) (a % 2 ^ k))

-- A Boolean test on every number below a bound, which is checked by evaluation.
unfoldable pub every_below : (ℕ → Bool) → ℕ → Bool
every_below test zero = true
every_below test (suc k) = every_below test k && test k

pub every_below-holds :
    (test : ℕ → Bool) (bound i : ℕ) → i < bound → every_below test bound ≡ true → test i ≡ true
unfolding every_below
every_below-holds test (suc k) i h e = ground (arith, every_below-holds test k i)
every_below-holds test zero i h e = absurd (omega arith)

or_comm_fuel : (n a b : ℕ) → a + b ≤ n → bit_or a b ≡ bit_or b a
or_comm_fuel zero zero zero h = refl
or_comm_fuel zero (suc a) b h = absurd (omega arith)
or_comm_fuel zero zero (suc b) h = absurd (omega arith)
or_comm_fuel (suc n) a b h =
    ground (arith, bit_or_halves a b, bit_or_halves b a, or_comm_fuel n (a / 2) (b / 2))

pub bit_or_comm : (a b : ℕ) → bit_or a b ≡ bit_or b a
bit_or_comm a b = or_comm_fuel (a + b) a b (omega arith)

-- A mask that is shifted left.
pub bit_and_shifted : (k a m : ℕ) → bit_and a (m * 2 ^ k) ≡ bit_and (a / 2 ^ k) m * 2 ^ k
bit_and_shifted zero a m =
    let unit : m * 2 ^ 0 ≡ m = omega arith in
    let whole : a / 2 ^ 0 ≡ a = omega arith in rw (unit, whole) (omega arith)
bit_and_shifted (suc k) a m =
    let double : m * 2 ^ suc k ≡ m * 2 ^ k * 2 =
      ground (arith, ap (λ (t : ℕ). m * t) (pow-suc 2 k)) in
    let next = bit_and_halves a (m * 2 ^ suc k) in
    let half : m * 2 ^ suc k / 2 ≡ m * 2 ^ k = omega (arith, double) in
    let rest : bit_and a (m * 2 ^ suc k) ≡ bit_and (a / 2 / 2 ^ k) m * 2 ^ k * 2 =
      ground (arith, next, double, ap (λ t. bit_and (a / 2) t) half, bit_and_shifted k (a / 2) m) in
    let back : bit_and (a / 2 / 2 ^ k) m * 2 ^ suc k ≡ bit_and (a / 2 / 2 ^ k) m * 2 ^ k * 2 =
      ground (arith, ap (λ (t : ℕ). bit_and (a / 2 / 2 ^ k) m * t) (pow-suc 2 k)) in
    rw (shift-suc a k) (rest ∙ sym back)
