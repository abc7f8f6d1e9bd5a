-- ===== src/Prelude/Bits.antt =====
-- The bits of a machine word: `test_bit`, and what `|`, `&` and the one-bit masks do to it.
use Prim.Native.Nat.{
  ℕ, zero, suc, ◌+◌, ◌-◌, ◌*◌, ◌/◌, ◌%◌, ◌^◌, ◌≤◌, ◌<◌, min, max, bit_and, bit_or, digits, bitwise,
  bit_and-bitwise, bit_or-bitwise,
}
use Prim.Native.Nat.add
use mathlib.Core.Path.{◌≡◌, refl, ap, subst}
use native.Mathlib.Omega.{arith}
use native.Mathlib.Nat.{pow-suc}
use rrrr.Prelude.Tests.{◌==◌, if◌then◌else◌}

-- Bit `k` of `a`, as 0 or 1.
unfoldable pub test_bit : ℕ → ℕ → ℕ
test_bit a zero = a % 2
test_bit a (suc k) = test_bit (a / 2) k

-- Any digit-wise operation, given by its digit table `f` and by `z` for an exhausted first number:
-- spare fuel does not matter, so that it splits into the lowest digit and the rest.
module _ (z : ℕ → ℕ) (f : ℕ → ℕ → ℕ) where
  digits-spare :
      (spare fuel x y : ℕ) → x ≤ fuel → digits z f (spare + fuel) x y ≡ digits z f fuel x y
  digits-spare zero fuel x y le = let e : 0 + fuel ≡ fuel = omega arith in rw e refl
  digits-spare (suc spare) zero zero y le =
      let e : suc spare + 0 ≡ suc spare = omega arith in rw e refl
  digits-spare (suc spare) zero (suc x) y le = absurd (omega arith)
  digits-spare (suc spare) (suc fuel) zero y le =
      let e : suc spare + suc fuel ≡ suc (spare + suc fuel) = omega arith in rw e refl
  digits-spare (suc spare) (suc fuel) (suc x) y le =
      let shorter : digits z f (suc spare + fuel) (suc x / 2) (y / 2)
          ≡ digits z f fuel (suc x / 2) (y / 2) =
        digits-spare (suc spare) fuel (suc x / 2) (y / 2) (omega arith) in
      let e : suc spare + suc fuel ≡ suc (suc spare + fuel) = omega arith in rw (e, shorter) refl

  bitwise-split :
      ((y : ℕ) → z y ≡ z (y / 2) * 2 + f 0 (y % 2))
      → (x y : ℕ) → bitwise z f x y ≡ bitwise z f (x / 2) (y / 2) * 2 + f (x % 2) (y % 2)
  bitwise-split table zero y = table y
  bitwise-split table (suc x) y =
      let half = suc x / 2 in
      let room : (x - half) + half ≡ x = omega arith in
      let e : digits z f x half (y / 2) ≡ digits z f half half (y / 2) =
        subst (λ n. digits z f n half (y / 2) ≡ digits z f half half (y / 2)) room
          (digits-spare (x - half) half half (y / 2) (omega arith)) in
      rw e refl

pub bit_and_step : (a b : ℕ) → bit_and a b ≡ bit_and (a / 2) (b / 2) * 2 + min (a % 2) (b % 2)
bit_and_step a b = omega (
  arith,
  bit_and-bitwise a b,
  bit_and-bitwise (a / 2) (b / 2),
  bitwise-split (λ _. 0) min (λ y. omega arith) a b,
)

pub bit_or_step : (a b : ℕ) → bit_or a b ≡ bit_or (a / 2) (b / 2) * 2 + max (a % 2) (b % 2)
bit_or_step a b = omega (
  arith,
  bit_or-bitwise a b,
  bit_or-bitwise (a / 2) (b / 2),
  bitwise-split (λ y. y) max (λ y. omega arith) a b,
)

pub test_bit-bit_or : (k a b : ℕ) → test_bit (bit_or a b) k ≡ max (test_bit a k) (test_bit b k)
unfolding test_bit
test_bit-bit_or zero a b = omega (arith, bit_or_step a b)
test_bit-bit_or (suc k) a b =
    let e : bit_or a b / 2 ≡ bit_or (a / 2) (b / 2) = omega (arith, bit_or_step a b) in
    rw e (test_bit-bit_or k (a / 2) (b / 2))

pub test_bit-bit_and : (k a b : ℕ) → test_bit (bit_and a b) k ≡ min (test_bit a k) (test_bit b k)
unfolding test_bit
test_bit-bit_and zero a b = omega (arith, bit_and_step a b)
test_bit-bit_and (suc k) a b =
    let e : bit_and a b / 2 ≡ bit_and (a / 2) (b / 2) = omega (arith, bit_and_step a b) in
    rw e (test_bit-bit_and k (a / 2) (b / 2))

pub test_bit-zero : (k : ℕ) → test_bit 0 k ≡ 0
unfolding test_bit
test_bit-zero zero = refl
test_bit-zero (suc k) = test_bit-zero k

pub test_bit-le-one : (k a : ℕ) → test_bit a k ≤ 1
unfolding test_bit
test_bit-le-one zero a = omega arith
test_bit-le-one (suc k) a = test_bit-le-one k (a / 2)

pow_half : (k : ℕ) → 2 ^ suc k / 2 ≡ 2 ^ k
pow_half k = omega (arith, pow-suc 2 k)

-- The mask `1 << k` has bit `k` and no other.
pub test_bit-pow : (k j : ℕ) → test_bit (2 ^ k) j ≡ (if k == j then 1 else 0)
unfolding test_bit
test_bit-pow zero zero = refl
test_bit-pow zero (suc j) = ground (arith, test_bit-zero j)
test_bit-pow (suc k) zero = ground (arith, pow-suc 2 k)
test_bit-pow (suc k) (suc j) = rw (pow_half k) (ground (arith, test_bit-pow k j))

-- `~m` in a word of `n` bits flips each of the `n` bits.
pub test_bit-complement :
    (n j m : ℕ) → m < 2 ^ n → j < n → test_bit (2 ^ n - 1 - m) j ≡ 1 - test_bit m j
unfolding test_bit
test_bit-complement zero j m h g = elim g [ ]
test_bit-complement (suc n) zero m h g = omega (arith, pow-suc 2 n)
test_bit-complement (suc n) (suc j) m h g =
    let e : (2 ^ suc n - 1 - m) / 2 ≡ 2 ^ n - 1 - m / 2 = omega (arith, pow-suc 2 n) in
    rw e (test_bit-complement n j (m / 2) (omega (arith, pow-suc 2 n)) (omega arith))

-- Nothing is left under the empty mask, by its bits.
halves_of_zero : (fuel x : ℕ) → x ≤ fuel → bit_and x 0 ≡ 0
halves_of_zero zero x le =
    omega (arith, bit_and-bitwise x 0, ap (λ (n : ℕ). bitwise (λ _. 0) min n 0) (gone x le))
  where
    gone : (n : ℕ) → n ≤ 0 → n ≡ 0
    gone n le = omega arith
halves_of_zero (suc fuel) x le =
    omega (arith, bit_and_step x 0, halves_of_zero fuel (x / 2) (omega arith))

-- Testing by a one-bit mask.
pub bit_and-pow : (k a : ℕ) → bit_and (2 ^ k) a ≡ test_bit a k * 2 ^ k
unfolding test_bit
bit_and-pow zero a = omega (arith, bit_and_step 1 a, bit_and-bitwise 0 (a / 2))
bit_and-pow (suc k) a =
    let e : bit_and (2 ^ suc k) a ≡ bit_and (2 ^ k) (a / 2) * 2 + min (2 ^ suc k % 2) (a % 2) =
      rw (← pow_half k) (bit_and_step (2 ^ suc k) a) in
    omega (
      arith,
      e,
      pow-suc 2 k,
      ap (λ (t : ℕ). test_bit (a / 2) k * t) (pow-suc 2 k),
      bit_and-pow k (a / 2),
    )

pub bit_and-pow' : (k a : ℕ) → bit_and a (2 ^ k) ≡ test_bit a k * 2 ^ k
unfolding test_bit
bit_and-pow' zero a = omega (arith, bit_and_step a 1, halves_of_zero (a / 2) (a / 2) (omega arith))
bit_and-pow' (suc k) a =
    let e : bit_and a (2 ^ suc k) ≡ bit_and (a / 2) (2 ^ k) * 2 + min (a % 2) (2 ^ suc k % 2) =
      rw (← pow_half k) (bit_and_step a (2 ^ suc k)) in
    omega (
      arith,
      e,
      pow-suc 2 k,
      ap (λ (t : ℕ). test_bit (a / 2) k * t) (pow-suc 2 k),
      bit_and-pow' k (a / 2),
    )

pub one-le-pow : (k : ℕ) → 1 ≤ 2 ^ k
one-le-pow zero = omega arith
one-le-pow (suc k) = omega (arith, pow-suc 2 k, one-le-pow k)

pub pow_le_mono : (k d : ℕ) → 2 ^ k ≤ 2 ^ (d + k)
pow_le_mono k zero = rw (add.zero k) (omega arith)
pow_le_mono k (suc d) = rw (add.suc d k) (omega (arith, pow-suc 2 (d + k), pow_le_mono k d))
