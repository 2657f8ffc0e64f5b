-- ===== src/Base/Bits.antt =====
-- Flag words: tests of single bits, and how `&` and `|` act on each bit.
mod Step
pub mod Laws
use Step.{bit_or_step, bit_and_step}
use Prim.Native.Nat.{ℕ, zero, suc, ◌+◌, ◌-◌, ◌*◌, ◌/◌, ◌%◌, ◌^◌, ◌<◌, bit_and, bit_or, bit_xor}
use mathlib.Core.Path.{◌≡◌, refl}
use mathlib.Core.Bool.{Bool, true, false, ◌&&◌, ◌||◌, not}
use native.Mathlib.Nat.{pow-suc}
use native.Mathlib.Omega.{arith}
use linux_vfs.Base.Tests.{◌==◌, if◌then◌else◌}

-- Whether bit `k` of `x` is set.
unfoldable pub bit : ℕ → ℕ → Bool
bit x zero = x % 2 == 1
bit x (suc k) = bit (x / 2) k

-- `x & m` as a condition.
unfoldable pub test : ℕ → ℕ → Bool
test x m = not (bit_and x m == 0)

-- `x & ~m` on a 32-bit word.
unfoldable pub clear : ℕ → ℕ → ℕ
clear x m = bit_and x (bit_xor 0xffff_ffff m)

-- `if (b) mode |= m`.
abbrev pub set_if : Bool → ℕ → ℕ → ℕ
set_if b m mode = if b then bit_or mode m else mode

pub bit-or : (k x y : ℕ) → bit (bit_or x y) k ≡ (bit x k || bit y k)
unfolding bit
bit-or zero x y = ground (arith, bit_or_step x y)
bit-or (suc k) x y = ground (arith, bit_or_step x y, bit-or k (x / 2) (y / 2), half)
  where
    half : bit_or x y / 2 ≡ bit_or (x / 2) (y / 2)
    half = omega (arith, bit_or_step x y)

pub bit-and : (k x y : ℕ) → bit (bit_and x y) k ≡ (bit x k && bit y k)
unfolding bit
bit-and zero x y = ground (arith, bit_and_step x y)
bit-and (suc k) x y = ground (arith, bit_and_step x y, bit-and k (x / 2) (y / 2), half)
  where
    half : bit_and x y / 2 ≡ bit_and (x / 2) (y / 2)
    half = omega (arith, bit_and_step x y)
