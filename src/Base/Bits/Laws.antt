-- ===== src/Base/Bits/Laws.antt =====
-- `&` and `|` as a Boolean algebra, and masks of one or two bits.
use Prim.Native.Nat.{
  ℕ, zero, suc, ◌+◌, ◌*◌, ◌%◌, min, ◌/◌, ◌^◌, ◌≤◌, bit_and, bit_or, bit_and-bitwise, bit_or-bitwise,
  bit_xor,
}
use mathlib.Core.Path.{◌≡◌, refl, ◌∙◌}
use mathlib.Core.Bool.{Bool, false, not, ◌||◌}
use native.Mathlib.Nat.{pow-suc, one-le-pow}
use native.Mathlib.Omega.{arith}
use linux_vfs.Base.Tests.{if◌then◌else◌}
use linux_vfs.Base.Bits.Step.{bit_or_step, bit_and_step}
use linux_vfs.Base.Bits.{bit, test, clear, set_if, bit-or, bit-and}

zero-bit_and : (b : ℕ) → bit_and 0 b ≡ 0
zero-bit_and b = bit_and-bitwise 0 b

zero-bit_or : (b : ℕ) → bit_or 0 b ≡ b
zero-bit_or b = bit_or-bitwise 0 b

-- Each law by recursion on a bound for the number.
and_assoc_below : (n a b c : ℕ) → a ≤ n → bit_and (bit_and a b) c ≡ bit_and a (bit_and b c)
and_assoc_below n zero b c h = rw (zero-bit_and b, zero-bit_and c, zero-bit_and (bit_and b c)) refl
and_assoc_below zero (suc a) b c h = absurd (omega arith)
and_assoc_below (suc n) (suc a) b c h = ground (
  arith,
  bit_and_step (suc a) b,
  bit_and_step b c,
  bit_and_step (bit_and (suc a) b) c,
  bit_and_step (suc a) (bit_and b c),
  and_assoc_below n (suc a / 2) (b / 2) (c / 2) (omega arith),
  left,
  right,
)
  where
    left : bit_and (suc a) b / 2 ≡ bit_and (suc a / 2) (b / 2)
    left = omega (arith, bit_and_step (suc a) b)

    right : bit_and b c / 2 ≡ bit_and (b / 2) (c / 2)
    right = omega (arith, bit_and_step b c)

pub bit_and_assoc : (a b c : ℕ) → bit_and (bit_and a b) c ≡ bit_and a (bit_and b c)
bit_and_assoc a b c = and_assoc_below a a b c (omega arith)

and_zero_below : (n a : ℕ) → a ≤ n → bit_and a 0 ≡ 0
and_zero_below n zero h = refl
and_zero_below zero (suc a) h = absurd (omega arith)
and_zero_below (suc n) (suc a) h =
    omega (arith, bit_and_step (suc a) 0, and_zero_below n (suc a / 2) (omega arith))

pub bit_and-zero : (a : ℕ) → bit_and a 0 ≡ 0
bit_and-zero a = and_zero_below a a (omega arith)

and_or_below : (n x a b : ℕ) → x ≤ n → bit_and x (bit_or a b) ≡ bit_or (bit_and x a) (bit_and x b)
and_or_below n zero a b h = rw (zero-bit_and (bit_or a b), zero-bit_and a, zero-bit_and b) refl
and_or_below zero (suc x) a b h = absurd (omega arith)
and_or_below (suc n) (suc x) a b h = ground (
  arith,
  bit_or_step a b,
  bit_and_step (suc x) a,
  bit_and_step (suc x) b,
  bit_and_step (suc x) (bit_or a b),
  bit_or_step (bit_and (suc x) a) (bit_and (suc x) b),
  and_or_below n (suc x / 2) (a / 2) (b / 2) (omega arith),
  or_half,
  half a,
  half b,
)
  where
    or_half : bit_or a b / 2 ≡ bit_or (a / 2) (b / 2)
    or_half = omega (arith, bit_or_step a b)

    half : (y : ℕ) → bit_and (suc x) y / 2 ≡ bit_and (suc x / 2) (y / 2)
    half y = omega (arith, bit_and_step (suc x) y)

pub bit_and-or : (x a b : ℕ) → bit_and x (bit_or a b) ≡ bit_or (bit_and x a) (bit_and x b)
bit_and-or x a b = and_or_below x x a b (omega arith)

-- A mask of one bit.
pub bit_and-pow : (k x : ℕ) → bit_and x (2 ^ k) ≡ (if bit x k then 2 ^ k else 0)
unfolding bit
bit_and-pow zero x = ground (arith, bit_and_step x 1, bit_and-zero (x / 2))
bit_and-pow (suc k) x =
    ground (arith, pow-suc 2 k, bit_and_step x (2 ^ suc k), bit_and-pow k (x / 2))

-- A test of one bit.
pub test-pow : (k x : ℕ) → test x (2 ^ k) ≡ bit x k
unfolding test
test-pow k x = ground (arith, bit_and-pow k x, one-le-pow k 2)

-- A mask within another mask: `(x & m) & ~m` is empty, whatever `x` is.
pub test-masked : (x m n : ℕ) → bit_and m n ≡ 0 → test (bit_and x m) n ≡ false
unfolding test
test-masked x m n e = rw (bit_and_assoc x m n, e, bit_and-zero x) refl

and_comm_below : (n a b : ℕ) → a ≤ n → bit_and a b ≡ bit_and b a
and_comm_below n zero b h = rw (zero-bit_and b, bit_and-zero b) refl
and_comm_below zero (suc a) b h = absurd (omega arith)
and_comm_below (suc n) (suc a) b h = omega (
  arith,
  bit_and_step (suc a) b,
  bit_and_step b (suc a),
  and_comm_below n (suc a / 2) (b / 2) (omega arith),
)

pub bit_and_comm : (a b : ℕ) → bit_and a b ≡ bit_and b a
bit_and_comm a b = and_comm_below a a b (omega arith)

-- A field of a word that was cleared and set reads as what was set.
pub field_set :
    (x m k t : ℕ) → bit_and k m ≡ 0 → bit_and t m ≡ t → bit_and (bit_or (bit_and x k) t) m ≡ t
field_set x m k t e f =
    rw
      (
        bit_and_comm (bit_or (bit_and x k) t) m,
        bit_and-or m (bit_and x k) t,
        bit_and_comm m (bit_and x k),
        bit_and_assoc x k m,
        e,
        bit_and-zero x,
        bit_and_comm m t,
        f,
      )
      (zero-bit_or t)

-- Setting a field that is empty.
pub field_or : (x m t : ℕ) → bit_and x m ≡ 0 → bit_and t m ≡ t → bit_and (bit_or x t) m ≡ t
field_or x m t e f =
    rw (bit_and_comm (bit_or x t) m, bit_and-or m x t, bit_and_comm m x, e, bit_and_comm m t, f)
      (zero-bit_or t)

-- The bits of a word with some bits set under a test, and of one with some cleared. On a mask that is
-- a literal the right sides compute.
pub bit-set_if :
    (b : Bool) (m mode k : ℕ)
    → bit (set_if b m mode) k ≡ (if bit m k then bit mode k || b else bit mode k)
bit-set_if b m mode k = ground (arith, bit-or k mode m)

pub bit-clear :
    (x m k : ℕ)
    → bit (bit_xor 0xffff_ffff m) k ≡ not (bit m k)
    → bit (clear x m) k ≡ (if bit m k then false else bit x k)
unfolding clear
bit-clear x m k e = ground (arith, bit-and k x (bit_xor 0xffff_ffff m), e)

mask_step : (x m : ℕ) → bit_and x (2 * m + 1) ≡ bit_and (x / 2) m * 2 + x % 2
mask_step x m =
    let half : (2 * m + 1) / 2 ≡ m = omega arith in
    let odd : (2 * m + 1) % 2 ≡ 1 = omega arith in
    let bit : min (x % 2) 1 ≡ x % 2 = ground arith in
    bit_and_step x (2 * m + 1) ∙ rw (half, odd, bit) refl

-- A mask of the low four bits.
pub bit_and-low : (x : ℕ) → bit_and x 15 ≡ x % 16
bit_and-low x =
    let a = mask_step x 7 in
    let b = mask_step (x / 2) 3 in
    let c = mask_step (x / 2 / 2) 1 in
    let d = mask_step (x / 2 / 2 / 2) 0 in
    let z = bit_and-zero (x / 2 / 2 / 2 / 2) in omega (arith, a, b, c, d, z)
