-- ===== src/Base/Bits/Step.antt =====
-- `&` and `|` peel off the lowest bit. The native operations run on fuel; adding to it is harmless.
use Prim.Native.Nat.{
  ℕ, zero, suc, ◌+◌, ◌-◌, ◌*◌, ◌/◌, ◌%◌, ◌≤◌, min, max, digits, bitwise, bit_and, bit_or,
  bit_and-bitwise, bit_or-bitwise,
}
use mathlib.Core.Path.{◌≡◌, refl, ap, ◌∙◌}
use native.Mathlib.Omega.{arith}

-- Values of one digit: `low` where the first number has run out, `mix` where it has not.
module _ (low : ℕ → ℕ) (mix : ℕ → ℕ → ℕ) where
  one_more : (fuel x y : ℕ) → x ≤ fuel → digits low mix (suc fuel) x y ≡ digits low mix fuel x y
  one_more zero zero y h = refl
  one_more zero (suc x) y h = absurd (omega arith)
  one_more (suc fuel) zero y h = refl
  one_more (suc fuel) (suc x) y h =
      ap (λ (r : ℕ). r * 2 + mix (suc x % 2) (y % 2))
        (one_more fuel (suc x / 2) (y / 2) (omega arith))

  with_spare :
      (spare fuel total x y : ℕ)
      → x ≤ fuel
      → total ≡ spare + fuel
      → digits low mix total x y ≡ digits low mix fuel x y
  with_spare zero fuel total x y h e = ap (λ (n : ℕ). digits low mix n x y) (omega arith)
  with_spare (suc spare) fuel zero x y h e = absurd (omega arith)
  with_spare (suc spare) fuel (suc total) x y h e =
      one_more total x y (omega arith) ∙ with_spare spare fuel total x y h (omega arith)

  lowest_digit :
      (x y : ℕ)
      → bitwise low mix (suc x) y
        ≡ bitwise low mix (suc x / 2) (y / 2) * 2 + mix (suc x % 2) (y % 2)
  lowest_digit x y =
      let half = suc x / 2 in
      ap (λ (r : ℕ). r * 2 + mix (suc x % 2) (y % 2))
        (with_spare (x - half) half x half (y / 2) (omega arith) (omega arith))

pub bit_or_step : (x y : ℕ) → bit_or x y ≡ bit_or (x / 2) (y / 2) * 2 + max (x % 2) (y % 2)
bit_or_step zero y = simp bit_or-bitwise (omega arith)
bit_or_step (suc x) y = simp bit_or-bitwise (lowest_digit (λ r. r) max x y)

pub bit_and_step : (x y : ℕ) → bit_and x y ≡ bit_and (x / 2) (y / 2) * 2 + min (x % 2) (y % 2)
bit_and_step zero y = simp bit_and-bitwise (omega arith)
bit_and_step (suc x) y = simp bit_and-bitwise (lowest_digit (λ r. 0) min x y)
