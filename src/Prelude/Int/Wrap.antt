-- ===== src/Prelude/Int/Wrap.antt =====
-- `int64` addition is addition of the lowest 64 bits, so it is associative and commutative also
-- where it overflows.
use Prim.Native.Nat.{ℕ, ◌+◌, ◌-◌, ◌*◌, ◌%◌, ◌^◌, ◌<◌}
use mathlib.Core.Path.{◌≡◌, refl, ap, sym, ◌∙◌}
use native.Mathlib.Omega.{arith}
use hnb_blockchain.Prelude.Tests.{ltb, if◌then◌else◌}
use hnb_blockchain.Prelude.Int.{ℤ, pos, negsuc, pos_part, neg_part, ◌+ℤ◌, +ℤ_parts, wrap64, add64}

-- The lowest 64 bits.
pub bits : ℤ → ℕ
bits a = (pos_part a + (2 ^ 64 - 1) * neg_part a) % 2 ^ 64

of_bits : ℕ → ℤ
of_bits b = if ltb b (2 ^ 63) then pos b else negsuc (2 ^ 64 - 1 - b)

wrap64-eq : (a : ℤ) → wrap64 a ≡ of_bits (bits a)
unfolding wrap64 of_bits bits
wrap64-eq a = refl

bits-of_bits : (b : ℕ) → b < 2 ^ 64 → bits (of_bits b) ≡ b
unfolding of_bits bits
bits-of_bits b h = ground arith

bits-lt : (a : ℤ) → bits a < 2 ^ 64
unfolding bits
bits-lt a = omega arith

bits-wrap64 : (a : ℤ) → bits (wrap64 a) ≡ bits a
bits-wrap64 a = ap bits (wrap64-eq a) ∙ bits-of_bits (bits a) (bits-lt a)

bits-add : (a b : ℤ) → bits (a +ℤ b) ≡ (bits a + bits b) % 2 ^ 64
unfolding bits
bits-add a b = omega (arith, +ℤ_parts a b)

pub bits-add64 : (a b : ℤ) → bits (add64 a b) ≡ (bits a + bits b) % 2 ^ 64
unfolding add64
bits-add64 a b = bits-wrap64 (a +ℤ b) ∙ bits-add a b

-- Two `int64` results with the same bits are equal.
pub add64-eq_of_bits : (a b c d : ℤ) → bits (a +ℤ b) ≡ bits (c +ℤ d) → add64 a b ≡ add64 c d
unfolding add64
add64-eq_of_bits a b c d h = wrap64-eq (a +ℤ b) ∙ ap of_bits h ∙ sym (wrap64-eq (c +ℤ d))

pub add64_assoc : (a b c : ℤ) → add64 (add64 a b) c ≡ add64 a (add64 b c)
add64_assoc a b c =
    add64-eq_of_bits (add64 a b) c a (add64 b c) (
      omega (arith, bits-add (add64 a b) c, bits-add a (add64 b c), bits-add64 a b, bits-add64 b c))

pub add64_comm : (a b : ℤ) → add64 a b ≡ add64 b a
add64_comm a b = add64-eq_of_bits a b b a (omega (arith, bits-add a b, bits-add b a))

bits-zero : bits (pos 0) ≡ 0
unfolding bits
bits-zero = refl

pub add64_zero : (s p : ℤ) → add64 s (add64 (pos 0) p) ≡ add64 s p
add64_zero s p = add64-eq_of_bits s (add64 (pos 0) p) s p (
    omega (
      arith,
      bits-add s (add64 (pos 0) p),
      bits-add s p,
      bits-add64 (pos 0) p,
      bits-zero,
      bits-lt p,
    ))
