-- ===== src/Prelude/Bytes.antt =====
-- Byte slices and Go strings, which are byte sequences too.
use Prim.Native.Char.{code}
use Prim.Native.String.{String}
use Prim.Native.Nat.{ℕ, ◌+◌, ◌*◌, ◌/◌, ◌%◌, ◌^◌, ◌<◌}
use mathlib.Core.Path.{◌≡◌, refl, subst, sym, ap, ◌∙◌}
use mathlib.Core.Logic.{◌↔◌, ◌≢◌}
use mathlib.Core.Bool.{Bool, true, false, ◌&&◌}
use mathlib.Core.List.{List, [], ◌∷◌, ◌++◌}
use native.Mathlib.Omega.{arith}
use hnb_blockchain.Prelude.Tests.{◌==◌}
use hnb_blockchain.Prelude.Lists.{length}

abbrev pub Bytes : Type 0
Bytes = List ℕ

-- The code points of a literal, its bytes when the text is ASCII.
abbrev pub codes : String → Bytes
codes String.[] = []
codes (String.◌∷◌ c s) = code c ∷ codes s

-- `bytes.Equal`, and `bytes.Compare(a, b) == 0`
unfoldable pub bytes_equal : Bytes → Bytes → Bool
bytes_equal [] [] = true
bytes_equal [] (y ∷ ys) = false
bytes_equal (x ∷ xs) [] = false
bytes_equal (x ∷ xs) (y ∷ ys) = (x == y) && bytes_equal xs ys

pub bytes_equal_refl : (a : Bytes) → bytes_equal a a ≡ true
unfolding bytes_equal
bytes_equal_refl [] = refl
bytes_equal_refl (x ∷ xs) = ground (arith, bytes_equal_refl xs)

pub bytes_equal_sound : (a b : Bytes) → bytes_equal a b ≡ true → a ≡ b
unfolding bytes_equal
bytes_equal_sound [] [] h = refl
bytes_equal_sound [] (y ∷ ys) h = cc
bytes_equal_sound (x ∷ xs) [] h = cc
bytes_equal_sound (x ∷ xs) (y ∷ ys) h = ground (arith, bytes_equal_sound xs ys)

pub bytes_equal_iff : (a b : Bytes) → (bytes_equal a b ≡ true) ↔ (a ≡ b)
bytes_equal_iff a b =
    (bytes_equal_sound a b, λ e. subst (λ c. bytes_equal a c ≡ true) e (bytes_equal_refl a))

-- Two strings with the same prefix are equal where their rests are.
pub bytes_equal_prefix : (p a b : Bytes) → bytes_equal (p ++ a) (p ++ b) ≡ bytes_equal a b
unfolding bytes_equal
bytes_equal_prefix [] a b = refl
bytes_equal_prefix (x ∷ p) a b = ground (arith, bytes_equal_prefix p a b)

pub bytes_differ : (a b : Bytes) → a ≢ b → bytes_equal a b ≡ false
bytes_differ a b h = ground (arith, bytes_equal_iff a b)

pub bytes_equal_sym_false : (a b : Bytes) → bytes_equal a b ≡ false → bytes_equal b a ≡ false
bytes_equal_sym_false a b h = ground (arith, bytes_equal_iff a b, bytes_equal_iff b a)

-- `binary.BigEndian.PutUint64`
unfoldable pub be64 : ℕ → Bytes
be64 n =
    n / 2 ^ 56 % 256
    ∷ n / 2 ^ 48 % 256
    ∷ n / 2 ^ 40 % 256
    ∷ n / 2 ^ 32 % 256
    ∷ n / 2 ^ 24 % 256
    ∷ n / 2 ^ 16 % 256
    ∷ n / 2 ^ 8 % 256
    ∷ n % 256
    ∷ []

-- `binary.BigEndian.Uint64`, over the bytes read so far.
unfoldable pub read_be : ℕ → Bytes → ℕ
read_be acc [] = acc
read_be acc (b ∷ bs) = read_be (acc * 256 + b) bs

pub read_be-be64 : (n : ℕ) → n < 2 ^ 64 → read_be 0 (be64 n) ≡ n
unfolding be64 read_be
read_be-be64 n h = omega arith

-- Different numbers of 64 bits have different bytes.
pub be64_injective : (m n : ℕ) → m < 2 ^ 64 → n < 2 ^ 64 → be64 m ≡ be64 n → m ≡ n
be64_injective m n hm hn e = sym (read_be-be64 m hm) ∙ ap (read_be 0) e ∙ read_be-be64 n hn

-- Strings that begin with two parts of one length are equal part by part.
pub bytes_equal_append :
    (p q a b : Bytes)
    → length p ≡ length q
    → bytes_equal (p ++ a) (q ++ b) ≡ bytes_equal p q && bytes_equal a b
unfolding bytes_equal
bytes_equal_append [] [] a b h = refl
bytes_equal_append [] (y ∷ q) a b h = absurd (omega (arith, h))
bytes_equal_append (x ∷ p) [] a b h = absurd (omega (arith, h))
bytes_equal_append (x ∷ p) (y ∷ q) a b h =
    ground (arith, bytes_equal_append p q a b (omega (arith, h)))
