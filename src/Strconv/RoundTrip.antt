-- ===== src/Strconv/RoundTrip.antt =====
-- What is written by `FormatInt` is read back by `ParseInt`.
use native.Mathlib.Nat.{pow-suc}
use hnb_blockchain.Prelude.{
  ℕ, zero, suc, ◌+◌, ◌*◌, ◌/◌, ◌%◌, ◌^◌, ◌≤◌, ◌<◌, ◌≡◌, refl, ◌∙◌, ap, [], ◌∷◌, true, arith, inl,
  inr, ltb, Bool-cases, ◌≢◌, lt→ltb, ltb→lt,
}
use hnb_blockchain.Prelude.Int.{ℤ, pos, negsuc, Int64}
use hnb_blockchain.Prelude.Bytes.{Bytes}
use hnb_blockchain.Prelude.Result.{ok}
use hnb_blockchain.Strconv.{
  digits, format_uint, format_int, value, scan, parse_uint, positive, negative, parse_int,
  parse_int_checked, parse_uint_checked, scanned, checked,
}

scan-digit :
    (n d : ℕ) (s : Bytes)
    → d < 10
    → n * 10 + d < 2 ^ 64
    → scan ((b'0' + d) ∷ s) n ≡ scan s (n * 10 + d)
unfolding scan
scan-digit n d s h b = ground arith

scan-nil : (n : ℕ) → scan [] n ≡ value n
unfolding scan
scan-nil n = refl

last_digit : (n : ℕ) (out : Bytes) → n < 10 → scan ((b'0' + n % 10) ∷ out) 0 ≡ scan out n
last_digit n out h =
    scan-digit 0 (n % 10) out (omega arith) (omega arith) ∙ ap (scan out) (omega arith)

-- Enough rounds write all the digits, and scanning them gives the number back.
scan-digits :
    (f n : ℕ) (out : Bytes)
    → n < 10 ^ suc f
    → n < 2 ^ 64
    → scan (digits (suc f) n out) 0 ≡ scan out n
unfolding digits
scan-digits zero n out h b = rw (lt→ltb n 10 (omega arith)) (last_digit n out (omega arith))
scan-digits (suc f) n out h b = elim (Bool-cases (ltb n 10)) [
  | inl small ↦ rw small (last_digit n out (ltb→lt n 10 small))
  | inr large ↦ rw large (
      scan-digits f (n / 10) ((b'0' + n % 10) ∷ out) (omega (arith, pow-suc 10 (suc f)))
        (omega arith)
      ∙ scan-digit (n / 10) (n % 10) out (omega arith) (omega arith)
      ∙ ap (scan out) (omega arith))
]

digits-nonempty : (f n : ℕ) (out : Bytes) → digits (suc f) n out ≢ []
unfolding digits
digits-nonempty zero n out = ground arith
digits-nonempty (suc f) n out = ground (arith, digits-nonempty f (n / 10) ((b'0' + n % 10) ∷ out))

parse_uint-eq-scan : (s : Bytes) → s ≢ [] → parse_uint s ≡ scan s 0
unfolding parse_uint
parse_uint-eq-scan [] h = absurd (h refl)
parse_uint-eq-scan (c ∷ s) h = refl

parse_uint-format_uint : (n : ℕ) → n < 2 ^ 64 → parse_uint (format_uint n) ≡ value n
unfolding format_uint
parse_uint-format_uint n h =
    parse_uint-eq-scan (digits 20 n []) (digits-nonempty 19 n [])
    ∙ scan-digits 19 n [] (omega arith) h
    ∙ scan-nil n

-- The first character of a number is a digit, so no sign.
digits_head :
    (f n d : ℕ) (out : Bytes)
    → d < 10
    → (c : ℕ) × (rest : Bytes) × (digits f n ((b'0' + d) ∷ out) ≡ c ∷ rest) × (b'0' ≤ c)
unfolding digits
digits_head zero n d out h = (b'0' + d, out, refl, omega arith)
digits_head (suc f) n d out h = elim (Bool-cases (ltb n 10)) [
  | inl small ↦ (b'0' + n % 10, (b'0' + d) ∷ out, rw small, omega arith)
  | inr large ↦ rw large (digits_head f (n / 10) (n % 10) ((b'0' + d) ∷ out) (omega arith))
]

digits_first : (f n : ℕ) → (c : ℕ) × (rest : Bytes) × (digits (suc f) n [] ≡ c ∷ rest) × (b'0' ≤ c)
unfolding digits
digits_first f n = elim (Bool-cases (ltb n 10)) [
  | inl small ↦ (b'0' + n % 10, [], rw small, omega arith)
  | inr large ↦ rw large (digits_head f (n / 10) (n % 10) [] (omega arith))
]

unsigned :
    (s : Bytes) (c : ℕ) (rest : Bytes)
    → s ≡ c ∷ rest
    → b'0' ≤ c
    → parse_int s ≡ positive (parse_uint s)
unfolding parse_int
unsigned s c rest e h = rw e (ground arith)

parse_int-format_uint : (n : ℕ) → n < 2 ^ 63 → parse_int (format_uint n) ≡ (pos n, true)
unfolding positive
parse_int-format_uint n h =
    let (c, rest, e, digit) = digits_first 19 n in
    unsigned (format_uint n) c rest (unfold format_uint in e) digit
    ∙ ap positive (parse_uint-format_uint n (omega arith))
    ∙ ground arith

minus : (s : Bytes) → parse_int (b'-' ∷ s) ≡ negative (parse_uint s)
unfolding parse_int
minus s = refl

in_range : (n : ℕ) → n < 2 ^ 63 → negative (value (suc n)) ≡ (negsuc n, true)
unfolding negative
in_range n h = ground arith

-- Reading back the text of an `int64` gives the number, with no error.
pub parse_int-format_int : (n : ℤ) → Int64 n → parse_int (format_int n) ≡ (n, true)
unfolding format_int
parse_int-format_int (pos n) h = parse_int-format_uint n (omega arith)
parse_int-format_int (negsuc n) h =
    minus (format_uint (suc n))
    ∙ ap negative (parse_uint-format_uint (suc n) (omega arith))
    ∙ in_range n (omega arith)

pub parse_int_checked-format_int : (n : ℤ) → Int64 n → parse_int_checked (format_int n) ≡ ok n
unfolding parse_int_checked
parse_int_checked-format_int n h = ap checked (parse_int-format_int n h)

pub parse_uint_checked-format_uint :
    (n : ℕ) → n < 2 ^ 64 → parse_uint_checked (format_uint n) ≡ ok n
unfolding parse_uint_checked
parse_uint_checked-format_uint n h =
    ap scanned (parse_uint-format_uint n h) ∙ unfold scanned in refl
