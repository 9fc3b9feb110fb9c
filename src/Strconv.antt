-- ===== src/Strconv.antt =====
-- `strconv.FormatInt(n, 10)` and `strconv.ParseInt(s, 10, 64)` of Go's standard library, as the
-- contracts use them to keep balances as decimal text.
pub mod RoundTrip
use hnb_blockchain.Prelude.{
  ℕ, zero, suc, ◌+◌, ◌-◌, ◌*◌, ◌/◌, ◌%◌, ◌^◌, ◌≡◌, refl, Bool, true, false, ◌||◌, [], ◌∷◌, ltb, leb,
  ◌==◌, if◌then◌else◌,
}
use hnb_blockchain.Prelude.Int.{ℤ, pos, negsuc, min_int64, max_int64}
use hnb_blockchain.Prelude.Bytes.{Bytes, codes}
use hnb_blockchain.Prelude.Result.{Result, ok, err, Error}

-- The decimal digits of `n`, before the text `out`. Each round divides by ten.
unfoldable pub digits : ℕ → ℕ → Bytes → Bytes
digits zero n out = out
digits (suc f) n out =
    let d = b'0' + n % 10 in
    let rest = digits f (n / 10) (d ∷ out) in if ltb n 10 then d ∷ out else rest

-- Twenty digits are enough for 64 bits.
unfoldable pub format_uint : ℕ → Bytes
format_uint n = digits 20 n []

unfoldable pub format_int : ℤ → Bytes
unfolding format_uint
format_int (pos n) = format_uint n
format_int (negsuc n) = b'-' ∷ format_uint (suc n)

-- `ParseUint`: the number, a syntax error, or a number above 64 bits. Both errors end the scan.
pub data Scan : Type 0 where
  value : ℕ → Scan
  syntax range : Scan

scan : Bytes → ℕ → Scan
scan [] n = value n
scan (c ∷ s) n =
    let rest = scan s (n * 10 + (c - b'0')) in
    if ltb c b'0' || ltb b'9' c
    then syntax
    else if ltb (2 ^ 64 - 1) (n * 10 + (c - b'0'))
    then range
    else rest

parse_uint : Bytes → Scan
unfolding scan
parse_uint [] = syntax
parse_uint (c ∷ s) = scan (c ∷ s) 0

-- The number that `ParseInt` returns, and whether it returns an error too: a number out of range
-- comes back as the nearest `int64`.
positive : Scan → ℤ × Bool
positive (value n) = if ltb n (2 ^ 63) then (pos n, true) else (max_int64, false)
positive syntax = (pos 0, false)
positive range = (max_int64, false)

negative : Scan → ℤ × Bool
negative (value zero) = (pos 0, true)
negative (value (suc n)) = if ltb n (2 ^ 63) then (negsuc n, true) else (min_int64, false)
negative syntax = (pos 0, false)
negative range = (min_int64, false)

unfoldable pub parse_int : Bytes → ℤ × Bool
unfolding parse_uint positive negative
parse_int [] = (pos 0, false)
parse_int (c ∷ s) =
    if c == b'-'
    then negative (parse_uint s)
    else if c == b'+'
    then positive (parse_uint s)
    else positive (parse_uint (c ∷ s))

-- The callers that check the error.
unfoldable pub checked : ℤ × Bool → Result ℤ
checked (n, true) = ok n
checked (n, false) = err Error.invalid_number

unfoldable pub parse_int_checked : Bytes → Result ℤ
unfolding parse_int checked
parse_int_checked s = checked (parse_int s)

-- `strconv.ParseUint(s, 10, 64)`, for a caller that checks the error.
unfoldable pub scanned : Scan → Result ℕ
scanned (value n) = ok n
scanned syntax = err Error.invalid_number
scanned range = err Error.invalid_number

unfoldable pub parse_uint_checked : Bytes → Result ℕ
unfolding parse_uint scanned
parse_uint_checked s = scanned (parse_uint s)

format_int_example : format_int (negsuc 1204) ≡ codes "-1205"
unfolding format_int digits
format_int_example = refl

parse_int_example : parse_int (codes "-9223372036854775809") ≡ (min_int64, false)
unfolding parse_int
parse_int_example = refl
