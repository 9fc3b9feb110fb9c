-- ===== src/Contract/Amount.antt =====
-- A balance as the contracts store it: a decimal text, where a missing entry counts as 0.
use hnb_blockchain.Prelude.{Bool, true, false, Option, none, some, ◌≡◌}
use hnb_blockchain.Prelude.Int.{ℤ, pos, Int64}
use hnb_blockchain.Prelude.Bytes.{be64}
use hnb_blockchain.Prelude.Result.{Result, ok, err, Error}
use hnb_blockchain.State.{Value, text, raw64, tx_index, vote_map, vote_records}
use hnb_blockchain.Strconv.{format_int, parse_int, parse_int_checked}
use hnb_blockchain.Strconv.RoundTrip.{parse_int_checked-format_int, parse_int-format_int}

-- `strconv.FormatInt(amount, 10)`
unfoldable pub amount_value : ℤ → Value
amount_value amount = text (format_int amount)

-- `strconv.ParseInt(string(value), 10, 64)`. A JSON document begins with a bracket, so it is no number.
unfoldable pub parse_value : Value → ℤ × Bool
parse_value (text s) = parse_int s
parse_value (raw64 n) = parse_int (be64 n)
parse_value (tx_index n i) = (pos 0, false)
parse_value (vote_map m) = (pos 0, false)
parse_value (vote_records vs) = (pos 0, false)

unfoldable pub parse_value_checked : Value → Result ℤ
parse_value_checked (text s) = parse_int_checked s
parse_value_checked (raw64 n) = parse_int_checked (be64 n)
parse_value_checked (tx_index n i) = err Error.invalid_number
parse_value_checked (vote_map m) = err Error.invalid_number
parse_value_checked (vote_records vs) = err Error.invalid_number

-- An `int64` that is written as an amount reads back as that amount, without an error.
pub parse_value_checked-amount_value :
    (n : ℤ) → Int64 n → parse_value_checked (amount_value n) ≡ ok n
unfolding parse_value_checked amount_value
parse_value_checked-amount_value n h = parse_int_checked-format_int n h

pub parse_value-amount_value : (n : ℤ) → Int64 n → parse_value (amount_value n) ≡ (n, true)
unfolding parse_value amount_value
parse_value-amount_value n h = parse_int-format_int n h

-- The balance that a result of `GetState` stands for.
unfoldable pub balance_of : Result (Option Value) → Result ℤ
unfolding parse_value_checked
balance_of (err e) = err e
balance_of (ok none) = ok (pos 0)
balance_of (ok (some v)) = parse_value_checked v

pub balance_of-amount_value : (n : ℤ) → Int64 n → balance_of (ok (some (amount_value n))) ≡ ok n
unfolding balance_of
balance_of-amount_value n h = unfold parse_value_checked in parse_value_checked-amount_value n h
