-- ===== src/Contract/Hnb/Exchange.antt =====
-- What an exchange of HNB for HGS tokens does to the two balances.
use hnb_blockchain.Prelude.{◌++◌, ◌≡◌, ◌∙◌, ap, refl, false, arith}
use hnb_blockchain.Prelude.Int.{ℤ, ◌≤ℤ◌, add64, sub64, Int64, add64-Int64, sub64-Int64}
use hnb_blockchain.Prelude.Bytes.{Bytes, bytes_equal, bytes_equal_refl}
use hnb_blockchain.Prelude.Result.{ok, IsAtomic}
use hnb_blockchain.State.{Ledger}
use hnb_blockchain.App.Api.{ContractApi, put_state}
use hnb_blockchain.App.Api.Laws.{
  get_state-put_state, get_state-put_other_state, get_other_state-put_other_state,
}
use hnb_blockchain.Contract.Requests.{DiffTx}
use hnb_blockchain.Contract.Amount.{balance_of, balance_of-amount_value, amount_value}
use hnb_blockchain.Contract.Hnb.{
  hnb_chain, hgs_chain, get_balance, get_other_state_balance, set_balance, set_other_state_balance,
  diff_pro,
}

-- The keys of the two chains never meet in the shared cache.
chains_apart : (k k' : Bytes) → bytes_equal (hgs_chain ++ k) (hnb_chain ++ k') ≡ false
unfolding bytes_equal
chains_apart k k' = refl

module _ (ledger : Ledger) where
  abbrev exchanged : DiffTx → ContractApi → ℤ → ℤ → ContractApi
  exchanged hx ca a b =
      set_other_state_balance hgs_chain hx.output_addr (add64 b hx.amount)
        (set_balance ca.from (sub64 a hx.in_amount) ca)

  diff_pro-exchanged :
      (hx : DiffTx) (ca : ContractApi) (a b : ℤ)
      → get_balance ledger ca.from ca ≡ ok a
      → get_other_state_balance ledger hgs_chain hx.output_addr ca ≡ ok b
      → hx.in_amount ≤ℤ a
      → diff_pro ledger hx ca ≡ (ok tt, exchanged hx ca a b)
  unfolding diff_pro
  diff_pro-exchanged hx ca a b ea eb cover = ground arith

  get_balance-exchanged :
      (addr out : Bytes) (x y : ℤ) (ca : ContractApi)
      → ca.chain_id ≡ hnb_chain
      → Int64 x
      → get_balance ledger addr (set_other_state_balance hgs_chain out y (set_balance addr x ca))
        ≡ ok x
  unfolding get_balance set_other_state_balance set_balance put_state
  get_balance-exchanged addr out x y ca own fits =
      ap balance_of (
        get_state-put_other_state ledger hgs_chain out addr (amount_value y)
          (put_state addr (amount_value x) ca)
        ∙ rw own (rw (chains_apart out addr) refl)
        ∙ get_state-put_state ledger addr addr (amount_value x) ca
        ∙ rw (bytes_equal_refl addr) refl)
      ∙ balance_of-amount_value x fits

  get_other-exchanged :
      (addr out : Bytes) (x y : ℤ) (ca : ContractApi)
      → Int64 y
      → get_other_state_balance ledger hgs_chain out
          (set_other_state_balance hgs_chain out y (set_balance addr x ca))
        ≡ ok y
  unfolding get_other_state_balance set_other_state_balance
  get_other-exchanged addr out x y ca fits =
      ap balance_of (
        get_other_state-put_other_state ledger hgs_chain out hgs_chain out (amount_value y)
          (set_balance addr x ca)
        ∙ rw (bytes_equal_refl (hgs_chain ++ out)) refl)
      ∙ balance_of-amount_value y fits

  -- Where both balances can be read, a covered exchange in the HNB contract goes through, whatever the
  -- two numbers are: `in_amount` leaves the sender's HNB balance, and `amount` arrives at the
  -- receiver's HGS balance, in `int64`.
  pub diff_pro_moves :
      (hx : DiffTx) (ca : ContractApi) (a b : ℤ)
      → ca.chain_id ≡ hnb_chain
      → get_balance ledger ca.from ca ≡ ok a
      → get_other_state_balance ledger hgs_chain hx.output_addr ca ≡ ok b
      → hx.in_amount ≤ℤ a
      → let (r, ca') = diff_pro ledger hx ca in
        (r ≡ ok tt)
        × (get_balance ledger ca.from ca' ≡ ok (sub64 a hx.in_amount))
        × (get_other_state_balance ledger hgs_chain hx.output_addr ca' ≡ ok (add64 b hx.amount))
  diff_pro_moves hx ca a b own ea eb cover = rw (diff_pro-exchanged hx ca a b ea eb cover) (
    refl,
    get_balance-exchanged ca.from hx.output_addr _ _ ca own (sub64-Int64 a hx.in_amount),
    get_other-exchanged ca.from hx.output_addr _ _ ca (add64-Int64 b hx.amount),
  )

  -- An exchange that returns an error has written nothing.
  pub diff_pro-IsAtomic : (hx : DiffTx) → IsAtomic (diff_pro ledger hx)
  unfolding diff_pro
  diff_pro-IsAtomic hx ca e h = ground arith
