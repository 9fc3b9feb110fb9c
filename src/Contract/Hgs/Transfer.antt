-- ===== src/Contract/Hgs/Transfer.antt =====
-- What a transfer and an exchange of the HGS token do, and that a failing call writes nothing.
use hnb_blockchain.Prelude.{◌≡◌, ◌≢◌, ◌∙◌, refl, sym, some, Option, arith, ◌==◌}
use hnb_blockchain.Prelude.Int.{ℤ, ◌≤ℤ◌, add64, sub64}
use hnb_blockchain.Prelude.Bytes.{Bytes, bytes_equal_iff, bytes_differ}
use hnb_blockchain.Prelude.Result.{
  ok, err, Error, or_fail, IsAtomic, if-IsAtomic, lift_then-IsAtomic,
}
use hnb_blockchain.State.{Value, Ledger}
use hnb_blockchain.App.Api.{ContractApi, get_state, put_state}
use hnb_blockchain.App.Api.Laws.{get_state-put_state_self, get_state-put_state_ne}
use hnb_blockchain.Contract.Requests.{Json, Request, SameTx, DiffTx}
use hnb_blockchain.Contract.Amount.{amount_value}
use hnb_blockchain.Contract.Hgs.{
  lenient_balance, input_of, same_pro, diff_pro, invoke_request, invoke, same, diff,
}

module _ (ledger : Ledger) where
  same_pro-paid :
      (hx : SameTx) (ca : ContractApi) (a : ℤ) (o : Option Value)
      → ca.from ≢ hx.output_addr
      → input_of ledger ca ≡ ok a
      → get_state ledger hx.output_addr ca ≡ ok o
      → hx.amount ≤ℤ a
      → same_pro ledger hx ca ≡ (
        ok tt,
        put_state hx.output_addr
            (amount_value (add64 (lenient_balance o) hx.amount))
            (put_state ca.from (amount_value (sub64 a hx.amount)) ca),
      )
  unfolding same_pro
  same_pro-paid hx ca a o ne ea eo cover = ground (arith, bytes_equal_iff ca.from hx.output_addr)

  -- Where the sender's balance and the receiver's entry can be read, a covered transfer to another
  -- address goes through: it stores the two new balances and changes no other entry.
  pub same_pro_stores :
      (hx : SameTx) (ca : ContractApi) (a : ℤ) (o : Option Value)
      → ca.from ≢ hx.output_addr
      → input_of ledger ca ≡ ok a
      → get_state ledger hx.output_addr ca ≡ ok o
      → hx.amount ≤ℤ a
      → let (r, ca') = same_pro ledger hx ca in
        (r ≡ ok tt)
        × (get_state ledger ca.from ca' ≡ ok (some (amount_value (sub64 a hx.amount))))
        × (get_state ledger hx.output_addr ca'
            ≡ ok (some (amount_value (add64 (lenient_balance o) hx.amount))))
        × ((k : Bytes)
            → k ≢ ca.from
            → k ≢ hx.output_addr
            → get_state ledger k ca' ≡ get_state ledger k ca)
  same_pro_stores hx ca a o ne ea eo cover = rw (same_pro-paid hx ca a o ne ea eo cover) (
    refl,
    get_state-put_state_ne ledger hx.output_addr ca.from _ _ (bytes_differ _ _ (λ e. ne (sym e)))
        ∙ get_state-put_state_self ledger ca.from _ ca,
    get_state-put_state_self ledger hx.output_addr _ _,
    λ k not_from not_out.
        get_state-put_state_ne ledger hx.output_addr k _ _ (bytes_differ _ _ (λ e. not_out (sym e)))
        ∙ get_state-put_state_ne ledger ca.from k _ ca (bytes_differ _ _ (λ e. not_from (sym e))),
  )

  same_pro-IsAtomic : (hx : SameTx) → IsAtomic (same_pro ledger hx)
  unfolding same_pro
  same_pro-IsAtomic hx ca e h = ground arith

  diff_pro-IsAtomic : (hx : DiffTx) → IsAtomic (diff_pro ledger hx)
  unfolding diff_pro
  diff_pro-IsAtomic hx ca e h = ground arith

module _ (json : Json) (ledger : Ledger) where
  invoke_request-IsAtomic : (hx : Request) → IsAtomic (invoke_request json ledger hx)
  unfolding invoke_request
  invoke_request-IsAtomic hx =
      if-IsAtomic (hx.tx_type == same) _ _
        (lift_then-IsAtomic _ (same_pro ledger) (same_pro-IsAtomic ledger))
        (if-IsAtomic (hx.tx_type == diff) _ _
          (lift_then-IsAtomic _ (diff_pro ledger) (diff_pro-IsAtomic ledger)) (λ s e h. refl))

  -- A call of the HGS contract that returns an error, in the decoding or later, has written nothing.
  pub invoke-IsAtomic :
      (ca : ContractApi) (e : Error)
      → (invoke json ledger ca).0 ≡ err e
      → (invoke json ledger ca).1 ≡ ca
  unfolding invoke
  invoke-IsAtomic ca =
      lift_then-IsAtomic (or_fail (json.request ca.args) Error.bad_request)
        (invoke_request json ledger) invoke_request-IsAtomic ca
