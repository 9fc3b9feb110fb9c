-- ===== src/Contract/Hnb/Transfer.antt =====
-- What a transfer and an exchange of the HNB token do to the balances.
use hnb_blockchain.Prelude.{◌≡◌, ◌≢◌, refl, ◌∙◌, ap, false, arith, if◌then◌else◌}
use hnb_blockchain.Prelude.Int.{
  ℤ, pos, ◌≤ℤ◌, ◌<ℤ◌, ◌+ℤ◌, ◌-ℤ◌, add64, sub64, Int64, add64-Int64, sub64-Int64, add64_fits,
  sub64_fits, int_laws, max_int64, min_int64,
}
use hnb_blockchain.Prelude.Bytes.{Bytes, bytes_equal, bytes_equal_iff}
use hnb_blockchain.Prelude.Result.{ok, IsAtomic}
use hnb_blockchain.State.{Ledger}
use hnb_blockchain.App.Api.{ContractApi, get_state}
use hnb_blockchain.App.Api.Laws.{get_state-put_state}
use hnb_blockchain.Contract.Requests.{SameTx}
use hnb_blockchain.Contract.Amount.{balance_of-amount_value, amount_value}
use hnb_blockchain.Contract.Hnb.{get_balance, set_balance, same_pro, check_same_pro}

module _ (ledger : Ledger) where
  pub get_balance-set_balance :
      (k k' : Bytes) (n : ℤ) (ca : ContractApi)
      → Int64 n
      → get_balance ledger k' (set_balance k n ca)
        ≡ (if bytes_equal k k' then ok n else get_balance ledger k' ca)
  unfolding get_balance set_balance
  get_balance-set_balance k k' n ca h =
      ground
        (arith, get_state-put_state ledger k k' (amount_value n) ca, balance_of-amount_value n h)

  pub get_state-set_balance :
      (k k' : Bytes) (n : ℤ) (ca : ContractApi)
      → bytes_equal k k' ≡ false
      → get_state ledger k' (set_balance k n ca) ≡ get_state ledger k' ca
  unfolding set_balance
  get_state-set_balance k k' n ca h =
      ground (arith, get_state-put_state ledger k k' (amount_value n) ca)

  abbrev paid : SameTx → ContractApi → ℤ → ℤ → ContractApi
  paid hx ca a b =
      set_balance hx.output_addr (add64 b hx.amount) (set_balance ca.from (sub64 a hx.amount) ca)

  same_pro-paid :
      (hx : SameTx) (ca : ContractApi) (a b : ℤ)
      → ca.from ≢ hx.output_addr
      → get_balance ledger ca.from ca ≡ ok a
      → get_balance ledger hx.output_addr ca ≡ ok b
      → hx.amount ≤ℤ a
      → same_pro ledger hx ca ≡ (ok tt, paid hx ca a b)
  unfolding same_pro
  same_pro-paid hx ca a b ne ea eb cover = ground (arith, bytes_equal_iff ca.from hx.output_addr)

  -- Where both balances can be read, a covered transfer to another address goes through: the sender
  -- pays the amount and the receiver gains it, in `int64`, and no other entry changes.
  pub same_pro_moves :
      (hx : SameTx) (ca : ContractApi) (a b : ℤ)
      → ca.from ≢ hx.output_addr
      → get_balance ledger ca.from ca ≡ ok a
      → get_balance ledger hx.output_addr ca ≡ ok b
      → hx.amount ≤ℤ a
      → let (r, ca') = same_pro ledger hx ca in
        (r ≡ ok tt)
        × (get_balance ledger ca.from ca' ≡ ok (sub64 a hx.amount))
        × (get_balance ledger hx.output_addr ca' ≡ ok (add64 b hx.amount))
        × ((k : Bytes)
            → k ≢ ca.from
            → k ≢ hx.output_addr
            → get_state ledger k ca' ≡ get_state ledger k ca)
  same_pro_moves hx ca a b ne ea eb cover =
      rw (same_pro-paid hx ca a b ne ea eb cover) (refl, payer, payee, rest)
    where
      mid : ContractApi
      mid = set_balance ca.from (sub64 a hx.amount) ca

      payer : get_balance ledger ca.from (paid hx ca a b) ≡ ok (sub64 a hx.amount)
      payer = ground (
        arith,
        bytes_equal_iff ca.from ca.from,
        bytes_equal_iff hx.output_addr ca.from,
        get_balance-set_balance ca.from ca.from (sub64 a hx.amount) ca (sub64-Int64 a hx.amount),
        get_balance-set_balance hx.output_addr ca.from (add64 b hx.amount) mid
            (add64-Int64 b hx.amount),
      )

      payee : get_balance ledger hx.output_addr (paid hx ca a b) ≡ ok (add64 b hx.amount)
      payee = ground (
        arith,
        bytes_equal_iff hx.output_addr hx.output_addr,
        get_balance-set_balance hx.output_addr hx.output_addr (add64 b hx.amount) mid
            (add64-Int64 b hx.amount),
      )

      rest :
          (k : Bytes)
          → k ≢ ca.from
          → k ≢ hx.output_addr
          → get_state ledger k (paid hx ca a b) ≡ get_state ledger k ca
      rest k not_from not_out = ground (
        arith,
        bytes_equal_iff hx.output_addr k,
        bytes_equal_iff ca.from k,
        get_state-set_balance ca.from k (sub64 a hx.amount) ca,
        get_state-set_balance hx.output_addr k (add64 b hx.amount) mid,
      )

  -- Where both balances can be read and the receiver's is not negative, a covered transfer to another
  -- address, of an amount that is not negative and that the two balances have room for in `int64`,
  -- keeps the sum of the two balances and leaves neither of them negative.
  pub same_pro_conserves :
      (hx : SameTx) (ca : ContractApi) (a b : ℤ)
      → ca.from ≢ hx.output_addr
      → get_balance ledger ca.from ca ≡ ok a
      → get_balance ledger hx.output_addr ca ≡ ok b
      → pos 0 ≤ℤ hx.amount
      → hx.amount ≤ℤ a
      → a ≤ℤ max_int64
      → pos 0 ≤ℤ b
      → b +ℤ hx.amount ≤ℤ max_int64
      → let (r, ca') = same_pro ledger hx ca in
        (a' : ℤ) × (b' : ℤ) × (get_balance ledger ca.from ca' ≡ ok a')
        × (get_balance ledger hx.output_addr ca' ≡ ok b')
        × (a' +ℤ b' ≡ a +ℤ b)
        × (pos 0 ≤ℤ a')
        × (pos 0 ≤ℤ b')
  same_pro_conserves hx ca a b ne ea eb nonneg cover top bot room =
      let (_, payer, payee, _) = same_pro_moves hx ca a b ne ea eb cover in
      (
        a -ℤ hx.amount,
        b +ℤ hx.amount,
        payer ∙ ap ok (sub64_fits a hx.amount (omega int_laws, omega int_laws)),
        payee ∙ ap ok (add64_fits b hx.amount (omega int_laws, omega int_laws)),
        omega int_laws,
        omega int_laws,
        omega int_laws,
      )

  -- Where both balances can be read and the sender's is not negative, a transfer of a negative amount
  -- to another address goes through, where both new balances have room in `int64`: it takes tokens from
  -- the named address for the sender, also below zero.
  pub same_pro_takes :
      (hx : SameTx) (ca : ContractApi) (a b : ℤ)
      → ca.from ≢ hx.output_addr
      → get_balance ledger ca.from ca ≡ ok a
      → get_balance ledger hx.output_addr ca ≡ ok b
      → hx.amount <ℤ pos 0
      → pos 0 ≤ℤ a
      → a -ℤ hx.amount ≤ℤ max_int64
      → b ≤ℤ max_int64
      → min_int64 ≤ℤ b +ℤ hx.amount
      → let (r, ca') = same_pro ledger hx ca in
        (r ≡ ok tt)
        × ((a' : ℤ) × (get_balance ledger ca.from ca' ≡ ok a') × (a <ℤ a'))
        × ((b' : ℤ) × (get_balance ledger hx.output_addr ca' ≡ ok b') × (b' <ℤ b))
  same_pro_takes hx ca a b ne ea eb neg nonneg room top bot =
      let (done, payer, payee, _) = same_pro_moves hx ca a b ne ea eb (omega int_laws) in
      (
        done,
        (
          a -ℤ hx.amount,
          payer ∙ ap ok (sub64_fits a hx.amount (omega int_laws, omega int_laws)),
          omega int_laws,
        ),
        (
          b +ℤ hx.amount,
          payee ∙ ap ok (add64_fits b hx.amount (omega int_laws, omega int_laws)),
          omega int_laws,
        ),
      )

  -- A transfer that returns an error has written nothing.
  pub same_pro-IsAtomic : (hx : SameTx) → IsAtomic (same_pro ledger hx)
  unfolding same_pro
  same_pro-IsAtomic hx ca e h = ground arith

  -- Where the receiver's balance can be read, the check of a transfer gives the result that its
  -- execution on the same state gives, error or success, and it changes nothing.
  pub check_same_pro-agrees :
      (hx : SameTx) (ca : ContractApi) (b : ℤ)
      → get_balance ledger hx.output_addr ca ≡ ok b
      → ((check_same_pro ledger hx ca).0 ≡ (same_pro ledger hx ca).0)
        × ((check_same_pro ledger hx ca).1 ≡ ca)
  unfolding same_pro check_same_pro
  check_same_pro-agrees hx ca b h = (ground arith, ground arith)
