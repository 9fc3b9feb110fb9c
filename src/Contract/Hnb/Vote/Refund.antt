-- ===== src/Contract/Hnb/Vote/Refund.antt =====
-- `UnFreezePro` gives every frozen token of an epoch back, and clears the epoch's entries.
use hnb_blockchain.Prelude.{
  ℕ, ◌≡◌, ◌≢◌, ◌∙◌, ap, refl, sym, Option, none, List, [], ◌∷◌, arith, inl, inr, Bool-cases,
  if◌then◌else◌,
}
use hnb_blockchain.Prelude.Int.{ℤ, Int64, add64, add64-Int64}
use hnb_blockchain.Prelude.Bytes.{Bytes, bytes_equal, bytes_equal_sound, bytes_differ}
use hnb_blockchain.Prelude.Result.{ok}
use hnb_blockchain.State.{Value, VoteRecord, Ledger}
use hnb_blockchain.App.Api.{ContractApi, get_state, del_state}
use hnb_blockchain.App.Api.Laws.{get_state-del_state_ne, get_state-del_state_self}
use hnb_blockchain.Contract.Amount.{balance_of}
use hnb_blockchain.Contract.Hnb.{get_balance, set_balance}
use hnb_blockchain.Contract.Hnb.Transfer.{get_balance-set_balance}
use hnb_blockchain.Contract.Hnb.Vote.{
  get_epoch_key, get_epoch_record_key, read_records, refund_all, un_freeze_pro,
}
use hnb_blockchain.Contract.Hnb.Vote.Freeze.{keys_apart}

-- The balance `b` of the address `k` with all of its records added.
abbrev pub refunded : Bytes → List VoteRecord → ℤ → ℤ
refunded k [] b = b
refunded k (v ∷ vs) b =
    refunded k vs (if bytes_equal v.from_addr k then add64 b v.voting_power else b)

module _ (ledger : Ledger) where
  -- Every record's address has a balance that can be read.
  abbrev pub AreReadable : List VoteRecord → ContractApi → Type 0
  AreReadable [] ca = Unit {0}
  AreReadable (v ∷ vs) ca =
      ((n : ℤ) × (get_balance ledger v.from_addr ca ≡ ok n)) × AreReadable vs ca

  readable_step :
      (a k : Bytes) (m n : ℤ) (ca : ContractApi)
      → Int64 m
      → get_balance ledger k ca ≡ ok n
      → get_balance ledger k (set_balance a m ca) ≡ ok (if bytes_equal a k then m else n)
  readable_step a k m n ca fits e = ground (arith, get_balance-set_balance ledger a k m ca fits)

  set_balance-AreReadable :
      (vs : List VoteRecord) (a : Bytes) (m : ℤ) (ca : ContractApi)
      → Int64 m
      → AreReadable vs ca
      → AreReadable vs (set_balance a m ca)
  set_balance-AreReadable [] a m ca fits h = tt
  set_balance-AreReadable (v ∷ vs) a m ca fits ((n, e), h) =
      ((_, readable_step a v.from_addr m n ca fits e), set_balance-AreReadable vs a m ca fits h)

  refund_all_step :
      (v : VoteRecord) (vs : List VoteRecord) (ca : ContractApi) (n : ℤ)
      → get_balance ledger v.from_addr ca ≡ ok n
      → refund_all ledger (v ∷ vs) ca
        ≡ refund_all ledger vs (set_balance v.from_addr (add64 n v.voting_power) ca)
  unfolding refund_all
  refund_all_step v vs ca n e = ground (arith, e)

  same_balance :
      (a k : Bytes) (m n p : ℤ) (ca : ContractApi)
      → get_balance ledger a ca ≡ ok m
      → get_balance ledger k ca ≡ ok n
      → (if bytes_equal a k then add64 m p else n) ≡ (if bytes_equal a k then add64 n p else n)
  same_balance a k m n p ca ea ek = elim (Bool-cases (bytes_equal a k)) [
    | inl same ↦ rw same (ap (λ x. add64 x p) (equal (bytes_equal_sound a k same)))
    | inr other ↦ rw other refl
  ]
    where
      equal : a ≡ k → m ≡ n
      equal e = cc

  refund_all_balances :
      (vs : List VoteRecord) (ca : ContractApi) (k : Bytes) (b : ℤ)
      → AreReadable vs ca
      → get_balance ledger k ca ≡ ok b
      → ((refund_all ledger vs ca).0 ≡ ok tt)
        × (get_balance ledger k (refund_all ledger vs ca).1 ≡ ok (refunded k vs b))
  unfolding refund_all
  refund_all_balances [] ca k b h e = (refl, e)
  refund_all_balances (v ∷ vs) ca k b ((n, en), h) e = rw (refund_all_step v vs ca n en) (
      refund_all_balances vs _ k _
        (set_balance-AreReadable vs v.from_addr _ ca (add64-Int64 n v.voting_power) h)
        (readable_step v.from_addr k _ b ca (add64-Int64 n v.voting_power) e
          ∙ ap ok (same_balance v.from_addr k n b v.voting_power ca en e)))

  refund_all-ok :
      (vs : List VoteRecord) (ca : ContractApi)
      → AreReadable vs ca
      → (refund_all ledger vs ca).0 ≡ ok tt
  unfolding refund_all
  refund_all-ok [] ca h = refl
  refund_all-ok (v ∷ vs) ca ((n, en), h) = rw (refund_all_step v vs ca n en) (
      refund_all-ok vs _
        (set_balance-AreReadable vs v.from_addr _ ca (add64-Int64 n v.voting_power) h))

  abbrev cleared : ℕ → ContractApi → ContractApi
  cleared epoch ca = del_state (get_epoch_key epoch) (del_state (get_epoch_record_key epoch) ca)

  un_freeze_pro-cleared :
      (epoch : ℕ) (ca : ContractApi) (o : Option Value) (vs : List VoteRecord)
      → get_state ledger (get_epoch_record_key epoch) ca ≡ ok o
      → read_records o ≡ ok vs
      → AreReadable vs ca
      → un_freeze_pro ledger epoch ca ≡ (ok tt, cleared epoch (refund_all ledger vs ca).1)
  unfolding un_freeze_pro refund_all
  un_freeze_pro-cleared epoch ca o vs e r h = ground (arith, refund_all-ok vs ca h)

  balance_cleared :
      (k : Bytes) (epoch : ℕ) (ca : ContractApi)
      → k ≢ get_epoch_key epoch
      → k ≢ get_epoch_record_key epoch
      → get_balance ledger k (cleared epoch ca) ≡ get_balance ledger k ca
  unfolding get_balance
  balance_cleared k epoch ca not_votes not_records = ap balance_of (
      get_state-del_state_ne ledger (get_epoch_key epoch) k _
        (bytes_differ _ _ (λ e. not_votes (sym e)))
      ∙ get_state-del_state_ne ledger (get_epoch_record_key epoch) k ca
          (bytes_differ _ _ (λ e. not_records (sym e))))

  -- Where an epoch's records can be read, and the balances of their addresses, unfreezing the epoch
  -- succeeds: every address with a balance, other than the epoch's two keys, gets the tokens of all of
  -- its records back, and both entries of the epoch are gone.
  pub un_freeze_pro_refunds :
      (epoch : ℕ) (ca : ContractApi) (o : Option Value) (vs : List VoteRecord)
      → get_state ledger (get_epoch_record_key epoch) ca ≡ ok o
      → read_records o ≡ ok vs
      → AreReadable vs ca
      → let (r, ca') = un_freeze_pro ledger epoch ca in
        (r ≡ ok tt)
        × (get_state ledger (get_epoch_key epoch) ca' ≡ ok none)
        × (get_state ledger (get_epoch_record_key epoch) ca' ≡ ok none)
        × ((k : Bytes) (b : ℤ)
            → k ≢ get_epoch_key epoch
            → k ≢ get_epoch_record_key epoch
            → get_balance ledger k ca ≡ ok b
            → get_balance ledger k ca' ≡ ok (refunded k vs b))
  un_freeze_pro_refunds epoch ca o vs e r h = rw (un_freeze_pro-cleared epoch ca o vs e r h) (
    refl,
    get_state-del_state_self ledger (get_epoch_key epoch) _,
    get_state-del_state_ne ledger (get_epoch_key epoch) (get_epoch_record_key epoch) _
          (keys_apart epoch)
        ∙ get_state-del_state_self ledger (get_epoch_record_key epoch) _,
    λ k b not_votes not_records eb.
        balance_cleared k epoch (refund_all ledger vs ca).1 not_votes not_records
        ∙ (refund_all_balances vs ca k b h eb).1,
  )
