-- ===== src/Txpool/Pool/Limits/Ending.antt =====
-- txpool/tx_pool.go: the loops of promoteExecutables over the accounts with too many pending
-- transactions end.
use hnb_blockchain.Prelude.{
  ℕ, zero, suc, ◌+◌, ◌-◌, ◌%◌, ◌^◌, ◌≤◌, ◌<◌, ◌≡◌, ◌⊎◌, inl, inr, refl, ap, ◌∙◌, ltb, if◌then◌else◌,
  ◌&&◌, Bool, true, false, Bool-cases, Option, none, some, List, [], ◌∷◌, length, arith,
}
use hnb_blockchain.Prelude.Bytes.{Bytes}
use hnb_blockchain.Prelude.Assoc.{lookup, insert}
use hnb_blockchain.Ledger.Types.{Transaction}
use hnb_blockchain.Txpool.TxList
use hnb_blockchain.Txpool.TxList.{TxList}
use hnb_blockchain.Txpool.Accounts
use hnb_blockchain.Txpool.Accounts.{set_nonce, get_nonce}
use hnb_blockchain.Txpool.Pool.{Chain, TxPool, TxPoolConfig}
use hnb_blockchain.Txpool.Pool.Moving.{lower_nonce}
use hnb_blockchain.Txpool.Pool.Limits.{
  drop_pending, drop_last_of, drop_last, drop_lasts, even_out, len_of, Counted,
}

config_if :
    (b : Bool) (p q : TxPool) (f : TxPoolConfig)
    → p.config ≡ f
    → q.config ≡ f
    → (if b then p else q).config ≡ f
config_if true p q f e d = e
config_if false p q f e d = d

lower_nonce-config :
    (c : Chain) (addr : Bytes) (n : ℕ) (pool : TxPool)
    → (lower_nonce c addr n pool).config ≡ pool.config
unfolding lower_nonce
lower_nonce-config c addr n pool =
    config_if (ltb n (get_nonce c.ledger_nonce addr pool.pending_state))
      (record pool { pending_state = set_nonce addr n pool.pending_state }) pool pool.config refl
      refl

drop_pending-config :
    (c : Chain) (addr : Bytes) (txs : List Transaction) (pool : TxPool)
    → (drop_pending c addr txs pool).config ≡ pool.config
unfolding drop_pending
drop_pending-config c addr [] pool = refl
drop_pending-config c addr (tx ∷ txs) pool =
    let p = record pool { all = Accounts.remove_tx tx.txid pool.all } in
    drop_pending-config c addr txs (lower_nonce c addr tx.nonce_value p)
    ∙ lower_nonce-config c addr tx.nonce_value p

drop_last_of-config :
    (c : Chain) (addr : Bytes) (o : Option TxList) (pool : TxPool)
    → (drop_last_of c addr o pool).config ≡ pool.config
drop_last_of-config c addr none pool = refl
drop_last_of-config c addr (some l) pool =
    let r = TxList.cap (TxList.list_len l - 1) l in
    drop_pending-config c addr r.1 (record pool { pending = insert addr r.0 pool.pending })

drop_last-config :
    (c : Chain) (addr : Bytes) (pool : TxPool) → (drop_last c addr pool).config ≡ pool.config
unfolding drop_last
drop_last-config c addr pool = drop_last_of-config c addr (lookup addr pool.pending) pool

drop_lasts-config :
    (c : Chain) (addrs : List Bytes) (s : Counted) → (drop_lasts c addrs s).1.config ≡ s.1.config
unfolding drop_lasts
drop_lasts-config c [] s = refl
drop_lasts-config c (addr ∷ addrs) (n, pool) =
    drop_lasts-config c addrs ((n + (2 ^ 64 - 1)) % 2 ^ 64, drop_last c addr pool)
    ∙ drop_last-config c addr pool

-- A pass lowers the counter by the number of the offenders.
drop_lasts-counter :
    (c : Chain) (addrs : List Bytes) (n : ℕ) (pool : TxPool)
    → n < 2 ^ 64
    → length addrs ≤ n
    → (drop_lasts c addrs (n, pool)).0 ≡ n - length addrs
unfolding drop_lasts
drop_lasts-counter c [] n pool w h = omega arith
drop_lasts-counter c (addr ∷ addrs) n pool w h =
    let e : (n + (2 ^ 64 - 1)) % 2 ^ 64 ≡ n - 1 = omega arith in
    ap (λ (k : ℕ). (drop_lasts c addrs (k, drop_last c addr pool)).0) e
    ∙ drop_lasts-counter c addrs (n - 1) (drop_last c addr pool) (omega arith) (omega arith)
    ∙ omega arith

-- The counter is within the limit, or the list of `addr` is no longer than the threshold.
abbrev pub Ended : ℕ → Bytes → Counted → Type 0
Ended threshold addr s =
    (s.0 ≤ s.1.config.global_slots) ⊎ (len_of (lookup addr s.1.pending) ≤ threshold)

stopped :
    (threshold : ℕ) (addr : Bytes) (n : ℕ) (pool : TxPool)
    → (ltb pool.config.global_slots n && ltb threshold (len_of (lookup addr pool.pending))) ≡ false
    → Ended threshold addr (n, pool)
stopped threshold addr n pool e = ground (arith, e)

went_on :
    (threshold : ℕ) (addr : Bytes) (n : ℕ) (pool : TxPool)
    → (ltb pool.config.global_slots n && ltb threshold (len_of (lookup addr pool.pending))) ≡ true
    → pool.config.global_slots < n
went_on threshold addr n pool e = ground (arith, e)

-- The loop over the offenders ends by its own test: as much fuel as there are pending transactions is
-- enough, where the counter is a `uint64` and there is at least one offender and no more of them than the
-- limit of pending transactions and one.
pub even_out-ends :
    (fuel : ℕ) (c : Chain) (threshold : ℕ) (addr : Bytes) (offenders : List Bytes) (n : ℕ)
    (pool : TxPool)
    → n ≤ fuel
    → n < 2 ^ 64
    → 0 < length offenders
    → length offenders ≤ pool.config.global_slots + 1
    → Ended threshold addr (even_out fuel c threshold addr offenders (n, pool))
unfolding even_out
even_out-ends zero c threshold addr offenders n pool f w p q = inl (omega arith)
even_out-ends (suc fuel) c threshold addr offenders n pool f w p q =
    elim (Bool-cases
      (ltb pool.config.global_slots n && ltb threshold (len_of (lookup addr pool.pending)))) [
        | inl e ↦
            let g : pool.config.global_slots < n = went_on threshold addr n pool e in
            let r = drop_lasts c offenders (n, pool) in
            let k : r.0 ≡ n - length offenders =
              drop_lasts-counter c offenders n pool w (omega arith) in
            let s : r.1.config ≡ pool.config = drop_lasts-config c offenders (n, pool) in
            rw e (
              even_out-ends fuel c threshold addr offenders r.0 r.1 (omega arith) (omega arith) p
                (rw s q))
        | inr e ↦ rw e (stopped threshold addr n pool e)
      ]
