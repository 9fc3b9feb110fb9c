-- ===== src/Txpool/Pool/Steps.antt =====
-- txpool/tx_pool.go: the life of a pool, from NewTxPool through submitted transactions and events.
use hnb_blockchain.Prelude.{
  ℕ, ◌<◌, ◌^◌, ◌≡◌, refl, sym, subst, Bool, Option, none, some, List, [], arith, true, false,
}
use hnb_blockchain.Prelude.Bytes.{Bytes}
use hnb_blockchain.Prelude.Assoc.{lookup}
use hnb_blockchain.Ledger.Types.{Transaction}
use hnb_blockchain.Txpool.Ordered.{find}
use hnb_blockchain.Txpool.Accounts.{new_tx_lookup, get_tx}
use hnb_blockchain.Txpool.Pool.{Chain, TxPool, TxPoolConfig}
use hnb_blockchain.Txpool.Pool.Reset
use hnb_blockchain.Txpool.Pool.Reset.{new_tx_pool, empty_tx_pool, add_txs_locked}
use hnb_blockchain.Txpool.Pool.Queries
use hnb_blockchain.Txpool.Pool.Events.{Event, loop_step}
use hnb_blockchain.Txpool.Pool.Slots.{slot, hand, apart, AreHeld}
use hnb_blockchain.Txpool.Pool.Consistent.{IsConsistent, place}
use hnb_blockchain.Txpool.Pool.Consistent.Placing.{Sound}
use hnb_blockchain.Txpool.Pool.Consistent.Calls.{
  AreNumbered, add_txs_locked-Sound, EventNumbered, SoundIf, loop_step-Sound, add_tx-Sound,
}
use hnb_blockchain.Txpool.Pool.Consistent.Flattening.{pending-Sound, content-Sound}
use hnb_blockchain.Txpool.Pool.Consistent.Returning.{reset_returns}

-- One call or event, with what the pool asks elsewhere at that time.
pub data Step : TxPool → TxPool → Type 0 where
  submit :
      (c : Chain) (tx : Transaction) (local : Bool) (pool : TxPool)
      → tx.nonce_value < 2 ^ 64
      → Step pool (Reset.add_tx c tx local pool).1
  submit_all :
      (c : Chain) (txs : List Transaction) (local : Bool) (pool : TxPool)
      → AreNumbered txs
      → Step pool (add_txs_locked c txs local pool).0
  ask : (pool : TxPool) → Step pool (Queries.pending pool).0
  ask_all : (pool : TxPool) → Step pool (Queries.content pool).0
  react :
      (c : Chain) (e : Event) (pool : TxPool) {next : TxPool}
      → EventNumbered e
      → loop_step c e pool ≡ some next
      → Step pool next

-- The pools that are reached from a new one.
pub data Reached : TxPool → Type 0 where
  created :
      (c : Chain) (config : TxPoolConfig) (locals : List Bytes) {pool : TxPool}
      → new_tx_pool c config locals ≡ some pool
      → Reached pool
  stepped : {pool next : TxPool} → Reached pool → Step pool next → Reached next

no_lists : (b : Bool) → AreHeld b []
unfolding lookup
no_lists b = record { distinct = tt; each = λ a l e. absurd (ground (arith, e)) }

nothing_placed :
    (a b : Bytes) (n : ℕ)
    → (place [] [] a [] b n ≡ none) × (apart (slot [] b n) (slot [] b n) (hand a [] b n) ≡ true)
unfolding place slot hand find lookup
nothing_placed a b n = ground arith

nothing_known : (h : Bytes) → get_tx h new_tx_lookup ≡ none
unfolding get_tx new_tx_lookup lookup
nothing_known h = refl

pub empty-IsConsistent : (a : Bytes) → IsConsistent [] [] new_tx_lookup a []
empty-IsConsistent a = record {
  index = record {
    filed = λ b n t e. absurd (ground (arith, (nothing_placed a b n).0, e));
    listed = λ h t e. absurd (ground (arith, nothing_known h, e));
  };
  apart_at = λ b n. (nothing_placed a b n).1;
  pending_held = no_lists true;
  queue_held = no_lists false;
  in_hand = tt;
}

-- NewTxPool returns, and its pool is consistent.
pub new_tx_pool_returns :
    (c : Chain) (config : TxPoolConfig) (locals : List Bytes) (a : Bytes)
    → (p : TxPool) × (new_tx_pool c config locals ≡ some p) × Sound p a []
unfolding new_tx_pool empty_tx_pool
new_tx_pool_returns c config locals a =
    reset_returns c [] a (empty_tx_pool config locals) (empty-IsConsistent a) tt

found-Sound :
    (a : Bytes) (o : Option TxPool) (pool : TxPool) → SoundIf a o → o ≡ some pool → Sound pool a []
found-Sound a none pool s e = absurd (ground (arith, e))
found-Sound a (some p) pool s e =
    let e' : p ≡ pool = ground (arith, e) in subst (λ (q : TxPool). Sound q a []) e' s

Step-Sound : {pool next : TxPool} (a : Bytes) → Step pool next → Sound pool a [] → Sound next a []
Step-Sound a (submit c tx local pool w) s = add_tx-Sound c tx local a pool s w
Step-Sound a (submit_all c txs local pool w) s = add_txs_locked-Sound c txs local a pool s w
Step-Sound a (ask pool) s = pending-Sound a pool s
Step-Sound a (ask_all pool) s = content-Sound a pool s
Step-Sound a (react c e pool {next} w r) s =
    found-Sound a (loop_step c e pool) next (loop_step-Sound c e a pool s w) r

-- In every pool that NewTxPool, submitted transactions and events lead to, with nonces below 2 ^ 64, the
-- pending lists, the queues and the transactions by hash agree: no account has two lists of one kind, a
-- transaction stands in one place only, under its account and its nonce, and it is known by its hash
-- exactly when it stands somewhere.
pub Reached-IsConsistent :
    {pool : TxPool} (a : Bytes) → Reached pool → IsConsistent pool.pending pool.queue pool.all a []
Reached-IsConsistent a (created c config locals {pool} e) =
    let r = new_tx_pool_returns c config locals a in
    found-Sound a (new_tx_pool c config locals) pool (subst (SoundIf a) (sym r.1) r.2) e
Reached-IsConsistent a (stepped r s) = Step-Sound a s (Reached-IsConsistent a r)
