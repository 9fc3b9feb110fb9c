-- ===== src/Txpool/Pool/Limits.antt =====
-- txpool/tx_pool.go: how `promoteExecutables` keeps the pool within its limits.
--
-- The loops that even out the pending lists run on fuel, the number of pending transactions.
pub mod Ending
use hnb_blockchain.Prelude.{
  ℕ, zero, suc, ◌+◌, ◌-◌, ◌%◌, ◌^◌, ◌==◌, ltb, leb, if◌then◌else◌, not, ◌&&◌, Bool, true, false,
  Option, none, some, List, [], ◌∷◌, ◌++◌, length, take, drop,
}
use hnb_blockchain.Prelude.Bytes.{Bytes}
use hnb_blockchain.Prelude.Assoc.{Dict, lookup, insert}
use hnb_blockchain.Ledger.Types.{Transaction}
use hnb_blockchain.Txpool.SortedMap.{reverse_onto}
use hnb_blockchain.Txpool.TxList
use hnb_blockchain.Txpool.TxList.{TxList}
use hnb_blockchain.Txpool.Accounts
use hnb_blockchain.Txpool.Accounts.{contains, nonce_or}
use hnb_blockchain.Txpool.Pool.{Chain, TxPool}
use hnb_blockchain.Txpool.Pool.Moving.{lower_nonce, remove_each}

-- The number of transactions in all lists.
unfoldable pub total : Dict TxList → ℕ
total [] = 0
total ((addr, l) ∷ m) = TxList.list_len l + total m

abbrev pub len_of : Option TxList → ℕ
len_of none = 0
len_of (some l) = TxList.list_len l

-- The accounts whose lists are longer than the slots that each account has.
unfoldable pub spammers : TxPool → Dict TxList → List (Bytes × ℕ)
spammers pool [] = []
spammers pool ((addr, l) ∷ m) =
    if not (contains addr pool.locals) && ltb pool.config.account_slots (TxList.list_len l)
    then (addr, TxList.list_len l) ∷ spammers pool m
    else spammers pool m

unfoldable pub drop_pending : Chain → Bytes → List Transaction → TxPool → TxPool
unfolding lower_nonce
drop_pending c addr [] pool = pool
drop_pending c addr (tx ∷ txs) pool =
    drop_pending c addr txs (
      lower_nonce c addr tx.nonce_value (record pool { all = Accounts.remove_tx tx.txid pool.all }))

abbrev pub drop_last_of : Chain → Bytes → Option TxList → TxPool → TxPool
drop_last_of c addr none pool = pool
drop_last_of c addr (some l) pool =
    let (l', txs) = TxList.cap (TxList.list_len l - 1) l in
    drop_pending c addr txs (record pool { pending = insert addr l' pool.pending })

-- The last pending transaction of an account is dropped. The lists that this is called on are not
-- empty.
unfoldable pub drop_last : Chain → Bytes → TxPool → TxPool
unfolding drop_pending
drop_last c addr pool = drop_last_of c addr (lookup addr pool.pending) pool

-- The counter of pending transactions, a `uint64`, beside the pool.
abbrev pub Counted : Type 0
Counted = ℕ × TxPool

unfoldable pub drop_lasts : Chain → List Bytes → Counted → Counted
unfolding drop_last
drop_lasts c [] s = s
drop_lasts c (addr ∷ addrs) (n, pool) =
    drop_lasts c addrs ((n + (2 ^ 64 - 1)) % 2 ^ 64, drop_last c addr pool)

-- `for pending > GlobalSlots && pool.pending[addr].Len() > threshold`
unfoldable pub even_out : ℕ → Chain → ℕ → Bytes → List Bytes → Counted → Counted
unfolding drop_lasts
even_out zero c threshold addr offenders s = s
even_out (suc fuel) c threshold addr offenders (n, pool) =
    let rest = even_out fuel c threshold addr offenders (drop_lasts c offenders (n, pool)) in
    if ltb pool.config.global_slots n && ltb threshold (len_of (lookup addr pool.pending))
    then rest
    else (n, pool)

-- The next offender: where there are others, the last of them stands first in the list, and they are
-- evened out down to the length of the new one's list.
abbrev pub meet : Chain → Bytes → List Bytes → Counted → Counted
meet c offender [] s = s
meet c offender (last ∷ others) (n, pool) =
    even_out n c (len_of (lookup offender pool.pending)) last (reverse_onto (last ∷ others) [])
      (n, pool)

-- The offenders, the last one first.
unfoldable pub meet_all : Chain → List Bytes → List Bytes → Counted → List Bytes × Counted
unfolding even_out
meet_all c [] offenders s = (offenders, s)
meet_all c (offender ∷ order) offenders (n, pool) =
    let rest = meet_all c order (offender ∷ offenders) (meet c offender offenders (n, pool)) in
    if ltb pool.config.global_slots n then rest else (offenders, (n, pool))

-- All offenders are reduced to the slots of an account.
abbrev pub reduce : Chain → List Bytes × Counted → Counted
reduce c ([], s) = s
reduce c (last ∷ others, (n, pool)) =
    even_out n c pool.config.account_slots last (reverse_onto (last ∷ others) []) (n, pool)

unfoldable pub limit_pending : Chain → TxPool → TxPool
unfolding meet_all spammers total
limit_pending c pool =
    let n = total pool.pending % 2 ^ 64 in
    if ltb pool.config.global_slots n
    then (reduce c (meet_all c (c.spam_order (spammers pool pool.pending)) [] (n, pool))).1
    else pool

-- Accounts by their heartbeats, the latest one first: the source sorts them in ascending order and
-- takes from the end. An account with no heartbeat counts as the earliest.
unfoldable pub insert_by_heartbeat : Bytes × ℕ → List (Bytes × ℕ) → List (Bytes × ℕ)
insert_by_heartbeat a [] = a ∷ []
insert_by_heartbeat a (b ∷ l) = if ltb a.1 b.1 then b ∷ insert_by_heartbeat a l else a ∷ b ∷ l

unfoldable pub by_heartbeat : TxPool → Dict TxList → List (Bytes × ℕ)
unfolding insert_by_heartbeat
by_heartbeat pool [] = []
by_heartbeat pool ((addr, l) ∷ m) =
    if contains addr pool.locals
    then by_heartbeat pool m
    else insert_by_heartbeat (addr, nonce_or 0 (lookup addr pool.beats)) (by_heartbeat pool m)

-- The queue of an account, flattened; flattening caches the order.
abbrev pub flat_queue : Bytes → Option TxList → TxPool → TxPool × List Transaction
flat_queue addr none pool = (pool, [])
flat_queue addr (some l) pool =
    let (l', txs) = TxList.flatten l in (record pool { queue = insert addr l' pool.queue }, txs)

-- The transactions that the limit drops of one account, the last one first where some are kept.
abbrev pub to_drop : ℕ → List Transaction → List Transaction
to_drop excess txs = if leb (length txs) excess then txs else take excess (reverse_onto txs [])

unfoldable pub drop_queued : Chain → List (Bytes × ℕ) → ℕ → TxPool → TxPool
drop_queued c [] excess pool = pool
drop_queued c ((addr, beat) ∷ addrs) excess pool =
    let (p, txs) = flat_queue addr (lookup addr pool.queue) pool in
    let rest = drop_queued c addrs (excess - length txs) (remove_each c (to_drop excess txs) p) in
    if excess == 0 then pool else rest

unfoldable pub limit_queue : Chain → TxPool → TxPool
unfolding drop_queued by_heartbeat total
limit_queue c pool =
    let queued = total pool.queue % 2 ^ 64 in
    if ltb pool.config.global_queue queued
    then drop_queued c (by_heartbeat pool pool.queue) (queued - pool.config.global_queue) pool
    else pool
