-- ===== src/Tests/Pools.antt =====
-- Pools of transactions: concrete inputs.
use hnb_blockchain.Prelude.{
  ℕ, ◌+◌, ◌%◌, ◌<◌, ◌^◌, ◌≡◌, ◌≤◌, refl, Bool, true, false, Option, none, some, List, [], ◌∷◌, take,
  drop, length, arith,
}
use hnb_blockchain.Prelude.Bytes.{Bytes}
use hnb_blockchain.Prelude.Assoc.{lookup, insert, erase}
use hnb_blockchain.Prelude.Result.{ok, err, Error}
use hnb_blockchain.Ledger.Types.{Transaction}
use hnb_blockchain.Txpool.SortedMap
use hnb_blockchain.Txpool.SortedMap.{TxSortedMap, new_tx_sorted_map, put, reverse_onto}
use hnb_blockchain.Txpool.SortedMap.Refines.{Holds, new-Holds, ready-Holds}
use hnb_blockchain.Txpool.SortedMap.Changes.{put-Holds}
use hnb_blockchain.Txpool.SortedMap.Cap.{cap-Holds}
use hnb_blockchain.Txpool.Pool.{Chain, TxPool, TxPoolConfig, default_tx_pool_config, add}
use hnb_blockchain.Txpool.Pool.Reset
use hnb_blockchain.Txpool.Pool.Reset.{new_tx_pool, empty_tx_pool, reset}
use hnb_blockchain.Txpool.Pool.Events.{get_txs_from_tx_pool, all_txs}
use hnb_blockchain.Txpool.Pool.Queries
use hnb_blockchain.Txpool.Items.{insert_by_nonce}
use hnb_blockchain.Txpool.Accounts.{get_tx, count}
use hnb_blockchain.Txpool.Pool.Limits.{even_out}
use hnb_blockchain.Txpool.Pool.Limits.Ending.{Ended, even_out-ends}
use hnb_blockchain.Txpool.Pool.Guards.{IsValid, add-guards, Left, add-refused}
use hnb_blockchain.Txpool.Pool.Proposals.{All, IsPending, taken_of, get_txs_from_tx_pool-pending}
use hnb_blockchain.Txpool.Pool.Consistent.{IsConsistent}
use hnb_blockchain.Txpool.Pool.Consistent.Placing.{Sound}
use hnb_blockchain.Txpool.Pool.Consistent.Returning.{reset_returns}
use hnb_blockchain.Txpool.Pool.Steps.{
  Reached, created, stepped, submit, empty-IsConsistent, new_tx_pool_returns, Reached-IsConsistent,
}

abbrev alice : Bytes
alice = 1 ∷ []

abbrev tx_of : ℕ → ℕ → Transaction
tx_of id nonce = record {
  contract_name = [];
  payload = [];
  txid = id ∷ [];
  from = alice;
  nonce_value = nonce;
  signature = (0, 0, 0);
}

abbrev firsts : List (Bytes × ℕ) → List Bytes
firsts [] = []
firsts ((a, n) ∷ l) = a ∷ firsts l

abbrev chain : Chain
chain = record {
  sender = λ tx. some tx.from;
  ledger_nonce = λ a. 0;
  check_tx = λ tx. ok tt;
  dev = true;
  now = 100;
  spam_order = firsts;
}

abbrev start : TxPool
start = empty_tx_pool default_tx_pool_config []

-- Three nonces, the first two in a row.
abbrev three : TxSortedMap
three = put (tx_of 3 8) (put (tx_of 1 5) (put (tx_of 2 6) new_tx_sorted_map))

abbrev rest_txs : List Transaction
rest_txs = tx_of 2 6 ∷ tx_of 3 8 ∷ []

three-Holds : Holds three (tx_of 1 5 ∷ rest_txs)
unfolding insert_by_nonce
three-Holds =
    put-Holds (tx_of 3 8) (put (tx_of 1 5) (put (tx_of 2 6) new_tx_sorted_map))
      (tx_of 1 5 ∷ tx_of 2 6 ∷ [])
      (put-Holds (tx_of 1 5) (put (tx_of 2 6) new_tx_sorted_map) (tx_of 2 6 ∷ [])
        (put-Holds (tx_of 2 6) new_tx_sorted_map [] new-Holds))

-- The first transaction is pending, the one after a gap waits.
first_pending :
    (get_txs_from_tx_pool 10
      (Reset.add_tx chain (tx_of 2 4) false (Reset.add_tx chain (tx_of 1 0) false start).1).1).1
    ≡ tx_of 1 0 ∷ []
unfolding hnb_blockchain.Txpool.Items.item hnb_blockchain.Txpool.Items.insert_item
    hnb_blockchain.Txpool.Items.erase_item hnb_blockchain.Txpool.Items.insert_by_nonce
    hnb_blockchain.Txpool.Items.sort_by_nonce hnb_blockchain.Txpool.Items.push_nonce
    hnb_blockchain.Txpool.Items.sort_nonces hnb_blockchain.Txpool.Items.remove_nonce
    hnb_blockchain.Txpool.SortedMap.new_tx_sorted_map hnb_blockchain.Txpool.SortedMap.get
    hnb_blockchain.Txpool.SortedMap.put hnb_blockchain.Txpool.SortedMap.pop_below
    hnb_blockchain.Txpool.SortedMap.forward hnb_blockchain.Txpool.SortedMap.picked
    hnb_blockchain.Txpool.SortedMap.unpicked hnb_blockchain.Txpool.SortedMap.filter
    hnb_blockchain.Txpool.SortedMap.drop_nonces hnb_blockchain.Txpool.SortedMap.cap_over
    hnb_blockchain.Txpool.SortedMap.cap hnb_blockchain.Txpool.SortedMap.remove
    hnb_blockchain.Txpool.SortedMap.pop_run hnb_blockchain.Txpool.SortedMap.ready_from
    hnb_blockchain.Txpool.SortedMap.ready hnb_blockchain.Txpool.SortedMap.map_len
    hnb_blockchain.Txpool.SortedMap.flatten hnb_blockchain.Txpool.TxList.new_tx_list
    hnb_blockchain.Txpool.TxList.overlaps hnb_blockchain.Txpool.TxList.add
    hnb_blockchain.Txpool.TxList.forward hnb_blockchain.Txpool.TxList.cap
    hnb_blockchain.Txpool.TxList.ready hnb_blockchain.Txpool.TxList.flatten
    hnb_blockchain.Txpool.TxList.remove hnb_blockchain.Txpool.TxList.list_len
    hnb_blockchain.Txpool.TxList.empty hnb_blockchain.Txpool.Accounts.new_pending_nonce
    hnb_blockchain.Txpool.Accounts.set_nonce hnb_blockchain.Txpool.Accounts.get_nonce
    hnb_blockchain.Txpool.Accounts.new_account_set hnb_blockchain.Txpool.Accounts.contains
    hnb_blockchain.Txpool.Accounts.add_account hnb_blockchain.Txpool.Accounts.flatten_accounts
    hnb_blockchain.Txpool.Accounts.new_tx_lookup hnb_blockchain.Txpool.Accounts.get_tx
    hnb_blockchain.Txpool.Accounts.count hnb_blockchain.Txpool.Accounts.add_tx
    hnb_blockchain.Txpool.Accounts.remove_tx hnb_blockchain.Txpool.Pool.validate_tx
    hnb_blockchain.Txpool.Pool.know hnb_blockchain.Txpool.Pool.enqueue_tx
    hnb_blockchain.Txpool.Pool.mark_local hnb_blockchain.Txpool.Pool.add_valid
    hnb_blockchain.Txpool.Pool.add hnb_blockchain.Txpool.Pool.Moving.forget_all
    hnb_blockchain.Txpool.Pool.Moving.promote_tx hnb_blockchain.Txpool.Pool.Moving.promote_all
    hnb_blockchain.Txpool.Pool.Moving.enqueue_all hnb_blockchain.Txpool.Pool.Moving.lower_nonce
    hnb_blockchain.Txpool.Pool.Moving.remove_known hnb_blockchain.Txpool.Pool.Moving.remove_tx
    hnb_blockchain.Txpool.Pool.Moving.remove_each hnb_blockchain.Txpool.Pool.Moving.drop_stale
    hnb_blockchain.Txpool.Pool.Moving.promote_ready hnb_blockchain.Txpool.Pool.Moving.drop_over
    hnb_blockchain.Txpool.Pool.Moving.promote_list hnb_blockchain.Txpool.Pool.Moving.promote_account
    hnb_blockchain.Txpool.Pool.Moving.promote_accounts
    hnb_blockchain.Txpool.Pool.Moving.drop_executed hnb_blockchain.Txpool.Pool.Moving.demote_list
    hnb_blockchain.Txpool.Pool.Moving.demote_accounts
    hnb_blockchain.Txpool.Pool.Moving.demote_unexecutables hnb_blockchain.Txpool.Pool.Limits.total
    hnb_blockchain.Txpool.Pool.Limits.spammers hnb_blockchain.Txpool.Pool.Limits.drop_pending
    hnb_blockchain.Txpool.Pool.Limits.drop_last hnb_blockchain.Txpool.Pool.Limits.drop_lasts
    hnb_blockchain.Txpool.Pool.Limits.even_out hnb_blockchain.Txpool.Pool.Limits.meet_all
    hnb_blockchain.Txpool.Pool.Limits.limit_pending
    hnb_blockchain.Txpool.Pool.Limits.insert_by_heartbeat
    hnb_blockchain.Txpool.Pool.Limits.by_heartbeat hnb_blockchain.Txpool.Pool.Limits.drop_queued
    hnb_blockchain.Txpool.Pool.Limits.limit_queue hnb_blockchain.Txpool.Pool.Reset.notify
    hnb_blockchain.Txpool.Pool.Reset.promote_executables hnb_blockchain.Txpool.Pool.Reset.add_tx
    hnb_blockchain.Txpool.Pool.Reset.add_local hnb_blockchain.Txpool.Pool.Reset.add_remote
    hnb_blockchain.Txpool.Pool.Reset.add_batch hnb_blockchain.Txpool.Pool.Reset.add_txs_locked
    hnb_blockchain.Txpool.Pool.Reset.add_locals hnb_blockchain.Txpool.Pool.Reset.add_remotes
    hnb_blockchain.Txpool.Pool.Reset.flatten_lists hnb_blockchain.Txpool.Pool.Reset.next_nonces
    hnb_blockchain.Txpool.Pool.Reset.update_nonces hnb_blockchain.Txpool.Pool.Reset.reset
    hnb_blockchain.Txpool.Pool.Reset.add_accounts hnb_blockchain.Txpool.Pool.Reset.empty_tx_pool
    hnb_blockchain.Txpool.Pool.Reset.new_tx_pool hnb_blockchain.Txpool.Pool.Queries.stats
    hnb_blockchain.Txpool.Pool.Queries.pending hnb_blockchain.Txpool.Pool.Queries.content
    hnb_blockchain.Txpool.Pool.Queries.status hnb_blockchain.Txpool.Pool.Events.evict_account
    hnb_blockchain.Txpool.Pool.Events.evict_accounts hnb_blockchain.Txpool.Pool.Events.evict
    hnb_blockchain.Txpool.Pool.Events.loop_step hnb_blockchain.Txpool.Pool.Events.recv_tx
    hnb_blockchain.Txpool.Pool.Events.collect hnb_blockchain.Txpool.Pool.Events.get_txs_from_tx_pool
    hnb_blockchain.Txpool.Pool.Events.is_txs_len_zero
    hnb_blockchain.Txpool.Pool.Events.get_pending_nonce lookup insert erase
    hnb_blockchain.Prelude.Bytes.bytes_equal
first_pending = refl

cap-Holds_example :
    Holds (SortedMap.cap 2 three).0 (tx_of 1 5 ∷ tx_of 2 6 ∷ [])
    × ((SortedMap.cap 2 three).1 ≡ tx_of 3 8 ∷ [])
cap-Holds_example = cap-Holds 2 three (tx_of 1 5 ∷ rest_txs) three-Holds

ready-Holds_example :
    Holds (SortedMap.ready 5 three).0 (tx_of 3 8 ∷ [])
    × ((SortedMap.ready 5 three).1 ≡ tx_of 1 5 ∷ tx_of 2 6 ∷ [])
ready-Holds_example =
    ready-Holds 5 three (tx_of 1 5) rest_txs three-Holds (omega arith) (omega arith)

start-Sound : Sound start [] []
unfolding empty_tx_pool
start-Sound = empty-IsConsistent []

abbrev two_txs : List Transaction
two_txs = tx_of 1 0 ∷ tx_of 2 1 ∷ []

reset_returns_example : (p : TxPool) × (reset chain two_txs start ≡ some p) × Sound p [] []
reset_returns_example = reset_returns chain two_txs [] start start-Sound (omega arith)

abbrev born : TxPool
born = (new_tx_pool_returns chain default_tx_pool_config [] []).0

-- One transaction has come in.
abbrev after : TxPool
after = (Reset.add_tx chain (tx_of 1 0) false born).1

after-Reached : Reached after
after-Reached =
    stepped
      (created chain default_tx_pool_config []
        (new_tx_pool_returns chain default_tx_pool_config [] []).1)
      (submit chain (tx_of 1 0) false born (omega arith))

Reached-IsConsistent_example : IsConsistent after.pending after.queue after.all [] []
Reached-IsConsistent_example = Reached-IsConsistent [] after-Reached

-- A transaction with a gap before it, which waits in the queue.
abbrev waiting : TxPool
waiting = (Reset.add_tx chain (tx_of 1 4) false start).1

accepted : (add chain (tx_of 2 0) false start).0 ≡ ok false
unfolding hnb_blockchain.Txpool.Items.item hnb_blockchain.Txpool.Items.insert_item
    hnb_blockchain.Txpool.Items.erase_item hnb_blockchain.Txpool.Items.insert_by_nonce
    hnb_blockchain.Txpool.Items.sort_by_nonce hnb_blockchain.Txpool.Items.push_nonce
    hnb_blockchain.Txpool.Items.sort_nonces hnb_blockchain.Txpool.Items.remove_nonce
    hnb_blockchain.Txpool.SortedMap.new_tx_sorted_map hnb_blockchain.Txpool.SortedMap.get
    hnb_blockchain.Txpool.SortedMap.put hnb_blockchain.Txpool.SortedMap.pop_below
    hnb_blockchain.Txpool.SortedMap.forward hnb_blockchain.Txpool.SortedMap.picked
    hnb_blockchain.Txpool.SortedMap.unpicked hnb_blockchain.Txpool.SortedMap.filter
    hnb_blockchain.Txpool.SortedMap.drop_nonces hnb_blockchain.Txpool.SortedMap.cap_over
    hnb_blockchain.Txpool.SortedMap.cap hnb_blockchain.Txpool.SortedMap.remove
    hnb_blockchain.Txpool.SortedMap.pop_run hnb_blockchain.Txpool.SortedMap.ready_from
    hnb_blockchain.Txpool.SortedMap.ready hnb_blockchain.Txpool.SortedMap.map_len
    hnb_blockchain.Txpool.SortedMap.flatten hnb_blockchain.Txpool.TxList.new_tx_list
    hnb_blockchain.Txpool.TxList.overlaps hnb_blockchain.Txpool.TxList.add
    hnb_blockchain.Txpool.TxList.forward hnb_blockchain.Txpool.TxList.cap
    hnb_blockchain.Txpool.TxList.ready hnb_blockchain.Txpool.TxList.flatten
    hnb_blockchain.Txpool.TxList.remove hnb_blockchain.Txpool.TxList.list_len
    hnb_blockchain.Txpool.TxList.empty hnb_blockchain.Txpool.Accounts.new_pending_nonce
    hnb_blockchain.Txpool.Accounts.set_nonce hnb_blockchain.Txpool.Accounts.get_nonce
    hnb_blockchain.Txpool.Accounts.new_account_set hnb_blockchain.Txpool.Accounts.contains
    hnb_blockchain.Txpool.Accounts.add_account hnb_blockchain.Txpool.Accounts.flatten_accounts
    hnb_blockchain.Txpool.Accounts.new_tx_lookup hnb_blockchain.Txpool.Accounts.get_tx
    hnb_blockchain.Txpool.Accounts.count hnb_blockchain.Txpool.Accounts.add_tx
    hnb_blockchain.Txpool.Accounts.remove_tx hnb_blockchain.Txpool.Pool.validate_tx
    hnb_blockchain.Txpool.Pool.know hnb_blockchain.Txpool.Pool.enqueue_tx
    hnb_blockchain.Txpool.Pool.mark_local hnb_blockchain.Txpool.Pool.add_valid
    hnb_blockchain.Txpool.Pool.add hnb_blockchain.Txpool.Pool.Moving.forget_all
    hnb_blockchain.Txpool.Pool.Moving.promote_tx hnb_blockchain.Txpool.Pool.Moving.promote_all
    hnb_blockchain.Txpool.Pool.Moving.enqueue_all hnb_blockchain.Txpool.Pool.Moving.lower_nonce
    hnb_blockchain.Txpool.Pool.Moving.remove_known hnb_blockchain.Txpool.Pool.Moving.remove_tx
    hnb_blockchain.Txpool.Pool.Moving.remove_each hnb_blockchain.Txpool.Pool.Moving.drop_stale
    hnb_blockchain.Txpool.Pool.Moving.promote_ready hnb_blockchain.Txpool.Pool.Moving.drop_over
    hnb_blockchain.Txpool.Pool.Moving.promote_list hnb_blockchain.Txpool.Pool.Moving.promote_account
    hnb_blockchain.Txpool.Pool.Moving.promote_accounts
    hnb_blockchain.Txpool.Pool.Moving.drop_executed hnb_blockchain.Txpool.Pool.Moving.demote_list
    hnb_blockchain.Txpool.Pool.Moving.demote_accounts
    hnb_blockchain.Txpool.Pool.Moving.demote_unexecutables hnb_blockchain.Txpool.Pool.Limits.total
    hnb_blockchain.Txpool.Pool.Limits.spammers hnb_blockchain.Txpool.Pool.Limits.drop_pending
    hnb_blockchain.Txpool.Pool.Limits.drop_last hnb_blockchain.Txpool.Pool.Limits.drop_lasts
    hnb_blockchain.Txpool.Pool.Limits.even_out hnb_blockchain.Txpool.Pool.Limits.meet_all
    hnb_blockchain.Txpool.Pool.Limits.limit_pending
    hnb_blockchain.Txpool.Pool.Limits.insert_by_heartbeat
    hnb_blockchain.Txpool.Pool.Limits.by_heartbeat hnb_blockchain.Txpool.Pool.Limits.drop_queued
    hnb_blockchain.Txpool.Pool.Limits.limit_queue hnb_blockchain.Txpool.Pool.Reset.notify
    hnb_blockchain.Txpool.Pool.Reset.promote_executables hnb_blockchain.Txpool.Pool.Reset.add_tx
    hnb_blockchain.Txpool.Pool.Reset.add_local hnb_blockchain.Txpool.Pool.Reset.add_remote
    hnb_blockchain.Txpool.Pool.Reset.add_batch hnb_blockchain.Txpool.Pool.Reset.add_txs_locked
    hnb_blockchain.Txpool.Pool.Reset.add_locals hnb_blockchain.Txpool.Pool.Reset.add_remotes
    hnb_blockchain.Txpool.Pool.Reset.flatten_lists hnb_blockchain.Txpool.Pool.Reset.next_nonces
    hnb_blockchain.Txpool.Pool.Reset.update_nonces hnb_blockchain.Txpool.Pool.Reset.reset
    hnb_blockchain.Txpool.Pool.Reset.add_accounts hnb_blockchain.Txpool.Pool.Reset.empty_tx_pool
    hnb_blockchain.Txpool.Pool.Reset.new_tx_pool hnb_blockchain.Txpool.Pool.Queries.stats
    hnb_blockchain.Txpool.Pool.Queries.pending hnb_blockchain.Txpool.Pool.Queries.content
    hnb_blockchain.Txpool.Pool.Queries.status hnb_blockchain.Txpool.Pool.Events.evict_account
    hnb_blockchain.Txpool.Pool.Events.evict_accounts hnb_blockchain.Txpool.Pool.Events.evict
    hnb_blockchain.Txpool.Pool.Events.loop_step hnb_blockchain.Txpool.Pool.Events.recv_tx
    hnb_blockchain.Txpool.Pool.Events.collect hnb_blockchain.Txpool.Pool.Events.get_txs_from_tx_pool
    hnb_blockchain.Txpool.Pool.Events.is_txs_len_zero
    hnb_blockchain.Txpool.Pool.Events.get_pending_nonce lookup insert erase
    hnb_blockchain.Prelude.Bytes.bytes_equal
accepted = refl

add-guards_example :
    (get_tx (2 ∷ []) start.all ≡ none)
    × IsValid chain (tx_of 2 0)
    × (count start.all < (start.config.global_slots + start.config.global_queue) % 2 ^ 64)
add-guards_example = add-guards chain (tx_of 2 0) false start false accepted

refused : (add chain (tx_of 2 4) false waiting).0 ≡ err Error.replace_underpriced
unfolding hnb_blockchain.Txpool.Items.item hnb_blockchain.Txpool.Items.insert_item
    hnb_blockchain.Txpool.Items.erase_item hnb_blockchain.Txpool.Items.insert_by_nonce
    hnb_blockchain.Txpool.Items.sort_by_nonce hnb_blockchain.Txpool.Items.push_nonce
    hnb_blockchain.Txpool.Items.sort_nonces hnb_blockchain.Txpool.Items.remove_nonce
    hnb_blockchain.Txpool.SortedMap.new_tx_sorted_map hnb_blockchain.Txpool.SortedMap.get
    hnb_blockchain.Txpool.SortedMap.put hnb_blockchain.Txpool.SortedMap.pop_below
    hnb_blockchain.Txpool.SortedMap.forward hnb_blockchain.Txpool.SortedMap.picked
    hnb_blockchain.Txpool.SortedMap.unpicked hnb_blockchain.Txpool.SortedMap.filter
    hnb_blockchain.Txpool.SortedMap.drop_nonces hnb_blockchain.Txpool.SortedMap.cap_over
    hnb_blockchain.Txpool.SortedMap.cap hnb_blockchain.Txpool.SortedMap.remove
    hnb_blockchain.Txpool.SortedMap.pop_run hnb_blockchain.Txpool.SortedMap.ready_from
    hnb_blockchain.Txpool.SortedMap.ready hnb_blockchain.Txpool.SortedMap.map_len
    hnb_blockchain.Txpool.SortedMap.flatten hnb_blockchain.Txpool.TxList.new_tx_list
    hnb_blockchain.Txpool.TxList.overlaps hnb_blockchain.Txpool.TxList.add
    hnb_blockchain.Txpool.TxList.forward hnb_blockchain.Txpool.TxList.cap
    hnb_blockchain.Txpool.TxList.ready hnb_blockchain.Txpool.TxList.flatten
    hnb_blockchain.Txpool.TxList.remove hnb_blockchain.Txpool.TxList.list_len
    hnb_blockchain.Txpool.TxList.empty hnb_blockchain.Txpool.Accounts.new_pending_nonce
    hnb_blockchain.Txpool.Accounts.set_nonce hnb_blockchain.Txpool.Accounts.get_nonce
    hnb_blockchain.Txpool.Accounts.new_account_set hnb_blockchain.Txpool.Accounts.contains
    hnb_blockchain.Txpool.Accounts.add_account hnb_blockchain.Txpool.Accounts.flatten_accounts
    hnb_blockchain.Txpool.Accounts.new_tx_lookup hnb_blockchain.Txpool.Accounts.get_tx
    hnb_blockchain.Txpool.Accounts.count hnb_blockchain.Txpool.Accounts.add_tx
    hnb_blockchain.Txpool.Accounts.remove_tx hnb_blockchain.Txpool.Pool.validate_tx
    hnb_blockchain.Txpool.Pool.know hnb_blockchain.Txpool.Pool.enqueue_tx
    hnb_blockchain.Txpool.Pool.mark_local hnb_blockchain.Txpool.Pool.add_valid
    hnb_blockchain.Txpool.Pool.add hnb_blockchain.Txpool.Pool.Moving.forget_all
    hnb_blockchain.Txpool.Pool.Moving.promote_tx hnb_blockchain.Txpool.Pool.Moving.promote_all
    hnb_blockchain.Txpool.Pool.Moving.enqueue_all hnb_blockchain.Txpool.Pool.Moving.lower_nonce
    hnb_blockchain.Txpool.Pool.Moving.remove_known hnb_blockchain.Txpool.Pool.Moving.remove_tx
    hnb_blockchain.Txpool.Pool.Moving.remove_each hnb_blockchain.Txpool.Pool.Moving.drop_stale
    hnb_blockchain.Txpool.Pool.Moving.promote_ready hnb_blockchain.Txpool.Pool.Moving.drop_over
    hnb_blockchain.Txpool.Pool.Moving.promote_list hnb_blockchain.Txpool.Pool.Moving.promote_account
    hnb_blockchain.Txpool.Pool.Moving.promote_accounts
    hnb_blockchain.Txpool.Pool.Moving.drop_executed hnb_blockchain.Txpool.Pool.Moving.demote_list
    hnb_blockchain.Txpool.Pool.Moving.demote_accounts
    hnb_blockchain.Txpool.Pool.Moving.demote_unexecutables hnb_blockchain.Txpool.Pool.Limits.total
    hnb_blockchain.Txpool.Pool.Limits.spammers hnb_blockchain.Txpool.Pool.Limits.drop_pending
    hnb_blockchain.Txpool.Pool.Limits.drop_last hnb_blockchain.Txpool.Pool.Limits.drop_lasts
    hnb_blockchain.Txpool.Pool.Limits.even_out hnb_blockchain.Txpool.Pool.Limits.meet_all
    hnb_blockchain.Txpool.Pool.Limits.limit_pending
    hnb_blockchain.Txpool.Pool.Limits.insert_by_heartbeat
    hnb_blockchain.Txpool.Pool.Limits.by_heartbeat hnb_blockchain.Txpool.Pool.Limits.drop_queued
    hnb_blockchain.Txpool.Pool.Limits.limit_queue hnb_blockchain.Txpool.Pool.Reset.notify
    hnb_blockchain.Txpool.Pool.Reset.promote_executables hnb_blockchain.Txpool.Pool.Reset.add_tx
    hnb_blockchain.Txpool.Pool.Reset.add_local hnb_blockchain.Txpool.Pool.Reset.add_remote
    hnb_blockchain.Txpool.Pool.Reset.add_batch hnb_blockchain.Txpool.Pool.Reset.add_txs_locked
    hnb_blockchain.Txpool.Pool.Reset.add_locals hnb_blockchain.Txpool.Pool.Reset.add_remotes
    hnb_blockchain.Txpool.Pool.Reset.flatten_lists hnb_blockchain.Txpool.Pool.Reset.next_nonces
    hnb_blockchain.Txpool.Pool.Reset.update_nonces hnb_blockchain.Txpool.Pool.Reset.reset
    hnb_blockchain.Txpool.Pool.Reset.add_accounts hnb_blockchain.Txpool.Pool.Reset.empty_tx_pool
    hnb_blockchain.Txpool.Pool.Reset.new_tx_pool hnb_blockchain.Txpool.Pool.Queries.stats
    hnb_blockchain.Txpool.Pool.Queries.pending hnb_blockchain.Txpool.Pool.Queries.content
    hnb_blockchain.Txpool.Pool.Queries.status hnb_blockchain.Txpool.Pool.Events.evict_account
    hnb_blockchain.Txpool.Pool.Events.evict_accounts hnb_blockchain.Txpool.Pool.Events.evict
    hnb_blockchain.Txpool.Pool.Events.loop_step hnb_blockchain.Txpool.Pool.Events.recv_tx
    hnb_blockchain.Txpool.Pool.Events.collect hnb_blockchain.Txpool.Pool.Events.get_txs_from_tx_pool
    hnb_blockchain.Txpool.Pool.Events.is_txs_len_zero
    hnb_blockchain.Txpool.Pool.Events.get_pending_nonce lookup insert erase
    hnb_blockchain.Prelude.Bytes.bytes_equal
refused = refl

add-refused_example :
    Left chain (tx_of 2 4) waiting Error.replace_underpriced (add chain (tx_of 2 4) false waiting).1
add-refused_example = add-refused chain (tx_of 2 4) false waiting Error.replace_underpriced refused

get_txs_from_tx_pool-pending_example :
    ((get_txs_from_tx_pool 1 after).1 ≡ taken_of 1 (all_txs (Queries.pending after).1))
    × All (IsPending after) (get_txs_from_tx_pool 1 after).1
get_txs_from_tx_pool-pending_example =
    get_txs_from_tx_pool-pending 1 [] after (Reached-IsConsistent [] after-Reached)

abbrev few_slots : TxPoolConfig
few_slots = record default_tx_pool_config { global_slots = 1 }

abbrev crowded : TxPool
crowded = record (Reset.add_txs_locked chain (tx_of 3 2 ∷ two_txs) false start).0 {
  config = few_slots;
}

even_out-ends_example : Ended 1 alice (even_out 3 chain 1 alice (alice ∷ []) (3, crowded))
even_out-ends_example =
    even_out-ends 3 chain 1 alice (alice ∷ []) 3 crowded (omega arith) (omega arith) (omega arith)
      (omega arith)
