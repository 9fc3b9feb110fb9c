-- ===== src/Txpool/Pool/Consistent/Limiting.antt =====
-- txpool/tx_pool.go: the limits of promoteExecutables keep the pool consistent.
use hnb_blockchain.Prelude.{
  ℕ, suc, ◌+◌, ◌-◌, ◌&&◌, zero, ◌==◌, ◌%◌, ◌^◌, ltb, if◌then◌else◌, ◌≡◌, refl, Bool, true, false,
  Option, none, some, List, [], ◌∷◌, length,
}
use hnb_blockchain.Prelude.Bytes.{Bytes}
use hnb_blockchain.Prelude.Assoc.{lookup}
use hnb_blockchain.Ledger.Types.{Transaction}
use hnb_blockchain.Txpool.TxList.{TxList}
use hnb_blockchain.Txpool.Accounts.{remove_tx}
use hnb_blockchain.Txpool.Pool.Consistent.{hand_to_void}
use hnb_blockchain.Txpool.TxList
use hnb_blockchain.Txpool.TxList.{new_tx_list}
use hnb_blockchain.Txpool.Pool.{TxPool, Chain}
use hnb_blockchain.Txpool.SortedMap.{reverse_onto}
use hnb_blockchain.Txpool.Pool.Moving.{set_pending, promote_accounts}
use hnb_blockchain.Txpool.Pool.Splits.{none-Splits}
use hnb_blockchain.Txpool.Pool.Consistent.Placing.{Sound}
use hnb_blockchain.Txpool.Pool.Consistent.Parts.{cap-taken, named}
use hnb_blockchain.Txpool.TxList.{is_later, remove_later, if_removed, Removed}
use hnb_blockchain.Txpool.Pool.Moving.{lower_nonce, remove_each}
use hnb_blockchain.Txpool.Pool.Consistent.{hand_to_void}
use hnb_blockchain.Txpool.Pool.Consistent.Demotion.{pending_taken, Listed}
use hnb_blockchain.Txpool.Pool.Consistent.Passes.{queue_taken, Queued}
use hnb_blockchain.Txpool.Pool.Consistent.Passes.{promote_accounts-Sound}
use hnb_blockchain.Txpool.Pool.Consistent.Removing.{lower_nonce-Sound, remove_each-Sound}
use hnb_blockchain.Txpool.TxList.Laws.{flatten-Held, flatten-strict}
use hnb_blockchain.Txpool.Pool.Limits.{
  drop_pending, drop_last, drop_last_of, drop_lasts, even_out, meet, meet_all, reduce,
  limit_pending, flat_queue, drop_queued, limit_queue, Counted, spammers, total, by_heartbeat,
  to_drop, len_of,
}
use hnb_blockchain.Txpool.Pool.Reset.{notify, promote_executables, accounts_or}
use hnb_blockchain.Txpool.Pool.Splits.{none-Splits}

drop_pending-Sound :
    (c : Chain) (addr : Bytes) (r : List Transaction) (pool : TxPool)
    → Sound pool addr r
    → Sound (drop_pending c addr r pool) addr []
unfolding drop_pending
drop_pending-Sound c addr [] pool s = s
drop_pending-Sound c addr (tx ∷ r) pool s =
    let p = record pool { all = remove_tx tx.txid pool.all } in
    drop_pending-Sound c addr r (lower_nonce c addr tx.nonce_value p) (
      lower_nonce-Sound c addr addr tx.nonce_value r p
        (hand_to_void pool.pending pool.queue pool.all addr tx r s))

drop_last_of-Sound :
    (c : Chain) (addr : Bytes) (pool : TxPool)
    → Sound pool addr []
    → (o : Option TxList) → lookup addr pool.pending ≡ o
    → Sound (drop_last_of c addr o pool) addr []
drop_last_of-Sound c addr pool s none e = s
drop_last_of-Sound c addr pool s (some l) e =
    let h = s.pending_held.each addr l e in
    let n = TxList.list_len l - 1 in
    let f = TxList.cap n l in
    let q : Listed addr l pool = record { sound = s; listed = e } in
    drop_pending-Sound c addr f.1 (set_pending addr f.0 pool)
      (pending_taken f.0 q h.1 h.2 (cap-taken n h.1))

drop_last-Sound :
    (c : Chain) (addr a : Bytes) (pool : TxPool)
    → Sound pool a []
    → Sound (drop_last c addr pool) a []
unfolding drop_last
drop_last-Sound c addr a pool s =
    named addr a (drop_last c addr pool)
      (drop_last_of-Sound c addr pool (named a addr pool s) (lookup addr pool.pending) refl)

drop_lasts-Sound :
    (c : Chain) (addrs : List Bytes) (a : Bytes) (s : Counted)
    → Sound s.1 a []
    → Sound (drop_lasts c addrs s).1 a []
unfolding drop_lasts
drop_lasts-Sound c [] a s h = h
drop_lasts-Sound c (addr ∷ addrs) a (n, pool) h =
    drop_lasts-Sound c addrs a ((n + (2 ^ 64 - 1)) % 2 ^ 64, drop_last c addr pool)
      (drop_last-Sound c addr a pool h)

if_counted :
    (b : Bool) (a : Bytes) (s t : Counted)
    → Sound s.1 a []
    → Sound t.1 a []
    → Sound (if b then s else t).1 a []
if_counted true a s t h k = h
if_counted false a s t h k = k

even_out-Sound :
    (fuel : ℕ) (c : Chain) (threshold : ℕ) (addr : Bytes) (offenders : List Bytes) (a : Bytes)
    (s : Counted)
    → Sound s.1 a []
    → Sound (even_out fuel c threshold addr offenders s).1 a []
unfolding even_out
even_out-Sound zero c threshold addr offenders a s h = h
even_out-Sound (suc fuel) c threshold addr offenders a (n, pool) h =
    let r = drop_lasts c offenders (n, pool) in
    if_counted (ltb pool.config.global_slots n && ltb threshold (len_of (lookup addr pool.pending)))
      a (even_out fuel c threshold addr offenders r) (n, pool)
      (even_out-Sound fuel c threshold addr offenders a r
        (drop_lasts-Sound c offenders a (n, pool) h))
      h

meet-Sound :
    (c : Chain) (offender : Bytes) (offenders : List Bytes) (a : Bytes) (s : Counted)
    → Sound s.1 a []
    → Sound (meet c offender offenders s).1 a []
meet-Sound c offender [] a s h = h
meet-Sound c offender (last ∷ others) a (n, pool) h =
    even_out-Sound n c (len_of (lookup offender pool.pending)) last
      (reverse_onto (last ∷ others) []) a (n, pool) h

if_met :
    (b : Bool) (a : Bytes) (s t : List Bytes × Counted)
    → Sound s.1.1 a []
    → Sound t.1.1 a []
    → Sound (if b then s else t).1.1 a []
if_met true a s t h k = h
if_met false a s t h k = k

meet_all-Sound :
    (c : Chain) (order offenders : List Bytes) (a : Bytes) (s : Counted)
    → Sound s.1 a []
    → Sound (meet_all c order offenders s).1.1 a []
unfolding meet_all
meet_all-Sound c [] offenders a s h = h
meet_all-Sound c (offender ∷ order) offenders a (n, pool) h =
    let r = meet c offender offenders (n, pool) in
    if_met (ltb pool.config.global_slots n) a (meet_all c order (offender ∷ offenders) r)
      (offenders, (n, pool))
      (meet_all-Sound c order (offender ∷ offenders) a r
        (meet-Sound c offender offenders a (n, pool) h))
      h

reduce-Sound :
    (c : Chain) (a : Bytes) (s : List Bytes × Counted)
    → Sound s.1.1 a []
    → Sound (reduce c s).1 a []
reduce-Sound c a ([], s) h = h
reduce-Sound c a (last ∷ others, (n, pool)) h =
    even_out-Sound n c pool.config.account_slots last (reverse_onto (last ∷ others) []) a (n, pool)
      h

pub if_pool :
    (b : Bool) (a : Bytes) (p q : TxPool)
    → Sound p a []
    → Sound q a []
    → Sound (if b then p else q) a []
if_pool true a p q h k = h
if_pool false a p q h k = k

limit_pending-Sound :
    (c : Chain) (a : Bytes) (pool : TxPool) → Sound pool a [] → Sound (limit_pending c pool) a []
unfolding limit_pending
limit_pending-Sound c a pool h =
    let n = total pool.pending % 2 ^ 64 in
    let m = meet_all c (c.spam_order (spammers pool pool.pending)) [] (n, pool) in
    if_pool (ltb pool.config.global_slots n) a (reduce c m).1 pool
      (reduce-Sound c a m
        (meet_all-Sound c (c.spam_order (spammers pool pool.pending)) [] a (n, pool) h))
      h

flat_queue-Sound :
    (addr : Bytes) (pool : TxPool)
    → Sound pool addr []
    → (o : Option TxList) → lookup addr pool.queue ≡ o
    → Sound (flat_queue addr o pool).0 addr []
flat_queue-Sound addr pool s none e = s
flat_queue-Sound addr pool s (some l) e =
    let h = s.queue_held.each addr l e in
    let f = flatten-Held h.1 in
    let q : Queued addr l pool = record { sound = s; listed = e } in
    queue_taken (TxList.flatten l).0 q h.1 h.2 (record {
      kept = h.0;
      held = f.0;
      splits = none-Splits h.0 h.1.holds.stores.ascending h.1.words;
      mode = flatten-strict l;
    })

pub flat-Sound :
    (addr a : Bytes) (pool : TxPool)
    → Sound pool a []
    → Sound (flat_queue addr (lookup addr pool.queue) pool).0 a []
flat-Sound addr a pool s =
    named addr a (flat_queue addr (lookup addr pool.queue) pool).0
      (flat_queue-Sound addr pool (named a addr pool s) (lookup addr pool.queue) refl)

drop_queued-Sound :
    (c : Chain) (addrs : List (Bytes × ℕ)) (excess : ℕ) (a : Bytes) (pool : TxPool)
    → Sound pool a []
    → Sound (drop_queued c addrs excess pool) a []
unfolding drop_queued
drop_queued-Sound c [] excess a pool s = s
drop_queued-Sound c ((addr, beat) ∷ addrs) excess a pool s =
    let f = flat_queue addr (lookup addr pool.queue) pool in
    let p = remove_each c (to_drop excess f.1) f.0 in
    if_pool (excess == 0) a pool (drop_queued c addrs (excess - length f.1) p) s (
      drop_queued-Sound c addrs (excess - length f.1) a p
        (remove_each-Sound c a (to_drop excess f.1) f.0 (flat-Sound addr a pool s)))

limit_queue-Sound :
    (c : Chain) (a : Bytes) (pool : TxPool) → Sound pool a [] → Sound (limit_queue c pool) a []
unfolding limit_queue
limit_queue-Sound c a pool s =
    let n = total pool.queue % 2 ^ 64 in
    if_pool (ltb pool.config.global_queue n) a
      (drop_queued c (by_heartbeat pool pool.queue) (n - pool.config.global_queue) pool) pool
      (drop_queued-Sound c (by_heartbeat pool pool.queue) (n - pool.config.global_queue) a pool s) s

notify-Sound : (a : Bytes) (pool : TxPool) → Sound pool a [] → Sound (notify pool) a []
unfolding notify
notify-Sound a pool s =
    if_pool (ltb pool.notify 10) a (record pool { notify = pool.notify + 1 }) pool s s

-- promoteExecutables keeps the pool consistent.
pub promote_executables-Sound :
    (c : Chain) (accounts : Option (List Bytes)) (a : Bytes) (pool : TxPool)
    → Sound pool a []
    → Sound (promote_executables c accounts pool) a []
unfolding promote_executables
promote_executables-Sound c accounts a pool s =
    let p1 = promote_accounts c (accounts_or accounts pool) pool in
    limit_queue-Sound c a (limit_pending c (notify p1)) (
      limit_pending-Sound c a (notify p1)
        (notify-Sound a p1 (promote_accounts-Sound c (accounts_or accounts pool) a pool s)))
