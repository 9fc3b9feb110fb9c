-- ===== src/Txpool/Pool/Consistent/Flattening.antt =====
-- txpool/tx_pool.go: the calls that flatten the lists keep the pool consistent.
use hnb_blockchain.Prelude.{
  ℕ, if◌then◌else◌, ◌≡◌, refl, ap, sym, ◌∙◌, subst, Bool, true, false, Option, none, some, List, [],
  ◌∷◌, arith,
}
use hnb_blockchain.Prelude.Bytes.{Bytes, bytes_equal}
use hnb_blockchain.Prelude.Assoc.{IsDistinct, Dict, lookup}
use hnb_blockchain.Ledger.Types.{Transaction}
use hnb_blockchain.Txpool.SortedMap
use hnb_blockchain.Txpool.TxList.{TxList}
use hnb_blockchain.Txpool.TxList.Laws.{Held}
use hnb_blockchain.Txpool.Pool.Slots.{in_list, slot, AreHeld}
use hnb_blockchain.Txpool.TxList
use hnb_blockchain.Txpool.TxList.{new_tx_list}
use hnb_blockchain.Txpool.Pool.{TxPool}
use hnb_blockchain.Txpool.SortedMap.{reverse_onto}
use hnb_blockchain.Txpool.Pool.Consistent.Taking.{same_slots}
use hnb_blockchain.Txpool.Pool.Consistent.Placing.{Sound}
use hnb_blockchain.Txpool.SortedMap.{TxSortedMap, is_some, filter}
use hnb_blockchain.Txpool.TxList.{is_later, remove_later, if_removed, Removed}
use hnb_blockchain.Txpool.TxList.Laws.{flatten-Held, flatten-strict}
use hnb_blockchain.Txpool.Pool.Reset.{flatten_lists}
use hnb_blockchain.Txpool.Pool.Queries

abbrev flat_option : Option TxList → Option TxList
flat_option none = none
flat_option (some l) = some (TxList.flatten l).0

lookup-flatten_lists :
    (a : Bytes) (m : Dict TxList) → lookup a (flatten_lists m).0 ≡ flat_option (lookup a m)
unfolding flatten_lists lookup
lookup-flatten_lists a [] = refl
lookup-flatten_lists a ((k, l) ∷ m) = flat_if (bytes_equal k a) (lookup-flatten_lists a m)
  where
    flat_if :
        (b : Bool)
        → lookup a (flatten_lists m).0 ≡ flat_option (lookup a m)
        → (if b then some (TxList.flatten l).0 else lookup a (flatten_lists m).0)
          ≡ flat_option (if b then some l else lookup a m)
    flat_if true ih = refl
    flat_if false ih = ih

get-flatten :
    (n : ℕ) (l : TxList) → SortedMap.get n (TxList.flatten l).0.txs ≡ SortedMap.get n l.txs
unfolding TxList.flatten SortedMap.flatten SortedMap.get
get-flatten n l = refl

in_list-flat : (n : ℕ) (o : Option TxList) → in_list n (flat_option o) ≡ in_list n o
in_list-flat n none = refl
in_list-flat n (some l) = get-flatten n l

slot-flatten_lists :
    (m : Dict TxList) (a : Bytes) (n : ℕ) → slot m a n ≡ slot (flatten_lists m).0 a n
unfolding slot
slot-flatten_lists m a n =
    sym (in_list-flat n (lookup a m)) ∙ ap (in_list n) (sym (lookup-flatten_lists a m))

flat-Held :
    (b : Bool) (o : Option TxList)
    → ((l : TxList) → o ≡ some l → (txs : List Transaction) × Held l txs × (l.strict ≡ b))
    → (l' : TxList) → flat_option o ≡ some l'
    → (txs : List Transaction) × Held l' txs × (l'.strict ≡ b)
flat-Held b none h l' e = absurd (ground (arith, e))
flat-Held b (some l) h l' e =
    let p = h l refl in
    let e' : (TxList.flatten l).0 ≡ l' = ground (arith, e) in
    (
      p.0,
      subst (λ (k : TxList). Held k p.0) e' (flatten-Held p.1).0,
      subst (λ (k : TxList). k.strict ≡ b) e' (flatten-strict l ∙ p.2),
    )

flat_absent :
    (k : Bytes) (m : Dict TxList) → lookup k m ≡ none → lookup k (flatten_lists m).0 ≡ none
flat_absent k m e = lookup-flatten_lists k m ∙ ap flat_option e

flatten_lists-IsDistinct : (m : Dict TxList) → IsDistinct m → IsDistinct (flatten_lists m).0
unfolding flatten_lists
flatten_lists-IsDistinct [] d = tt
flatten_lists-IsDistinct ((k, l) ∷ m) d = (flat_absent k m d.0, flatten_lists-IsDistinct m d.1)

flatten_lists-AreHeld : (b : Bool) (m : Dict TxList) → AreHeld b m → AreHeld b (flatten_lists m).0
flatten_lists-AreHeld b m h = record {
  distinct = flatten_lists-IsDistinct m h.distinct;
  each = λ a l' e.
      flat-Held b (lookup a m) (λ l k. h.each a l k) l' (sym (lookup-flatten_lists a m) ∙ e);
}

pub flattened-Sound :
    (a : Bytes) (pool : TxPool)
    → Sound pool a []
    → Sound (record pool { pending = (flatten_lists pool.pending).0 }) a []
flattened-Sound a pool s =
    same_slots pool.pending pool.queue (flatten_lists pool.pending).0 pool.queue pool.all a [] s
      (slot-flatten_lists pool.pending) (λ b n. refl)
      (flatten_lists-AreHeld true pool.pending s.pending_held) s.queue_held

pub pending-Sound :
    (a : Bytes) (pool : TxPool) → Sound pool a [] → Sound (Queries.pending pool).0 a []
unfolding Queries.pending
pending-Sound a pool s = flattened-Sound a pool s

pub content-Sound :
    (a : Bytes) (pool : TxPool) → Sound pool a [] → Sound (Queries.content pool).0 a []
unfolding Queries.content
content-Sound a pool s =
    same_slots pool.pending pool.queue (flatten_lists pool.pending).0 (flatten_lists pool.queue).0
      pool.all a [] s (slot-flatten_lists pool.pending) (slot-flatten_lists pool.queue)
      (flatten_lists-AreHeld true pool.pending s.pending_held)
      (flatten_lists-AreHeld false pool.queue s.queue_held)
