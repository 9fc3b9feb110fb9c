-- ===== src/Txpool/Pool/Consistent/ListRemoval.antt =====
-- txpool/tx_list.go: what Remove takes out of a list.
use hnb_blockchain.Prelude.{
  ℕ, ◌≡◌, refl, ap, ◌∙◌, Bool, true, false, none, some, List, [], ◌∷◌, arith,
}
use hnb_blockchain.Ledger.Types.{Transaction}
use hnb_blockchain.Txpool.Ordered.{find}
use hnb_blockchain.Txpool.SortedMap
use hnb_blockchain.Txpool.TxList.{TxList}
use hnb_blockchain.Txpool.TxList.Laws.{Held}
use hnb_blockchain.Txpool.TxList
use hnb_blockchain.Txpool.TxList.{new_tx_list}
use hnb_blockchain.Txpool.SortedMap.{reverse_onto}
use hnb_blockchain.Txpool.Ordered.{AreWords}
use hnb_blockchain.Txpool.Pool.Splits.{Splits}
use hnb_blockchain.Txpool.Pool.Consistent.Parts.{Taken}
use hnb_blockchain.Txpool.Ordered.{without, has_nonce}
use hnb_blockchain.Txpool.SortedMap.{TxSortedMap, is_some, filter}
use hnb_blockchain.Txpool.SortedMap.Refines.{Holds}
use hnb_blockchain.Txpool.SortedMap.Changes.{remove-Holds, filter-Holds}
use hnb_blockchain.Txpool.TxList.{is_later, remove_later, if_removed, Removed}
use hnb_blockchain.Txpool.TxList.Laws.{without-AreWords}
use hnb_blockchain.Txpool.Pool.Filtering.{filter-Splits, one-Splits, chain-Splits}

pub find-nonce :
    (n : ℕ) (l : List Transaction) (x : Transaction) → find n l ≡ some x → x.nonce_value ≡ n
unfolding find
find-nonce n [] x e = cc
find-nonce n (y ∷ l) x e = ground (arith, e, find-nonce n l x)

later-taken :
    (b : Bool) (n : ℕ) (l : TxList) (m : TxSortedMap) (txs k : List Transaction) (old : Transaction)
    → Holds m k
    → AreWords k
    → Splits txs k (old ∷ [])
    → ((remove_later b n (record l { txs = m })).1 ≡ true)
      × Taken l
          (remove_later b n (record l { txs = m })).0
          (old ∷ (remove_later b n (record l { txs = m })).2)
          txs
later-taken true n l m txs k old h w s = (
  refl,
  record {
    kept = without (is_later n) k;
    held = record {
      holds = (filter-Holds (is_later n) m k h).0;
      words = without-AreWords (is_later n) k w;
    };
    splits =
        chain-Splits txs k (without (is_later n) k) (filter (is_later n) m).1 old s
          (filter-Splits (is_later n) m k h w);
    mode = refl;
  },
)
later-taken false n l m txs k old h w s =
    (refl, record { kept = k; held = record { holds = h; words = w }; splits = s; mode = refl })

if_removed-taken :
    (r : TxSortedMap × Bool) (n : ℕ) (l : TxList) (txs k : List Transaction) (old : Transaction)
    → r.1 ≡ true
    → Holds r.0 k
    → AreWords k
    → Splits txs k (old ∷ [])
    → ((if_removed r n l).1 ≡ true) × Taken l (if_removed r n l).0 (old ∷ (if_removed r n l).2) txs
if_removed-taken (m, false) n l txs k old e h w s = absurd (ground (arith, e))
if_removed-taken (m, true) n l txs k old e h w s = later-taken l.strict n l m txs k old h w s

-- A removal that finds a transaction takes it out, with all that it invalidates.
pub remove-taken :
    {l : TxList} {txs : List Transaction} (tx old : Transaction)
    → Held l txs
    → find tx.nonce_value txs ≡ some old
    → ((TxList.remove tx l).1 ≡ true)
      × Taken l (TxList.remove tx l).0 (old ∷ (TxList.remove tx l).2) txs
unfolding TxList.remove
remove-taken {l} {txs} tx old h e =
    let n = tx.nonce_value in
    let p = remove-Holds n l.txs txs h.holds in
    if_removed-taken (SortedMap.remove n l.txs) n l txs (without (has_nonce n) txs) old
      (p.1 ∙ ap is_some e) p.0 (without-AreWords (has_nonce n) txs h.words)
      (one-Splits n txs old e (find-nonce n txs old e) h.words)

loose_later :
    (r : TxSortedMap × Bool) (n : ℕ) (l : TxList) → l.strict ≡ false → (if_removed r n l).2 ≡ []
loose_later (m, false) n l e = refl
loose_later (m, true) n l e = ap (λ (b : Bool). (remove_later b n (record l { txs = m })).2) e

-- Outside the strict mode nothing else is invalidated.
pub remove-loose : (tx : Transaction) (l : TxList) → l.strict ≡ false → (TxList.remove tx l).2 ≡ []
unfolding TxList.remove
remove-loose tx l e = loose_later (SortedMap.remove tx.nonce_value l.txs) tx.nonce_value l e

missing_later :
    (r : TxSortedMap × Bool) (n : ℕ) (l : TxList) → r.1 ≡ false → if_removed r n l ≡ (l, false, [])
missing_later (m, false) n l e = refl
missing_later (m, true) n l e = absurd (ground (arith, e))

-- A removal that finds nothing changes nothing.
pub remove-missing :
    {l : TxList} {txs : List Transaction} (tx : Transaction)
    → Held l txs
    → find tx.nonce_value txs ≡ none
    → TxList.remove tx l ≡ (l, false, [])
unfolding TxList.remove
remove-missing {l} {txs} tx h e =
    missing_later (SortedMap.remove tx.nonce_value l.txs) tx.nonce_value l
      ((remove-Holds tx.nonce_value l.txs txs h.holds).1 ∙ ap is_some e)
