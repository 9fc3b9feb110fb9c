-- ===== src/Txpool/TxList.antt =====
-- txpool/tx_list.go: txList, the transactions of one account, pending ones without gaps (`strict`) or
-- queued ones. The two price bounds of the source are written once and read by no code.
pub mod Laws
use hnb_blockchain.Prelude.{
  ℕ, ◌==◌, ltb, if◌then◌else◌, Bool, true, false, Option, none, some, List, [], ◌∷◌,
}
use hnb_blockchain.Ledger.Types.{Transaction}
use hnb_blockchain.Txpool.SortedMap
use hnb_blockchain.Txpool.SortedMap.{TxSortedMap, new_tx_sorted_map, is_some}

pub record TxList : Type 0 where
  pub strict : Bool
  pub txs : TxSortedMap

unfoldable pub new_tx_list : Bool → TxList
new_tx_list strict = record { strict = strict; txs = new_tx_sorted_map }

unfoldable pub overlaps : Transaction → TxList → Bool
overlaps tx l = is_some (SortedMap.get tx.nonce_value l.txs)

-- The list, whether the transaction was taken, and the one that it replaced.
abbrev pub Added : Type 0
Added = TxList × Bool × Option Transaction

abbrev pub add_new : Option Transaction → Transaction → TxList → Added
add_new none tx l = (record l { txs = SortedMap.put tx l.txs }, true, none)
add_new (some old) tx l = (l, false, none)

unfoldable pub add : Transaction → TxList → Added
add tx l = add_new (SortedMap.get tx.nonce_value l.txs) tx l

-- An operation of the map, on the list's map.
abbrev pub on_txs :
    (TxSortedMap → TxSortedMap × List Transaction) → TxList → TxList × List Transaction
on_txs f l = let (m, txs) = f l.txs in (record l { txs = m }, txs)

unfoldable pub forward : ℕ → TxList → TxList × List Transaction
forward threshold l = on_txs (SortedMap.forward threshold) l

unfoldable pub cap : ℕ → TxList → TxList × List Transaction
cap threshold l = on_txs (SortedMap.cap threshold) l

unfoldable pub ready : ℕ → TxList → TxList × List Transaction
ready start l = on_txs (SortedMap.ready start) l

unfoldable pub flatten : TxList → TxList × List Transaction
flatten l = on_txs SortedMap.flatten l

abbrev pub is_later : ℕ → Transaction → Bool
is_later nonce tx = ltb nonce tx.nonce_value

-- The list, whether the transaction was found, and the ones that its removal invalidates.
abbrev pub Removed : Type 0
Removed = TxList × Bool × List Transaction

abbrev pub remove_later : Bool → ℕ → TxList → Removed
remove_later true nonce l =
    let (l', invalids) = on_txs (SortedMap.filter (is_later nonce)) l in (l', true, invalids)
remove_later false nonce l = (l, true, [])

abbrev pub if_removed : TxSortedMap × Bool → ℕ → TxList → Removed
if_removed (m, false) nonce l = (l, false, [])
if_removed (m, true) nonce l = remove_later l.strict nonce (record l { txs = m })

unfoldable pub remove : Transaction → TxList → Removed
remove tx l = if_removed (SortedMap.remove tx.nonce_value l.txs) tx.nonce_value l

unfoldable pub list_len : TxList → ℕ
list_len l = SortedMap.map_len l.txs

unfoldable pub empty : TxList → Bool
empty l = list_len l == 0
