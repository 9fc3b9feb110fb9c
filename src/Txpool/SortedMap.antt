-- ===== src/Txpool/SortedMap.antt =====
-- txpool/tx_list.go: the transactions of one account by their nonces, with an index and a cache of
-- their order.
--
-- The index of the source is a slice that container/heap keeps as a heap. Its first entry is the
-- least and `heap.Pop` takes the least; the order of the others is seen only after a sort. So it is
-- kept in ascending order here. A nonce of the index with no transaction, whose nil pointer the
-- source would hand out, is passed over.
pub mod Laws
pub mod Loops
pub mod Refines
pub mod Changes
pub mod Cap
use hnb_blockchain.Prelude.{
  ℕ, zero, suc, ◌+◌, ◌-◌, ◌%◌, ◌^◌, ◌==◌, ltb, leb, if◌then◌else◌, not, Bool, true, false, Option,
  none, some, List, [], ◌∷◌, ◌++◌, length, take, drop,
}
use hnb_blockchain.Ledger.Types.{Transaction}
use hnb_blockchain.Txpool.Items.{
  Items, item, insert_item, erase_item, keys, values, sort_by_nonce, push_nonce, sort_nonces,
  remove_nonce,
}

pub record TxSortedMap : Type 0 where
  pub items : Items
  pub index : List ℕ
  pub cache : Option (List Transaction)

unfoldable pub new_tx_sorted_map : TxSortedMap
new_tx_sorted_map = record { items = []; index = []; cache = none }

abbrev pub append_item : Option Transaction → List Transaction → List Transaction
append_item none removed = removed
append_item (some tx) removed = tx ∷ removed

abbrev pub is_some : Option Transaction → Bool
is_some none = false
is_some (some tx) = true

-- A change of the cached order, where there is one.
abbrev pub on_cache :
    (List Transaction → List Transaction) → Option (List Transaction) → Option (List Transaction)
on_cache f none = none
on_cache f (some c) = some (f c)

unfoldable pub get : ℕ → TxSortedMap → Option Transaction
get nonce m = item nonce m.items

unfoldable pub put : Transaction → TxSortedMap → TxSortedMap
put tx m = record {
  items = insert_item tx.nonce_value tx m.items;
  index =
      if is_some (item tx.nonce_value m.items) then m.index else push_nonce tx.nonce_value m.index;
  cache = none;
}

-- What a loop over the index leaves: the transactions that it took, the items and the index.
pub record Taken : Type 0 where
  pub removed : List Transaction
  pub items : Items
  pub index : List ℕ

abbrev pub taking : ℕ → Items → Taken → Taken
taking nonce items r = record r { removed = append_item (item nonce items) r.removed }

unfoldable pub pop_below : ℕ → List ℕ → Items → Taken
pop_below threshold [] items = record { removed = []; items = items; index = [] }
pop_below threshold (nonce ∷ index) items =
    let r = pop_below threshold index (erase_item nonce items) in
    if ltb nonce threshold
    then taking nonce items r
    else record { removed = []; items = items; index = nonce ∷ index }

unfoldable pub forward : ℕ → TxSortedMap → TxSortedMap × List Transaction
unfolding pop_below
forward threshold m =
    let r = pop_below threshold m.index m.items in
    (
      record {
        items = r.items;
        index = r.index;
        cache = on_cache (drop (length r.removed)) m.cache;
      },
      r.removed,
    )

-- The values that the test picks, and the items without them.
unfoldable pub picked : (Transaction → Bool) → Items → List Transaction
picked test [] = []
picked test ((k, tx) ∷ m) = if test tx then tx ∷ picked test m else picked test m

unfoldable pub unpicked : (Transaction → Bool) → Items → Items
unpicked test [] = []
unpicked test ((k, tx) ∷ m) = if test tx then unpicked test m else (k, tx) ∷ unpicked test m

abbrev pub refreshed : List Transaction → Items → TxSortedMap → TxSortedMap
refreshed [] items m = record m { items = items }
refreshed (x ∷ l) items m = record { items = items; index = sort_nonces (keys items); cache = none }

unfoldable pub filter : (Transaction → Bool) → TxSortedMap → TxSortedMap × List Transaction
unfolding picked unpicked
filter test m =
    let removed = picked test m.items in (refreshed removed (unpicked test m.items) m, removed)

abbrev pub reverse_onto {ℓ} : {A : Type ℓ} → List A → List A → List A
reverse_onto [] acc = acc
reverse_onto (x ∷ l) acc = reverse_onto l (x ∷ acc)

-- The transactions at the nonces, taken one by one.
unfoldable pub drop_nonces : List ℕ → Items → Taken
drop_nonces [] items = record { removed = []; items = items; index = [] }
drop_nonces (nonce ∷ index) items = taking nonce items (drop_nonces index (erase_item nonce items))

-- Behind the guard: the loop visits the positions from the number of items, less one, down to the
-- threshold.
unfoldable pub cap_over : ℕ → TxSortedMap → TxSortedMap × List Transaction
unfolding drop_nonces sort_nonces
cap_over threshold m =
    let index = sort_nonces m.index in
    let r = drop_nonces (reverse_onto (drop threshold (take (length m.items) index)) []) m.items in
    (
      record {
        items = r.items;
        index = take threshold index;
        cache = on_cache (λ c. take (length c - length r.removed) c) m.cache;
      },
      r.removed,
    )

unfoldable pub cap : ℕ → TxSortedMap → TxSortedMap × List Transaction
unfolding cap_over
cap threshold m = if leb (length m.items) threshold then (m, []) else cap_over threshold m

unfoldable pub remove : ℕ → TxSortedMap → TxSortedMap × Bool
remove nonce m =
    if is_some (item nonce m.items)
    then (
      record { items = erase_item nonce m.items; index = remove_nonce nonce m.index; cache = none },
      true,
    )
    else (m, false)

-- The loop of `Ready`; `next` is a `uint64`.
unfoldable pub pop_run : ℕ → List ℕ → Items → Taken
pop_run next [] items = record { removed = []; items = items; index = [] }
pop_run next (nonce ∷ index) items =
    let r = pop_run ((next + 1) % 2 ^ 64) index (erase_item next items) in
    if nonce == next
    then taking next items r
    else record { removed = []; items = items; index = nonce ∷ index }

-- Behind the guard: the run starts at the least nonce.
unfoldable pub ready_from : ℕ → TxSortedMap → TxSortedMap × List Transaction
unfolding pop_run
ready_from least m =
    let r = pop_run least m.index m.items in
    (record { items = r.items; index = r.index; cache = none }, r.removed)

abbrev pub ready_at : ℕ → List ℕ → TxSortedMap → TxSortedMap × List Transaction
ready_at start [] m = (m, [])
ready_at start (least ∷ index) m = if ltb start least then (m, []) else ready_from least m

unfoldable pub ready : ℕ → TxSortedMap → TxSortedMap × List Transaction
unfolding ready_from
ready start m = ready_at start m.index m

unfoldable pub map_len : TxSortedMap → ℕ
map_len m = length m.items

abbrev pub cached_or : Items → Option (List Transaction) → List Transaction
cached_or items none = sort_by_nonce (values items)
cached_or items (some c) = c

unfoldable pub flatten : TxSortedMap → TxSortedMap × List Transaction
flatten m = let txs = cached_or m.items m.cache in (record m { cache = some txs }, txs)
