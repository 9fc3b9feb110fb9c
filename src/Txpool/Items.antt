-- ===== src/Txpool/Items.antt =====
-- Go maps from nonces to transactions, as association lists, and the transactions in the order of
-- their nonces.
pub mod Laws
use hnb_blockchain.Prelude.{ℕ, ◌==◌, ltb, leb, if◌then◌else◌, Option, none, some, List, [], ◌∷◌}
use hnb_blockchain.Ledger.Types.{Transaction}

abbrev pub Items : Type 0
Items = List (ℕ × Transaction)

-- `m[n]`, nil where it is missing.
unfoldable pub item : ℕ → Items → Option Transaction
item n [] = none
item n ((k, tx) ∷ m) = if k == n then some tx else item n m

-- `m[n] = tx`
unfoldable pub insert_item : ℕ → Transaction → Items → Items
insert_item n tx [] = (n, tx) ∷ []
insert_item n tx ((k, old) ∷ m) = if k == n then (n, tx) ∷ m else (k, old) ∷ insert_item n tx m

-- `delete(m, n)`
unfoldable pub erase_item : ℕ → Items → Items
erase_item n [] = []
erase_item n ((k, tx) ∷ m) = if k == n then erase_item n m else (k, tx) ∷ erase_item n m

abbrev pub keys : Items → List ℕ
keys [] = []
keys ((k, tx) ∷ m) = k ∷ keys m

abbrev pub values : Items → List Transaction
values [] = []
values ((k, tx) ∷ m) = tx ∷ values m

-- `sort.Sort` by nonce.
unfoldable pub insert_by_nonce : Transaction → List Transaction → List Transaction
insert_by_nonce tx [] = tx ∷ []
insert_by_nonce tx (x ∷ l) =
    if leb tx.nonce_value x.nonce_value then tx ∷ x ∷ l else x ∷ insert_by_nonce tx l

unfoldable pub sort_by_nonce : List Transaction → List Transaction
unfolding insert_by_nonce
sort_by_nonce [] = []
sort_by_nonce (x ∷ l) = insert_by_nonce x (sort_by_nonce l)

-- `sort.Sort` and `heap.Init` on nonces, and `heap.Push` on ordered ones.
unfoldable pub push_nonce : ℕ → List ℕ → List ℕ
push_nonce n [] = n ∷ []
push_nonce n (k ∷ index) = if leb n k then n ∷ k ∷ index else k ∷ push_nonce n index

unfoldable pub sort_nonces : List ℕ → List ℕ
unfolding push_nonce
sort_nonces [] = []
sort_nonces (n ∷ index) = push_nonce n (sort_nonces index)

-- `heap.Remove` of the first entry that equals `n`.
unfoldable pub remove_nonce : ℕ → List ℕ → List ℕ
remove_nonce n [] = []
remove_nonce n (k ∷ index) = if k == n then index else k ∷ remove_nonce n index
