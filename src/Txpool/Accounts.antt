-- ===== src/Txpool/Accounts.antt =====
-- txpool/store.go and the sets of txpool/tx_pool.go: the next nonce of each account, the accounts
-- that count as local, and the transactions by their hashes.
use hnb_blockchain.Prelude.{ℕ, Bool, true, false, Option, none, some, List, [], ◌∷◌, length}
use hnb_blockchain.Prelude.Bytes.{Bytes}
use hnb_blockchain.Prelude.Assoc.{Dict, lookup, insert, erase}
use hnb_blockchain.Ledger.Types.{Transaction}

pub record PendingCache : Type 0 where
  pub nonce : Dict ℕ

unfoldable pub new_pending_nonce : PendingCache
new_pending_nonce = record { nonce = [] }

unfoldable pub set_nonce : Bytes → ℕ → PendingCache → PendingCache
set_nonce address nonce pc = record { nonce = insert address nonce pc.nonce }

abbrev pub nonce_or : ℕ → Option ℕ → ℕ
nonce_or n none = n
nonce_or n (some m) = m

-- An account with no entry has the nonce of the ledger.
unfoldable pub get_nonce : (Bytes → ℕ) → Bytes → PendingCache → ℕ
get_nonce ledger_nonce address pc = nonce_or (ledger_nonce address) (lookup address pc.nonce)

pub record AccountSet : Type 0 where
  pub accounts : Dict (Unit {0})
  pub cache : Option (List Bytes)

unfoldable pub new_account_set : AccountSet
new_account_set = record { accounts = []; cache = none }

abbrev pub present {ℓ} : {A : Type ℓ} → Option A → Bool
present none = false
present (some a) = true

unfoldable pub contains : Bytes → AccountSet → Bool
contains addr s = present (lookup addr s.accounts)

unfoldable pub add_account : Bytes → AccountSet → AccountSet
add_account addr s = record { accounts = insert addr tt s.accounts; cache = none }

abbrev pub keys_of {ℓ} : {V : Type ℓ} → Dict V → List Bytes
keys_of [] = []
keys_of ((k, v) ∷ m) = k ∷ keys_of m

abbrev pub cached_keys : AccountSet → Option (List Bytes) → List Bytes
cached_keys s none = keys_of s.accounts
cached_keys s (some c) = c

unfoldable pub flatten_accounts : AccountSet → AccountSet × List Bytes
flatten_accounts s = let l = cached_keys s s.cache in (record s { cache = some l }, l)

pub record TxLookup : Type 0 where
  pub all : Dict Transaction

unfoldable pub new_tx_lookup : TxLookup
new_tx_lookup = record { all = [] }

unfoldable pub get_tx : Bytes → TxLookup → Option Transaction
get_tx hash t = lookup hash t.all

unfoldable pub count : TxLookup → ℕ
count t = length t.all

unfoldable pub add_tx : Transaction → TxLookup → TxLookup
add_tx tx t = record { all = insert tx.txid tx t.all }

unfoldable pub remove_tx : Bytes → TxLookup → TxLookup
remove_tx hash t = record { all = erase hash t.all }
