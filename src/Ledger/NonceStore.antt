-- ===== src/Ledger/NonceStore.antt =====
-- ledger/nonceStore: the next nonce of each address. `GetNonce` asks the cache and then answers from
-- the database whatever the cache said.
use hnb_blockchain.Prelude.{ℕ, ◌++◌, Option, none, some}
use hnb_blockchain.Prelude.Bytes.{Bytes, codes}
use hnb_blockchain.State.{Value, raw64, text, tx_index, vote_map, vote_records}
use hnb_blockchain.Ledger.Store.{KvStore, Cache}

unfoldable pub nonce_key : Bytes → Bytes
nonce_key address = codes "nonce" ++ address

-- `binary.BigEndian.Uint64` of an entry of eight bytes; a missing entry counts as 0. No other entry
-- stands under the keys that are read in this way.
unfoldable pub number_of : Option Value → ℕ
number_of none = 0
number_of (some (raw64 n)) = n
number_of (some (text s)) = 0
number_of (some (tx_index n i)) = 0
number_of (some (vote_map m)) = 0
number_of (some (vote_records vs)) = 0

module _ (db : KvStore Value) (nonces : Cache Bytes ℕ) where
  pub record NonceStore : Type 0 where
    pub cache : nonces.Entries
    pub store : db.Db

  unfoldable pub set_nonce : Bytes → ℕ → NonceStore → NonceStore
  set_nonce address nonce bc = record {
    cache = nonces.set (nonce_key address) nonce bc.cache;
    store = db.put (nonce_key address) (raw64 nonce) bc.store;
  }

  unfoldable pub get_nonce : Bytes → NonceStore → ℕ
  get_nonce address bc = number_of (db.get (nonce_key address) bc.store)
