-- ===== src/Ledger/StateStore.antt =====
-- ledger/stateStore: the contracts' state, through a cache over the database.
pub mod Laws
use hnb_blockchain.Prelude.{◌++◌, Option}
use hnb_blockchain.Prelude.Bytes.{Bytes, codes}
use hnb_blockchain.State.{Value}
use hnb_blockchain.Ledger.Store.{KvStore, Cache, or_else}

-- The chain's name, a separator and the key.
unfoldable pub state_key : Bytes → Bytes → Bytes
state_key chain_id key = chain_id ++ (codes "#" ++ key)

module _ (db : KvStore Value) (states : Cache Bytes Value) where
  pub record StateStore : Type 0 where
    pub cache : states.Entries
    pub store : db.Db

  unfoldable pub get_state : Bytes → Bytes → StateStore → Option Value
  get_state chain_id key ss =
      or_else (states.get (state_key chain_id key) ss.cache)
        (db.get (state_key chain_id key) ss.store)

  unfoldable pub set_state : Bytes → Bytes → Value → StateStore → StateStore
  set_state chain_id key state ss = record {
    cache = states.set (state_key chain_id key) state ss.cache;
    store = db.put (state_key chain_id key) state ss.store;
  }

  unfoldable pub delete_state : Bytes → Bytes → StateStore → StateStore
  delete_state chain_id key ss = record {
    cache = states.remove (state_key chain_id key) ss.cache;
    store = db.delete (state_key chain_id key) ss.store;
  }
