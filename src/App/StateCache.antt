-- ===== src/App/StateCache.antt =====
-- appMgr/memory_cache.go. The map's key is the chain's name and the state's key, joined.
use hnb_blockchain.Prelude.{◌++◌, [], ◌∷◌, List, Option, none, some, ◌≡◌, if◌then◌else◌}
use hnb_blockchain.Prelude.Bytes.{Bytes, bytes_equal}
use hnb_blockchain.Prelude.Assoc.{Dict, lookup, insert, lookup-insert}
use hnb_blockchain.State.{Value, StateItem, changed, deleted}

pub record StateCache : Type 0 where
  pub memory : Dict StateItem

unfoldable pub empty : StateCache
empty = record { memory = [] }

unfoldable pub put : Bytes → Bytes → Value → StateCache → StateCache
put chain_id key value db = record { memory = insert (chain_id ++ key) item db.memory }
  where
    item : StateItem
    item = record { key = key; value = some value; state = changed; chain_id = chain_id }

unfoldable pub get : Bytes → Bytes → StateCache → Option StateItem
get chain_id key db = lookup (chain_id ++ key) db.memory

-- An entry that is there keeps its value and is marked.
unfoldable pub tombstone : Bytes → Bytes → Option StateItem → StateItem
tombstone chain_id key (some v) = record v { state = deleted }
tombstone chain_id key none = record {
  key = key;
  value = none;
  state = deleted;
  chain_id = chain_id;
}

unfoldable pub delete : Bytes → Bytes → StateCache → StateCache
delete chain_id key db = record {
  memory = insert (chain_id ++ key) (tombstone chain_id key (get chain_id key db)) db.memory;
}

-- The entries, in the order of the map's iteration.
unfoldable pub values : Dict StateItem → List StateItem
values [] = []
values ((k, v) ∷ m) = v ∷ values m

unfoldable pub find : StateCache → List StateItem
unfolding values
find db = values db.memory

-- `GetChangeSet` hands out the live map, and `Restore` takes one.
unfoldable pub get_change_set : StateCache → Dict StateItem
get_change_set db = db.memory

unfoldable pub restore : Dict StateItem → StateCache → StateCache
restore rs db = record { memory = rs }

pub get-put :
    (c k c' k' : Bytes) (v : Value) (db : StateCache)
    → get c' k' (put c k v db) ≡ (
        if bytes_equal (c ++ k) (c' ++ k')
        then some (record { key = k; value = some v; state = changed; chain_id = c })
        else get c' k' db)
unfolding get put
get-put c k c' k' v db = lookup-insert (c ++ k) (c' ++ k') _ db.memory

pub get-delete :
    (c k c' k' : Bytes) (db : StateCache)
    → get c' k' (delete c k db) ≡ (
        if bytes_equal (c ++ k) (c' ++ k') then some (tombstone c k (get c k db)) else get c' k' db)
unfolding get delete
get-delete c k c' k' db = lookup-insert (c ++ k) (c' ++ k') _ db.memory
