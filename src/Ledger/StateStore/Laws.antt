-- ===== src/Ledger/StateStore/Laws.antt =====
-- The cache never shows: the store reads as its database does, whatever the cache forgets.
use hnb_blockchain.Prelude.{◌≡◌, none, some, arith, if◌then◌else◌}
use hnb_blockchain.Prelude.Bytes.{Bytes, bytes_equal, bytes_equal_iff}
use hnb_blockchain.State.{Value}
use hnb_blockchain.Ledger.Store.{KvStore, Cache, or_else-of_coherent}
use hnb_blockchain.Ledger.StateStore.{StateStore, state_key, get_state, set_state, delete_state}

module _ (db : KvStore Value) (states : Cache Bytes Value) where
  -- Every cached value is the database's.
  unfoldable pub IsCoherent : StateStore db states → Type 0
  IsCoherent ss =
      (k : Bytes) (v : Value) → states.get k ss.cache ≡ some v → db.get k ss.store ≡ some v

  pub get_state-eq-get :
      (c k : Bytes) (ss : StateStore db states)
      → IsCoherent ss
      → get_state db states c k ss ≡ db.get (state_key c k) ss.store
  unfolding get_state IsCoherent
  get_state-eq-get c k ss h = or_else-of_coherent _ _ (h (state_key c k))

  pub set_state-IsCoherent :
      (c k : Bytes) (v : Value) (ss : StateStore db states)
      → IsCoherent ss
      → IsCoherent (set_state db states c k v ss)
  unfolding set_state IsCoherent
  set_state-IsCoherent c k v ss h j w hit = ground (
    arith,
    bytes_equal_iff (state_key c k) j,
    db.get-put (state_key c k) j v ss.store,
    states.get-set_self (state_key c k) v w ss.cache,
    states.get-set_ne (state_key c k) j v w ss.cache,
    h j w,
  )

  pub delete_state-IsCoherent :
      (c k : Bytes) (ss : StateStore db states)
      → IsCoherent ss
      → IsCoherent (delete_state db states c k ss)
  unfolding delete_state IsCoherent
  delete_state-IsCoherent c k ss h j w hit = ground (
    arith,
    bytes_equal_iff (state_key c k) j,
    db.get-delete (state_key c k) j ss.store,
    states.get-remove_self (state_key c k) ss.cache,
    states.get-remove (state_key c k) j w ss.cache,
    h j w,
  )

  store_set :
      (c k c' k' : Bytes) (v : Value) (ss : StateStore db states)
      → db.get (state_key c' k') (set_state db states c k v ss).store ≡ (
          if bytes_equal (state_key c k) (state_key c' k')
          then some v
          else db.get (state_key c' k') ss.store)
  unfolding set_state
  store_set c k c' k' v ss = db.get-put (state_key c k) (state_key c' k') v ss.store

  store_delete :
      (c k c' k' : Bytes) (ss : StateStore db states)
      → db.get (state_key c' k') (delete_state db states c k ss).store ≡ (
          if bytes_equal (state_key c k) (state_key c' k')
          then none
          else db.get (state_key c' k') ss.store)
  unfolding delete_state
  store_delete c k c' k' ss = db.get-delete (state_key c k) (state_key c' k') ss.store

  -- Where the cache agrees with the database, a write is read back, and it changes no other entry.
  pub get_state-set_state :
      (c k c' k' : Bytes) (v : Value) (ss : StateStore db states)
      → IsCoherent ss
      → get_state db states c' k' (set_state db states c k v ss) ≡ (
          if bytes_equal (state_key c k) (state_key c' k')
          then some v
          else get_state db states c' k' ss)
  get_state-set_state c k c' k' v ss h = ground (
    arith,
    get_state-eq-get c' k' (set_state db states c k v ss) (set_state-IsCoherent c k v ss h),
    get_state-eq-get c' k' ss h,
    store_set c k c' k' v ss,
  )

  -- Where the cache agrees with the database, a deleted entry is gone, and no other entry changes.
  pub get_state-delete_state :
      (c k c' k' : Bytes) (ss : StateStore db states)
      → IsCoherent ss
      → get_state db states c' k' (delete_state db states c k ss) ≡ (
          if bytes_equal (state_key c k) (state_key c' k')
          then none
          else get_state db states c' k' ss)
  get_state-delete_state c k c' k' ss h = ground (
    arith,
    get_state-eq-get c' k' (delete_state db states c k ss) (delete_state-IsCoherent c k ss h),
    get_state-eq-get c' k' ss h,
    store_delete c k c' k' ss,
  )
