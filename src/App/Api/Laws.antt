-- ===== src/App/Api/Laws.antt =====
-- Reads after writes, through the cache and the ledger below it.
use hnb_blockchain.Prelude.{false, ◌++◌, none, some, ◌≡◌, refl, arith, if◌then◌else◌}
use hnb_blockchain.Prelude.Bytes.{Bytes, bytes_equal, bytes_equal_prefix, bytes_equal_refl}
use hnb_blockchain.Prelude.Result.{ok}
use hnb_blockchain.State.{Value, Ledger}
use hnb_blockchain.App.StateCache.{get-put, get-delete, tombstone}
use hnb_blockchain.App.Api.{
  ContractApi, get_state, get_other_state, put_state, put_other_state, del_state,
}

module _ (ledger : Ledger) where
  -- The contract's own state is the state under its own chain name.
  pub get_state-eq-get_other_state :
      (k : Bytes) (s : ContractApi) → get_state ledger k s ≡ get_other_state ledger s.chain_id k s
  unfolding get_state get_other_state
  get_state-eq-get_other_state k s = refl

  pub get_other_state-put_other_state :
      (c k c' k' : Bytes) (v : Value) (s : ContractApi)
      → get_other_state ledger c' k' (put_other_state c k v s)
        ≡ (if bytes_equal (c ++ k) (c' ++ k') then ok (some v) else get_other_state ledger c' k' s)
  unfolding get_other_state put_other_state
  get_other_state-put_other_state c k c' k' v s = ground (arith, get-put c k c' k' v s.sc)

  pub get_state-put_state :
      (k k' : Bytes) (v : Value) (s : ContractApi)
      → get_state ledger k' (put_state k v s)
        ≡ (if bytes_equal k k' then ok (some v) else get_state ledger k' s)
  unfolding get_state put_state
  get_state-put_state k k' v s =
      ground (arith, get-put s.chain_id k s.chain_id k' v s.sc, bytes_equal_prefix s.chain_id k k')

  pub get_state-put_state_self :
      (k : Bytes) (v : Value) (s : ContractApi) → get_state ledger k (put_state k v s) ≡ ok (some v)
  get_state-put_state_self k v s = ground (arith, get_state-put_state k k v s, bytes_equal_refl k)

  pub get_state-put_state_ne :
      (k k' : Bytes) (v : Value) (s : ContractApi)
      → bytes_equal k k' ≡ false
      → get_state ledger k' (put_state k v s) ≡ get_state ledger k' s
  get_state-put_state_ne k k' v s h = ground (arith, get_state-put_state k k' v s)

  pub get_state-del_state :
      (k k' : Bytes) (s : ContractApi)
      → get_state ledger k' (del_state k s)
        ≡ (if bytes_equal k k' then ok none else get_state ledger k' s)
  unfolding get_state del_state tombstone
  get_state-del_state k k' s =
      ground (arith, get-delete s.chain_id k s.chain_id k' s.sc, bytes_equal_prefix s.chain_id k k')

  pub get_state-put_other_state :
      (c k k' : Bytes) (v : Value) (s : ContractApi)
      → get_state ledger k' (put_other_state c k v s)
        ≡ (if bytes_equal (c ++ k) (s.chain_id ++ k') then ok (some v) else get_state ledger k' s)
  unfolding get_state put_other_state
  get_state-put_other_state c k k' v s = ground (arith, get-put c k s.chain_id k' v s.sc)

  pub get_other_state-put_state :
      (k c' k' : Bytes) (v : Value) (s : ContractApi)
      → get_other_state ledger c' k' (put_state k v s) ≡ (
          if bytes_equal (s.chain_id ++ k) (c' ++ k')
          then ok (some v)
          else get_other_state ledger c' k' s)
  unfolding get_other_state put_state
  get_other_state-put_state k c' k' v s = ground (arith, get-put s.chain_id k c' k' v s.sc)

  pub get_state-del_state_self :
      (k : Bytes) (s : ContractApi) → get_state ledger k (del_state k s) ≡ ok none
  get_state-del_state_self k s = ground (arith, get_state-del_state k k s, bytes_equal_refl k)

  pub get_state-del_state_ne :
      (k k' : Bytes) (s : ContractApi)
      → bytes_equal k k' ≡ false
      → get_state ledger k' (del_state k s) ≡ get_state ledger k' s
  get_state-del_state_ne k k' s h = ground (arith, get_state-del_state k k' s)
