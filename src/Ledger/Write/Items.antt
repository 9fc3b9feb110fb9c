-- ===== src/Ledger/Write/Items.antt =====
-- Which writes of the ledger touch the contracts' state, and what they leave there.
use hnb_blockchain.Prelude.{
  ◌≡◌, ◌∙◌, ap, refl, arith, List, [], ◌∷◌, if◌then◌else◌, Option, some, none,
}
use hnb_blockchain.Prelude.Bytes.{Bytes, bytes_equal}
use hnb_blockchain.State.{Value, StateItem, ItemState, deleted}
use hnb_blockchain.Ledger.Types.{Backend}
use hnb_blockchain.Ledger.StateStore.{state_key}
use hnb_blockchain.Ledger.StateStore.Laws.{
  IsCoherent, get_state-set_state, get_state-delete_state, set_state-IsCoherent,
  delete_state-IsCoherent,
}
use hnb_blockchain.Ledger.Write.{
  LedgerHandler, state_store, get_contract_state, set_marked, set_item, set_items,
  set_contract_state, or_empty,
}

-- What an item leaves under its key.
abbrev pub stored : StateItem → Option Value
stored v = elim v.state [ deleted ↦ none | _ ↦ some (or_empty v.value) ]

-- What a change set leaves under a key of a chain, where `old` stands before: the last item wins.
abbrev pub after_items : Bytes → Bytes → List StateItem → Option Value → Option Value
after_items c k [] old = old
after_items c k (v ∷ vs) old =
    after_items c k vs
      (if bytes_equal (state_key v.chain_id v.key) (state_key c k) then stored v else old)

module _ (b : Backend) where
  unfoldable pub AreStatesCoherent : LedgerHandler b → Type 0
  AreStatesCoherent lh = IsCoherent b.db b.states (state_store b lh)

  get-set_item :
      (v : StateItem) (c k : Bytes) (lh : LedgerHandler b)
      → AreStatesCoherent lh
      → get_contract_state b c k (set_item b v lh) ≡ (
          if bytes_equal (state_key v.chain_id v.key) (state_key c k)
          then stored v
          else get_contract_state b c k lh)
  unfolding get_contract_state set_item AreStatesCoherent
  get-set_item v c k lh h = ground (
    arith,
    get_state-set_state b.db b.states v.chain_id v.key c k (or_empty v.value) (state_store b lh) h,
    get_state-delete_state b.db b.states v.chain_id v.key c k (state_store b lh) h,
  )

  set_marked-AreStatesCoherent :
      (s : ItemState) (v : StateItem) (lh : LedgerHandler b)
      → AreStatesCoherent lh
      → AreStatesCoherent (set_marked b s v lh)
  unfolding set_marked AreStatesCoherent
  set_marked-AreStatesCoherent deleted v lh h =
      delete_state-IsCoherent b.db b.states v.chain_id v.key (state_store b lh) h
  set_marked-AreStatesCoherent _ v lh h =
      set_state-IsCoherent b.db b.states v.chain_id v.key (or_empty v.value) (state_store b lh) h

  set_item-AreStatesCoherent :
      (v : StateItem) (lh : LedgerHandler b)
      → AreStatesCoherent lh
      → AreStatesCoherent (set_item b v lh)
  unfolding set_item
  set_item-AreStatesCoherent v lh h =
      unfold set_marked in set_marked-AreStatesCoherent v.state v lh h

  by_items :
      (vs : List StateItem) (c k : Bytes) (lh : LedgerHandler b)
      → AreStatesCoherent lh
      → (get_contract_state b c k (set_items b vs lh)
          ≡ after_items c k vs (get_contract_state b c k lh))
        × AreStatesCoherent (set_items b vs lh)
  unfolding set_items
  by_items [] c k lh h = (refl, h)
  by_items (v ∷ vs) c k lh h =
      let (reads, coherent) =
        by_items vs c k (set_item b v lh) (set_item-AreStatesCoherent v lh h) in
      (reads ∙ ap (after_items c k vs) (get-set_item v c k lh h), coherent)

  -- Where the cache agrees with the database, writing a change set leaves under every key what its
  -- last item for the key says, and what was there where it has none; the cache still agrees.
  pub set_contract_state_writes :
      (vs : List StateItem) (c k : Bytes) (lh : LedgerHandler b)
      → AreStatesCoherent lh
      → (get_contract_state b c k (set_contract_state b vs lh)
          ≡ after_items c k vs (get_contract_state b c k lh))
        × AreStatesCoherent (set_contract_state b vs lh)
  unfolding set_contract_state
  set_contract_state_writes vs c k lh h = unfold set_item set_marked in by_items vs c k lh h
