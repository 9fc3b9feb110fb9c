-- ===== src/App/Commit.antt =====
-- The change set of a contract call, once it is written to the ledger, reads as the call left it.
pub mod Kept
use hnb_blockchain.Prelude.{
  ◌++◌, ◌≡◌, ◌≢◌, ◌∙◌, ap, refl, sym, subst, arith, true, false, ◌&&◌, Option, some, none, [], ◌∷◌,
  inl, inr, Bool-cases, Option-cases, if◌then◌else◌, length,
}
use hnb_blockchain.Prelude.Bytes.{
  Bytes, codes, bytes_equal, bytes_equal_sound, bytes_equal_append, bytes_equal_prefix,
}
use hnb_blockchain.Prelude.Assoc.{Dict, lookup}
use hnb_blockchain.Prelude.Result.{ok}
use hnb_blockchain.State.{Value, StateItem, Ledger, unchanged, changed}
use hnb_blockchain.App.StateCache.{values, find, get}
use hnb_blockchain.App.Api.{ContractApi, get_other_state, get_all_state, is_deleted}
use hnb_blockchain.Ledger.Types.{Backend}
use hnb_blockchain.Ledger.StateStore.{state_key}
use hnb_blockchain.Ledger.Write.{LedgerHandler, get_contract_state, set_contract_state}
use hnb_blockchain.Ledger.Write.Items.{
  after_items, stored, AreStatesCoherent, set_contract_state_writes,
}

-- An entry of the cache stands under its chain's name, of three bytes, and its key; it is a deletion
-- or a change to a value.
pub record IsEntry (j : Bytes) (v : StateItem) : Type 0 where
  pub placed : j ≡ v.chain_id ++ v.key
  pub named : length v.chain_id ≡ 3
  pub marked : v.state ≢ unchanged
  pub valued : v.state ≡ changed → v.value ≢ none

-- Every entry is one, and no key stands twice.
abbrev pub AreEntries : Dict StateItem → Type 0
AreEntries [] = Unit {0}
AreEntries ((j, v) ∷ m) = IsEntry j v × (lookup j m ≡ none) × AreEntries m

same_key :
    (c' k' c k : Bytes)
    → length c' ≡ 3
    → length c ≡ 3
    → bytes_equal (state_key c' k') (state_key c k) ≡ bytes_equal (c' ++ k') (c ++ k)
unfolding state_key
same_key c' k' c k h' h =
    bytes_equal_append c' c (codes "#" ++ k') (codes "#" ++ k) (omega (arith, h, h'))
    ∙ ap (λ t. bytes_equal c' c && t) (bytes_equal_prefix (codes "#") k' k)
    ∙ sym (bytes_equal_append c' c k' k (omega (arith, h, h')))

abbrev pub item_or : Option Value → Option StateItem → Option Value
item_or old none = old
item_or old (some v) = stored v

head_item :
    (j c k : Bytes) (v : StateItem) (m : Dict StateItem) (old : Option Value)
    → length c ≡ 3
    → IsEntry j v
    → lookup j m ≡ none
    → item_or
        (if bytes_equal (state_key v.chain_id v.key) (state_key c k) then stored v else old)
        (lookup (c ++ k) m)
      ≡ item_or old (lookup (c ++ k) ((j, v) ∷ m))
unfolding lookup
head_item j c k v m old h entry fresh = elim (Bool-cases (bytes_equal j (c ++ k))) [
  | inl same ↦
      rw (same_key v.chain_id v.key c k entry.named h, ← entry.placed, same)
        (rw (subst (λ t. lookup t m ≡ none) (bytes_equal_sound j (c ++ k) same) fresh) refl)
  | inr other ↦ rw (same_key v.chain_id v.key c k entry.named h, ← entry.placed, other) refl
]

after_items-lookup :
    (m : Dict StateItem) (c k : Bytes) (old : Option Value)
    → length c ≡ 3
    → AreEntries m
    → after_items c k (values m) old ≡ item_or old (lookup (c ++ k) m)
unfolding values
after_items-lookup [] c k old h e = unfold lookup in refl
after_items-lookup ((j, v) ∷ m) c k old h (entry, fresh, e) =
    after_items-lookup m c k _ h e ∙ head_item j c k v m old h entry fresh

lookup-IsEntry :
    (x : Bytes) (m : Dict StateItem) (v : StateItem)
    → AreEntries m
    → lookup x m ≡ some v
    → (j : Bytes) × IsEntry j v
unfolding lookup
lookup-IsEntry x [] v e h = absurd (cc)
lookup-IsEntry x ((j, w) ∷ m) v (entry, fresh, e) h = elim (Bool-cases (bytes_equal j x)) [
  | inl same ↦ (j, subst (IsEntry j) (found same) entry)
  | inr other ↦ lookup-IsEntry x m v e (rest other)
]
  where
    found : bytes_equal j x ≡ true → w ≡ v
    found same = ground arith

    rest : bytes_equal j x ≡ false → lookup x m ≡ some v
    rest other = ground arith

-- What a read through the cache answers on a hit is what the entry leaves in the ledger.
cached_item :
    (j : Bytes) (v : StateItem)
    → IsEntry j v
    → (if is_deleted (some v) then none else v.value) ≡ stored v
unfolding is_deleted
cached_item j v entry = ground (arith, entry.marked, entry.valued)

module _ (b : Backend) (lh : LedgerHandler b) where
  abbrev reads_of : Ledger
  reads_of c k = ok (get_contract_state b c k lh)

  get_other_state-item_or :
      (c k : Bytes) (ca : ContractApi)
      → AreEntries ca.sc.memory
      → get_other_state reads_of c k ca
        ≡ ok (item_or (get_contract_state b c k lh) (lookup (c ++ k) ca.sc.memory))
  unfolding get_other_state get
  get_other_state-item_or c k ca e = elim (Option-cases (lookup (c ++ k) ca.sc.memory)) [
    | inl miss ↦ ground arith
    | inr (v, hit) ↦
        let (j, entry) = lookup-IsEntry (c ++ k) ca.sc.memory v e hit in
        ground (arith, cached_item j v entry)
  ]

  -- Where a cache's entries are in order, each under its chain's name and key and none twice, and the
  -- ledger's cache agrees with its database: after the change set is written to the ledger, every key
  -- of every chain with a name of three bytes reads there as it read through the call's cache.
  pub get_contract_state-get_all_state :
      (c k : Bytes) (ca : ContractApi)
      → length c ≡ 3
      → AreEntries ca.sc.memory
      → AreStatesCoherent b lh
      → get_other_state reads_of c k ca
        ≡ ok (get_contract_state b c k (set_contract_state b (get_all_state ca) lh))
  unfolding get_all_state find
  get_contract_state-get_all_state c k ca h e coherent =
      get_other_state-item_or c k ca e
      ∙ ap ok (
          sym (after_items-lookup ca.sc.memory c k (get_contract_state b c k lh) h e)
          ∙ sym ((set_contract_state_writes b (values ca.sc.memory) c k lh coherent).0))
