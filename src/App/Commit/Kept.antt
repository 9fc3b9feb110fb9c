-- ===== src/App/Commit/Kept.antt =====
-- Every call through the interface keeps the entries of the cache in order.
use hnb_blockchain.Prelude.{
  ◌++◌, ◌≡◌, ◌∙◌, ap, refl, subst, arith, Bool, true, false, Option, some, none, [], ◌∷◌, inl, inr,
  Bool-cases, if◌then◌else◌, length,
}
use hnb_blockchain.Prelude.Bytes.{Bytes, bytes_equal, bytes_equal_sound, bytes_equal_iff}
use hnb_blockchain.Prelude.Assoc.{Dict, lookup, insert, lookup-insert}
use hnb_blockchain.State.{Value, StateItem}
use hnb_blockchain.App.StateCache.{tombstone, put, delete}
use hnb_blockchain.App.StateCache
use hnb_blockchain.App.Api.{ContractApi, put_state, put_other_state, del_state}
use hnb_blockchain.App.Commit.{IsEntry, AreEntries}

insert-AreEntries :
    (k : Bytes) (v : StateItem) (m : Dict StateItem)
    → IsEntry k v
    → AreEntries m
    → AreEntries (insert k v m)
unfolding insert
insert-AreEntries k v [] entry e = (entry, unfold lookup in refl, tt)
insert-AreEntries k v ((j, w) ∷ m) entry (old, fresh, e) =
    at_head (bytes_equal j k) refl (insert-AreEntries k v m entry e)
  where
    at_head :
        (b : Bool)
        → bytes_equal j k ≡ b
        → AreEntries (insert k v m)
        → AreEntries (if b then (k, v) ∷ m else (j, w) ∷ insert k v m)
    at_head true same rest =
        (entry, subst (λ t. lookup t m ≡ none) (bytes_equal_sound j k same) fresh, e)
    at_head false other rest = (
      old,
      ground (arith, fresh, bytes_equal_iff k j, bytes_equal_iff j k, lookup-insert k j v m),
      rest,
    )

found-IsEntry :
    (x : Bytes) (m : Dict StateItem) (v : StateItem)
    → AreEntries m
    → lookup x m ≡ some v
    → IsEntry x v
unfolding lookup
found-IsEntry x [] v e h = absurd (cc)
found-IsEntry x ((j, w) ∷ m) v (entry, fresh, e) h = elim (Bool-cases (bytes_equal j x)) [
  | inl same ↦
      subst (λ t. IsEntry t v) (bytes_equal_sound j x same) (subst (IsEntry j) (found same) entry)
  | inr other ↦ found-IsEntry x m v e (rest other)
]
  where
    found : bytes_equal j x ≡ true → w ≡ v
    found same = ground arith

    rest : bytes_equal j x ≡ false → lookup x m ≡ some v
    rest other = ground arith

tombstone-IsEntry :
    (c k : Bytes) (o : Option StateItem) (m : Dict StateItem)
    → length c ≡ 3
    → AreEntries m
    → lookup (c ++ k) m ≡ o
    → IsEntry (c ++ k) (tombstone c k o)
unfolding tombstone
tombstone-IsEntry c k none m h e eq = record {
  placed = refl;
  named = h;
  marked = λ x. cc;
  valued = λ x. cc;
}
tombstone-IsEntry c k (some v) m h e eq =
    let entry = found-IsEntry (c ++ k) m v e eq in
    record { placed = entry.placed; named = entry.named; marked = λ x. cc; valued = λ x. cc }

-- A call of the chain `c`, whose name has three bytes, over a cache of such entries.
pub record IsWellFormed (c : Bytes) (ca : ContractApi) : Type 0 where
  pub own : ca.chain_id ≡ c
  pub short : length c ≡ 3
  pub entries : AreEntries ca.sc.memory

put-AreEntries :
    (c k : Bytes) (v : Value) (db : StateCache.StateCache)
    → length c ≡ 3
    → AreEntries db.memory
    → AreEntries (put c k v db).memory
unfolding put
put-AreEntries c k v db h e =
    insert-AreEntries (c ++ k) _ db.memory
      (record { placed = refl; named = h; marked = λ x. cc; valued = λ x y. cc }) e

module _ (c : Bytes) where
  named : (ca : ContractApi) → IsWellFormed c ca → length ca.chain_id ≡ 3
  named ca h = ap length h.own ∙ h.short

  pub put_state-IsWellFormed :
      (k : Bytes) (v : Value) (ca : ContractApi)
      → IsWellFormed c ca
      → IsWellFormed c (put_state k v ca)
  unfolding put_state
  put_state-IsWellFormed k v ca h = record {
    own = h.own;
    short = h.short;
    entries = put-AreEntries ca.chain_id k v ca.sc (named ca h) h.entries;
  }

  pub put_other_state-IsWellFormed :
      (d k : Bytes) (v : Value) (ca : ContractApi)
      → length d ≡ 3
      → IsWellFormed c ca
      → IsWellFormed c (put_other_state d k v ca)
  unfolding put_other_state
  put_other_state-IsWellFormed d k v ca short h = record {
    own = h.own;
    short = h.short;
    entries = put-AreEntries d k v ca.sc short h.entries;
  }

  pub del_state-IsWellFormed :
      (k : Bytes) (ca : ContractApi) → IsWellFormed c ca → IsWellFormed c (del_state k ca)
  unfolding del_state delete StateCache.get
  del_state-IsWellFormed k ca h = record {
    own = h.own;
    short = h.short;
    entries =
        insert-AreEntries (ca.chain_id ++ k) _ ca.sc.memory
          (tombstone-IsEntry ca.chain_id k (lookup (ca.chain_id ++ k) ca.sc.memory) ca.sc.memory
            (named ca h) h.entries refl)
          h.entries;
  }
