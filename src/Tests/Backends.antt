-- ===== src/Tests/Backends.antt =====
-- A database and caches that meet the interfaces of the ledger: association lists and functions.
use hnb_blockchain.Prelude.{ℕ, ◌==◌, ◌≡◌, ◌≢◌, arith, Option, none, some, if◌then◌else◌}
use hnb_blockchain.Prelude.Bytes.{Bytes, bytes_equal, bytes_equal_iff, bytes_equal_refl}
use hnb_blockchain.Prelude.Assoc.{Dict, lookup, insert, erase, lookup-insert, lookup-erase}
use hnb_blockchain.State.{Value}
use hnb_blockchain.Ledger.Store.{KvStore, Cache}
use hnb_blockchain.Ledger.Types.{Block, Backend}

abbrev pub list_store : (V : Type 0) → KvStore V
list_store V = record {
  Db = Dict V;
  get = lookup;
  put = insert;
  delete = erase;
  get-put = lookup-insert;
  get-delete = lookup-erase;
}

module _ {V : Type 0} where
  abbrev pub set_bytes : Bytes → V → (Bytes → Option V) → Bytes → Option V
  set_bytes k v c j = if bytes_equal k j then some v else c j

  abbrev pub remove_bytes : Bytes → (Bytes → Option V) → Bytes → Option V
  remove_bytes k c j = if bytes_equal k j then none else c j

  pub bytes_self : (k : Bytes) (v w : V) (c : Bytes → Option V) → set_bytes k v c k ≡ some w → w ≡ v
  bytes_self k v w c h = ground (arith, bytes_equal_refl k)

  pub bytes_ne :
      (k j : Bytes) (v w : V) (c : Bytes → Option V)
      → k ≢ j
      → set_bytes k v c j ≡ some w
      → c j ≡ some w
  bytes_ne k j v w c ne h = ground (arith, bytes_equal_iff k j)

  pub bytes_removed : (k : Bytes) (c : Bytes → Option V) → remove_bytes k c k ≡ none
  bytes_removed k c = ground (arith, bytes_equal_refl k)

  pub bytes_kept :
      (k j : Bytes) (w : V) (c : Bytes → Option V) → remove_bytes k c j ≡ some w → c j ≡ some w
  bytes_kept k j w c h = ground arith

  abbrev pub set_number : ℕ → V → (ℕ → Option V) → ℕ → Option V
  set_number k v c j = if k == j then some v else c j

  abbrev pub remove_number : ℕ → (ℕ → Option V) → ℕ → Option V
  remove_number k c j = if k == j then none else c j

  pub number_self : (k : ℕ) (v w : V) (c : ℕ → Option V) → set_number k v c k ≡ some w → w ≡ v
  number_self k v w c h = ground arith

  pub number_ne :
      (k j : ℕ) (v w : V) (c : ℕ → Option V) → k ≢ j → set_number k v c j ≡ some w → c j ≡ some w
  number_ne k j v w c ne h = ground arith

  pub number_removed : (k : ℕ) (c : ℕ → Option V) → remove_number k c k ≡ none
  number_removed k c = ground arith

  pub number_kept :
      (k j : ℕ) (w : V) (c : ℕ → Option V) → remove_number k c j ≡ some w → c j ≡ some w
  number_kept k j w c h = ground arith

abbrev pub bytes_cache : (V : Type 0) → Cache Bytes V
bytes_cache V = record {
  Entries = Bytes → Option V;
  get = λ k c. c k;
  set = set_bytes;
  remove = remove_bytes;
  get-set_self = bytes_self;
  get-set_ne = bytes_ne;
  get-remove_self = bytes_removed;
  get-remove = bytes_kept;
}

abbrev pub number_cache : (V : Type 0) → Cache ℕ V
number_cache V = record {
  Entries = ℕ → Option V;
  get = λ k c. c k;
  set = set_number;
  remove = remove_number;
  get-set_self = number_self;
  get-set_ne = number_ne;
  get-remove_self = number_removed;
  get-remove = number_kept;
}

abbrev pub backend : Backend
backend = record {
  db = list_store Value;
  block_db = list_store Block;
  states = bytes_cache Value;
  nonces = bytes_cache ℕ;
  blocks = number_cache Block;
}
