-- ===== src/Tests/Ledgers.antt =====
-- The theorems of the ledger and of the application manager at an empty chain and its first block.
use hnb_blockchain.Prelude.{
  ◌^◌, ◌+◌, ◌%◌, ◌==◌, ◌≡◌, ◌≢◌, refl, arith, none, some, List, [], ◌∷◌, if◌then◌else◌,
}
use hnb_blockchain.Prelude.Bytes.{codes, bytes_equal}
use hnb_blockchain.Prelude.Assoc.{lookup}
use hnb_blockchain.Prelude.Result.{ok, err, Error}
use hnb_blockchain.State.{Value, text, StateItem, changed, deleted}
use hnb_blockchain.Ledger.Types.{Block, Transaction}
use hnb_blockchain.Ledger.BlockStore.{IsCoherent}
use hnb_blockchain.Ledger.NonceStore.{number_of}
use hnb_blockchain.Ledger.StateStore
use hnb_blockchain.Ledger.StateStore.{state_key}
use hnb_blockchain.Ledger.StateStore.Laws as Laws
use hnb_blockchain.Ledger.Write.{
  LedgerHandler, get_block_height, write_ledger, get_block, get_contract_state, set_contract_state,
}
use hnb_blockchain.Ledger.Write.Heights.{write_ledger_in_order}
use hnb_blockchain.Ledger.Write.Blocks.{get_block-write_ledger}
use hnb_blockchain.Ledger.Write.Items.{AreStatesCoherent, after_items, set_contract_state_writes}
use hnb_blockchain.Ledger.Write.{find_hash_index, get_transaction}
use hnb_blockchain.Ledger.Write.Indices.{find_hash_index-get_transaction, last_place}
use hnb_blockchain.Tests.Backends.{backend}

abbrev pub chain : LedgerHandler backend
chain = record {
  db = [];
  blocks = record { cache = λ k. none; store = [] };
  states = λ k. none;
  nonces = λ k. none;
}

abbrev pub pay : Transaction
pay = record {
  contract_name = codes "hnb";
  payload = codes "pay";
  txid = codes "t1";
  from = codes "alice";
  nonce_value = 0;
  signature = (1, 2, 3);
}

abbrev pub first : Block
first = record {
  header = record {
    block_num = 0;
    previous_hash = [];
    create_time = 7;
    sender_id = codes "bob";
    cons_args = [];
    ext = [];
    txs_hash = [];
    state_hash = [];
  };
  txs = pay ∷ [];
}

pub chain_blocks-IsCoherent : IsCoherent backend.block_db backend.blocks chain.blocks
unfolding IsCoherent
chain_blocks-IsCoherent n b lt h = cc

pub chain-AreStatesCoherent : AreStatesCoherent backend chain
unfolding AreStatesCoherent Laws.IsCoherent
chain-AreStatesCoherent k v h = cc

write_ledger_in_order_example :
    (0 ≡ get_block_height backend chain
      → ((write_ledger backend first [] [] chain).0 ≡ ok tt)
        × (get_block_height backend (write_ledger backend first [] [] chain).1
            ≡ (get_block_height backend chain + 1) % 2 ^ 64))
    × (0 ≢ get_block_height backend chain
        → write_ledger backend first [] [] chain ≡ (err Error.height_invalid, chain))
write_ledger_in_order_example = write_ledger_in_order backend first [] [] chain

first_accepted : (write_ledger backend first [] [] chain).0 ≡ ok tt
unfolding write_ledger get_block_height number_of lookup
first_accepted = refl

get_block-write_ledger_example :
    get_block backend 0 (write_ledger backend first [] [] chain).1
    ≡ (if 0 == 0 then some first else get_block backend 0 chain)
get_block-write_ledger_example =
    get_block-write_ledger backend first [] [] chain 0 (omega arith) (omega arith)
      chain_blocks-IsCoherent first_accepted

abbrev two_items : List StateItem
two_items =
    record {
      key = codes "alice";
      value = some (text (codes "5"));
      state = changed;
      chain_id = codes "hnb";
    }
    ∷ record { key = codes "bob"; value = none; state = deleted; chain_id = codes "hnb" }
    ∷ []

set_contract_state_writes_example :
    (get_contract_state backend
        (codes "hnb")
        (codes "alice")
        (set_contract_state backend two_items chain)
      ≡ after_items
          (codes "hnb")
          (codes "alice")
          two_items
          (get_contract_state backend (codes "hnb") (codes "alice") chain))
    × AreStatesCoherent backend (set_contract_state backend two_items chain)
set_contract_state_writes_example =
    set_contract_state_writes backend two_items (codes "hnb") (codes "alice") chain
      chain-AreStatesCoherent

abbrev chain_states : StateStore.StateStore backend.db backend.states
chain_states = record { cache = λ k. none; store = [] }

chain_states-IsCoherent : Laws.IsCoherent backend.db backend.states chain_states
unfolding Laws.IsCoherent
chain_states-IsCoherent k v h = cc

abbrev stored_value : Value
stored_value = text (codes "5")

t1_place : last_place (codes "t1") 0 first.txs ≡ some 0
unfolding bytes_equal
t1_place = refl

find_hash_index-get_transaction_example :
    let (r, lh') = write_ledger backend first [] [] chain in
    (find_hash_index backend (codes "t1") lh' ≡ ok (some (0, 0)))
    × ((v : Transaction) × (get_transaction backend 0 0 lh' ≡ some v) × (v.txid ≡ codes "t1"))
find_hash_index-get_transaction_example =
    find_hash_index-get_transaction backend (codes "t1") first [] [] chain 0 (omega arith)
      (omega arith) chain_blocks-IsCoherent first_accepted t1_place
