-- ===== src/Tests/Managers.antt =====
-- The theorems of the application manager at the first block of an empty chain.
use hnb_blockchain.Prelude.{◌≡◌, refl, arith, none, some, List, [], ◌∷◌, map, length}
use hnb_blockchain.Prelude.Bytes.{Bytes, codes, bytes_equal}
use hnb_blockchain.Prelude.Assoc.{lookup, insert}
use hnb_blockchain.Prelude.Result.{ok, err, Error}
use hnb_blockchain.State.{text, StateItem, changed, deleted}
use hnb_blockchain.App.Api.{ContractApi, get_other_state, get_all_state}
use hnb_blockchain.App.Commit.{AreEntries, get_contract_state-get_all_state}
use hnb_blockchain.App.Manager
use hnb_blockchain.Contract.Hnb.Invoke
use hnb_blockchain.Ledger.NonceStore.{number_of}
use hnb_blockchain.App.Manager.{
  AppManager, Handle, start, run_tx, run_with, run_txs, all_states, nonce_item, block_process,
  reads,
}
use hnb_blockchain.App.Manager.Nonces.{AreApart, written, nonce_after, get_nonce-block_process}
use hnb_blockchain.App.Manager.Rollback.{run_tx_keeps_writes}
use hnb_blockchain.App.Manager.Digest.{block_process_digest, with_state_hash}
use hnb_blockchain.Contract.Requests.{Json}
use hnb_blockchain.Contract.Hgs
use hnb_blockchain.Contract.Hgs.{input_of, lenient_balance}
use hnb_blockchain.Contract.Hgs.Transfer.{invoke-IsAtomic}
use hnb_blockchain.Contract.Handler.{ContractInf, hnb_contract}
use hnb_blockchain.Ledger.Types.{NonceItem}
use hnb_blockchain.Ledger.Write.{
  get_block, get_contract_state, set_contract_state, write_ledger, get_block_height,
  set_wrong_index, wrong_key, height_key, get_nonce,
}
use hnb_blockchain.Tests.Backends.{backend}
use hnb_blockchain.Tests.Contracts.{alice_calls, genesis}
use hnb_blockchain.Tests.Ledgers.{
  chain, pay, first, chain_blocks-IsCoherent, chain-AreStatesCoherent,
}

-- A decoder that accepts nothing.
abbrev no_json : Json
no_json = record {
  request = λ s. none;
  same_tx = λ s. none;
  diff_tx = λ s. none;
  vote_info = λ s. none;
}

abbrev manager : AppManager
manager = record { scs = (codes "hnb", hnb_contract no_json) ∷ [] }

abbrev message : Error → Bytes
message e = codes "failed"

-- A digest by the numbers of items.
abbrev hash : List StateItem → List NonceItem → Bytes
hash si ni = length si ∷ length ni ∷ []

first_processed : (block_process backend message hash manager first chain).0 ≡ ok tt
unfolding block_process Manager.get_handler lookup bytes_equal write_ledger get_block_height
    number_of hnb_contract Invoke.invoke set_wrong_index insert wrong_key height_key
first_processed = refl

block_process_digest_example :
    get_block backend 0 (block_process backend message hash manager first chain).1
    ≡ some (with_state_hash (hash [] (map nonce_item first.txs)) first)
block_process_digest_example =
    block_process_digest backend message hash manager first chain (omega arith)
      chain_blocks-IsCoherent first_processed

no_request : (Hgs.invoke no_json genesis alice_calls).0 ≡ err Error.bad_request
unfolding Hgs.invoke
no_request = refl

invoke-IsAtomic_example : (Hgs.invoke no_json genesis alice_calls).1 ≡ alice_calls
invoke-IsAtomic_example = invoke-IsAtomic no_json genesis alice_calls Error.bad_request no_request

abbrev wrote : ContractApi
wrote = record {
  args = [];
  sc = record {
    memory =
        (
          codes "hnba",
          record {
            key = codes "a";
            value = some (text (codes "5"));
            state = changed;
            chain_id = codes "hnb";
          },
        )
        ∷ (
          codes "hgsb",
          record { key = codes "b"; value = none; state = deleted; chain_id = codes "hgs" },
        )
        ∷ [];
  };
  chain_id = codes "hnb";
  from = codes "a";
}

wrote-AreEntries : AreEntries wrote.sc.memory
unfolding lookup bytes_equal
wrote-AreEntries = (
  record { placed = refl; named = refl; marked = λ e. cc; valued = λ e f. cc },
  refl,
  (record { placed = refl; named = refl; marked = λ e. cc; valued = λ e. cc }, refl, tt),
)

get_contract_state-get_all_state_example :
    get_other_state (reads backend chain) (codes "hnb") (codes "a") wrote
    ≡ ok (
        get_contract_state backend
          (codes "hnb")
          (codes "a")
          (set_contract_state backend (get_all_state wrote) chain))
get_contract_state-get_all_state_example =
    get_contract_state-get_all_state backend chain (codes "hnb") (codes "a") wrote refl
      wrote-AreEntries chain-AreStatesCoherent

-- A contract that writes and then fails.
abbrev spoiler : ContractInf
spoiler = record (hnb_contract no_json) { invoke = λ l ca. (err Error.bad_request, wrote) }

run_tx_keeps_writes_example :
    (h : Handle) × (lookup
        (codes "hnb")
        (run_tx backend message spoiler pay (start backend chain)).api_handlers
      ≡ some h)
    × ((run_tx backend message spoiler pay (start backend chain)).heap.cell h.ref ≡ wrote.sc.memory)
run_tx_keeps_writes_example = run_tx_keeps_writes backend message spoiler pay (start backend chain)

nothing_written : AreApart (codes "alice") (written backend message manager first chain)
unfolding start run_txs run_with run_tx all_states Manager.get_handler lookup bytes_equal
    hnb_contract Invoke.invoke insert
nothing_written = tt

get_nonce-block_process_example :
    get_nonce backend (codes "alice") (block_process backend message hash manager first chain).1
    ≡ nonce_after (codes "alice") first.txs (get_nonce backend (codes "alice") chain)
get_nonce-block_process_example =
    get_nonce-block_process backend message hash manager first chain (codes "alice") nothing_written
      first_processed
