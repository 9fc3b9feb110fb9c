-- ===== src/Tests/Contracts.antt =====
-- The contracts' theorems at small accounts.
use hnb_blockchain.Prelude.{◌≡◌, ◌≢◌, refl, arith, true, false, none, some, []}
use hnb_blockchain.Prelude.Int.{ℤ, pos, negsuc, ◌+ℤ◌, ◌≤ℤ◌, ◌<ℤ◌, sub64, add64, int_laws}
use hnb_blockchain.Prelude.Bytes.{Bytes, codes, bytes_equal}
use hnb_blockchain.Prelude.Assoc.{lookup}
use hnb_blockchain.Prelude.Result.{ok}
use hnb_blockchain.Strconv.{parse_int_checked}
use hnb_blockchain.State.{text, Ledger}
use hnb_blockchain.App.StateCache.{get}
use hnb_blockchain.App.Api.{ContractApi, get_state, get_other_state}
use hnb_blockchain.Contract.Requests.{SameTx, DiffTx}
use hnb_blockchain.Contract.Amount.{balance_of, amount_value, parse_value_checked}
use hnb_blockchain.Contract.Hgs
use hnb_blockchain.Contract.Hgs.{input_of, lenient_balance}
use hnb_blockchain.Contract.Hgs.Transfer.{same_pro_stores}
use hnb_blockchain.Contract.Hnb.{
  hnb_chain, hgs_chain, get_balance, get_other_state_balance, same_pro, diff_pro,
}
use hnb_blockchain.Contract.Hnb.Transfer.{same_pro_moves, same_pro_conserves, same_pro_takes}
use hnb_blockchain.Contract.Hnb.Exchange.{diff_pro_moves}

abbrev pub alice : Bytes
alice = codes "alice"

abbrev pub bob : Bytes
bob = codes "bob"

-- Alice has 50 and Bob 7 tokens; nothing else is stored.
abbrev pub genesis : Ledger
genesis c k = elim (bytes_equal k alice) [
  | true ↦ ok (some (text (codes "50")))
  | false ↦ elim (bytes_equal k bob) [ true ↦ ok (some (text (codes "7"))) | false ↦ ok none ]
]

abbrev pub alice_calls : ContractApi
alice_calls = record { args = []; sc = record { memory = [] }; chain_id = hnb_chain; from = alice }

pub alice_balance : get_balance genesis alice alice_calls ≡ ok (pos 50)
unfolding get_balance balance_of get_state get lookup parse_value_checked parse_int_checked
    bytes_equal
alice_balance = refl

bob_balance : get_balance genesis bob alice_calls ≡ ok (pos 7)
unfolding get_balance balance_of get_state get lookup parse_value_checked parse_int_checked
    bytes_equal
bob_balance = refl

names_differ : alice ≢ bob
names_differ e = cc

abbrev pays_bob : SameTx
pays_bob = record { output_addr = bob; amount = pos 8 }

same_pro_moves_example :
    let (r, ca') = same_pro genesis pays_bob alice_calls in
    (r ≡ ok tt)
    × (get_balance genesis alice ca' ≡ ok (sub64 (pos 50) (pos 8)))
    × (get_balance genesis bob ca' ≡ ok (add64 (pos 7) (pos 8)))
    × ((k : Bytes)
        → k ≢ alice
        → k ≢ bob
        → get_state genesis k ca' ≡ get_state genesis k alice_calls)
same_pro_moves_example =
    same_pro_moves genesis pays_bob alice_calls (pos 50) (pos 7) names_differ alice_balance
      bob_balance (omega int_laws)

same_pro_conserves_example :
    (a' : ℤ) × (b' : ℤ) × (get_balance genesis alice (same_pro genesis pays_bob alice_calls).1
      ≡ ok a')
    × (get_balance genesis bob (same_pro genesis pays_bob alice_calls).1 ≡ ok b')
    × (a' +ℤ b' ≡ pos 50 +ℤ pos 7)
    × (pos 0 ≤ℤ a')
    × (pos 0 ≤ℤ b')
same_pro_conserves_example =
    same_pro_conserves genesis pays_bob alice_calls (pos 50) (pos 7) names_differ alice_balance
      bob_balance (omega int_laws) (omega int_laws) (omega int_laws) (omega int_laws)
      (omega int_laws)

abbrev takes_from_bob : SameTx
takes_from_bob = record { output_addr = bob; amount = negsuc 4 }

same_pro_takes_example :
    let (r, ca') = same_pro genesis takes_from_bob alice_calls in
    (r ≡ ok tt)
    × ((a' : ℤ) × (get_balance genesis alice ca' ≡ ok a') × (pos 50 <ℤ a'))
    × ((b' : ℤ) × (get_balance genesis bob ca' ≡ ok b') × (b' <ℤ pos 7))
same_pro_takes_example =
    same_pro_takes genesis takes_from_bob alice_calls (pos 50) (pos 7) names_differ alice_balance
      bob_balance (omega int_laws) (omega int_laws) (omega int_laws) (omega int_laws)
      (omega int_laws)

abbrev swaps : DiffTx
swaps = record { output_addr = bob; amount = pos 1000; in_amount = pos 1 }

bob_hgs_balance : get_other_state_balance genesis hgs_chain bob alice_calls ≡ ok (pos 7)
unfolding get_other_state_balance balance_of get_other_state get lookup parse_value_checked
    parse_int_checked bytes_equal
bob_hgs_balance = refl

diff_pro_moves_example :
    let (r, ca') = diff_pro genesis swaps alice_calls in
    (r ≡ ok tt)
    × (get_balance genesis alice ca' ≡ ok (sub64 (pos 50) (pos 1)))
    × (get_other_state_balance genesis hgs_chain bob ca' ≡ ok (add64 (pos 7) (pos 1000)))
diff_pro_moves_example =
    diff_pro_moves genesis swaps alice_calls (pos 50) (pos 7) refl alice_balance bob_hgs_balance
      (omega int_laws)

alice_input : input_of genesis alice_calls ≡ ok (pos 50)
unfolding input_of get_state get lookup parse_value_checked parse_int_checked bytes_equal
alice_input = refl

bob_entry : get_state genesis bob alice_calls ≡ ok (some (text (codes "7")))
unfolding get_state get lookup bytes_equal
bob_entry = refl

same_pro_stores_example :
    let (r, ca') = Hgs.same_pro genesis pays_bob alice_calls in
    (r ≡ ok tt)
    × (get_state genesis alice ca' ≡ ok (some (amount_value (sub64 (pos 50) (pos 8)))))
    × (get_state genesis bob ca'
        ≡ ok (some (amount_value (add64 (lenient_balance (some (text (codes "7")))) (pos 8)))))
    × ((k : Bytes)
        → k ≢ alice
        → k ≢ bob
        → get_state genesis k ca' ≡ get_state genesis k alice_calls)
same_pro_stores_example =
    same_pro_stores genesis pays_bob alice_calls (pos 50) (some (text (codes "7"))) names_differ
      alice_input bob_entry (omega arith)
