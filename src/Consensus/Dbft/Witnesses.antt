-- ===== src/Consensus/Dbft/Witnesses.antt =====
-- consensus/dbft/witnessSelection.go: the witnesses of the next epoch, by the votes of this one.
pub mod Filling
pub mod Shuffle
use Prim.Native.Nat.{bit_xor}
use hnb_blockchain.Prelude.{
  ℕ, zero, suc, ◌+◌, ◌-◌, ◌*◌, ◌/◌, ◌%◌, ◌^◌, ◌==◌, ◌++◌, ◌||◌, Bool, true, false, if◌then◌else◌,
  Option, none, some, List, [], ◌∷◌, length, get_elem?, set,
}
use hnb_blockchain.Prelude.Int.{ℤ, pos, ltb_ℤ}
use hnb_blockchain.Prelude.Bytes.{Bytes, bytes_equal}
use hnb_blockchain.Prelude.Result.{Result, ok, err, Error}
use hnb_blockchain.Consensus.Dbft.Types.{Validator, Epoch}
use hnb_blockchain.Consensus.Dbft.Epochs.{EpochListCache, is_listed, get_epoch}

-- What the selection asks of the application manager and of the membership service.
pub record Voting : Type 0 where
  pub get_vote_sum : ℕ → Result ℤ
  pub get_vote_peer_id_order_token : ℕ → Result (List Bytes)
  pub peer_id_to_string : Bytes → Bytes

-- `float32(token) > 10000000 * 0.51`: the right side is 5100000, which `float32` holds exactly, and
-- rounding keeps the order and the integers up to 2 ^ 24, so the test is the one on integers.
abbrev pub token_threshold : ℤ
token_threshold = pos 5100000

unfoldable pub is_vote_satisfied : Voting → ℕ → Bool
is_vote_satisfied voting epoch_no = elim (voting.get_vote_sum epoch_no) [
  | err e ↦ false
  | ok token ↦ ltb_ℤ token_threshold token
]

-- `GetByPeerID` from the index `i` on.
unfoldable pub get_by_peer_id : Bytes → ℕ → List Validator → Option (ℕ × Validator)
get_by_peer_id name i [] = none
get_by_peer_id name i (v ∷ vs) =
    if bytes_equal name v.pub_key_str then some (i, v) else get_by_peer_id name (i + 1) vs

abbrev pub member : ℕ → List ℕ → Bool
member i [] = false
member i (j ∷ js) = i == j || member i js

-- The witnesses so far, and the indices of the validators among them.
pub record Chosen : Type 0 where
  pub witness_list : List Validator
  pub index_cache : List ℕ

unfoldable pub add_found : Option (ℕ × Validator) → Chosen → Chosen
add_found none c = c
add_found (some (i, v)) c = record {
  witness_list = c.witness_list ++ v ∷ [];
  index_cache = i ∷ c.index_cache;
}

-- The loop over the candidates in the order of their tokens: at most `bft_number` become witnesses.
-- Each witness that is found is counted, so the count is the length of the list.
unfoldable pub choose : Voting → ℕ → List Validator → List Bytes → Chosen → Chosen
unfolding get_by_peer_id add_found
choose voting bft_number vals [] c = c
choose voting bft_number vals (v ∷ peer_ids) c =
    let next =
      choose voting bft_number vals peer_ids
        (add_found (get_by_peer_id (voting.peer_id_to_string v) 0 vals) c) in
    if length c.witness_list == bft_number then c else next

-- One pass over the validators that are not chosen, from the index `i` on.
unfoldable pub rest_of : List ℕ → ℕ → List Validator → List Validator
rest_of cache i [] = []
rest_of cache i (v ∷ vs) =
    if member i cache then rest_of cache (i + 1) vs else v ∷ rest_of cache (i + 1) vs

-- The loop that fills the list up, a pass at a time, until its length is `bft_number`; `none` is a
-- loop that has not ended after `fuel` passes.
unfoldable pub fill : ℕ → ℕ → List Validator → List Validator → Option (List Validator)
fill zero bft_number more w = if length w == bft_number then some w else none
fill (suc fuel) bft_number more w =
    let next = fill fuel bft_number more (w ++ more) in
    if length w == bft_number then some w else next

unfoldable pub get_witnesses_by_token :
    Voting → ℕ → ℕ → ℕ → List Validator → Result (Option (List Validator))
unfolding choose rest_of fill
get_witnesses_by_token voting fuel bft_number epoch_no vals =
    elim (voting.get_vote_peer_id_order_token epoch_no) [
      | err e ↦ err e
      | ok peer_ids ↦
          let c =
            choose voting bft_number vals peer_ids
              (record { witness_list = []; index_cache = [] }) in
          ok (fill fuel bft_number (rest_of c.index_cache 0 vals) c.witness_list)
    ]

-- The loop of `getLastWitnesses`: the first known epoch at or below the index, or else 0.
unfoldable pub last_listed : (ℕ → Result (Option Epoch)) → EpochListCache → ℕ → ℕ
last_listed load elc zero = 0
last_listed load elc (suc i) = if is_listed load (suc i) elc then suc i else last_listed load elc i

-- `getLastWitnesses`; `none` is the use of a nil pointer, where the epoch is not there.
unfoldable pub get_last_witnesses :
    (ℕ → Result (Option Epoch)) → ℕ → EpochListCache → Option (List Validator × ℕ) × EpochListCache
unfolding last_listed
get_last_witnesses load depend_epoch_no elc =
    let n = last_listed load elc (depend_epoch_no - 1) in
    let (found, elc') = get_epoch load n elc in
    elim found [ none ↦ (none, elc') | some e ↦ (some (e.witness_list, n), elc') ]

-- One round of the generator, in 64 bits.
unfoldable pub mix : ℕ → ℕ → ℕ
mix seed i =
    let k = (seed + i * 2685821657736338717) % 2 ^ 64 in
    let k = bit_xor k (k / 2 ^ 12) in
    let k = bit_xor k (k * 2 ^ 25 % 2 ^ 64) in
    let k = bit_xor k (k / 2 ^ 27) in k * 2685821657736338717 % 2 ^ 64

unfoldable pub swap_found :
    ℕ → ℕ → Option Validator → Option Validator → List Validator → List Validator
swap_found i j (some a) (some b) xs = set (set xs i b) j a
swap_found i j (some a) none xs = xs
swap_found i j none b xs = xs

-- `dList[i], dList[j] = dList[j], dList[i]`
unfoldable pub swap : ℕ → ℕ → List Validator → List Validator
unfolding swap_found
swap i j xs = swap_found i j (get_elem? xs i) (get_elem? xs j) xs

-- The loop of `witnessShuffle` over the indices from `i` on, of which `left` are left.
unfoldable pub shuffle_from : ℕ → ℕ → ℕ → List Validator → List Validator
unfolding swap mix
shuffle_from seed i zero d = d
shuffle_from seed i (suc left) d =
    shuffle_from seed (i + 1) left (swap i (i + mix seed i % suc left) d)

unfoldable pub witness_shuffle : ℕ → List Validator → List Validator
unfolding shuffle_from
witness_shuffle seed s = shuffle_from seed 0 (length s) s

-- `beginWitnessSelection`: the witnesses and the epoch that they depend on. `none` is a call that does
-- not return: a nil pointer, or a loop that has not ended after `fuel` passes.
unfoldable pub with_depend :
    ℕ → Result (Option (List Validator)) → Result (Option (List Validator × ℕ))
with_depend n (err e) = err e
with_depend n (ok none) = ok none
with_depend n (ok (some w)) = ok (some (w, n))

unfoldable pub shuffled :
    ℕ → Result (Option (List Validator × ℕ)) → Result (Option (List Validator × ℕ))
shuffled seed (err e) = err e
shuffled seed (ok none) = ok none
shuffled seed (ok (some (w, n))) = ok (some (witness_shuffle seed w, n))

unfoldable pub begin_witness_selection :
    Voting
    → (ℕ → Result (Option Epoch))
    → ℕ
    → ℕ
    → ℕ
    → Epoch
    → List Validator
    → EpochListCache
    → Result (Option (List Validator × ℕ)) × EpochListCache
unfolding with_depend shuffled
begin_witness_selection voting load fuel bft_number candidate_no epoch vals elc =
    elim (is_vote_satisfied voting epoch.epoch_no) [
      | true ↦ (
        shuffled epoch.epoch_no (
            with_depend candidate_no
              (get_witnesses_by_token voting fuel bft_number epoch.epoch_no vals)),
        elc,
      )
      | false ↦
          let (found, elc') = get_last_witnesses load epoch.depend_epoch_no elc in
          (shuffled epoch.epoch_no (ok found), elc')
    ]
