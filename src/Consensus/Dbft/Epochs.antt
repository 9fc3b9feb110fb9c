-- ===== src/Consensus/Dbft/Epochs.antt =====
-- consensus/dbft/epoch.go and consensus/dbft/epochList.go: an epoch, and the list of known epochs
-- with the database behind it. `load` is `LoadEpochInfo`: an error, or the decoded epoch, where
-- `none` is the nil pointer that the document "null" gives.
use hnb_blockchain.Prelude.{
  ℕ, ◌-◌, ◌==◌, ltb, leb, Bool, true, false, if◌then◌else◌, Option, none, some, List, [], ◌∷◌,
}
use hnb_blockchain.Prelude.Bytes.{Bytes, bytes_equal}
use hnb_blockchain.Prelude.Result.{Result, ok, err}
use hnb_blockchain.Consensus.Dbft.Types.{Validator, Epoch}

-- The loop of `Epoch.IsExist`.
unfoldable pub has_witness : Bytes → List Validator → Bool
has_witness digest_addr [] = false
has_witness digest_addr (v ∷ vs) =
    if bytes_equal v.address digest_addr then true else has_witness digest_addr vs

-- `Epoch.IsExist`: no address is empty.
unfoldable pub is_witness : Bytes → Epoch → Bool
unfolding has_witness
is_witness [] eh = false
is_witness (b ∷ bs) eh = has_witness (b ∷ bs) eh.witness_list

unfoldable pub re_set_begin_blk : ℕ → Epoch → Epoch
re_set_begin_blk height eb = record eb { begin_num = height; end_num = height }

unfoldable pub set_begin_blk : ℕ → Epoch → Epoch
set_begin_blk height eb = record eb { begin_num = height }

unfoldable pub set_end_blk : ℕ → Epoch → Epoch
set_end_blk height eb = record eb { end_num = height }

-- `IsBlksToTarget`, for a target that is not negative.
unfoldable pub is_blks_to_target : ℕ → Epoch → Bool
is_blks_to_target target_count eb =
    if ltb eb.end_num eb.begin_num then false else leb target_count (eb.end_num - eb.begin_num)

-- A stored nil pointer is `some none`.
pub record EpochListCache : Type 0 where
  pub list : ℕ → Option (Option Epoch)

module _ (load : ℕ → Result (Option Epoch)) where
  -- `isExist`: what the database holds does not count, whatever it answers.
  unfoldable pub is_listed : ℕ → EpochListCache → Bool
  is_listed epoch_no elc = elim (elc.list epoch_no) [
    | some e ↦ true
    | none ↦ elim (load epoch_no) [ err e ↦ false | ok none ↦ false | ok (some e) ↦ false ]
  ]

  unfoldable pub load_epoch :
      ℕ → Result (Option Epoch) → EpochListCache → Option Epoch × EpochListCache
  load_epoch epoch_no (err e) elc = (none, elc)
  load_epoch epoch_no (ok none) elc = (none, elc)
  load_epoch epoch_no (ok (some e)) elc =
      (some e, record { list = λ n. if n == epoch_no then some (some e) else elc.list n })

  -- The pointer of the list, or nil.
  abbrev pub listed : Option (Option Epoch) → Option Epoch
  listed none = none
  listed (some e) = e

  unfoldable pub get_epoch : ℕ → EpochListCache → Option Epoch × EpochListCache
  unfolding load_epoch
  get_epoch epoch_no elc = elim (listed (elc.list epoch_no)) [
    | some e ↦ (some e, elc)
    | none ↦ load_epoch epoch_no (load epoch_no) elc
  ]

unfoldable pub set_epoch : Epoch → EpochListCache → EpochListCache
set_epoch epoch elc = record {
  list = λ n. if n == epoch.epoch_no then some (some epoch) else elc.list n;
}

unfoldable pub del_epoch : ℕ → EpochListCache → EpochListCache
del_epoch epoch_no elc = record { list = λ n. if n == epoch_no then none else elc.list n }
