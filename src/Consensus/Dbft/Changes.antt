-- ===== src/Consensus/Dbft/Changes.antt =====
-- consensus/dbft/epochChange.go: the requests for a change by epoch, and the proposals by epoch. The
-- locks around each call make it one step. A missing key reads as the nil slice or pointer.
use hnb_blockchain.Prelude.{
  ℕ, ◌*◌, ◌/◌, ◌<◌, ◌==◌, ltb, ◌++◌, ◌≡◌, ◌↔◌, Bool, true, false, if◌then◌else◌, Option, none, some,
  List, [], ◌∷◌, length, arith,
}
use hnb_blockchain.Prelude.Bytes.{bytes_equal}
use hnb_blockchain.Consensus.Dbft.Types.{EpochChange, NewEpoch}

pub record EpochChangeMap : Type 0 where
  pub ec_list : ℕ → List EpochChange

unfoldable pub new_epoch_change_map : EpochChangeMap
new_epoch_change_map = record { ec_list = λ e. [] }

unfoldable pub get_epoch_change_len : ℕ → EpochChangeMap → ℕ
get_epoch_change_len epoch_no ecm = length (ecm.ec_list epoch_no)

-- The loop of `IsExist`: whether the sender of `epoch` stands in the list.
unfoldable pub has_sender : EpochChange → List EpochChange → Bool
has_sender epoch [] = false
has_sender epoch (e ∷ es) =
    if bytes_equal e.digest_addr epoch.digest_addr then true else has_sender epoch es

unfoldable pub is_exist : EpochChange → EpochChangeMap → Bool
unfolding has_sender
is_exist epoch ecm = has_sender epoch (ecm.ec_list epoch.epoch_no)

unfoldable pub set_epoch_change : EpochChange → EpochChangeMap → EpochChangeMap
set_epoch_change epoch ecm = record {
  ec_list = λ e. if e == epoch.epoch_no then ecm.ec_list e ++ epoch ∷ [] else ecm.ec_list e;
}

unfoldable pub get_epoch_change : ℕ → EpochChangeMap → List EpochChange
get_epoch_change epoch_no ecm = ecm.ec_list epoch_no

unfoldable pub is_majority_to_candidates : ℕ → ℕ → EpochChangeMap → Bool
is_majority_to_candidates epoch_no candidates_num ecm =
    ltb (candidates_num * 2 / 3) (length (ecm.ec_list epoch_no))

unfoldable pub is_more_than_one_thrid_to_candidates : ℕ → ℕ → EpochChangeMap → Bool
is_more_than_one_thrid_to_candidates epoch_no candidates_num ecm =
    ltb (candidates_num / 3) (length (ecm.ec_list epoch_no))

unfoldable pub del_epoch_change : ℕ → EpochChangeMap → EpochChangeMap
del_epoch_change epoch_no ecm = record {
  ec_list = λ e. if e == epoch_no then [] else ecm.ec_list e;
}

pub record NewEpochMap : Type 0 where
  pub ne : ℕ → Option NewEpoch

unfoldable pub new_new_epoch_map : NewEpochMap
new_new_epoch_map = record { ne = λ e. none }

unfoldable pub is_known : ℕ → NewEpochMap → Bool
is_known epoch_no m = elim (m.ne epoch_no) [ none ↦ false | some e ↦ true ]

unfoldable pub set_new_epoch_map : NewEpoch → NewEpochMap → NewEpochMap
set_new_epoch_map n m = record { ne = λ e. if e == n.epoch_no then some n else m.ne e }

unfoldable pub get_new_epoch_map : ℕ → NewEpochMap → Option NewEpoch
get_new_epoch_map epoch_no m = m.ne epoch_no

unfoldable pub del_new_epoch_map : ℕ → NewEpochMap → NewEpochMap
del_new_epoch_map epoch_no m = record { ne = λ e. if e == epoch_no then none else m.ne e }

-- The two thresholds are exact: a majority is more than two thirds of the candidates, and the lower
-- one more than a third, whatever their number leaves over by three.
pub thresholds_exact :
    (epoch_no n : ℕ) (ecm : EpochChangeMap)
    → ((is_majority_to_candidates epoch_no n ecm ≡ true)
        ↔ (2 * n < 3 * get_epoch_change_len epoch_no ecm))
      × ((is_more_than_one_thrid_to_candidates epoch_no n ecm ≡ true)
          ↔ (n < 3 * get_epoch_change_len epoch_no ecm))
unfolding is_majority_to_candidates is_more_than_one_thrid_to_candidates get_epoch_change_len
thresholds_exact epoch_no n ecm =
    ((λ h. ground arith, λ h. ground arith), (λ h. ground arith, λ h. ground arith))
