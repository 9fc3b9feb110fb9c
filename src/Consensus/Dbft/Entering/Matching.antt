-- ===== src/Consensus/Dbft/Entering/Matching.antt =====
-- What a proposal that passes the check agrees with.
use hnb_blockchain.Prelude.{
  ℕ, zero, suc, ◌≡◌, ◌↔◌, ◌⊎◌, replicate, length-replicate, refl, true, List, [], ◌∷◌, length,
  arith,
}
use hnb_blockchain.Prelude.Bytes.{Bytes, bytes_equal_iff}
use hnb_blockchain.Consensus.Dbft.Types.{Validator, Epoch}
use hnb_blockchain.Consensus.Dbft.Entering.{has_match, all_match, check_new_epoch_match}

-- Some witness of the list has that hash.
abbrev pub Hashed : (Validator → Bytes) → Bytes → List Validator → Type 0
Hashed hash h [] = ⊥
Hashed hash h (v ∷ vs) = (h ≡ hash v) ⊎ Hashed hash h vs

-- Every witness of the first list has its hash in the second.
abbrev pub AreHashed : (Validator → Bytes) → List Validator → List Validator → Type 0
AreHashed hash [] own = Unit {0}
AreHashed hash (w ∷ ws) own = Hashed hash (hash w) own × AreHashed hash ws own

has_match_iff :
    (hash : Validator → Bytes) (w : Validator) (own : List Validator)
    → (has_match hash w own ≡ true) ↔ Hashed hash (hash w) own
unfolding has_match
has_match_iff hash w [] = (λ h. cc, λ h. absurd h)
has_match_iff hash w (v ∷ vs) =
    ground (arith, has_match_iff hash w vs, bytes_equal_iff (hash w) (hash v))

all_match_iff :
    (hash : Validator → Bytes) (ws own : List Validator)
    → (all_match hash ws own ≡ true) ↔ AreHashed hash ws own
unfolding all_match
all_match_iff hash [] own = (λ h. tt, λ h. refl)
all_match_iff hash (w ∷ ws) own =
    ground (arith, has_match_iff hash w own, all_match_iff hash ws own)

-- A proposal passes the check exactly when it has the node's own range of blocks, its own epoch to
-- depend on, as many witnesses as the node selected, and every witness of it has the hash of one of
-- those.
pub check_new_epoch_match_iff :
    (hash : Validator → Bytes) (net own : Epoch)
    → (check_new_epoch_match hash net own ≡ true) ↔ (
        (net.begin_num ≡ own.begin_num)
        × (net.end_num ≡ own.end_num)
        × (net.depend_epoch_no ≡ own.depend_epoch_no)
        × (length net.witness_list ≡ length own.witness_list)
        × AreHashed hash net.witness_list own.witness_list)
unfolding check_new_epoch_match
check_new_epoch_match_iff hash net own =
    ground (arith, all_match_iff hash net.witness_list own.witness_list)

repeated :
    (hash : Validator → Bytes) (n : ℕ) (v : Validator) (vs : List Validator)
    → all_match hash (replicate n v) (v ∷ vs) ≡ true
unfolding all_match has_match
repeated hash zero v vs = refl
repeated hash (suc n) v vs = ground (arith, bytes_equal_iff (hash v) (hash v), repeated hash n v vs)

-- The check does not ask that witnesses differ: the node's own selection with every place given to
-- its first witness passes as well.
pub check_new_epoch_match_repeats :
    (hash : Validator → Bytes) (own : Epoch) (v : Validator) (vs : List Validator)
    → own.witness_list ≡ v ∷ vs
    → check_new_epoch_match hash
        (record own { witness_list = replicate (length own.witness_list) v })
        own
      ≡ true
unfolding check_new_epoch_match
check_new_epoch_match_repeats hash own v vs h = ground (
  arith,
  h,
  length-replicate (length own.witness_list) v,
  repeated hash (length own.witness_list) v vs,
)
