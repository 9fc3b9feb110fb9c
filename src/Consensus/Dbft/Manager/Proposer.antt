-- ===== src/Consensus/Dbft/Manager/Proposer.antt =====
-- The node that proposes a new epoch is one of the candidates, taken in the order of their addresses.
use hnb_blockchain.Prelude.{
  ℕ, zero, suc, ◌%◌, ◌<◌, ◌≡◌, ◌≢◌, ◌∙◌, refl, sym, true, List, [], ◌∷◌, arith, length, get_elem?,
}
use hnb_blockchain.Prelude.Bytes.{Bytes, bytes_equal_refl}
use hnb_blockchain.Prelude.Result.{ok}
use hnb_blockchain.Consensus.Dbft.Types.{Validator}
use hnb_blockchain.Consensus.Dbft.Epochs.{has_witness}
use hnb_blockchain.Consensus.Dbft.Manager.{
  DbftManager, insert_validator, sort_validators, address_at, sender_of, get_new_epoch_sender_addr,
}

has_witness-insert :
    (a : Bytes) (v : Validator) (vs : List Validator)
    → has_witness a (insert_validator v vs) ≡ has_witness a (v ∷ vs)
unfolding insert_validator has_witness
has_witness-insert a v [] = refl
has_witness-insert a v (w ∷ ws) = ground (arith, has_witness-insert a v ws)

has_witness-sort :
    (a : Bytes) (vs : List Validator) → has_witness a (sort_validators vs) ≡ has_witness a vs
unfolding sort_validators has_witness
has_witness-sort a [] = refl
has_witness-sort a (v ∷ vs) =
    unfold insert_validator in
    ground (arith, has_witness-insert a v (sort_validators vs), has_witness-sort a vs)

length-insert :
    (v : Validator) (vs : List Validator) → length (insert_validator v vs) ≡ suc (length vs)
unfolding insert_validator
length-insert v [] = refl
length-insert v (w ∷ ws) = ground (arith, length-insert v ws)

length-sort : (vs : List Validator) → length (sort_validators vs) ≡ length vs
unfolding sort_validators
length-sort [] = refl
length-sort (v ∷ vs) =
    unfold insert_validator in ground (arith, length-insert v (sort_validators vs), length-sort vs)

address_at_place :
    (i : ℕ) (vs : List Validator)
    → i < length vs
    → (a : Bytes) × (address_at (get_elem? vs i) ≡ ok a) × (has_witness a vs ≡ true)
unfolding address_at has_witness
address_at_place i [] h = absurd (omega arith)
address_at_place zero (v ∷ vs) h = (v.address, refl, ground (arith, bytes_equal_refl v.address))
address_at_place (suc i) (v ∷ vs) h =
    let (a, at_place, there) = address_at_place i vs (omega arith) in
    (a, at_place, ground (arith, there))

place : (n k : ℕ) → n % suc k < suc k
place n k = omega arith

sender_of-candidate :
    (epoch_no : ℕ) (vs : List Validator)
    → vs ≢ []
    → (a : Bytes) × (sender_of epoch_no vs ≡ ok a) × (has_witness a vs ≡ true)
unfolding sender_of
sender_of-candidate epoch_no [] ne = absurd (ne refl)
sender_of-candidate epoch_no (v ∷ vs) ne =
    let (a, at_place, there) =
      address_at_place (epoch_no % suc (length vs)) (sort_validators (v ∷ vs))
        (grind (arith, length-sort (v ∷ vs), place epoch_no (length vs))) in
    (a, unfold address_at in at_place, sym (has_witness-sort a (v ∷ vs)) ∙ there)

-- Where there are candidates, a proposer is found for every epoch, and it is one of the candidates.
pub get_new_epoch_sender_addr-candidate :
    (epoch_no : ℕ) (dm : DbftManager)
    → dm.total_validators ≢ []
    → (a : Bytes) × (get_new_epoch_sender_addr epoch_no dm ≡ ok a)
      × (has_witness a dm.total_validators ≡ true)
unfolding get_new_epoch_sender_addr
get_new_epoch_sender_addr-candidate epoch_no dm ne =
    unfold sender_of in sender_of-candidate epoch_no dm.total_validators ne
