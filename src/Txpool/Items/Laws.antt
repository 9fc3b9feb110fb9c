-- ===== src/Txpool/Items/Laws.antt =====
-- The maps of txpool/tx_list.go: what the reads see after the writes.
use hnb_blockchain.Prelude.{ℕ, ◌==◌, if◌then◌else◌, ◌≡◌, refl, none, some, [], ◌∷◌, arith}
use hnb_blockchain.Ledger.Types.{Transaction}
use hnb_blockchain.Txpool.Items.{Items, item, insert_item, erase_item}

pub item-insert_item :
    (k n : ℕ) (tx : Transaction) (m : Items)
    → item n (insert_item k tx m) ≡ (if k == n then some tx else item n m)
unfolding item insert_item
item-insert_item k n tx [] = refl
item-insert_item k n tx ((j, x) ∷ m) = ground (arith, item-insert_item k n tx m)

pub item-erase_item :
    (k n : ℕ) (m : Items) → item n (erase_item k m) ≡ (if k == n then none else item n m)
unfolding item erase_item
item-erase_item k n [] = ground arith
item-erase_item k n ((j, x) ∷ m) = ground (arith, item-erase_item k n m)

-- Each transaction stands under its own nonce, and no nonce twice.
abbrev pub IsKeyed : Items → Type 0
IsKeyed [] = Unit
IsKeyed ((k, tx) ∷ m) = (k ≡ tx.nonce_value) × (item k m ≡ none) × IsKeyed m

pub insert_item-IsKeyed :
    (tx : Transaction) (m : Items) → IsKeyed m → IsKeyed (insert_item tx.nonce_value tx m)
unfolding item insert_item
insert_item-IsKeyed tx [] h = (refl, refl, tt)
insert_item-IsKeyed tx ((j, x) ∷ m) h =
    ground (arith, insert_item-IsKeyed tx m, item-insert_item tx.nonce_value j tx m)

pub erase_item-IsKeyed : (n : ℕ) (m : Items) → IsKeyed m → IsKeyed (erase_item n m)
unfolding item erase_item
erase_item-IsKeyed n [] h = tt
erase_item-IsKeyed n ((j, x) ∷ m) h = ground (arith, erase_item-IsKeyed n m, item-erase_item n j m)
