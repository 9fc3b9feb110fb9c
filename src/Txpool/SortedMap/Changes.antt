-- ===== src/Txpool/SortedMap/Changes.antt =====
-- txpool/tx_list.go: Put, Remove and Filter of txSortedMap on the ordered list.
use hnb_blockchain.Prelude.{
  ℕ, suc, not, if◌then◌else◌, ◌≡◌, refl, Bool, true, false, ap, ◌∙◌, sym, none, some, List, [], ◌∷◌,
  arith, Option-cases, inl, inr, inl, inr,
}
use hnb_blockchain.Ledger.Types.{Transaction}
use hnb_blockchain.Txpool.Items.{
  Items, item, erase_item, keys, values, insert_by_nonce, sort_by_nonce, push_nonce, sort_nonces,
  remove_nonce,
}
use hnb_blockchain.Txpool.Items.Laws.{IsKeyed}
use hnb_blockchain.Txpool.Ordered.{IsAscending, nonces, find, find-none, without, has_nonce, put_in}
use hnb_blockchain.Txpool.SortedMap.{
  TxSortedMap, is_some, put, picked, unpicked, filter, remove, refreshed,
}
use hnb_blockchain.Txpool.SortedMap.Laws.{
  Stores, erase_item-Stores, insert_item-Stores, unpicked-Stores, sort_by_nonce-values,
  sort_by_nonce-picked, without_above,
}
use hnb_blockchain.Txpool.SortedMap.Refines.{Holds}

push_nonce-nonces :
    (x : Transaction) (l : List Transaction)
    → push_nonce x.nonce_value (nonces l) ≡ nonces (insert_by_nonce x l)
unfolding push_nonce insert_by_nonce
push_nonce-nonces x [] = refl
push_nonce-nonces x (y ∷ l) = ground (arith, push_nonce-nonces x l)

without_absent : (n : ℕ) (l : List Transaction) → find n l ≡ none → without (has_nonce n) l ≡ l
unfolding find
without_absent n [] e = refl
without_absent n (y ∷ l) e = ground (arith, without_absent n l)

insert_first :
    (tx : Transaction) (l : List Transaction)
    → IsAscending (suc tx.nonce_value) l
    → insert_by_nonce tx l ≡ tx ∷ l
unfolding insert_by_nonce
insert_first tx [] a = refl
insert_first tx (y ∷ l) a = ground (arith, a.0)

nonces-put_in_present :
    (tx : Transaction) (lo : ℕ) (l : List Transaction) (old : Transaction)
    → IsAscending lo l
    → find tx.nonce_value l ≡ some old
    → nonces (put_in tx l) ≡ nonces l
unfolding find insert_by_nonce
nonces-put_in_present tx lo [] old a e = cc
nonces-put_in_present tx lo (y ∷ l) old a e = ground (
  arith,
  insert_first tx l,
  without_above tx.nonce_value l,
  find-none tx.nonce_value (suc y.nonce_value) l,
  nonces-put_in_present tx (suc y.nonce_value) l old a.1,
)

put_index :
    (tx : Transaction) (items : Items) (index : List ℕ) (l : List Transaction)
    → Stores items l
    → index ≡ nonces l
    → (if is_some (item tx.nonce_value items) then index else push_nonce tx.nonce_value index)
      ≡ nonces (put_in tx l)
put_index tx items index l h i = elim (Option-cases (find tx.nonce_value l)) [
  | inl e ↦
      rw (h.agree tx.nonce_value, e, i)
        (push_nonce-nonces tx l
          ∙ ap (λ (k : List Transaction). nonces (insert_by_nonce tx k))
              (sym (without_absent tx.nonce_value l e)))
  | inr (old, e) ↦
      rw (h.agree tx.nonce_value, e, i) (sym (nonces-put_in_present tx 0 l old h.ascending e))
]

-- Put adds the transaction, or puts it in the place of the one with its nonce.
pub put-Holds :
    (tx : Transaction) (m : TxSortedMap) (l : List Transaction)
    → Holds m l
    → Holds (put tx m) (put_in tx l)
unfolding put
put-Holds tx m l h = record {
  stores = insert_item-Stores tx m.items l h.stores;
  indexed = put_index tx m.items m.index l h.stores h.indexed;
  cached = λ d e. cc;
}

remove_nonce-nonces :
    (n lo : ℕ) (l : List Transaction)
    → IsAscending lo l
    → remove_nonce n (nonces l) ≡ nonces (without (has_nonce n) l)
unfolding remove_nonce
remove_nonce-nonces n lo [] a = refl
remove_nonce-nonces n lo (y ∷ l) a =
    ground (arith, remove_nonce-nonces n (suc y.nonce_value) l a.1, without_above n l)

remove_present :
    (n : ℕ) (m : TxSortedMap) (old : Transaction)
    → item n m.items ≡ some old
    → remove n m ≡ (
      record { items = erase_item n m.items; index = remove_nonce n m.index; cache = none },
      true,
    )
unfolding remove
remove_present n m old e = rw e

remove_absent : (n : ℕ) (m : TxSortedMap) → item n m.items ≡ none → remove n m ≡ (m, false)
unfolding remove
remove_absent n m e = rw e

erased-Holds :
    (n : ℕ) (m : TxSortedMap) (l : List Transaction)
    → Holds m l
    → Holds
        (record { items = erase_item n m.items; index = remove_nonce n m.index; cache = none })
        (without (has_nonce n) l)
erased-Holds n m l h = record {
  stores = erase_item-Stores n m.items l h.stores;
  indexed = ap (remove_nonce n) h.indexed ∙ remove_nonce-nonces n 0 l h.stores.ascending;
  cached = λ d e. cc;
}

-- Remove takes out the transaction with the nonce, and says whether there was one.
pub remove-Holds :
    (n : ℕ) (m : TxSortedMap) (l : List Transaction)
    → Holds m l
    → Holds (remove n m).0 (without (has_nonce n) l) × ((remove n m).1 ≡ is_some (find n l))
remove-Holds n m l h = elim (Option-cases (find n l)) [
  | inl e ↦ rw (remove_absent n m (h.stores.agree n ∙ e), e) (rw (without_absent n l e) h, refl)
  | inr (old, e) ↦
      rw (remove_present n m old (h.stores.agree n ∙ e), e) (erased-Holds n m l h, refl)
]

keys_sorted : (m : Items) → IsKeyed m → sort_nonces (keys m) ≡ nonces (sort_by_nonce (values m))
unfolding sort_nonces sort_by_nonce
keys_sorted [] h = refl
keys_sorted ((k, x) ∷ m) h =
    rw (keys_sorted m h.2, h.0) (push_nonce-nonces x (sort_by_nonce (values m)))

nothing_dropped :
    (test : Transaction → Bool) (l : List Transaction)
    → without (λ x. not (test x)) l ≡ []
    → without test l ≡ l
nothing_dropped test [] e = refl
nothing_dropped test (x ∷ l) e = ground (arith, nothing_dropped test l)

sort_empty : (l : List Transaction) → l ≡ [] → sort_by_nonce l ≡ []
unfolding sort_by_nonce
sort_empty l e = rw e

refreshed-Holds :
    (test : Transaction → Bool) (m : TxSortedMap) (l removed : List Transaction)
    → Holds m l
    → picked test m.items ≡ removed
    → Holds (refreshed removed (unpicked test m.items) m) (without test l)
refreshed-Holds test m l [] h e =
    let d : without test l ≡ l =
      nothing_dropped test l
        (sym (sort_by_nonce-picked test m.items l h.stores) ∙ sort_empty _ e) in
    record {
      stores = unpicked-Stores test m.items l h.stores;
      indexed = h.indexed ∙ ap nonces (sym d);
      cached = λ c p. h.cached c p ∙ sym d;
    }
refreshed-Holds test m l (x ∷ r) h e =
    let st = unpicked-Stores test m.items l h.stores in
    record {
      stores = st;
      indexed =
          keys_sorted (unpicked test m.items) st.keyed
          ∙ ap nonces (sort_by_nonce-values (unpicked test m.items) (without test l) st);
      cached = λ c p. cc;
    }

-- Filter takes out the transactions that the test picks, in any order, and keeps the others.
pub filter-Holds :
    (test : Transaction → Bool) (m : TxSortedMap) (l : List Transaction)
    → Holds m l
    → Holds (filter test m).0 (without test l)
      × (sort_by_nonce (filter test m).1 ≡ without (λ x. not (test x)) l)
unfolding filter
filter-Holds test m l h = (
  refreshed-Holds test m l (picked test m.items) h refl,
  sort_by_nonce-picked test m.items l h.stores,
)
