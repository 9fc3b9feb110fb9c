-- ===== src/Txpool/Pool/Filtering.antt =====
-- txpool/tx_list.go: what a removal takes out of a list: the transaction, and in a strict list all later ones.
use hnb_blockchain.Prelude.{
  ℕ, ◌==◌, ◌<◌, ◌^◌, if◌then◌else◌, ◌≡◌, ◌≢◌, refl, ap, sym, ◌∙◌, subst, Bool, true, false, not,
  Option, none, some, List, [], ◌∷◌, arith, inl, ◌⊎◌,
}
use hnb_blockchain.Ledger.Types.{Transaction}
use hnb_blockchain.Txpool.Items.{Items, item, sort_by_nonce}
use hnb_blockchain.Txpool.Items.Laws.{IsKeyed}
use hnb_blockchain.Txpool.Ordered.{AreWords, find, find-insert_by_nonce, without, has_nonce}
use hnb_blockchain.Txpool.SortedMap.{TxSortedMap, picked, filter}
use hnb_blockchain.Txpool.SortedMap.Laws.{Stores, unless, find-without_test, find-without}
use hnb_blockchain.Txpool.SortedMap.Refines.{Holds}
use hnb_blockchain.Txpool.SortedMap.Changes.{filter-Holds}
use hnb_blockchain.Txpool.Pool.Slots.{first, IsHand}
use hnb_blockchain.Txpool.Pool.Splits.{Splits}

find-sort_by_nonce : (n : ℕ) (l : List Transaction) → find n (sort_by_nonce l) ≡ find n l
unfolding find sort_by_nonce
find-sort_by_nonce n [] = refl
find-sort_by_nonce n (x ∷ l) =
    find-insert_by_nonce n x (sort_by_nonce l)
    ∙ ap (λ o. if x.nonce_value == n then some x else o) (find-sort_by_nonce n l)

picked-absent :
    (test : Transaction → Bool) (n : ℕ) (m : Items)
    → IsKeyed m
    → item n m ≡ none
    → find n (picked test m) ≡ none
unfolding picked find item
picked-absent test n [] k e = refl
picked-absent test n ((j, x) ∷ m) k e = ground (arith, k.0, e, picked-absent test n m k.2)

find-word :
    (n : ℕ) (l : List Transaction) (x : Transaction)
    → AreWords l
    → find n l ≡ some x
    → x.nonce_value < 2 ^ 64
unfolding find
find-word n [] x w e = cc
find-word n (y ∷ l) x w e = ground (arith, w.0, e, find-word n l x w.1)

-- All items are words.
AllWords : Items → Type 0
AllWords m = (n : ℕ) (x : Transaction) → item n m ≡ some x → x.nonce_value < 2 ^ 64

tail_words :
    (j : ℕ) (y : Transaction) (m : Items) → item j m ≡ none → AllWords ((j, y) ∷ m) → AllWords m
unfolding item AllWords
tail_words j y m e w n x p = w n x (ground (arith, e, p))

head_word : (j : ℕ) (y : Transaction) (m : Items) → AllWords ((j, y) ∷ m) → y.nonce_value < 2 ^ 64
unfolding item AllWords
head_word j y m w = w j y (ground arith)

picked-IsHand :
    (test : Transaction → Bool) (m : Items) → IsKeyed m → AllWords m → IsHand (picked test m)
unfolding picked
picked-IsHand test [] k w = tt
picked-IsHand test ((j, x) ∷ m) k w =
    picked_if (test x) (head_word j x m w)
      (picked-absent test x.nonce_value m k.2 (ap (λ (n : ℕ). item n m) (sym k.0) ∙ k.1))
      (picked-IsHand test m k.2 (tail_words j x m k.1 w))
  where
    picked_if :
        (b : Bool)
        → x.nonce_value < 2 ^ 64
        → find x.nonce_value (picked test m) ≡ none
        → IsHand (picked test m)
        → IsHand (if b then x ∷ picked test m else picked test m)
    picked_if true p q r = (p, q, r)
    picked_if false p q r = r

-- What a test drops and what it keeps.
both_sides :
    (test : Transaction → Bool) (o : Option Transaction)
    → (o ≡ first (unless test o) (unless (λ x. not (test x)) o))
      × ((unless test o ≡ none) ⊎ (unless (λ x. not (test x)) o ≡ none))
both_sides test none = (refl, inl refl)
both_sides test (some x) = ground arith

items_words : (m : Items) (l : List Transaction) → Stores m l → AreWords l → AllWords m
unfolding AllWords
items_words m l h w n x e = find-word n l x w (sym (h.agree n) ∙ e)

pub filter-Splits :
    (test : Transaction → Bool) (m : TxSortedMap) (l : List Transaction)
    → Holds m l
    → AreWords l
    → Splits l (without test l) (filter test m).1
unfolding filter
filter-Splits test m l h w = record {
  parts = λ n. (both_sides test (find n l)).0 ∙ sym (sides n);
  disjoint = λ n.
      subst (λ o. (find n (without test l) ≡ none) ⊎ (o ≡ none)) (sym (dropped n))
        (subst (λ o. (o ≡ none) ⊎ (unless (λ x. not (test x)) (find n l) ≡ none)) (sym (kept n))
          (both_sides test (find n l)).1);
  in_hand = picked-IsHand test m.items h.stores.keyed words;
}
  where
    kept : (n : ℕ) → find n (without test l) ≡ unless test (find n l)
    kept n = find-without_test test n 0 l h.stores.ascending

    dropped : (n : ℕ) → find n (picked test m.items) ≡ unless (λ x. not (test x)) (find n l)
    dropped n =
        sym (find-sort_by_nonce n (picked test m.items))
        ∙ ap (find n) (filter-Holds test m l h).1
        ∙ find-without_test (λ x. not (test x)) n 0 l h.stores.ascending

    sides :
        (n : ℕ)
        → first (find n (without test l)) (find n (picked test m.items))
          ≡ first (unless test (find n l)) (unless (λ x. not (test x)) (find n l))
    sides n =
        ap (λ o. first o (find n (picked test m.items))) (kept n)
        ∙ ap (first (unless test (find n l))) (dropped n)

    words : AllWords m.items
    words = items_words m.items l h.stores w

-- The transaction with one nonce, apart from the others.
pub one-Splits :
    (n : ℕ) (l : List Transaction) (old : Transaction)
    → find n l ≡ some old
    → old.nonce_value ≡ n
    → AreWords l
    → Splits l (without (has_nonce n) l) (old ∷ [])
unfolding find
one-Splits n l old e o w = record {
  parts = λ k. ground (arith, find-without k n l, e, o);
  disjoint = λ k. ground (arith, find-without k n l, o);
  in_hand = (subst (λ (m : ℕ). m < 2 ^ 64) refl (find-word n l old w e), refl, tt);
}

find-first :
    (n : ℕ) (old : Transaction) (r : List Transaction)
    → find n (old ∷ r) ≡ first (find n (old ∷ [])) (find n r)
unfolding find
find-first n old r = ground arith

options_chain :
    (l k m r o : Option Transaction)
    → l ≡ first k o
    → (k ≡ none) ⊎ (o ≡ none)
    → k ≡ first m r
    → (m ≡ none) ⊎ (r ≡ none)
    → (l ≡ first m (first o r)) × ((m ≡ none) ⊎ (first o r ≡ none)) × ((o ≢ none) → r ≡ none)
options_chain l k m r o a b c d = ground (arith, a, b, c, d)

found_itself : (x : Transaction) → find x.nonce_value (x ∷ []) ≢ none
unfolding find
found_itself x e = ground (arith, e)

-- A part of the rest is taken as well.
pub chain-Splits :
    (l k m r : List Transaction) (old : Transaction)
    → Splits l k (old ∷ [])
    → Splits k m r
    → Splits l m (old ∷ r)
chain-Splits l k m r old s t = record {
  parts = λ n. (all n).0 ∙ ap (first (find n m)) (sym (find-first n old r));
  disjoint = λ n. subst (λ o. (find n m ≡ none) ⊎ (o ≡ none)) (sym (find-first n old r)) (all n).1;
  in_hand = (s.in_hand.0, (all old.nonce_value).2 (found_itself old), t.in_hand);
}
  where
    all :
        (n : ℕ)
        → (find n l ≡ first (find n m) (first (find n (old ∷ [])) (find n r)))
          × ((find n m ≡ none) ⊎ (first (find n (old ∷ [])) (find n r) ≡ none))
          × ((find n (old ∷ []) ≢ none) → find n r ≡ none)
    all n =
        options_chain (find n l) (find n k) (find n m) (find n r) (find n (old ∷ [])) (s.parts n)
          (s.disjoint n) (t.parts n) (t.disjoint n)
