-- ===== src/Txpool/SortedMap/Cap.antt =====
-- txpool/tx_list.go: Cap of txSortedMap on the ordered list.
use hnb_blockchain.Prelude.{
  ℕ, zero, suc, ◌+◌, ◌-◌, ◌≤◌, ◌<◌, leb, ◌≡◌, refl, subst, true, false, ap, ◌∙◌, sym, some, List,
  [], ◌∷◌, ◌++◌, length, take, drop, arith, length-drop, dec_lt, take-append-drop,
}
use hnb_blockchain.Ledger.Types.{Transaction}
use hnb_blockchain.Txpool.Items.{Items, item, erase_item, push_nonce, sort_nonces}
use hnb_blockchain.Txpool.Ordered.{
  IsAscending, IsAscending-weaken, nonces, find, without, has_nonce,
}
use hnb_blockchain.Txpool.SortedMap.{
  TxSortedMap, Taken, drop_nonces, cap, cap_over, on_cache, reverse_onto,
}
use hnb_blockchain.Txpool.SortedMap.Laws.{Stores, erase_item-Stores}
use hnb_blockchain.Txpool.SortedMap.Refines.{Holds, changed_cache, map_len-items}
use mathlib.Core.List.{append_assoc, append-nil}

reverse_onto_twice :
    (a b c : List Transaction) → reverse_onto (reverse_onto a b) c ≡ reverse_onto b (a ++ c)
reverse_onto_twice [] b c = refl
reverse_onto_twice (x ∷ a) b c = reverse_onto_twice a (x ∷ b) c

reverse_onto-append : (a b : List Transaction) → reverse_onto a b ≡ reverse_onto a [] ++ b
reverse_onto-append [] b = refl
reverse_onto-append (x ∷ a) b =
    rw (reverse_onto-append a (x ∷ b), reverse_onto-append a (x ∷ []))
      (sym (append_assoc (reverse_onto a []) (x ∷ []) b))

reverse_onto-nonces :
    (a b : List Transaction) → reverse_onto (nonces a) (nonces b) ≡ nonces (reverse_onto a b)
reverse_onto-nonces [] b = refl
reverse_onto-nonces (x ∷ a) b = reverse_onto-nonces a (x ∷ b)

take-nonces : (n : ℕ) (l : List Transaction) → take n (nonces l) ≡ nonces (take n l)
take-nonces zero l = refl
take-nonces (suc n) [] = refl
take-nonces (suc n) (x ∷ l) = ap (λ (k : List ℕ). x.nonce_value ∷ k) (take-nonces n l)

drop-nonces : (n : ℕ) (l : List Transaction) → drop n (nonces l) ≡ nonces (drop n l)
drop-nonces zero l = refl
drop-nonces (suc n) [] = refl
drop-nonces (suc n) (x ∷ l) = drop-nonces n l

take_all : (l : List Transaction) → take (length l) l ≡ l
take_all [] = refl
take_all (x ∷ l) = ap (λ (k : List Transaction). x ∷ k) (take_all l)

push_first :
    (n : ℕ) (l : List Transaction) → IsAscending n l → push_nonce n (nonces l) ≡ n ∷ nonces l
unfolding push_nonce
push_first n [] a = refl
push_first n (x ∷ l) a = ground (arith, a.0)

sort_nonces-nonces :
    (lo : ℕ) (l : List Transaction) → IsAscending lo l → sort_nonces (nonces l) ≡ nonces l
unfolding sort_nonces
sort_nonces-nonces lo [] a = refl
sort_nonces-nonces lo (x ∷ l) a = rw (sort_nonces-nonces (suc x.nonce_value) l a.1) (
    push_first x.nonce_value l
      (IsAscending-weaken x.nonce_value (suc x.nonce_value) l (omega arith) a.1))

last_above :
    (lo : ℕ) (a : List Transaction) (x : Transaction)
    → IsAscending lo (a ++ x ∷ [])
    → lo ≤ x.nonce_value
last_above lo [] x h = h.0
last_above lo (y ∷ a) x h = omega (arith, h.0, last_above (suc y.nonce_value) a x h.1)

without_last :
    (lo : ℕ) (a : List Transaction) (x : Transaction)
    → IsAscending lo (a ++ x ∷ [])
    → without (has_nonce x.nonce_value) (a ++ x ∷ []) ≡ a
without_last lo [] x h = ground arith
without_last lo (y ∷ a) x h =
    ground (arith, without_last (suc y.nonce_value) a x h.1, last_above (suc y.nonce_value) a x h.1)

find_last :
    (lo : ℕ) (a : List Transaction) (x : Transaction)
    → IsAscending lo (a ++ x ∷ [])
    → find x.nonce_value (a ++ x ∷ []) ≡ some x
unfolding find
find_last lo [] x h = ground arith
find_last lo (y ∷ a) x h =
    ground (arith, find_last (suc y.nonce_value) a x h.1, last_above (suc y.nonce_value) a x h.1)

drop_last-Stores :
    (a : List Transaction) (x : Transaction) (m : Items)
    → Stores m (a ++ x ∷ [])
    → Stores (erase_item x.nonce_value m) a
drop_last-Stores a x m h =
    subst (Stores (erase_item x.nonce_value m)) (without_last 0 a x h.ascending)
      (erase_item-Stores x.nonce_value m (a ++ x ∷ []) h)

before_last :
    (k a : List Transaction) (x : Transaction)
    → a ++ reverse_onto (x ∷ k) [] ≡ (a ++ reverse_onto k []) ++ x ∷ []
before_last k a x =
    ap (λ (l : List Transaction). a ++ l) (reverse_onto-append k (x ∷ []))
    ∙ sym (append_assoc a (reverse_onto k []) (x ∷ []))

-- The loop of Cap takes the transactions from the back.
drop_nonces_takes :
    (k a : List Transaction) (m : Items)
    → Stores m (a ++ reverse_onto k [])
    → ((drop_nonces (nonces k) m).removed ≡ k) × Stores (drop_nonces (nonces k) m).items a
unfolding drop_nonces
drop_nonces_takes [] a m h = (refl, subst (Stores m) (append-nil a) h)
drop_nonces_takes (x ∷ k) a m h =
    let h' : Stores m ((a ++ reverse_onto k []) ++ x ∷ []) =
      subst (Stores m) (before_last k a x) h in
    let ih =
      drop_nonces_takes k a (erase_item x.nonce_value m)
        (drop_last-Stores (a ++ reverse_onto k []) x m h') in
    let e : item x.nonce_value m ≡ some x =
      h'.agree x.nonce_value ∙ find_last 0 (a ++ reverse_onto k []) x h'.ascending in
    (rw e (ap (λ (l : List Transaction). x ∷ l) ih.0), ih.1)

-- The positions that the loop visits, on an ordered list.
visited :
    (t : ℕ) (m : TxSortedMap) (l : List Transaction)
    → Holds m l
    → reverse_onto (drop t (take (length m.items) (sort_nonces m.index))) []
      ≡ nonces (reverse_onto (drop t l) [])
visited t m l h =
    let n : length m.items ≡ length l = map_len-items m l h in
    let i : sort_nonces m.index ≡ nonces l =
      ap sort_nonces h.indexed ∙ sort_nonces-nonces 0 l h.stores.ascending in
    rw (n, i, take-nonces (length l) l, take_all l, drop-nonces t l)
      (reverse_onto-nonces (drop t l) [])

length-reverse_onto : (a b : List Transaction) → length (reverse_onto a b) ≡ length a + length b
length-reverse_onto [] b = omega arith
length-reverse_onto (x ∷ a) b = omega (arith, length-reverse_onto a (x ∷ b))

kept_cache :
    (t : ℕ) (l removed : List Transaction)
    → t < length l
    → removed ≡ reverse_onto (drop t l) []
    → take (length l - length removed) l ≡ take t l
kept_cache t l removed b e =
    let n : length l - length removed ≡ t =
      rw e (omega (arith, b, length-reverse_onto (drop t l) [], length-drop t l)) in
    ap (λ (k : ℕ). take k l) n

capped_at :
    (t : ℕ) (m : TxSortedMap) (l : List Transaction) (r : Taken) (index : List ℕ)
    → Holds m l
    → t < length l
    → r.removed ≡ reverse_onto (drop t l) []
    → Stores r.items (take t l)
    → index ≡ nonces l
    → Holds
        (record {
          items = r.items;
          index = take t index;
          cache = on_cache (λ c. take (length c - length r.removed) c) m.cache;
        })
        (take t l)
capped_at t m l r index h b e st i = record {
  stores = st;
  indexed = ap (take t) i ∙ take-nonces t l;
  cached = λ d p.
      changed_cache (λ c. take (length c - length r.removed) c) m.cache l h.cached d p
      ∙ kept_cache t l r.removed b e;
}

cap_over-Holds :
    (t : ℕ) (m : TxSortedMap) (l : List Transaction)
    → Holds m l
    → t < length l
    → Holds (cap_over t m).0 (take t l) × ((cap_over t m).1 ≡ reverse_onto (drop t l) [])
unfolding cap_over
cap_over-Holds t m l h b = (
  capped_at t m l
      (drop_nonces (reverse_onto (drop t (take (length m.items) (sort_nonces m.index))) []) m.items)
      (sort_nonces m.index) h b taken.0 taken.1
      (ap sort_nonces h.indexed ∙ sort_nonces-nonces 0 l h.stores.ascending),
  taken.0,
)
  where
    all : take t l ++ reverse_onto (reverse_onto (drop t l) []) [] ≡ l
    all = rw (reverse_onto_twice (drop t l) [] [], append-nil (drop t l)) (take-append-drop t l)

    taken_from :
        ((drop_nonces (nonces (reverse_onto (drop t l) [])) m.items).removed
          ≡ reverse_onto (drop t l) [])
        × Stores (drop_nonces (nonces (reverse_onto (drop t l) [])) m.items).items (take t l)
    taken_from =
        drop_nonces_takes (reverse_onto (drop t l) []) (take t l) m.items
          (subst (Stores m.items) (sym all) h.stores)

    taken :
        ((drop_nonces
            (reverse_onto (drop t (take (length m.items) (sort_nonces m.index))) [])
            m.items).removed
          ≡ reverse_onto (drop t l) [])
        × Stores
            (drop_nonces
              (reverse_onto (drop t (take (length m.items) (sort_nonces m.index))) [])
              m.items).items
            (take t l)
    taken = rw (visited t m l h) taken_from

take_more : (t : ℕ) (l : List Transaction) → length l ≤ t → take t l ≡ l
take_more zero [] b = refl
take_more zero (x ∷ l) b = absurd (omega arith)
take_more (suc t) [] b = refl
take_more (suc t) (x ∷ l) b = ap (λ (k : List Transaction). x ∷ k) (take_more t l (omega arith))

drop_more : (t : ℕ) (l : List Transaction) → length l ≤ t → drop t l ≡ []
drop_more zero [] b = refl
drop_more zero (x ∷ l) b = absurd (omega arith)
drop_more (suc t) [] b = refl
drop_more (suc t) (x ∷ l) b = drop_more t l (omega arith)

cap_within : (t : ℕ) (m : TxSortedMap) → length m.items ≤ t → cap t m ≡ (m, [])
unfolding cap
cap_within t m b = let e : leb (length m.items) t ≡ true = ground arith in rw e refl

cap_beyond : (t : ℕ) (m : TxSortedMap) → t < length m.items → cap t m ≡ cap_over t m
unfolding cap
cap_beyond t m b = let e : leb (length m.items) t ≡ false = ground arith in rw e refl

-- Where a map holds an ascending list, Cap leaves it with the transactions of the lowest nonces, as many
-- as the threshold allows, and hands out the others from the highest one down.
pub cap-Holds :
    (t : ℕ) (m : TxSortedMap) (l : List Transaction)
    → Holds m l
    → Holds (cap t m).0 (take t l) × ((cap t m).1 ≡ reverse_onto (drop t l) [])
cap-Holds t m l h = elim (dec_lt t (length l)) [
  | yes b ↦ rw (cap_beyond t m (rw (map_len-items m l h) b)) (cap_over-Holds t m l h b)
  | no b ↦
      let b' : length l ≤ t = omega arith in
      rw (cap_within t m (rw (map_len-items m l h) b'), take_more t l b', drop_more t l b')
        (h, refl)
]
