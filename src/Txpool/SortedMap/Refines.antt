-- ===== src/Txpool/SortedMap/Refines.antt =====
-- txpool/tx_list.go: the operations of txSortedMap on the ordered list that it stands for.
use hnb_blockchain.Prelude.{
  ℕ, suc, ◌+◌, ◌≤◌, ◌<◌, ltb, if◌then◌else◌, ◌≡◌, refl, subst, false, ap, ◌∙◌, sym, Option, none,
  some, List, [], ◌∷◌, length, drop, arith, lt→ltb,
}
use hnb_blockchain.Ledger.Types.{Transaction}
use hnb_blockchain.Txpool.Items.{Items, values, insert_by_nonce, sort_by_nonce}
use hnb_blockchain.Txpool.Ordered.{AreWords, nonces, find, below, at_least, run, after_run}
use hnb_blockchain.Txpool.SortedMap.{
  TxSortedMap, cached_or, ready_at, new_tx_sorted_map, Taken, get, pop_below, forward, pop_run,
  ready_from, ready, map_len, flatten, on_cache,
}
use hnb_blockchain.Txpool.SortedMap.Laws.{Stores, new-Stores, sort_by_nonce-values}
use hnb_blockchain.Txpool.SortedMap.Loops.{Takes, pop_below-Takes, pop_run-Takes}

-- The map holds exactly the transactions of the ordered list `l`: its items, its index and, where it
-- has one, its cache.
pub record Holds (m : TxSortedMap) (l : List Transaction) : Type 0 where
  pub stores : Stores m.items l
  pub indexed : m.index ≡ nonces l
  pub cached : (c : List Transaction) → m.cache ≡ some c → c ≡ l

Takes-Holds :
    (r : Taken) (c : Option (List Transaction)) {removed l : List Transaction}
    → Takes r removed l
    → ((d : List Transaction) → c ≡ some d → d ≡ l)
    → Holds (record { items = r.items; index = r.index; cache = c }) l
Takes-Holds r c t h = record { stores = t.stores; indexed = t.indexed; cached = h }

below-append : (t : ℕ) (l : List Transaction) → drop (length (below t l)) l ≡ at_least t l
below-append t [] = refl
below-append t (x ∷ l) = ground (arith, below-append t l)

-- Where a map holds a list, its index is the list's nonces.
pub at_index :
    {m : TxSortedMap} {l : List Transaction} → Holds m l → m ≡ record m { index = nonces l }
at_index {m} h = ap (λ (i : List ℕ). record m { index = i }) h.indexed

pub changed_cache :
    (f : List Transaction → List Transaction) (c : Option (List Transaction)) (l : List Transaction)
    → ((d : List Transaction) → c ≡ some d → d ≡ l)
    → (d : List Transaction) → on_cache f c ≡ some d
    → d ≡ f l
changed_cache f none l h d e = cc
changed_cache f (some c) l h d e = let e' : c ≡ l = h c refl in cc

-- Forward takes out the transactions with smaller nonces, in order, and keeps the others.
pub forward-Holds :
    (t : ℕ) (m : TxSortedMap) (l : List Transaction)
    → Holds m l
    → Holds (forward t m).0 (at_least t l) × ((forward t m).1 ≡ below t l)
unfolding forward
forward-Holds t m l h =
    subst
      (λ (k : TxSortedMap). Holds (forward t k).0 (at_least t l) × ((forward t k).1 ≡ below t l))
      (sym (at_index h))
      (Takes-Holds (pop_below t (nonces l) m.items) _ taken cached, taken.removed_eq)
  where
    taken : Takes (pop_below t (nonces l) m.items) (below t l) (at_least t l)
    taken = pop_below-Takes t l m.items h.stores

    cached :
        (d : List Transaction)
        → on_cache (drop (length (pop_below t (nonces l) m.items).removed)) m.cache ≡ some d
        → d ≡ at_least t l
    cached d e =
        changed_cache (drop (length (pop_below t (nonces l) m.items).removed)) m.cache l h.cached d
          e
        ∙ (rw (taken.removed_eq) (below-append t l))

run_at_head :
    (x : Transaction) (l : List Transaction)
    → (run x.nonce_value (x ∷ l) ≡ x ∷ run (x.nonce_value + 1) l)
      × (after_run x.nonce_value (x ∷ l) ≡ after_run (x.nonce_value + 1) l)
run_at_head x l = ground arith

ready_from-Holds :
    (m : TxSortedMap) (x : Transaction) (l : List Transaction)
    → Holds m (x ∷ l)
    → AreWords (x ∷ l)
    → Holds (ready_from x.nonce_value m).0 (after_run x.nonce_value (x ∷ l))
      × ((ready_from x.nonce_value m).1 ≡ run x.nonce_value (x ∷ l))
unfolding ready_from
ready_from-Holds m x l h w =
    subst
      (λ (k : TxSortedMap).
        Holds (ready_from x.nonce_value k).0 (after_run x.nonce_value (x ∷ l))
        × ((ready_from x.nonce_value k).1 ≡ run x.nonce_value (x ∷ l)))
      (sym (at_index h))
      (
        Takes-Holds (pop_run x.nonce_value (nonces (x ∷ l)) m.items) none taken (λ d e. cc),
        taken.removed_eq,
      )
  where
    taken :
        Takes
          (pop_run x.nonce_value (nonces (x ∷ l)) m.items)
          (run x.nonce_value (x ∷ l))
          (after_run x.nonce_value (x ∷ l))
    taken = pop_run-Takes x.nonce_value (x ∷ l) m.items h.stores w

ready_at_first :
    (start : ℕ) (m : TxSortedMap) (x : Transaction) (l : List Transaction)
    → Holds m (x ∷ l)
    → ready start m ≡ (if ltb start x.nonce_value then (m, []) else ready_from x.nonce_value m)
unfolding ready
ready_at_first start m x l h = ap (λ (i : List ℕ). ready_at start i m) h.indexed

-- Ready hands out nothing from an empty map, or where the least nonce lies beyond the start.
pub ready-empty : (start : ℕ) (m : TxSortedMap) → Holds m [] → ready start m ≡ (m, [])
unfolding ready
ready-empty start m h = ap (λ (i : List ℕ). ready_at start i m) h.indexed

pub ready-early :
    (start : ℕ) (m : TxSortedMap) (x : Transaction) (l : List Transaction)
    → Holds m (x ∷ l)
    → start < x.nonce_value
    → ready start m ≡ (m, [])
ready-early start m x l h s = ready_at_first start m x l h ∙ rw (lt→ltb _ _ s) refl

-- Where a map holds an ascending list of nonces below 2 ^ 64 and the first is at most the start, Ready
-- hands out the run of consecutive nonces from the first on, and the map then holds the rest: what is
-- behind the first gap stays, also below the start.
pub ready-Holds :
    (start : ℕ) (m : TxSortedMap) (x : Transaction) (l : List Transaction)
    → Holds m (x ∷ l)
    → AreWords (x ∷ l)
    → x.nonce_value ≤ start
    → Holds (ready start m).0 (after_run x.nonce_value (x ∷ l))
      × ((ready start m).1 ≡ run x.nonce_value (x ∷ l))
ready-Holds start m x l h w s =
    let e : ltb start x.nonce_value ≡ false = ground arith in
    let e' : ready start m ≡ ready_from x.nonce_value m =
      ready_at_first start m x l h ∙ rw e refl in
    subst
      (λ (r : TxSortedMap × List Transaction).
        Holds r.0 (after_run x.nonce_value (x ∷ l)) × (r.1 ≡ run x.nonce_value (x ∷ l)))
      (sym e') (ready_from-Holds m x l h w)

pub new-Holds : Holds new_tx_sorted_map []
unfolding new_tx_sorted_map
new-Holds = record { stores = new-Stores; indexed = refl; cached = λ c e. cc }

pub get-Holds : (n : ℕ) (m : TxSortedMap) (l : List Transaction) → Holds m l → get n m ≡ find n l
unfolding get
get-Holds n m l h = h.stores.agree n

length-insert_by_nonce :
    (x : Transaction) (l : List Transaction) → length (insert_by_nonce x l) ≡ suc (length l)
unfolding insert_by_nonce
length-insert_by_nonce x [] = refl
length-insert_by_nonce x (y ∷ l) = ground (arith, length-insert_by_nonce x l)

length-sort_by_nonce : (m : Items) → length (sort_by_nonce (values m)) ≡ length m
unfolding sort_by_nonce
length-sort_by_nonce [] = refl
length-sort_by_nonce ((k, x) ∷ m) =
    omega (arith, length-insert_by_nonce x (sort_by_nonce (values m)), length-sort_by_nonce m)

pub map_len-items : (m : TxSortedMap) (l : List Transaction) → Holds m l → length m.items ≡ length l
map_len-items m l h =
    sym (length-sort_by_nonce m.items) ∙ ap (length) (sort_by_nonce-values m.items l h.stores)

pub map_len-Holds : (m : TxSortedMap) (l : List Transaction) → Holds m l → map_len m ≡ length l
unfolding map_len
map_len-Holds m l h = map_len-items m l h

cached_or-eq :
    (items : Items) (c : Option (List Transaction)) (l : List Transaction)
    → Stores items l
    → ((d : List Transaction) → c ≡ some d → d ≡ l)
    → cached_or items c ≡ l
cached_or-eq items none l h k = sort_by_nonce-values items l h
cached_or-eq items (some c) l h k = k c refl

-- Flatten hands out the list, whether it was cached or not, and caches it.
pub flatten-Holds :
    (m : TxSortedMap) (l : List Transaction)
    → Holds m l
    → Holds (flatten m).0 l × ((flatten m).1 ≡ l)
unfolding flatten
flatten-Holds m l h =
    (record { stores = h.stores; indexed = h.indexed; cached = λ d e. option_eq d e ∙ flat }, flat)
  where
    flat : cached_or m.items m.cache ≡ l
    flat = cached_or-eq m.items m.cache l h.stores h.cached

    option_eq :
        (d : List Transaction)
        → some (cached_or m.items m.cache) ≡ some d
        → d ≡ cached_or m.items m.cache
    option_eq d e = cc
