-- ===== src/Txpool/TxList/Laws.antt =====
-- txpool/tx_list.go: the operations of txList on the ordered list that it stands for.
use hnb_blockchain.Prelude.{
  ℕ, zero, suc, ◌+◌, ◌==◌, ltb, if◌then◌else◌, ◌≡◌, refl, ap, sym, ◌∙◌, Bool, true, false, none,
  some, List, [], ◌∷◌, take, drop, length, arith, inl, inr, Bool-cases, ==_iff, dec_lt, lt→ltb, ◌<◌,
  ◌^◌,
}
use hnb_blockchain.Ledger.Types.{Transaction}
use hnb_blockchain.Txpool.Items.{insert_by_nonce, item}
use hnb_blockchain.Txpool.Items.Laws.{item-insert_item}
use hnb_blockchain.Txpool.Ordered.{
  AreWords, find, below, at_least, run, after_run, without, has_nonce, put_in,
}
use hnb_blockchain.Txpool.SortedMap
use hnb_blockchain.Txpool.SortedMap.{TxSortedMap, is_some, reverse_onto}
use hnb_blockchain.Txpool.SortedMap.Refines.{
  Holds, new-Holds, get-Holds, forward-Holds, ready-Holds, ready-early, ready-empty, flatten-Holds,
  map_len-Holds,
}
use hnb_blockchain.Txpool.SortedMap.Changes.{put-Holds}
use hnb_blockchain.Txpool.SortedMap.Cap.{cap-Holds}
use hnb_blockchain.Txpool.TxList.{
  TxList, new_tx_list, add, add_new, forward, cap, ready, flatten, list_len, empty,
}

-- The list holds exactly the ordered transactions `txs`.
pub record Held (l : TxList) (txs : List Transaction) : Type 0 where
  pub holds : Holds l.txs txs
  pub words : AreWords txs

at_least-AreWords : (t : ℕ) (l : List Transaction) → AreWords l → AreWords (at_least t l)
at_least-AreWords t [] w = tt
at_least-AreWords t (x ∷ l) w = ground (arith, at_least-AreWords t l w.1)

after_run-AreWords : (n : ℕ) (l : List Transaction) → AreWords l → AreWords (after_run n l)
after_run-AreWords n [] w = tt
after_run-AreWords n (x ∷ l) w = ground (arith, after_run-AreWords (n + 1) l w.1)

take-AreWords : (n : ℕ) (l : List Transaction) → AreWords l → AreWords (take n l)
take-AreWords zero l w = tt
take-AreWords (suc n) [] w = tt
take-AreWords (suc n) (x ∷ l) w = (w.0, take-AreWords n l w.1)

pub without-AreWords :
    (test : Transaction → Bool) (l : List Transaction) → AreWords l → AreWords (without test l)
without-AreWords test [] w = tt
without-AreWords test (x ∷ l) w = ground (arith, without-AreWords test l w.1)

insert_by_nonce-AreWords :
    (tx : Transaction) (l : List Transaction) → AreWords (tx ∷ l) → AreWords (insert_by_nonce tx l)
unfolding insert_by_nonce
insert_by_nonce-AreWords tx [] w = w
insert_by_nonce-AreWords tx (x ∷ l) w = ground (arith, insert_by_nonce-AreWords tx l (w.0, w.1.1))

find-nothing : (n : ℕ) (txs : List Transaction) → length txs ≡ 0 → find n txs ≡ none
unfolding find
find-nothing n [] e = refl
find-nothing n (x ∷ txs) e = absurd (omega (arith, e))

pub new-Held : (strict : Bool) → Held (new_tx_list strict) []
unfolding new_tx_list
new-Held strict = record { holds = new-Holds; words = tt }

pub get-Held :
    {l : TxList} {txs : List Transaction} (n : ℕ) → Held l txs → SortedMap.get n l.txs ≡ find n txs
get-Held {l} {txs} n h = get-Holds n l.txs txs h.holds

pub list_len-Held : {l : TxList} {txs : List Transaction} → Held l txs → list_len l ≡ length txs
unfolding list_len
list_len-Held {l} {txs} h = map_len-Holds l.txs txs h.holds

pub forward-Held :
    {l : TxList} {txs : List Transaction} (t : ℕ)
    → Held l txs
    → Held (forward t l).0 (at_least t txs) × ((forward t l).1 ≡ below t txs)
unfolding forward
forward-Held {l} {txs} t h =
    let p = forward-Holds t l.txs txs h.holds in
    (record { holds = p.0; words = at_least-AreWords t txs h.words }, p.1)

pub cap-Held :
    {l : TxList} {txs : List Transaction} (t : ℕ)
    → Held l txs
    → Held (cap t l).0 (take t txs) × ((cap t l).1 ≡ reverse_onto (drop t txs) [])
unfolding cap
cap-Held {l} {txs} t h =
    let p = cap-Holds t l.txs txs h.holds in
    (record { holds = p.0; words = take-AreWords t txs h.words }, p.1)

pub flatten-Held :
    {l : TxList} {txs : List Transaction}
    → Held l txs
    → Held (flatten l).0 txs × ((flatten l).1 ≡ txs)
unfolding flatten
flatten-Held {l} {txs} h =
    let p = flatten-Holds l.txs txs h.holds in (record { holds = p.0; words = h.words }, p.1)

-- What Ready hands out, and what it keeps.
abbrev pub ready_run : ℕ → List Transaction → List Transaction
ready_run start [] = []
ready_run start (x ∷ l) = if ltb start x.nonce_value then [] else run x.nonce_value (x ∷ l)

abbrev pub ready_rest : ℕ → List Transaction → List Transaction
ready_rest start [] = []
ready_rest start (x ∷ l) =
    if ltb start x.nonce_value then x ∷ l else after_run x.nonce_value (x ∷ l)

ready_lem :
    (start : ℕ) (m : TxSortedMap) (txs : List Transaction)
    → Holds m txs
    → AreWords txs
    → Holds (SortedMap.ready start m).0 (ready_rest start txs)
      × ((SortedMap.ready start m).1 ≡ ready_run start txs)
ready_lem start m [] h w = rw (ready-empty start m h) (h, refl)
ready_lem start m (x ∷ l) h w = elim (dec_lt start x.nonce_value) [
  | yes p ↦ rw (ready-early start m x l h p, lt→ltb _ _ p) (h, refl)
  | no p ↦
      let e : ltb start x.nonce_value ≡ false = ground arith in
      rw e (ready-Holds start m x l h w (omega arith))
]

ready_rest-AreWords :
    (start : ℕ) (l : List Transaction) → AreWords l → AreWords (ready_rest start l)
ready_rest-AreWords start [] w = tt
ready_rest-AreWords start (x ∷ l) w = elim (Bool-cases (ltb start x.nonce_value)) [
  | inl e ↦ rw e w
  | inr e ↦ rw e (after_run-AreWords x.nonce_value (x ∷ l) w)
]

pub ready-Held :
    {l : TxList} {txs : List Transaction} (start : ℕ)
    → Held l txs
    → Held (ready start l).0 (ready_rest start txs) × ((ready start l).1 ≡ ready_run start txs)
unfolding ready
ready-Held {l} {txs} start h =
    let p = ready_lem start l.txs txs h.holds h.words in
    (record { holds = p.0; words = ready_rest-AreWords start txs h.words }, p.1)

pub put-Held :
    {l : TxList} {txs : List Transaction} (tx : Transaction)
    → tx.nonce_value < 2 ^ 64
    → Held l txs
    → Held (record l { txs = SortedMap.put tx l.txs }) (put_in tx txs)
put-Held {l} {txs} tx w h = record {
  holds = put-Holds tx l.txs txs h.holds;
  words =
      insert_by_nonce-AreWords tx (without (has_nonce tx.nonce_value) txs)
        (w, without-AreWords (has_nonce tx.nonce_value) txs h.words);
}

pub get-put :
    (n : ℕ) (tx : Transaction) (m : TxSortedMap)
    → SortedMap.get n (SortedMap.put tx m)
      ≡ (if tx.nonce_value == n then some tx else SortedMap.get n m)
unfolding SortedMap.get SortedMap.put
get-put n tx m = item-insert_item tx.nonce_value n tx m.items

pub get-new : (n : ℕ) (strict : Bool) → SortedMap.get n (new_tx_list strict).txs ≡ none
unfolding SortedMap.get new_tx_list SortedMap.new_tx_sorted_map item
get-new n strict = refl

pub add-grows :
    (l : TxList) (tx : Transaction)
    → SortedMap.get tx.nonce_value l.txs ≡ none
    → add tx l ≡ (record l { txs = SortedMap.put tx l.txs }, true, none)
unfolding add
add-grows l tx e = ap (λ o. add_new o tx l) e

pub add-refuses :
    (l : TxList) (tx old : Transaction)
    → SortedMap.get tx.nonce_value l.txs ≡ some old
    → add tx l ≡ (l, false, none)
unfolding add
add-refuses l tx old e = ap (λ o. add_new o tx l) e

-- A list that is empty has no transaction.
pub get-empty :
    {l : TxList} {txs : List Transaction} (n : ℕ)
    → Held l txs
    → empty l ≡ true
    → SortedMap.get n l.txs ≡ none
unfolding empty
get-empty {l} {txs} n h e =
    let e' : list_len l ≡ 0 = (==_iff (list_len l) 0).0 e in
    get-Held n h ∙ find-nothing n txs (sym (list_len-Held h) ∙ e')

pub new-strict : (strict : Bool) → (new_tx_list strict).strict ≡ strict
unfolding new_tx_list
new-strict strict = refl

module _ (t : ℕ) (l : TxList) where
  pub forward-strict : (forward t l).0.strict ≡ l.strict
  unfolding forward
  forward-strict = refl

  pub cap-strict : (cap t l).0.strict ≡ l.strict
  unfolding cap
  cap-strict = refl

  pub ready-strict : (ready t l).0.strict ≡ l.strict
  unfolding ready
  ready-strict = refl

pub flatten-strict : (l : TxList) → (flatten l).0.strict ≡ l.strict
unfolding flatten
flatten-strict l = refl
