-- ===== src/Txpool/SortedMap/Loops.antt =====
-- txpool/tx_list.go: what the loops of Forward and Ready take, on the ordered list.
use hnb_blockchain.Prelude.{
  ℕ, suc, ◌+◌, ◌%◌, ◌^◌, ◌==◌, ltb, if◌then◌else◌, ◌≡◌, refl, subst, Bool, true, false, ap, sym,
  some, List, [], ◌∷◌, arith,
}
use hnb_blockchain.Ledger.Types.{Transaction}
use hnb_blockchain.Txpool.Items.{Items, item, erase_item}
use hnb_blockchain.Txpool.Ordered.{
  AreWords, IsAscending, nonces, find, below, at_least, run, after_run,
}
use hnb_blockchain.Txpool.SortedMap.{taking, Taken, pop_below, pop_run}
use hnb_blockchain.Txpool.SortedMap.Laws.{Stores, erase_first-Stores}

-- What a loop over the index took, and the list that is left.
pub record Takes (r : Taken) (removed l : List Transaction) : Type 0 where
  pub removed_eq : r.removed ≡ removed
  pub stores : Stores r.items l
  pub indexed : r.index ≡ nonces l

item_first :
    (x : Transaction) (m : Items) (l : List Transaction)
    → Stores m (x ∷ l)
    → item x.nonce_value m ≡ some x
unfolding find
item_first x m l h = ground (arith, h.agree x.nonce_value)

taking-Takes :
    (n : ℕ) (x : Transaction) (m : Items) {r : Taken} {removed l : List Transaction}
    → item n m ≡ some x
    → Takes r removed l
    → Takes (taking n m r) (x ∷ removed) l
taking-Takes n x m e t = record {
  removed_eq = rw e (ap (λ (u : List Transaction). x ∷ u) t.removed_eq);
  stores = t.stores;
  indexed = t.indexed;
}

if-Takes :
    (b : Bool) {r s : Taken} {u v l k : List Transaction}
    → (b ≡ true → Takes r u l)
    → (b ≡ false → Takes s v k)
    → Takes (if b then r else s) (if b then u else v) (if b then l else k)
if-Takes true f g = f refl
if-Takes false f g = g refl

Takes-none :
    (m : Items) (l : List Transaction)
    → Stores m l
    → Takes (record { removed = []; items = m; index = nonces l }) [] l
Takes-none m l h = record { removed_eq = refl; stores = h; indexed = refl }

pub pop_below-Takes :
    (t : ℕ) (l : List Transaction) (m : Items)
    → Stores m l
    → Takes (pop_below t (nonces l) m) (below t l) (at_least t l)
unfolding pop_below
pop_below-Takes t [] m h = Takes-none m [] h
pop_below-Takes t (x ∷ l) m h =
    if-Takes (ltb x.nonce_value t)
      (λ e.
        taking-Takes x.nonce_value x m (item_first x m l h)
          (pop_below-Takes t l (erase_item x.nonce_value m) (erase_first-Stores x m l h)))
      (λ e. Takes-none m (x ∷ l) h)

-- With nonces below 2 ^ 64 the run ends before its counter wraps.
next_fits :
    (x : Transaction) (l : List Transaction) (m : Items)
    → IsAscending (suc x.nonce_value) l
    → AreWords l
    → pop_run ((x.nonce_value + 1) % 2 ^ 64) (nonces l) m ≡ pop_run (x.nonce_value + 1) (nonces l) m
unfolding pop_run
next_fits x [] m a w = refl
next_fits x (y ∷ l) m a w =
    let e : (x.nonce_value + 1) % 2 ^ 64 ≡ x.nonce_value + 1 = omega (arith, a.0, w.0) in
    ap (λ (n : ℕ). pop_run n (nonces (y ∷ l)) m) e

at_head :
    (next : ℕ) (x : Transaction) (l : List Transaction) (m : Items)
    → Stores m (x ∷ l)
    → AreWords (x ∷ l)
    → x.nonce_value ≡ next
    → Takes
        (pop_run (x.nonce_value + 1) (nonces l) (erase_item x.nonce_value m))
        (run (x.nonce_value + 1) l)
        (after_run (x.nonce_value + 1) l)
    → Takes
        (taking next m (pop_run ((next + 1) % 2 ^ 64) (nonces l) (erase_item next m)))
        (x ∷ run (next + 1) l)
        (after_run (next + 1) l)
at_head next x l m h w e t =
    subst
      (λ (n : ℕ).
        Takes (taking n m (pop_run ((n + 1) % 2 ^ 64) (nonces l) (erase_item n m)))
          (x ∷ run (n + 1) l) (after_run (n + 1) l))
      e
      (taking-Takes x.nonce_value x m (item_first x m l h) (
        subst (λ (r : Taken). Takes r (run (x.nonce_value + 1) l) (after_run (x.nonce_value + 1) l))
          (sym (next_fits x l (erase_item x.nonce_value m) h.ascending.1 w.1)) t))

pub pop_run-Takes :
    (next : ℕ) (l : List Transaction) (m : Items)
    → Stores m l
    → AreWords l
    → Takes (pop_run next (nonces l) m) (run next l) (after_run next l)
unfolding pop_run
pop_run-Takes next [] m h w = Takes-none m [] h
pop_run-Takes next (x ∷ l) m h w =
    let ih =
      pop_run-Takes (x.nonce_value + 1) l (erase_item x.nonce_value m) (erase_first-Stores x m l h)
        w.1 in
    if-Takes (x.nonce_value == next) (λ e. at_head next x l m h w (ground arith) ih)
      (λ e. Takes-none m (x ∷ l) h)
