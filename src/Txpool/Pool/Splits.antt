-- ===== src/Txpool/Pool/Splits.antt =====
-- txpool/tx_list.go: the parts into which the operations of a list split it.
use hnb_blockchain.Prelude.{
  ℕ, suc, ◌+◌, ltb, ◌≡◌, refl, ap, sym, ◌∙◌, subst, Option, none, some, List, [], ◌∷◌, ◌++◌, take,
  drop, take-append-drop, arith, inl, inr, ◌⊎◌, Bool-cases,
}
use hnb_blockchain.Ledger.Types.{Transaction}
use hnb_blockchain.Txpool.Ordered.{
  AreWords, IsAscending, IsAscending-weaken, find, find-none, below, at_least, run, after_run,
}
use hnb_blockchain.Txpool.SortedMap.{reverse_onto}
use hnb_blockchain.Txpool.TxList.Laws.{ready_run, ready_rest}
use hnb_blockchain.Txpool.Pool.Slots.{first, IsHand}

-- `l` is split into `k` and `r`.
pub record Splits (l k r : List Transaction) : Type 0 where
  pub parts : (n : ℕ) → find n l ≡ first (find n k) (find n r)
  pub disjoint : (n : ℕ) → (find n k ≡ none) ⊎ (find n r ≡ none)
  pub in_hand : IsHand r

find-append : (n : ℕ) (a b : List Transaction) → find n (a ++ b) ≡ first (find n a) (find n b)
unfolding find
find-append n [] b = refl
find-append n (x ∷ a) b = ground (arith, find-append n a b)

tail_above : (lo : ℕ) (a b : List Transaction) → IsAscending lo (a ++ b) → IsAscending lo b
tail_above lo [] b h = h
tail_above lo (x ∷ a) b h =
    IsAscending-weaken lo (suc x.nonce_value) b (omega (arith, h.0))
      (tail_above (suc x.nonce_value) a b h.1)

append_disjoint :
    (lo n : ℕ) (a b : List Transaction)
    → IsAscending lo (a ++ b)
    → (find n a ≡ none) ⊎ (find n b ≡ none)
unfolding find
append_disjoint lo n [] b h = inl refl
append_disjoint lo n (x ∷ a) b h = ground (
  arith,
  append_disjoint (suc x.nonce_value) n a b h.1,
  find-none n (suc x.nonce_value) b,
  tail_above (suc x.nonce_value) a b h.1,
)

ascending-IsHand : (lo : ℕ) (l : List Transaction) → IsAscending lo l → AreWords l → IsHand l
ascending-IsHand lo [] h w = tt
ascending-IsHand lo (x ∷ l) h w = (
  w.0,
  find-none x.nonce_value (suc x.nonce_value) l (omega arith) h.1,
  ascending-IsHand (suc x.nonce_value) l h.1 w.1,
)

front_above : (lo : ℕ) (a b : List Transaction) → IsAscending lo (a ++ b) → IsAscending lo a
front_above lo [] b h = tt
front_above lo (x ∷ a) b h = (h.0, front_above (suc x.nonce_value) a b h.1)

AreWords-append : (a b : List Transaction) → AreWords (a ++ b) → AreWords a × AreWords b
AreWords-append [] b w = (tt, w)
AreWords-append (x ∷ a) b w = let p = AreWords-append a b w.1 in ((w.0, p.0), p.1)

first-none : (o : Option Transaction) → first o none ≡ o
first-none none = refl
first-none (some x) = refl

find_nil : (n : ℕ) → find n [] ≡ none
unfolding find
find_nil n = refl

first_nil : (n : ℕ) (l : List Transaction) → first (find n l) (find n []) ≡ find n l
unfolding find
first_nil n l = first-none (find n l)

same_side :
    (n : ℕ) (a b c : List Transaction)
    → find n c ≡ first (find n []) (find n b)
    → (find n a ≡ none) ⊎ (find n b ≡ none)
    → (find n a ≡ none) ⊎ (find n c ≡ none)
unfolding find
same_side n a b c e (inl p) = inl p
same_side n a b c e (inr p) = inr (e ∙ p)

first_swap : (x y : Option Transaction) → (x ≡ none) ⊎ (y ≡ none) → first x y ≡ first y x
first_swap none none d = refl
first_swap none (some y) d = refl
first_swap (some x) none d = refl
first_swap (some x) (some y) d = absurd (elim d [ inl e ↦ ground arith | inr e ↦ ground arith ])

swap_sides : {A B : Type 0} → A ⊎ B → B ⊎ A
swap_sides (inl a) = inr a
swap_sides (inr b) = inl b

module _ (a b : List Transaction) (h : IsAscending 0 (a ++ b)) (w : AreWords (a ++ b)) where
  front-Splits : Splits (a ++ b) b a
  front-Splits = record {
    parts = λ n. find-append n a b ∙ first_swap (find n a) (find n b) (append_disjoint 0 n a b h);
    disjoint = λ n. swap_sides (append_disjoint 0 n a b h);
    in_hand = ascending-IsHand 0 a (front_above 0 a b h) (AreWords-append a b w).0;
  }

Splits-at :
    {l : List Transaction} (a b : List Transaction)
    → a ++ b ≡ l
    → IsAscending 0 l
    → AreWords l
    → Splits l b a
Splits-at {l} a b e h w =
    subst (λ k. Splits k b a) e
      (front-Splits a b (subst (IsAscending 0) (sym e) h) (subst AreWords (sym e) w))

reversed_parts :
    (x : Transaction) (b acc : List Transaction) (n : ℕ)
    → find n (reverse_onto b (x ∷ acc)) ≡ first (find n (x ∷ acc)) (find n b)
    → (find n (x ∷ b) ≡ none) ⊎ (find n acc ≡ none)
    → find n (reverse_onto b (x ∷ acc)) ≡ first (find n acc) (find n (x ∷ b))
unfolding find
reversed_parts x b acc n e d = ground (arith, e, d)

reversed_disjoint :
    (x : Transaction) (b acc : List Transaction) (n : ℕ)
    → find x.nonce_value b ≡ none
    → (find n (x ∷ b) ≡ none) ⊎ (find n acc ≡ none)
    → (find n b ≡ none) ⊎ (find n (x ∷ acc) ≡ none)
unfolding find
reversed_disjoint x b acc n e d = ground (arith, e, d)

head_absent :
    (x : Transaction) (b acc : List Transaction)
    → (find x.nonce_value (x ∷ b) ≡ none) ⊎ (find x.nonce_value acc ≡ none)
    → find x.nonce_value acc ≡ none
unfolding find
head_absent x b acc d = ground (arith, d)

reversed :
    (b acc : List Transaction)
    → IsHand b
    → IsHand acc
    → ((n : ℕ) → (find n b ≡ none) ⊎ (find n acc ≡ none))
    → IsHand (reverse_onto b acc)
      × ((n : ℕ) → find n (reverse_onto b acc) ≡ first (find n acc) (find n b))
reversed [] acc h k d = (k, λ n. sym (first_nil n acc))
reversed (x ∷ b) acc h k d =
    let r =
      reversed b (x ∷ acc) h.2 (h.0, head_absent x b acc (d x.nonce_value), k)
        (λ n. reversed_disjoint x b acc n h.1 (d n)) in
    (r.0, λ n. reversed_parts x b acc n (r.1 n) (d n))

below_front : (t : ℕ) (l : List Transaction) → below t l ++ at_least t l ≡ l
below_front t [] = refl
below_front t (x ∷ l) = ground (arith, below_front t l)

run_front : (n : ℕ) (l : List Transaction) → run n l ++ after_run n l ≡ l
run_front n [] = refl
run_front n (x ∷ l) = ground (arith, run_front (n + 1) l)

ready_front : (n : ℕ) (l : List Transaction) → ready_run n l ++ ready_rest n l ≡ l
ready_front n [] = refl
ready_front n (x ∷ l) = elim (Bool-cases (ltb n x.nonce_value)) [
  | inl e ↦ rw e refl
  | inr e ↦ rw e (run_front x.nonce_value (x ∷ l))
]

module _ (l : List Transaction) (h : IsAscending 0 l) (w : AreWords l) where
  pub forward-Splits : (t : ℕ) → Splits l (at_least t l) (below t l)
  forward-Splits t = Splits-at (below t l) (at_least t l) (below_front t l) h w

  pub ready-Splits : (t : ℕ) → Splits l (ready_rest t l) (ready_run t l)
  ready-Splits t = Splits-at (ready_run t l) (ready_rest t l) (ready_front t l) h w

  -- Nothing is taken.
  pub none-Splits : Splits l l []
  none-Splits = Splits-at [] l refl h w

-- The back of a list, reversed, is on its way.
module _ (a b : List Transaction) (h : IsAscending 0 (a ++ b)) (w : AreWords (a ++ b)) where
  back-Splits : Splits (a ++ b) a (reverse_onto b [])
  back-Splits =
      let r =
        reversed b [] (ascending-IsHand 0 b (tail_above 0 a b h) (AreWords-append a b w).1) tt
          (λ n. inr (find_nil n)) in
      record {
        parts = λ n.
            find-append n a b
            ∙ ap (first (find n a)) (sym (r.1 n ∙ ap (λ o. first o (find n b)) (find_nil n)));
        disjoint = λ n. same_side n a b (reverse_onto b []) (r.1 n) (append_disjoint 0 n a b h);
        in_hand = r.0;
      }

pub cap-Splits :
    (l : List Transaction)
    → IsAscending 0 l
    → AreWords l
    → (t : ℕ) → Splits l (take t l) (reverse_onto (drop t l) [])
cap-Splits l h w t =
    let e = take-append-drop t l in
    subst (λ k. Splits k (take t l) (reverse_onto (drop t l) [])) e
      (back-Splits (take t l) (drop t l) (subst (IsAscending 0) (sym e) h)
        (subst AreWords (sym e) w))
