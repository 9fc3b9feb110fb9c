-- ===== src/Txpool/Ordered.antt =====
-- The transactions of one account as a list in the order of their nonces: what the map of
-- txpool/tx_list.go stands for.
use hnb_blockchain.Prelude.{
  ℕ, suc, ◌+◌, ◌^◌, ◌≤◌, ◌<◌, ◌==◌, ltb, if◌then◌else◌, ◌≡◌, refl, ap, sym, ◌∙◌, ◌≢◌, Bool, Option,
  none, some, List, [], ◌∷◌, arith,
}
use hnb_blockchain.Ledger.Types.{Transaction}
use hnb_blockchain.Txpool.Items.{insert_by_nonce}

-- Ascending nonces without repeats, the least of them at least `lo`.
abbrev pub IsAscending : ℕ → List Transaction → Type 0
IsAscending lo [] = Unit
IsAscending lo (x ∷ l) = (lo ≤ x.nonce_value) × IsAscending (suc x.nonce_value) l

-- Nonces are `uint64`.
abbrev pub AreWords : List Transaction → Type 0
AreWords [] = Unit
AreWords (x ∷ l) = (x.nonce_value < 2 ^ 64) × AreWords l

abbrev pub nonces : List Transaction → List ℕ
nonces [] = []
nonces (x ∷ l) = x.nonce_value ∷ nonces l

-- The transaction with a nonce.
unfoldable pub find : ℕ → List Transaction → Option Transaction
find n [] = none
find n (x ∷ l) = if x.nonce_value == n then some x else find n l

-- The transactions with a smaller nonce, and the others.
abbrev pub below : ℕ → List Transaction → List Transaction
below t [] = []
below t (x ∷ l) = if ltb x.nonce_value t then x ∷ below t l else []

abbrev pub at_least : ℕ → List Transaction → List Transaction
at_least t [] = []
at_least t (x ∷ l) = if ltb x.nonce_value t then at_least t l else x ∷ l

-- The transactions that a test keeps.
abbrev pub without : (Transaction → Bool) → List Transaction → List Transaction
without test [] = []
without test (x ∷ l) = if test x then without test l else x ∷ without test l

-- The longest stretch of consecutive nonces at the front, from `next` on, and the rest.
abbrev pub run : ℕ → List Transaction → List Transaction
run next [] = []
run next (x ∷ l) = if x.nonce_value == next then x ∷ run (next + 1) l else []

abbrev pub after_run : ℕ → List Transaction → List Transaction
after_run next [] = []
after_run next (x ∷ l) = if x.nonce_value == next then after_run (next + 1) l else x ∷ l

abbrev pub has_nonce : ℕ → Transaction → Bool
has_nonce n x = x.nonce_value == n

abbrev pub put_in : Transaction → List Transaction → List Transaction
put_in tx l = insert_by_nonce tx (without (has_nonce tx.nonce_value) l)

pub IsAscending-weaken :
    (lo hi : ℕ) (l : List Transaction) → lo ≤ hi → IsAscending hi l → IsAscending lo l
IsAscending-weaken lo hi [] h a = tt
IsAscending-weaken lo hi (x ∷ l) h a = (omega (arith, a.0), a.1)

pub find-none : (n lo : ℕ) (l : List Transaction) → n < lo → IsAscending lo l → find n l ≡ none
unfolding find
find-none n lo [] h a = refl
find-none n lo (x ∷ l) h a =
    ground (arith, a.0, find-none n (suc x.nonce_value) l (omega (arith, a.0)) a.1)

pub find-insert_by_nonce :
    (n : ℕ) (tx : Transaction) (l : List Transaction)
    → find n (insert_by_nonce tx l) ≡ (if tx.nonce_value == n then some tx else find n l)
unfolding find insert_by_nonce
find-insert_by_nonce n tx [] = refl
find-insert_by_nonce n tx (x ∷ l) = ground (arith, find-insert_by_nonce n tx l)

pub insert_by_nonce-IsAscending :
    (lo : ℕ) (tx : Transaction) (l : List Transaction)
    → lo ≤ tx.nonce_value
    → IsAscending lo l
    → find tx.nonce_value l ≡ none
    → IsAscending lo (insert_by_nonce tx l)
unfolding insert_by_nonce find
insert_by_nonce-IsAscending lo tx [] h a e = (h, tt)
insert_by_nonce-IsAscending lo tx (x ∷ l) h a e =
    ground (arith, a.0, insert_by_nonce-IsAscending (suc x.nonce_value) tx l)

empty_differs :
    (x : Transaction) (l : List Transaction) → find x.nonce_value [] ≢ find x.nonce_value (x ∷ l)
unfolding find
empty_differs x l e = ground arith

heads_equal :
    (lo : ℕ) (x y : Transaction) (l m : List Transaction)
    → IsAscending lo (x ∷ l)
    → IsAscending lo (y ∷ m)
    → find x.nonce_value (x ∷ l) ≡ find x.nonce_value (y ∷ m)
    → find y.nonce_value (x ∷ l) ≡ find y.nonce_value (y ∷ m)
    → x ≡ y
unfolding find
heads_equal lo x y l m a b e f = ground (
  arith,
  e,
  f,
  find-none y.nonce_value (suc x.nonce_value) l,
  find-none x.nonce_value (suc y.nonce_value) m,
)

tails_agree :
    (x : Transaction) (l m : List Transaction)
    → IsAscending (suc x.nonce_value) l
    → IsAscending (suc x.nonce_value) m
    → (n : ℕ) → find n (x ∷ l) ≡ find n (x ∷ m)
    → find n l ≡ find n m
unfolding find
tails_agree x l m a b n e =
    ground (arith, e, find-none n (suc x.nonce_value) l, find-none n (suc x.nonce_value) m)

-- Two ascending lists that answer alike are equal.
pub ascending_unique :
    (lo : ℕ) (l m : List Transaction)
    → IsAscending lo l
    → IsAscending lo m
    → ((n : ℕ) → find n l ≡ find n m)
    → l ≡ m
ascending_unique lo [] [] a b e = refl
ascending_unique lo [] (y ∷ m) a b e = absurd (empty_differs y m (e y.nonce_value))
ascending_unique lo (x ∷ l) [] a b e = absurd (empty_differs x l (sym (e x.nonce_value)))
ascending_unique lo (x ∷ l) (y ∷ m) a b e =
    let h : x ≡ y = heads_equal lo x y l m a b (e x.nonce_value) (e y.nonce_value) in
    let b' : IsAscending (suc x.nonce_value) m = rw h b.1 in
    let e' : (n : ℕ) → find n (x ∷ l) ≡ find n (x ∷ m) = λ n. e n ∙ rw h refl in
    rw (← h) (
      ap (λ (t : List Transaction). x ∷ t)
        (ascending_unique (suc x.nonce_value) l m a.1 b' (λ n. tails_agree x l m a.1 b' n (e' n))))
