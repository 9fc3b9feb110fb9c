-- ===== src/Txpool/SortedMap/Laws.antt =====
-- txpool/tx_list.go: the items of a map and the ordered list that they stand for.
use hnb_blockchain.Prelude.{
  ℕ, suc, ◌==◌, if◌then◌else◌, ◌≡◌, refl, subst, Bool, not, ap, ◌∙◌, sym, Option, none, some, List,
  [], ◌∷◌, arith,
}
use hnb_blockchain.Ledger.Types.{Transaction}
use hnb_blockchain.Txpool.Items.{Items, item, insert_item, erase_item, values, sort_by_nonce}
use hnb_blockchain.Txpool.Items.Laws.{
  IsKeyed, item-erase_item, item-insert_item, erase_item-IsKeyed, insert_item-IsKeyed,
}
use hnb_blockchain.Txpool.SortedMap.{picked, unpicked}
use hnb_blockchain.Txpool.Ordered.{
  IsAscending, IsAscending-weaken, without, has_nonce, put_in, find, find-none,
  find-insert_by_nonce, insert_by_nonce-IsAscending, ascending_unique,
}

-- The items are those of the ordered list `l`, each under its nonce.
pub record Stores (items : Items) (l : List Transaction) : Type 0 where
  pub keyed : IsKeyed items
  pub ascending : IsAscending 0 l
  pub agree : (n : ℕ) → item n items ≡ find n l

find-sort_by_nonce : (m : Items) (n : ℕ) → IsKeyed m → find n (sort_by_nonce (values m)) ≡ item n m
unfolding item sort_by_nonce find
find-sort_by_nonce [] n h = refl
find-sort_by_nonce ((k, x) ∷ m) n h =
    ground
      (arith, h.0, find-sort_by_nonce m n h.2, find-insert_by_nonce n x (sort_by_nonce (values m)))

sort_by_nonce-IsAscending : (m : Items) → IsKeyed m → IsAscending 0 (sort_by_nonce (values m))
unfolding sort_by_nonce
sort_by_nonce-IsAscending [] h = tt
sort_by_nonce-IsAscending ((k, x) ∷ m) h =
    insert_by_nonce-IsAscending 0 x (sort_by_nonce (values m)) (omega arith)
      (sort_by_nonce-IsAscending m h.2)
      (find-sort_by_nonce m x.nonce_value h.2 ∙ ap (λ (n : ℕ). item n m) (sym h.0) ∙ h.1)

-- A sort of the items gives the list.
pub sort_by_nonce-values :
    (m : Items) (l : List Transaction) → Stores m l → sort_by_nonce (values m) ≡ l
sort_by_nonce-values m l h =
    ascending_unique 0 (sort_by_nonce (values m)) l (sort_by_nonce-IsAscending m h.keyed)
      h.ascending (λ n. find-sort_by_nonce m n h.keyed ∙ h.agree n)

pub new-Stores : Stores [] []
unfolding item find
new-Stores = record { keyed = tt; ascending = tt; agree = λ n. refl }

module _ (n : ℕ) where
  pub find-without :
      (k : ℕ) (l : List Transaction)
      → find n (without (has_nonce k) l) ≡ (if k == n then none else find n l)
  unfolding find
  find-without k [] = ground arith
  find-without k (x ∷ l) = ground (arith, find-without k l)

pub without-IsAscending :
    (test : Transaction → Bool) (lo : ℕ) (l : List Transaction)
    → IsAscending lo l
    → IsAscending lo (without test l)
without-IsAscending test lo [] h = tt
without-IsAscending test lo (x ∷ l) h = ground (
  arith,
  without-IsAscending test (suc x.nonce_value) l h.1,
  IsAscending-weaken lo (suc x.nonce_value) (without test l),
)

pub erase_item-Stores :
    (n : ℕ) (m : Items) (l : List Transaction)
    → Stores m l
    → Stores (erase_item n m) (without (has_nonce n) l)
erase_item-Stores n m l h = record {
  keyed = erase_item-IsKeyed n m h.keyed;
  ascending = without-IsAscending (has_nonce n) 0 l h.ascending;
  agree = λ k. item-erase_item n k m ∙ rw (h.agree k) (sym (find-without k n l));
}

pub without_above :
    (n : ℕ) (l : List Transaction) → IsAscending (suc n) l → without (has_nonce n) l ≡ l
without_above n [] h = refl
without_above n (x ∷ l) h = ground (
  arith,
  h.0,
  without_above n l (IsAscending-weaken (suc n) (suc x.nonce_value) l (omega (arith, h.0)) h.1),
)

-- Without its first transaction.
pub erase_first-Stores :
    (x : Transaction) (m : Items) (l : List Transaction)
    → Stores m (x ∷ l)
    → Stores (erase_item x.nonce_value m) l
erase_first-Stores x m l h =
    subst (Stores (erase_item x.nonce_value m)) (e) (erase_item-Stores x.nonce_value m (x ∷ l) h)
  where
    e : without (has_nonce x.nonce_value) (x ∷ l) ≡ l
    e = ground (arith, without_above x.nonce_value l h.ascending.1)

pub insert_item-Stores :
    (tx : Transaction) (m : Items) (l : List Transaction)
    → Stores m l
    → Stores (insert_item tx.nonce_value tx m) (put_in tx l)
insert_item-Stores tx m l h = record {
  keyed = insert_item-IsKeyed tx m h.keyed;
  ascending =
      insert_by_nonce-IsAscending 0 tx _ (omega arith)
        (without-IsAscending (has_nonce tx.nonce_value) 0 l h.ascending)
        (ground (arith, find-without tx.nonce_value tx.nonce_value l));
  agree = λ k. ground (
    arith,
    item-insert_item tx.nonce_value k tx m,
    h.agree k,
    find-without k tx.nonce_value l,
    find-insert_by_nonce k tx (without (has_nonce tx.nonce_value) l),
  );
}

-- The answer, unless the test drops it.
abbrev pub unless : (Transaction → Bool) → Option Transaction → Option Transaction
unless test none = none
unless test (some x) = if test x then none else some x

module _ (test : Transaction → Bool) where
  pub find-without_test :
      (n lo : ℕ) (l : List Transaction)
      → IsAscending lo l
      → find n (without test l) ≡ unless test (find n l)
  unfolding find
  find-without_test n lo [] h = refl
  find-without_test n lo (x ∷ l) h =
      ground
        (arith, find-without_test n (suc x.nonce_value) l h.1, find-none n (suc x.nonce_value) l)

  item-unpicked :
      (n : ℕ) (m : Items) → IsKeyed m → item n (unpicked test m) ≡ unless test (item n m)
  unfolding item unpicked
  item-unpicked n [] h = refl
  item-unpicked n ((k, x) ∷ m) h = ground (arith, item-unpicked n m h.2, h.1)

  unpicked-IsKeyed : (m : Items) → IsKeyed m → IsKeyed (unpicked test m)
  unfolding unpicked
  unpicked-IsKeyed [] h = tt
  unpicked-IsKeyed ((k, x) ∷ m) h =
      ground (arith, unpicked-IsKeyed m h.2, item-unpicked k m h.2, h.1)

  pub unpicked-Stores :
      (m : Items) (l : List Transaction) → Stores m l → Stores (unpicked test m) (without test l)
  unpicked-Stores m l h = record {
    keyed = unpicked-IsKeyed m h.keyed;
    ascending = without-IsAscending test 0 l h.ascending;
    agree =
        λ n. item-unpicked n m h.keyed ∙ rw (h.agree n) (sym (find-without_test n 0 l h.ascending));
  }

  picked-eq : (m : Items) → picked test m ≡ values (unpicked (λ x. not (test x)) m)
  unfolding picked unpicked
  picked-eq [] = refl
  picked-eq ((k, x) ∷ m) = ground (arith, picked-eq m)

-- What a filter picks, sorted.
pub sort_by_nonce-picked :
    (test : Transaction → Bool) (m : Items) (l : List Transaction)
    → Stores m l
    → sort_by_nonce (picked test m) ≡ without (λ x. not (test x)) l
sort_by_nonce-picked test m l h =
    ap sort_by_nonce (picked-eq test m)
    ∙ sort_by_nonce-values (unpicked (λ x. not (test x)) m) (without (λ x. not (test x)) l)
        (unpicked-Stores (λ x. not (test x)) m l h)
