-- ===== src/Txpool/Pool/Consistent/Settling.antt =====
-- txpool/tx_pool.go: demoteUnexecutables leaves no empty pending list.
use hnb_blockchain.Prelude.{
  if◌then◌else◌, ◌≡◌, refl, ap, sym, ◌∙◌, subst, Bool, true, false, Option, none, some, List, [],
  ◌∷◌, arith, inl, inr, Bool-cases,
}
use hnb_blockchain.Prelude.Bytes.{Bytes, bytes_equal, bytes_equal_iff}
use hnb_blockchain.Prelude.Assoc.{Dict, lookup, lookup-insert, lookup-erase}
use hnb_blockchain.Txpool.TxList.{TxList}
use hnb_blockchain.Txpool.Accounts.{TxLookup, get_tx, add_tx, remove_tx}
use hnb_blockchain.Txpool.TxList
use hnb_blockchain.Txpool.TxList.{new_tx_list}
use hnb_blockchain.Txpool.Accounts.{present, set_nonce}
use hnb_blockchain.Txpool.Pool.{TxPool, Chain}
use hnb_blockchain.Txpool.Accounts.{get_nonce, contains}
use hnb_blockchain.Txpool.Accounts
use hnb_blockchain.Txpool.Pool.Moving.{
  set_pending, clear_pending, demote_gap, has_gap, drop_executed, demote_list, demote_found,
  demote_accounts, demote_unexecutables,
}
use hnb_blockchain.Txpool.Pool.Consistent.Placing.{Sound}
use hnb_blockchain.Txpool.Pool.Consistent.Parts.{named, forget_all-pending}
use hnb_blockchain.Txpool.TxList.{is_later, remove_later, if_removed, Removed}
use hnb_blockchain.Txpool.Pool.Consistent.Demotion.{Listed}
use hnb_blockchain.Txpool.Pool.Consistent.Demotion.{
  drop_executed-Listed, demote_gap-Listed, demote_found-Sound, enqueue_all-pending,
}

-- Whether an account is among some.
among : Bytes → List Bytes → Bool
among a [] = false
among a (b ∷ bs) = if bytes_equal b a then true else among a bs

-- The account has no empty pending list.
abbrev NoneEmpty : Dict TxList → Bytes → Type 0
NoneEmpty m a = (l : TxList) → lookup a m ≡ some l → TxList.empty l ≡ false

drop_executed-others :
    (c : Chain) (addr : Bytes) (l : TxList) (pool : TxPool) (a : Bytes)
    → bytes_equal addr a ≡ false
    → lookup a (drop_executed c addr l pool).1.pending ≡ lookup a pool.pending
unfolding drop_executed
drop_executed-others c addr l pool a f =
    let r = TxList.forward (c.ledger_nonce addr) l in
    ap (lookup a) (forget_all-pending r.1 (set_pending addr r.0 pool))
    ∙ lookup-insert addr a r.0 pool.pending
    ∙ ap (λ (b : Bool). if b then some r.0 else lookup a pool.pending) f

demote_gap-others :
    (addr : Bytes) (b : Bool) (l : TxList) (pool : TxPool) (a : Bytes)
    → bytes_equal addr a ≡ false
    → lookup a (demote_gap addr b l pool).1.pending ≡ lookup a pool.pending
demote_gap-others addr false l pool a f = refl
demote_gap-others addr true l pool a f =
    let r = TxList.cap 0 l in
    ap (lookup a) (enqueue_all-pending r.1 (set_pending addr r.0 pool))
    ∙ lookup-insert addr a r.0 pool.pending
    ∙ ap (λ (b : Bool). if b then some r.0 else lookup a pool.pending) f

clear_pending-others :
    (addr : Bytes) (b : Bool) (pool : TxPool) (a : Bytes)
    → bytes_equal addr a ≡ false
    → lookup a (clear_pending addr b pool).pending ≡ lookup a pool.pending
clear_pending-others addr false pool a f = refl
clear_pending-others addr true pool a f =
    lookup-erase addr a pool.pending
    ∙ ap (λ (b : Bool). if b then none else lookup a pool.pending) f

clear_pending-itself :
    (addr : Bytes) (l : TxList) (pool : TxPool)
    → lookup addr pool.pending ≡ some l
    → (b : Bool) → TxList.empty l ≡ b
    → NoneEmpty (clear_pending addr b pool).pending addr
clear_pending-itself addr l pool e false k x h =
    let e' : l ≡ x = ground (arith, e, h) in subst (λ (y : TxList). TxList.empty y ≡ false) e' k
clear_pending-itself addr l pool e true k x h =
    absurd (ground (arith, lookup-erase addr addr pool.pending, bytes_equal_iff addr addr, h))

demote_list-others :
    (c : Chain) (addr : Bytes) (l : TxList) (pool : TxPool) (a : Bytes)
    → bytes_equal addr a ≡ false
    → lookup a (demote_list c addr l pool).pending ≡ lookup a pool.pending
unfolding demote_list
demote_list-others c addr l pool a f =
    let s1 = drop_executed c addr l pool in
    let b = has_gap (c.ledger_nonce addr) s1.0 in
    let s2 = demote_gap addr b s1.0 s1.1 in
    clear_pending-others addr (TxList.empty s2.0) s2.1 a f
    ∙ demote_gap-others addr b s1.0 s1.1 a f
    ∙ drop_executed-others c addr l pool a f

demote_list-itself :
    (c : Chain) (addr : Bytes) (l : TxList) (pool : TxPool)
    → Listed addr l pool
    → NoneEmpty (demote_list c addr l pool).pending addr
unfolding demote_list
demote_list-itself c addr l pool q =
    let s1 = drop_executed c addr l pool in
    let b = has_gap (c.ledger_nonce addr) s1.0 in
    let s2 = demote_gap addr b s1.0 s1.1 in
    clear_pending-itself addr s2.0 s2.1
      (demote_gap-Listed addr b s1.0 s1.1 (drop_executed-Listed c addr l pool q)).listed
      (TxList.empty s2.0) refl

module _ (c : Chain) (addr : Bytes) (pool : TxPool) where
  demote_found-others :
      (o : Option TxList)
      → lookup addr pool.pending ≡ o
      → (a : Bytes) → bytes_equal addr a ≡ false
      → lookup a (demote_found c addr o pool).pending ≡ lookup a pool.pending
  demote_found-others none e a f = refl
  demote_found-others (some l) e a f = demote_list-others c addr l pool a f

  demote_found-itself :
      Sound pool addr []
      → (o : Option TxList) → lookup addr pool.pending ≡ o
      → NoneEmpty (demote_found c addr o pool).pending addr
  demote_found-itself s none e l h = absurd (ground (arith, e, h))
  demote_found-itself s (some l) e k h =
      demote_list-itself c addr l pool (record { sound = s; listed = e }) k h

-- The accounts that are not among `addrs` have no empty list.
abbrev Settled : List Bytes → TxPool → Type 0
Settled addrs pool = (a : Bytes) → among a addrs ≡ false → NoneEmpty pool.pending a

demote_found-Settled :
    (c : Chain) (addr : Bytes) (addrs : List Bytes) (pool : TxPool)
    → Sound pool addr []
    → Settled (addr ∷ addrs) pool
    → Settled addrs (demote_found c addr (lookup addr pool.pending) pool)
unfolding among
demote_found-Settled c addr addrs pool s h a f l e = elim (Bool-cases (bytes_equal addr a)) [
  | inl t ↦
      let k : addr ≡ a = (bytes_equal_iff addr a).0 t in
      subst
        (λ (b : Bytes). NoneEmpty (demote_found c addr (lookup addr pool.pending) pool).pending b) k
        (demote_found-itself c addr pool s (lookup addr pool.pending) refl) l e
  | inr n ↦
      h a (ap (λ (b : Bool). if b then true else among a addrs) n ∙ f) l
        (sym (demote_found-others c addr pool (lookup addr pool.pending) refl a n) ∙ e)
]

demote_accounts-Settled :
    (c : Chain) (addrs : List Bytes) (b : Bytes) (pool : TxPool)
    → Sound pool b []
    → Settled addrs pool
    → Settled [] (demote_accounts c addrs pool)
unfolding demote_accounts
demote_accounts-Settled c [] b pool s h = h
demote_accounts-Settled c (addr ∷ addrs) b pool s h =
    let s' = named b addr pool s in
    let p = demote_found c addr (lookup addr pool.pending) pool in
    demote_accounts-Settled c addrs addr p
      (demote_found-Sound c addr pool s' (lookup addr pool.pending) refl)
      (demote_found-Settled c addr addrs pool s' h)

keys-Settled : (m : Dict TxList) (a : Bytes) → among a (Accounts.keys_of m) ≡ false → NoneEmpty m a
unfolding among lookup
keys-Settled [] a f l e = absurd (ground (arith, e))
keys-Settled ((k, x) ∷ m) a f l e =
    let n : bytes_equal k a ≡ false = ground (arith, f) in
    keys-Settled m a (ground (arith, f, n)) l (ground (arith, e, n))

-- demoteUnexecutables leaves no empty pending list.
pub demote_unexecutables-nonempty :
    (c : Chain) (b : Bytes) (pool : TxPool)
    → Sound pool b []
    → (a : Bytes) → NoneEmpty (demote_unexecutables c pool).pending a
unfolding demote_unexecutables among
demote_unexecutables-nonempty c b pool s a =
    demote_accounts-Settled c (Accounts.keys_of pool.pending) b pool s (keys-Settled pool.pending) a
      refl
