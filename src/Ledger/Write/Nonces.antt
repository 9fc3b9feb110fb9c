-- ===== src/Ledger/Write/Nonces.antt =====
-- The nonces that `WriteLedger` leaves.
use hnb_blockchain.Prelude.{ℕ, ◌≡◌, ◌∙◌, ap, refl, arith, List, [], ◌∷◌, if◌then◌else◌}
use hnb_blockchain.Prelude.Bytes.{Bytes, bytes_equal, bytes_equal_prefix, codes}
use hnb_blockchain.State.{raw64}
use hnb_blockchain.Ledger.Types.{NonceItem, Backend}
use hnb_blockchain.Ledger.NonceStore.{nonce_key, number_of, set_nonce}
use hnb_blockchain.Ledger.NonceStore
use hnb_blockchain.Ledger.Write.{LedgerHandler, set_nonces, get_nonce, nonce_store, with_nonces}

-- The nonce of an address after the items, where `old` is its nonce before them.
abbrev pub last_nonce : Bytes → List NonceItem → ℕ → ℕ
last_nonce a [] old = old
last_nonce a (v ∷ vs) old = last_nonce a vs (if bytes_equal v.key a then v.nonce else old)

module _ (b : Backend) where
  get_nonce-set_nonce :
      (v : NonceItem) (a : Bytes) (lh : LedgerHandler b)
      → get_nonce b a (with_nonces b (set_nonce b.db b.nonces v.key v.nonce (nonce_store b lh)) lh)
        ≡ (if bytes_equal v.key a then v.nonce else get_nonce b a lh)
  unfolding get_nonce NonceStore.get_nonce set_nonce nonce_key number_of
  get_nonce-set_nonce v a lh = ground (
    arith,
    bytes_equal_prefix (codes "nonce") v.key a,
    b.db.get-put (nonce_key v.key) (nonce_key a) (raw64 v.nonce) lh.db,
  )

  -- After nonces are written, each address has that of its last item, and an address with none keeps the
  -- nonce that it had.
  pub get_nonce-set_nonces :
      (a : Bytes) (vs : List NonceItem) (lh : LedgerHandler b)
      → get_nonce b a (set_nonces b vs lh) ≡ last_nonce a vs (get_nonce b a lh)
  unfolding set_nonces
  get_nonce-set_nonces a [] lh = refl
  get_nonce-set_nonces a (v ∷ vs) lh =
      get_nonce-set_nonces a vs _ ∙ ap (last_nonce a vs) (get_nonce-set_nonce v a lh)
