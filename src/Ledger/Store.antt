-- ===== src/Ledger/Store.antt =====
-- What the ledger uses of its database (db/leveldbImpl over leveldb) and of its caches (gcache), as
-- interfaces. Calls of the database succeed; a cache may forget an entry at any time.
use hnb_blockchain.Prelude.{◌≡◌, ◌≢◌, refl, sym, Option, none, some, if◌then◌else◌}
use hnb_blockchain.Prelude.Bytes.{Bytes, bytes_equal}

pub record KvStore (V : Type 0) : Type 1 where
  pub Db : Type 0
  pub get : Bytes → Db → Option V
  pub put : Bytes → V → Db → Db
  pub delete : Bytes → Db → Db
  pub get-put :
      (k j : Bytes) (v : V) (d : Db)
      → get j (put k v d) ≡ (if bytes_equal k j then some v else get j d)
  pub get-delete :
      (k j : Bytes) (d : Db) → get j (delete k d) ≡ (if bytes_equal k j then none else get j d)

-- What a cache answers was set last under that key, and not removed since.
pub record Cache (K V : Type 0) : Type 1 where
  pub Entries : Type 0
  pub get : K → Entries → Option V
  pub set : K → V → Entries → Entries
  pub remove : K → Entries → Entries
  pub get-set_self : (k : K) (v w : V) (c : Entries) → get k (set k v c) ≡ some w → w ≡ v
  pub get-set_ne :
      (k j : K) (v w : V) (c : Entries) → k ≢ j → get j (set k v c) ≡ some w → get j c ≡ some w
  pub get-remove_self : (k : K) (c : Entries) → get k (remove k c) ≡ none
  pub get-remove : (k j : K) (w : V) (c : Entries) → get j (remove k c) ≡ some w → get j c ≡ some w

-- A hit of the cache, or else what the database holds.
unfoldable pub or_else {ℓ} : {A : Type ℓ} → Option A → Option A → Option A
or_else (some v) below = some v
or_else none below = below

pub or_else-of_coherent {ℓ} :
    {A : Type ℓ} (hit below : Option A)
    → ((v : A) → hit ≡ some v → below ≡ some v)
    → or_else hit below ≡ below
unfolding or_else
or_else-of_coherent none below h = refl
or_else-of_coherent (some v) below h = sym (h v refl)
