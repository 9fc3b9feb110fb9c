-- ===== src/Prelude/Result.antt =====
-- A value or one of the errors that the modelled code returns, and calls that change a state.
use mathlib.Core.Path.{◌≡◌, refl}
use hnb_blockchain.Prelude.Tests.{if◌then◌else◌}
use mathlib.Core.Bool.{Bool, true, false}
use mathlib.Core.Option.{Option, none, some}

-- The errors, by where the source makes them.
pub data Error : Type 0 where
  same_address insufficient_balance input_not_exist vote_params_invalid vote_power_lower : Error
  invalid_number bad_document bad_request chain_not_exist app_not_exist blk_nil : Error
  height_invalid db_failed tx_nil tx_exists vote_nil : Error
  epoch_old hash_differs epoch_decided sender_unexpected changes_too_few : Error
  epoch_mismatch no_validators not_returned handler_failed : Error
  known_tx invalid_sender from_differs nonce_too_low queue_full replace_underpriced : Error
  msg_nil bad_message : Error

pub data Result {ℓ} (A : Type ℓ) : Type ℓ where
  ok : A → Result A
  err : Error → Result A

-- A call on an object of type `S`: the error or the result, and the object as it is left.
abbrev pub Action {ℓ κ} : Type ℓ → Type κ → Type (ℓ ⊔ κ)
Action S A = S → Result A × S

module _ {ℓ κ} {S : Type ℓ} {A : Type κ} where
  abbrev pub pure : A → Action S A
  pure a s = (ok a, s)

  abbrev pub fail : Error → Action S A
  fail e s = (err e, s)

  -- A call that reads the object.
  abbrev pub reads : (S → Result A) → Action S A
  reads f s = (f s, s)

  abbrev pub lift : Result A → Action S A
  lift r s = (r, s)

infixl 5 ◌>>=◌ ◌>>◌
abbrev pub ◌>>=◌ {ℓ κ μ} :
    {S : Type ℓ} {A : Type κ} {B : Type μ} → Action S A → (A → Action S B) → Action S B
◌>>=◌ m f s = let (r, s') = m s in elim r [ ok a ↦ f a s' | err e ↦ (err e, s') ]

abbrev pub ◌>>◌ {ℓ μ} : {S : Type ℓ} {B : Type μ} → Action S (Unit {0}) → Action S B → Action S B
m >> k = m >>= λ _. k

-- `if test { return error }`
abbrev pub fail_if {ℓ} : {S : Type ℓ} → Bool → Error → Action S (Unit {0})
fail_if true e s = (err e, s)
fail_if false e s = (ok tt, s)

abbrev pub modify {ℓ} : {S : Type ℓ} → (S → S) → Action S (Unit {0})
modify f s = (ok tt, f s)

abbrev pub or_fail {ℓ} : {A : Type ℓ} → Option A → Error → Result A
or_fail none e = err e
or_fail (some a) e = ok a

-- A call that returns an error leaves the object as it was.
abbrev pub IsAtomic {ℓ κ} : {S : Type ℓ} {A : Type κ} → Action S A → Type (ℓ ⊔ κ)
IsAtomic {S} m = (s : S) (e : Error) → (m s).0 ≡ err e → (m s).1 ≡ s

-- A decoding that fails or a call that is atomic.
pub lift_then-IsAtomic {ℓ κ μ} :
    {S : Type ℓ} {A : Type κ} {B : Type μ} (r : Result A) (f : A → Action S B)
    → ((a : A) → IsAtomic (f a))
    → IsAtomic (lift r >>= f)
lift_then-IsAtomic (ok a) f h s e eq = h a s e eq
lift_then-IsAtomic (err d) f h s e eq = refl

pub if-IsAtomic {ℓ κ} :
    {S : Type ℓ} {A : Type κ} (b : Bool) (m n : Action S A)
    → IsAtomic m
    → IsAtomic n
    → IsAtomic (if b then m else n)
if-IsAtomic true m n h k = h
if-IsAtomic false m n h k = k

-- A call that keeps a property of the object, whatever it returns.
abbrev pub Keeps {ℓ κ μ} : {S : Type ℓ} {A : Type κ} → (S → Type μ) → Action S A → Type (ℓ ⊔ μ)
Keeps {S} P m = (s : S) → P s → P (m s).1

module _ {ℓ κ μ ν} {S : Type ℓ} {A : Type κ} {B : Type ν} (P : S → Type μ) where
  then_kept :
      (f : A → Action S B) (r : Result A) (s : S)
      → ((a : A) → Keeps P (f a))
      → P s
      → P ((lift r >>= f) s).1
  then_kept f (ok a) s h p = h a s p
  then_kept f (err e) s h p = p

  pub bind-Keeps :
      (m : Action S A) (f : A → Action S B)
      → Keeps P m
      → ((a : A) → Keeps P (f a))
      → Keeps P (m >>= f)
  bind-Keeps m f h k s p = then_kept f (m s).0 (m s).1 k (h s p)

module _ {ℓ κ μ} {S : Type ℓ} {A : Type κ} (P : S → Type μ) where
  pub if-Keeps :
      (b : Bool) (m n : Action S A) → Keeps P m → Keeps P n → Keeps P (if b then m else n)
  if-Keeps true m n h k = h
  if-Keeps false m n h k = k

module _ {ℓ μ} {S : Type ℓ} (P : S → Type μ) where
  pub fail_if-Keeps : (b : Bool) (e : Error) → Keeps P (fail_if {S = S} b e)
  fail_if-Keeps true e s p = p
  fail_if-Keeps false e s p = p
