-- ===== src/Runtime.antt =====
-- The outcome of Go code that can panic. A panic ends the call, and nothing recovers it here.
use livegrep.Prelude.{◌≡◌, refl}

pub data PanicReason : Type 0 where
  nil_dereference index_out_of_range slice_out_of_range : PanicReason

pub data Run {ℓ} (A : Type ℓ) : Type ℓ where
  ret : A → Run A
  panic : PanicReason → Run A

infixl 5 ◌>>=◌
abbrev pub ◌>>=◌ {ℓ κ} : {A : Type ℓ} {B : Type κ} → Run A → (A → Run B) → Run B
ret a >>= f = f a
panic r >>= f = panic r

pub bind-eq-ret {ℓ κ} :
    {A : Type ℓ} {B : Type κ} (m : Run A) (f : A → Run B) {b : B}
    → (m >>= f) ≡ ret b
    → (a : A) × (m ≡ ret a) × (f a ≡ ret b)
bind-eq-ret (ret a) f h = (a, refl, h)
bind-eq-ret (panic r) f h = cc

pub ret-injective {ℓ} : {A : Type ℓ} {a b : A} → ret a ≡ ret b → a ≡ b
ret-injective e = cc
