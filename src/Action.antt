-- ===== src/Action.antt =====
-- Methods that change an object and may raise. What was written before a raise stays written, so
-- the state comes back beside the exception too.
use bollywood_hal.Prelude.{String, Bool, true, false, ◌≡◌, refl, sym, ◌⊎◌, inl, inr}

-- The exceptions that the modelled code raises, by class.
pub data Exception : Type 0 where
  validation_error value_error runtime_error key_error lease_conflict integrity_error type_error :
      String → Exception

pub data Result {ℓ} (A : Type ℓ) : Type ℓ where
  ok : A → Result A
  raised : Exception → Result A

infixl 5 ◌>>=◌ ◌>>◌
abbrev pub ◌>>=◌ {ℓ κ} : {A : Type ℓ} {B : Type κ} → Result A → (A → Result B) → Result B
ok a >>= f = f a
raised e >>= f = raised e

abbrev pub ◌>>◌ {ℓ} : {B : Type ℓ} → Result (Unit {0}) → Result B → Result B
m >> k = m >>= λ _. k

pub Result-cases {ℓ} :
    {A : Type ℓ} (r : Result A) → ((a : A) × (r ≡ ok a)) ⊎ ((e : Exception) × (r ≡ raised e))
Result-cases (ok a) = inl (a, refl)
Result-cases (raised e) = inr (e, refl)

pub ok-injective {ℓ} : {A : Type ℓ} {a b : A} → ok a ≡ ok b → a ≡ b
ok-injective h = cc

-- inversion of a chain that ends in a return
pub map-eq-ok {ℓ κ} :
    {A : Type ℓ} {B : Type κ} (r : Result A) (f : A → B) {b : B}
    → (r >>= λ a. ok (f a)) ≡ ok b
    → (a : A) × (r ≡ ok a) × (b ≡ f a)
map-eq-ok (ok a) f h = (a, refl, sym (ok-injective h))
map-eq-ok (raised e) f h = cc

-- `if not test: raise e`
abbrev pub require : Bool → Exception → Result (Unit {0})
require true e = ok tt
require false e = raised e

pub require_then :
    {A : Type 0} (b : Bool) (e : Exception) (r : Result A) {a : A}
    → (require b e >> r) ≡ ok a
    → (b ≡ true) × (r ≡ ok a)
require_then true e r h = (refl, h)
require_then false e r h = absurd (cc)

abbrev pub Action : Type 0 → Type 0 → Type 0
Action S A = S → Result A × S

module _ {S A : Type 0} where
  abbrev pub pure : A → Action S A
  pure a s = (ok a, s)

  abbrev pub raise : Exception → Action S A
  raise e s = (raised e, s)

module _ {S A B : Type 0} where
  abbrev pub continue : Result A → (A → Action S B) → Action S B
  continue (ok a) f s = f a s
  continue (raised e) f s = (raised e, s)

  abbrev pub bind : Action S A → (A → Action S B) → Action S B
  bind m f s = let (r, s') = m s in continue r f s'
