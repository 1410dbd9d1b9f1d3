-- ===== src/Application/Result.antt =====
-- A call that returns or raises, alone and over a state that stays written when it raises.
use example_litestar_service.Prelude.{◌≡◌, refl, ap, ◌⊎◌, inl, inr, Bool, true, false}
use example_litestar_service.Application.Exceptions.{Exception}

pub data Result {ℓ} (A : Type ℓ) : Type ℓ where
  ok : A → Result A
  raise : Exception → Result A

abbrev pub bind_result {ℓ κ} : {A : Type ℓ} {B : Type κ} → Result A → (A → Result B) → Result B
bind_result (ok a) f = f a
bind_result (raise e) f = raise e

abbrev pub is_ok {ℓ} : {A : Type ℓ} → Result A → Bool
is_ok (ok _) = true
is_ok (raise _) = false

pub Result-cases {ℓ} :
    {A : Type ℓ} (r : Result A) → ((a : A) × (r ≡ ok a)) ⊎ ((e : Exception) × (r ≡ raise e))
Result-cases (ok a) = inl (a, refl)
Result-cases (raise e) = inr (e, refl)

pub ok-injective {ℓ} : {A : Type ℓ} {a b : A} → ok a ≡ ok b → a ≡ b
ok-injective h = cc

pub raise-injective {ℓ} :
    {A : Type ℓ} {e f : Exception} → ◌≡◌ {A = Result A} (raise e) (raise f) → e ≡ f
raise-injective h = cc

-- An `async def` over the state `S`: its result, and the state at its return or raise.
abbrev pub Action {ℓ κ} : Type ℓ → Type κ → Type (ℓ ⊔ κ)
Action S A = S → Result A × S

module _ {ℓ κ} {S : Type ℓ} {A : Type κ} where
  abbrev pub pure : A → Action S A
  pure a s = (ok a, s)

  abbrev pub throw : Exception → Action S A
  throw e s = (raise e, s)

  abbrev pub lift : Result A → Action S A
  lift r s = (r, s)

-- The rest of a body, after a call has come back.
abbrev pub continue {ℓ κ μ} :
    {S : Type ℓ} {A : Type κ} {B : Type μ} → (A → Action S B) → Result A × S → Result B × S
continue f (ok a, s) = f a s
continue f (raise e, s) = (raise e, s)

infixl 5 ◌>>=◌ ◌>>◌
abbrev pub ◌>>=◌ {ℓ κ μ} :
    {S : Type ℓ} {A : Type κ} {B : Type μ} → Action S A → (A → Action S B) → Action S B
◌>>=◌ m f s = continue f (m s)

abbrev pub ◌>>◌ {ℓ κ μ} :
    {S : Type ℓ} {A : Type κ} {B : Type μ} → Action S A → Action S B → Action S B
m >> k = m >>= λ _. k

-- A body after a call that returned.
pub >>=-ok {ℓ κ μ} :
    {S : Type ℓ} {A : Type κ} {B : Type μ} (m : Action S A) (f : A → Action S B) (s : S) (a : A)
    → (m s).0 ≡ ok a
    → ((m >>= f) s).0 ≡ (f a (m s).1).0
>>=-ok m f s a h = ap (λ r. (continue f (r, (m s).1)).0) h

-- `if not cond: raise error`
abbrev pub require {ℓ} : {S : Type ℓ} → Bool → Exception → Action S (Unit {0})
require true e = pure tt
require false e = throw e
