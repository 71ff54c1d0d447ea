-- ===== src/Prelude/Exec.antt =====
-- Methods that mutate an object and may raise. What was written before a raise stays written, so
-- the state comes back beside the exception too.
use mathlib.Core.Path.{◌≡◌, refl, sym, ◌∙◌}
use mathlib.Core.Logic.{◌⊎◌, inl, inr}
use native.Mathlib.Omega.{arith}
use mathlib.Core.Bool.{Bool, true, false}

-- The exception classes that the modelled code raises, and one for a loop that ran out of fuel.
pub data Exception : Type 0 where
  value_error type_error key_error : Exception
  invalid_state_transition : Exception
  hysteresis_input_conflict : Exception
  hot_state_idempotency_conflict : Exception
  event_not_found event_identity_conflict idempotency_conflict concurrent_event_write : Exception
  simulated_commit_failure : Exception
  authentication_required feature_not_entitled csrf_validation_failed : Exception
  recent_authentication_required : Exception
  arithmetic_error out_of_fuel : Exception
  operator_target_not_found stale_version command_not_allowed unknown_operator_cursor : Exception

pub data Result {ℓ} (A : Type ℓ) : Type ℓ where
  ok : A → Result A
  raised : Exception → Result A

-- A pure computation that may raise.
module _ {ℓ κ} {A : Type ℓ} {B : Type κ} where
  abbrev pub and_then : Result A → (A → Result B) → Result B
  and_then (ok a) f = f a
  and_then (raised e) f = raised e

  pub and_then-eq-ok :
      (r : Result A) (f : A → Result B) {b : B}
      → and_then r f ≡ ok b
      → (a : A) × (r ≡ ok a) × (f a ≡ ok b)
  and_then-eq-ok (ok a) f h = (a, refl, h)
  and_then-eq-ok (raised e) f h = cc

-- `if not b: raise e`
abbrev pub require : Bool → Exception → Result (Unit {0})
require true e = ok tt
require false e = raised e

-- A constructor call that runs `__post_init__`.
abbrev pub construct {ℓ} : {A : Type ℓ} → (A → Result (Unit {0})) → A → Result A
construct check x = and_then (check x) (λ _. ok x)

abbrev pub Exec {ℓ} : Type ℓ → Type ℓ → Type ℓ
Exec S A = S → Result A × S

module _ {ℓ} {S A : Type ℓ} where
  abbrev pub pure : A → Exec S A
  pure a s = (ok a, s)

  abbrev pub raise : Exception → Exec S A
  raise e s = (raised e, s)

  abbrev pub lift : Result A → Exec S A
  lift r s = (r, s)

  abbrev pub gets : (S → A) → Exec S A
  gets f s = (ok (f s), s)

abbrev pub modify : {S : Type 0} → (S → S) → Exec S (Unit {0})
modify f s = (ok tt, f s)

infixl 5 ◌>>=◌ ◌>>◌
abbrev pub ◌>>=◌ {ℓ} : {S A B : Type ℓ} → Exec S A → (A → Exec S B) → Exec S B
◌>>=◌ m f s = let (r, s') = m s in elim r [ ok a ↦ f a s' | raised e ↦ (raised e, s') ]

abbrev pub ◌>>◌ {ℓ} : {S A B : Type ℓ} → Exec S A → Exec S B → Exec S B
m >> k = m >>= λ _. k

-- The computation returns, and what it returns satisfies `P`.
abbrev pub Returns {ℓ} : {A : Type ℓ} → (A → Type 0) → Result A → Type 0
Returns P (ok a) = P a
Returns P (raised e) = ⊥

-- Inversion of the first step of a `do` block that returned.
pub lift-bind-eq-ok {ℓ} :
    {S A B : Type ℓ} (r : Result A) (f : A → Exec S B) (s : S) {b : B} {s' : S}
    → (lift r >>= f) s ≡ (ok b, s')
    → (a : A) × (r ≡ ok a) × (f a s ≡ (ok b, s'))
lift-bind-eq-ok (ok a) f s h = (a, refl, h)
lift-bind-eq-ok (raised e) f s h = ground arith

pub construct-eq-ok {ℓ} :
    {A : Type ℓ} (check : A → Result (Unit {0})) (x : A) {a : A}
    → construct check x ≡ ok a
    → (check x ≡ ok tt) × (a ≡ x)
construct-eq-ok check x h = ground arith

pub construct-bind-eq-ok {ℓ} :
    {S A B : Type ℓ} (check : A → Result (Unit {0})) (x : A) (f : A → Exec S B) (s : S) {b : B}
    {s' : S}
    → (lift (construct check x) >>= f) s ≡ (ok b, s')
    → (check x ≡ ok tt) × (f x s ≡ (ok b, s'))
construct-bind-eq-ok check x f s h = ground arith

-- The rest of a `do` block, from what its first step came to.
abbrev pub continued {ℓ} : {S A B : Type ℓ} → (A → Exec S B) → Result A × S → Result B × S
continued f (ok a, t) = f a t
continued f (raised e, t) = (raised e, t)

continued-eq-ok {ℓ} :
    {S A B : Type ℓ} (f : A → Exec S B) (p : Result A × S) {b : B} {s' : S}
    → continued f p ≡ (ok b, s')
    → (a : A) × (t : S) × (p ≡ (ok a, t)) × (f a t ≡ (ok b, s'))
continued-eq-ok f (ok a, t) h = (a, t, refl, h)
continued-eq-ok f (raised e, t) h = ground arith

pub bind-eq-continued {ℓ} :
    {S A B : Type ℓ} (m : Exec S A) (f : A → Exec S B) (s : S) → (m >>= f) s ≡ continued f (m s)
bind-eq-continued m f s = ground arith

pub bind-eq-ok {ℓ} :
    {S A B : Type ℓ} (m : Exec S A) (f : A → Exec S B) (s : S) {b : B} {s' : S}
    → (m >>= f) s ≡ (ok b, s')
    → (a : A) × (t : S) × (m s ≡ (ok a, t)) × (f a t ≡ (ok b, s'))
bind-eq-ok m f s h = continued-eq-ok f (m s) (sym (bind-eq-continued m f s) ∙ h)

pub Result-cases {ℓ} :
    {A : Type ℓ} (r : Result A) → ((e : Exception) × (r ≡ raised e)) ⊎ ((a : A) × (r ≡ ok a))
Result-cases (ok a) = inr (a, refl)
Result-cases (raised e) = inl (e, refl)

pub ok-injective {ℓ} : {A : Type ℓ} {a b : A} → ok a ≡ ok b → a ≡ b
ok-injective q = ground arith
