-- ===== src/Prelude/Effects.antt =====
-- Methods that change a state and may raise. What was written before a raise stays written, so
-- the state comes back beside the error too; a rollback restores it where the source says so.

-- The exception classes that the modelled code raises.
pub data Error : Type 0 where
  value_error key_error runtime_error integrity_error permission_error operational_error
        scope_error :
      Error

pub data Result {ℓ} (A : Type ℓ) : Type ℓ where
  ok : A → Result A
  raised : Error → Result A

abbrev pub Action {ℓ κ} : Type ℓ → Type κ → Type (ℓ ⊔ κ)
Action S A = S → Result A × S

module _ {ℓ κ} {S : Type ℓ} {A : Type κ} where
  abbrev pub pure : A → Action S A
  pure a s = (ok a, s)

  abbrev pub throw : Error → Action S A
  throw e s = (raised e, s)

module _ {ℓ κ ι} {S : Type ℓ} {A : Type κ} {B : Type ι} where
  abbrev pub continue : Result A → (A → Action S B) → Action S B
  continue (ok a) f s = f a s
  continue (raised e) f s = (raised e, s)

  infixl 10 ◌>>=◌ ◌>>◌
  abbrev pub ◌>>=◌ : Action S A → (A → Action S B) → Action S B
  ◌>>=◌ m f s = continue (m s).0 f (m s).1

  abbrev pub ◌>>◌ : Action S A → Action S B → Action S B
  m >> n = m >>= λ _. n

-- A transaction: where the block raises, what it wrote is rolled back.
abbrev pub atomic {ℓ κ} : {S : Type ℓ} {A : Type κ} → Action S A → Action S A
atomic m s = elim (m s).0 [ ok a ↦ (ok a, (m s).1) | raised e ↦ (raised e, s) ]
