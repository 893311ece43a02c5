-- ===== src/Base/Result.antt =====
-- Go's pair of a value and an error: the error's text where it is not nil, and else the value.
use mathlib.Core.Option.{Option, none, some}
use Prim.Native.String.{String}
use mathlib.Core.Path.{◌≡◌, refl}
use mathlib.Core.Logic.{◌⊎◌, inl, inr}

pub data Result {ℓ} (V : Type ℓ) : Type ℓ where
  err : (message : String) → Result V
  ok : (value : V) → Result V

module _ {ℓ κ} {V : Type ℓ} {W : Type κ} where
  infixl 5 ◌>>=◌
  -- `v, err := m; if err != nil { return err }`, with what follows on `v`.
  abbrev pub ◌>>=◌ : Result V → (V → Result W) → Result W
  err message >>= next = err message
  ok value >>= next = next value

module _ {κ} {W : Type κ} where
  infixr 5 ◌>>◌
  -- The same where there is an error alone.
  abbrev pub ◌>>◌ : Option String → Result W → Result W
  none >> next = next
  some message >> next = err message

pub Result-cases {ℓ} :
    {V : Type ℓ} (x : Result V)
    → ((message : String) × (x ≡ err message)) ⊎ ((value : V) × (x ≡ ok value))
Result-cases (err message) = inl (message, refl)
Result-cases (ok value) = inr (value, refl)
