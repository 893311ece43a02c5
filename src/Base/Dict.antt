-- ===== src/Base/Dict.antt =====
-- Go's maps as association lists over keys with a Boolean equality.
use Prim.Native.Nat.{ℕ}
use Prim.Native.String.{String}
use mathlib.Core.Path.{◌≡◌, refl, ◌∙◌}
use mathlib.Core.Logic.{◌↔◌}
use mathlib.Core.Bool.{Bool, true}
use mathlib.Core.Option.{Option, none, some}
use mathlib.Core.List.{List, [], ◌∷◌}
use native.Mathlib.Omega.{arith}
use gorchera.Base.Tests.{◌==◌, ==_iff, if◌then◌else◌}
use gorchera.Base.Text.{◌is◌, is_iff}

pub record Eq {ℓ} (A : Type ℓ) : Type ℓ where
  pub same : A → A → Bool
  pub same_iff : (a b : A) → (same a b ≡ true) ↔ (a ≡ b)

instance abbrev pub ℕ_eq : Eq ℕ
ℕ_eq = record { same = ◌==◌; same_iff = ==_iff }

instance abbrev pub String_eq : Eq String
String_eq = record { same = ◌is◌; same_iff = is_iff }

module _ {ℓ κ} {K : Type ℓ} {V : Type κ} ⦃e : Eq K⦄ where
  -- `v, ok := m[k]`.
  unfoldable pub get : K → List (K × V) → Option V
  get k [] = none
  get k ((j, v) ∷ m) = let later = get k m in if e.same j k then some v else later

  -- `m[k] = v`.
  unfoldable pub put : K → V → List (K × V) → List (K × V)
  put k v [] = (k, v) ∷ []
  put k v ((j, w) ∷ m) = if e.same j k then (k, v) ∷ m else (j, w) ∷ put k v m

  -- `delete(m, k)`.
  unfoldable pub del : K → List (K × V) → List (K × V)
  del k [] = []
  del k ((j, w) ∷ m) = let later = del k m in if e.same j k then later else (j, w) ∷ later

  pub get-put :
      (k j : K) (v : V) (m : List (K × V))
      → get j (put k v m) ≡ (if e.same k j then some v else get j m)
  unfolding get put
  get-put k j v [] = refl
  get-put k j v ((i, w) ∷ m) =
      ground (arith, e.same_iff k j, e.same_iff i k, e.same_iff i j, get-put k j v m)

  pub get-del :
      (k j : K) (m : List (K × V)) → get j (del k m) ≡ (if e.same k j then none else get j m)
  unfolding get del
  get-del k j [] = ground arith
  get-del k j ((i, w) ∷ m) =
      ground (arith, e.same_iff k j, e.same_iff i k, e.same_iff i j, get-del k j m)

  pub get-put_same : (k j : K) (v : V) (m : List (K × V)) → k ≡ j → get j (put k v m) ≡ some v
  get-put_same k j v m h = get-put k j v m ∙ ground (arith, e.same_iff k j, h)
