-- ===== src/Prelude/Errors.antt =====
-- Rust's `Result<T, E>` with `?` as bind. `Result` is the one whose error is a text (`bail!`,
-- `anyhow!`, `Err("…".into())`).
use Prim.Native.String.{String}
use mathlib.Core.Path.{◌≡◌, refl}
use mathlib.Core.Bool.{Bool, true, false}
use mathlib.Core.Logic.{◌⊎◌, inl, inr}

pub data Fallible {ℓ} (E : Type 0) (T : Type ℓ) : Type ℓ where
  err : E → Fallible E T
  ok : T → Fallible E T

abbrev pub Result {ℓ} : Type ℓ → Type ℓ
Result T = Fallible String T

-- `if test { bail!(text) }`
abbrev pub bail_if : Bool → String → Result (Unit {0})
bail_if false text = ok tt
bail_if true text = err text

module _ {ℓ κ} {E : Type 0} {T : Type ℓ} {U : Type κ} where
  infixl 5 ◌>>=◌
  abbrev pub ◌>>=◌ : Fallible E T → (T → Fallible E U) → Fallible E U
  err error >>= next = err error
  ok value >>= next = next value

  -- Inversion of a bind that fails.
  pub >>=-eq-err :
      (r : Fallible E T) (next : T → Fallible E U) {e : E}
      → (r >>= next) ≡ err e
      → (r ≡ err e) ⊎ (value : T) × (r ≡ ok value) × (next value ≡ err e)
  >>=-eq-err (err error) next {e} h = inl (cc)
  >>=-eq-err (ok value) next {e} h = inr (value, refl, h)

  -- Inversion of a successful bind.
  pub >>=-eq-ok :
      (r : Fallible E T) (next : T → Fallible E U) {u : U}
      → (r >>= next) ≡ ok u
      → (value : T) × (r ≡ ok value) × (next value ≡ ok u)
  >>=-eq-ok (err error) next e = cc
  >>=-eq-ok (ok value) next e = (value, refl, e)

module _ {ℓ} {E : Type 0} {T : Type ℓ} where
  infixl 5 ◌>>◌
  abbrev pub ◌>>◌ : Fallible E (Unit {0}) → Fallible E T → Fallible E T
  checked >> next = checked >>= λ _. next

  -- Both parts of a sequence that succeeds do.
  pub >>-eq-ok :
      (checked : Fallible E (Unit {0})) (next : Fallible E T) {t : T}
      → (checked >> next) ≡ ok t
      → (checked ≡ ok tt) × (next ≡ ok t)
  >>-eq-ok (err error) next e = cc
  >>-eq-ok (ok value) next e = (refl, e)

  -- `is_ok()`
  abbrev pub is_ok : Fallible E T → Bool
  is_ok (err error) = false
  is_ok (ok value) = true

  -- To split on a computed result and keep the equation.
  pub Result-cases :
      (r : Fallible E T) → ((value : T) × (r ≡ ok value)) ⊎ ((error : E) × (r ≡ err error))
  Result-cases (err error) = inr (error, refl)
  Result-cases (ok value) = inl (value, refl)

  pub ok-injective : {a b : T} → ◌≡◌ {A = Fallible E T} (ok a) (ok b) → a ≡ b
  ok-injective e = cc

-- A check that succeeds.
pub bail_if-ok : (b : Bool) (text : String) → bail_if b text ≡ ok tt → b ≡ false
bail_if-ok false text h = refl
bail_if-ok true text h = cc
