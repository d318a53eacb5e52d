-- ===== src/Node/State/Outcomes.antt =====
-- Inversion of chains of steps that may fail and keep what they changed.
use entangrid.Prelude.{◌≡◌, ◌⊎◌, inl, inr, refl, String, Result, ok, err, ◌>>=◌}
use entangrid.Node.State.{NodeState, Fault, Outcome, at}

pub at-ok {ℓ} :
    {T : Type ℓ} (s : NodeState) (r : Result T) {value : T} → at s r ≡ ok value → r ≡ ok value
unfolding at
at-ok s (err text) h = cc
at-ok s (ok value') h = cc

module _ {ℓ κ} {T : Type ℓ} {U : Type κ} (s : NodeState) where
  -- A step that changes nothing, and what follows it, when both succeed.
  pub at-eq-ok :
      (r : Result T) (next : T → Outcome U) {u : U}
      → (at s r >>= next) ≡ ok u
      → (value : T) × (r ≡ ok value) × (next value ≡ ok u)
  unfolding at
  at-eq-ok (err text) next h = cc
  at-eq-ok (ok value) next h = (value, refl, h)

  -- The same when one of them fails.
  pub at-eq-err :
      (r : Result T) (next : T → Outcome U) {text : String} {s' : NodeState}
      → (at s r >>= next) ≡ err (Fault.refused text s')
      → (s' ≡ s) ⊎ (value : T) × (r ≡ ok value) × (next value ≡ err (Fault.refused text s'))
  unfolding at
  at-eq-err (err text') next {text} {s'} h = inl (cc)
  at-eq-err (ok value) next {text} {s'} h = inr (value, refl, h)
