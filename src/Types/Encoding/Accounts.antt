-- ===== src/Types/Encoding/Accounts.antt =====
-- `validator_account` gives different validators different accounts.
use native.Mathlib.Nat.{pow-suc}
use entangrid.Prelude.{
  ℕ, zero, suc, ◌+◌, ◌-◌, ◌*◌, ◌/◌, ◌%◌, ◌^◌, ◌<◌, ◌≡◌, refl, ap, sym, ◌∙◌, [], ◌∷◌, ◌++◌, drop,
  arith, ltb, u64_mod, Bool-cases, inl, inr,
}
use entangrid.Types.Scheme.{Bytes}
use entangrid.Types.Encoding.{decimal, validator_account}

-- The number that digits spell, read after `acc`.
spelled : ℕ → Bytes → ℕ
spelled acc [] = acc
spelled acc (d ∷ ds) = spelled (acc * 10 + (d - b'0')) ds

spelled-append : (acc : ℕ) (xs ys : Bytes) → spelled acc (xs ++ ys) ≡ spelled (spelled acc xs) ys
unfolding spelled
spelled-append acc [] ys = refl
spelled-append acc (x ∷ xs) ys = spelled-append (acc * 10 + (x - b'0')) xs ys

spelled-decimal : (fuel n : ℕ) → n < 10 ^ fuel → spelled 0 (decimal fuel n) ≡ n
unfolding spelled decimal
spelled-decimal zero n h = omega arith
spelled-decimal (suc fuel) n h =
    let next : n / 10 < 10 ^ fuel = omega (arith, pow-suc 10 fuel) in
    let ih = spelled-decimal fuel (n / 10) next in
    elim (Bool-cases (ltb n 10)) [
      | inl small ↦ rw small (omega arith)
      | inr large ↦
          rw (large, spelled-append 0 (decimal fuel (n / 10)) ((b'0' + n % 10) ∷ []), ih)
            (omega arith)
    ]

pub validator_account-injective :
    (a b : ℕ) → a < u64_mod → b < u64_mod → validator_account a ≡ validator_account b → a ≡ b
unfolding validator_account
validator_account-injective a b ha hb e =
    let digits : decimal 20 a ≡ decimal 20 b = ap (drop 10) e in
    sym (spelled-decimal 20 a (omega arith))
    ∙ ap (spelled 0) digits
    ∙ spelled-decimal 20 b (omega arith)
