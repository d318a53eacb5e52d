-- ===== src/BTree/Key.antt =====
-- The bound `K: Ord` of `BTreeMap` and `BTreeSet`, and its instances: `u64` and `[u8; 32]` as
-- numbers, `String` as its bytes, and pairs.
use entangrid.Prelude.{ℕ, ◌≡◌, refl, List, [], ◌∷◌, Ordering, compare, arith}
use Prim.Native.Nat.Ordering.{lt, eq, gt}

pub record IsLawful {ℓ} {K : Type ℓ} (cmp : K → K → Ordering) : Type ℓ where
  pub cmp_self : (a : K) → cmp a a ≡ eq
  pub eq_of_cmp : (a b : K) → cmp a b ≡ eq → a ≡ b
  pub gt_of_cmp : (a b : K) → cmp a b ≡ gt → cmp b a ≡ lt
  pub lt_of_cmp : (a b c : K) → cmp a b ≡ lt → cmp b c ≡ lt → cmp a c ≡ lt

pub record Key {ℓ} (K : Type ℓ) : Type ℓ where
  pub cmp : K → K → Ordering
  pub lawful : IsLawful cmp
  pub open lawful use *

pub compare-IsLawful : IsLawful compare
compare-IsLawful = ground arith

instance abbrev pub nat_key : Key ℕ
nat_key = record { cmp = compare; lawful = compare-IsLawful }

abbrev pub then_with : Ordering → Ordering → Ordering
then_with eq second = second
then_with first _ = first

-- Byte strings compare lexicographically.
abbrev pub compare_bytes : List ℕ → List ℕ → Ordering
compare_bytes [] [] = eq
compare_bytes [] (y ∷ ys) = lt
compare_bytes (x ∷ xs) [] = gt
compare_bytes (x ∷ xs) (y ∷ ys) = then_with (compare x y) (compare_bytes xs ys)

pub bytes_self : (a : List ℕ) → compare_bytes a a ≡ eq
bytes_self [] = refl
bytes_self (x ∷ xs) = ground (arith, bytes_self xs)

pub bytes-eq : (a b : List ℕ) → compare_bytes a b ≡ eq → a ≡ b
bytes-eq [] [] h = refl
bytes-eq [] (y ∷ ys) h = cc
bytes-eq (x ∷ xs) [] h = cc
bytes-eq (x ∷ xs) (y ∷ ys) h = ground (arith, bytes-eq xs ys)

bytes-gt : (a b : List ℕ) → compare_bytes a b ≡ gt → compare_bytes b a ≡ lt
bytes-gt [] [] h = cc
bytes-gt [] (y ∷ ys) h = cc
bytes-gt (x ∷ xs) [] h = refl
bytes-gt (x ∷ xs) (y ∷ ys) h = ground (arith, bytes-gt xs ys)

bytes-lt :
    (a b c : List ℕ) → compare_bytes a b ≡ lt → compare_bytes b c ≡ lt → compare_bytes a c ≡ lt
bytes-lt [] [] c h k = cc
bytes-lt [] (y ∷ ys) [] h k = cc
bytes-lt [] (y ∷ ys) (z ∷ zs) h k = refl
bytes-lt (x ∷ xs) [] c h k = cc
bytes-lt (x ∷ xs) (y ∷ ys) [] h k = cc
bytes-lt (x ∷ xs) (y ∷ ys) (z ∷ zs) h k = ground (arith, bytes-lt xs ys zs)

pub compare_bytes-IsLawful : IsLawful compare_bytes
compare_bytes-IsLawful = record {
  cmp_self = bytes_self;
  eq_of_cmp = bytes-eq;
  gt_of_cmp = bytes-gt;
  lt_of_cmp = bytes-lt;
}

instance abbrev pub bytes_key : Key (List ℕ)
bytes_key = record { cmp = compare_bytes; lawful = compare_bytes-IsLawful }
