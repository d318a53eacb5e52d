-- ===== src/Quorum/Distinct.antt =====
-- Duplicate-free lists: appending, rotating, sorting and indexing.
use entangrid.Prelude.{
  ℕ, zero, suc, ◌<◌, ◌≡◌, refl, sym, ap, List, [], ◌∷◌, ◌++◌, true, false, ◌||◌, some, arith,
  length, take, drop, get_elem?, if◌then◌else◌, ◌==◌, Bool-cases, inl, inr, ==_iff,
}
use entangrid.BTree.Key.{nat_key}
use entangrid.BTree.Set.{contains}
use entangrid.Quorum.{IsNodup}

pub contains-append :
    (xs ys : List ℕ) (z : ℕ) → contains (xs ++ ys) z ≡ (contains xs z || contains ys z)
unfolding contains
contains-append [] ys z = refl
contains-append (x ∷ xs) ys z = ground (arith, contains-append xs ys z)

pub contains-cons :
    (xs : List ℕ) (x z : ℕ) → contains (x ∷ xs) z ≡ (if z == x then true else contains xs z)
unfolding contains
contains-cons xs x z = ground arith

pub contains-nil : (z : ℕ) → contains [] z ≡ false
unfolding contains
contains-nil z = refl

-- A duplicate-free list in two parts.
record IsSplit (xs ys : List ℕ) : Type 0 where
  left : IsNodup xs
  right : IsNodup ys
  apart : (z : ℕ) → contains xs z ≡ true → contains ys z ≡ false

IsSplit-of_IsNodup : (xs ys : List ℕ) → IsNodup (xs ++ ys) → IsSplit xs ys
IsSplit-of_IsNodup [] ys h = record {
  left = tt;
  right = h;
  apart = λ z p. ground (arith, contains-nil z);
}
IsSplit-of_IsNodup (x ∷ xs) ys (new, h) =
    let s = IsSplit-of_IsNodup xs ys h in
    record {
      left = (ground (arith, contains-append xs ys x), s.left);
      right = s.right;
      apart = λ z p. ground (arith, contains-append xs ys x, contains-cons xs x z, s.apart z);
    }

IsNodup-of_IsSplit : (xs ys : List ℕ) → IsSplit xs ys → IsNodup (xs ++ ys)
IsNodup-of_IsSplit [] ys s = s.right
IsNodup-of_IsSplit (x ∷ xs) ys s =
    let rest = IsNodup-of_IsSplit xs ys (record {
      left = s.left.1;
      right = s.right;
      apart = λ z p. s.apart z (ground (arith, contains-cons xs x z));
    }) in
    (ground (arith, contains-append xs ys x, s.left.0, s.apart x, contains-cons xs x x), rest)

pub append_comm-IsNodup : (xs ys : List ℕ) → IsNodup (xs ++ ys) → IsNodup (ys ++ xs)
append_comm-IsNodup xs ys h =
    let s = IsSplit-of_IsNodup xs ys h in
    IsNodup-of_IsSplit ys xs
      (record { left = s.right; right = s.left; apart = λ z p. ground (arith, s.apart z) })

pub take-append-drop : (n : ℕ) (xs : List ℕ) → take n xs ++ drop n xs ≡ xs
take-append-drop zero xs = refl
take-append-drop (suc n) [] = refl
take-append-drop (suc n) (x ∷ xs) = rw (take-append-drop n xs)

-- Every index below the length has an element.
pub get_elem?-some : (xs : List ℕ) (i : ℕ) → i < length xs → (x : ℕ) × (get_elem? xs i ≡ some x)
get_elem?-some [] i h = elim h [ ]
get_elem?-some (x ∷ xs) zero h = (x, refl)
get_elem?-some (x ∷ xs) (suc i) h = get_elem?-some xs i (omega arith)

pub get_elem?-lt : (xs : List ℕ) (i x : ℕ) → get_elem? xs i ≡ some x → i < length xs
get_elem?-lt [] i x h = absurd (cc)
get_elem?-lt (y ∷ xs) zero x h = omega arith
get_elem?-lt (y ∷ xs) (suc i) x h = omega (arith, get_elem?-lt xs i x h)

pub contains-get_elem? : (xs : List ℕ) (i x : ℕ) → get_elem? xs i ≡ some x → contains xs x ≡ true
contains-get_elem? [] i x h = absurd (cc)
contains-get_elem? (y ∷ xs) zero x h = ground (arith, contains-cons xs y x)
contains-get_elem? (y ∷ xs) (suc i) x h =
    ground (arith, contains-cons xs y x, contains-get_elem? xs i x h)

pub index_of_contains :
    (xs : List ℕ) (x : ℕ) → contains xs x ≡ true → (i : ℕ) × (get_elem? xs i ≡ some x)
index_of_contains [] x h = absurd (cc (contains-nil x))
index_of_contains (y ∷ xs) x h = elim (Bool-cases (x == y)) [
  | inl same ↦ (0, ap some (sym ((==_iff x y).0 same)))
  | inr other ↦
      let (i, p) = index_of_contains xs x (ground (arith, contains-cons xs y x)) in (suc i, p)
]

-- In a duplicate-free list an element has one index.
pub get_elem?-injective :
    (xs : List ℕ) (i j x : ℕ)
    → IsNodup xs
    → get_elem? xs i ≡ some x
    → get_elem? xs j ≡ some x
    → i ≡ j
get_elem?-injective [] i j x n p q = absurd (cc)
get_elem?-injective (y ∷ xs) zero zero x n p q = refl
get_elem?-injective (y ∷ xs) zero (suc j) x n p q =
    absurd (ground (arith, contains-get_elem? xs j x q, n.0))
get_elem?-injective (y ∷ xs) (suc i) zero x n p q =
    absurd (ground (arith, contains-get_elem? xs i x p, n.0))
get_elem?-injective (y ∷ xs) (suc i) (suc j) x n p q = ap suc (get_elem?-injective xs i j x n.1 p q)
