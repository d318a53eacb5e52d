-- ===== src/Types/Signature/Hybrid.antt =====
-- Which components make a hybrid signature, and how they are found in it.
use entangrid.Prelude.{
  ℕ, List, [], ◌∷◌, Option, some, true, false, not, ◌&&◌, ◌==◌, ◌≡◌, refl, ap, arith, map, All,
  find, ok, >>-eq-ok, bail_if-ok, ok-injective, Bool-cases, inl, inr, ==_iff,
}
use entangrid.BTree.Key.{nat_key}
use entangrid.BTree.Set.{contains}
use entangrid.Types.Scheme.{
  SignatureScheme, SignatureComponent, TypedSignature, signature_tag, signature_scheme_eq,
}
use entangrid.Types.Signature.{is_hybrid, check_components, try_hybrid, component_bytes}
use entangrid.Types.Signature.RoundTrip.{IsProper}

abbrev tags : List SignatureComponent → List ℕ
tags components = map (λ x. signature_tag x.scheme) components

-- No component of the list has the tag.
abbrev Without : ℕ → List SignatureComponent → Type 0
Without t components = All (λ x. (signature_tag x.scheme == t) ≡ false) components

-- The components' schemes are different, not hybrid, and none of them is in the list `seen`.
abbrev AreNew : List ℕ → List SignatureComponent → Type 0
AreNew seen [] = Unit
AreNew seen (x ∷ xs) =
    (is_hybrid x.scheme ≡ false)
    × (contains seen (signature_tag x.scheme) ≡ false)
    × AreNew (signature_tag x.scheme ∷ seen) xs

check_components-AreNew :
    (seen : List ℕ) (xs : List SignatureComponent)
    → check_components seen xs ≡ ok tt
    → AreNew seen xs
unfolding check_components
check_components-AreNew seen [] h = tt
check_components-AreNew seen (x ∷ xs) h =
    let (h1, next) = >>-eq-ok _ _ h in
    let (plain, new) = >>-eq-ok _ _ h1 in
    (
      bail_if-ok _ _ plain,
      bail_if-ok _ _ new,
      check_components-AreNew (signature_tag x.scheme ∷ seen) xs next,
    )

-- What is new to a list does not have a scheme of the list.
AreNew-Without :
    (seen : List ℕ) (xs : List SignatureComponent) (t : ℕ)
    → contains seen t ≡ true
    → AreNew seen xs
    → Without t xs
unfolding contains
AreNew-Without seen [] t h n = tt
AreNew-Without seen (x ∷ xs) t h (plain, new, later) =
    let other : (signature_tag x.scheme == t) ≡ false =
      elim (Bool-cases (signature_tag x.scheme == t)) [
        | inl same ↦
            let e = (==_iff (signature_tag x.scheme) t).0 same in
            absurd (ground (arith, h, new, ap (λ z. contains seen z) e))
        | inr differs ↦ differs
      ] in
    (other, AreNew-Without (signature_tag x.scheme ∷ seen) xs t (ground (arith, h)) later)

-- The first component with a scheme.
abbrev component_of : List SignatureComponent → SignatureScheme → Option SignatureComponent
component_of xs scheme = find (λ y. signature_scheme_eq y.scheme scheme) xs

find-tail :
    (x : SignatureComponent) (xs zs : List SignatureComponent)
    → Without (signature_tag x.scheme) zs
    → All (λ z. component_of xs z.scheme ≡ some z) zs
    → All (λ z. component_of (x ∷ xs) z.scheme ≡ some z) zs
find-tail x xs [] h k = tt
find-tail x xs (z ∷ zs) (h, hs) (k, ks) =
    let other : (signature_tag x.scheme == signature_tag z.scheme) ≡ false = ground (arith, h) in
    (rw other k, find-tail x xs zs hs ks)

find-each :
    (seen : List ℕ) (xs : List SignatureComponent)
    → AreNew seen xs
    → All (λ z. component_of xs z.scheme ≡ some z) xs
unfolding contains
find-each seen [] h = tt
find-each seen (x ∷ xs) (plain, new, later) =
    let here = (==_iff (signature_tag x.scheme) (signature_tag x.scheme)).1 refl in
    let without =
      AreNew-Without (signature_tag x.scheme ∷ seen) xs (signature_tag x.scheme)
        (ground (arith, here)) later in
    (rw here refl, find-tail x xs xs without (find-each (signature_tag x.scheme ∷ seen) xs later))

each-bytes :
    (s : TypedSignature) (zs : List SignatureComponent)
    → is_hybrid s.scheme ≡ true
    → All (λ z. component_of s.components z.scheme ≡ some z) zs
    → All (λ z. component_bytes s z.scheme ≡ some z.bytes) zs
unfolding component_bytes
each-bytes s [] h k = tt
each-bytes s (z ∷ zs) h (k, ks) =
    let off : (signature_scheme_eq s.scheme z.scheme && not (is_hybrid s.scheme)) ≡ false =
      ground (arith, h) in
    (rw (component_bytes, off, k) refl, each-bytes s zs h ks)

abbrev hybrid_of : List SignatureComponent → TypedSignature
hybrid_of components = record {
  scheme = SignatureScheme.hybrid;
  bytes = [];
  components = components;
}

hybrid-IsProper : (components : List SignatureComponent) → IsProper (hybrid_of components)
hybrid-IsProper components = record { no_bytes = λ k. refl; no_components = λ k. absurd (cc k) }

-- Components that `try_hybrid` accepts make a signature that keeps all of them, has no bytes of its
-- own, and answers each component's scheme with that component's bytes.
pub try_hybrid-finds :
    (components : List SignatureComponent) {s : TypedSignature}
    → try_hybrid components ≡ ok s
    → (s.components ≡ components)
      × IsProper s
      × All (λ x. component_bytes s x.scheme ≡ some x.bytes) components
unfolding try_hybrid
try_hybrid-finds components {s} h =
    let (h1, made) = >>-eq-ok _ _ h in
    let (filled, checked) = >>-eq-ok _ _ h1 in
    let new = check_components-AreNew [] components checked in
    let found = find-each [] components new in
    let t = hybrid_of components in
    let s_is : t ≡ s = ok-injective made in
    rw (← s_is) (refl, hybrid-IsProper components, each-bytes t components refl found)
