-- ===== src/Types/Signature/RoundTrip.antt =====
-- What is written as text or in binary form is read back.
use entangrid.Prelude.{
  List, [], ◌∷◌, true, false, ◌≡◌, refl, sym, arith, length, Result, ok, >>=-eq-ok, ok-injective,
  Bool-cases, inl, inr, ==_iff, if◌then◌else◌,
}
use entangrid.Types.Scheme.{Bytes, SignatureScheme, SignatureComponent, TypedSignature}
use entangrid.Types.Signature.{
  is_hybrid, serialize_fields, visit_map, finish_map, nothing_visited, Bincode,
  BinaryTypedSignature, serialize_binary, deserialize_binary,
}

fields_of :
    (scheme : SignatureScheme) (bytes : Bytes) (components : List SignatureComponent)
    → visit_map nothing_visited
        (serialize_fields (record { scheme = scheme; bytes = bytes; components = components }))
      ≡ ok (record { scheme = scheme; bytes = bytes; components = components })
unfolding visit_map serialize_fields finish_map
fields_of scheme bytes [] = refl
fields_of scheme bytes (component ∷ components) = refl

-- Every signature that is written as text is read back as it was.
pub visit_map-serialize_fields :
    (s : TypedSignature) → visit_map nothing_visited (serialize_fields s) ≡ ok s
visit_map-serialize_fields s = fields_of s.scheme s.bytes s.components

-- What `decode` documents: it reads back what `encode` wrote, and consumes all of it.
pub record IsLossless (b : Bincode) : Type 0 where
  pub decodes :
      (components : List SignatureComponent) (bytes : Bytes)
      → b.encode components ≡ ok bytes
      → b.decode bytes ≡ ok (components, length bytes)

-- A signature with components and no bytes of its own, or the other way round.
pub record IsProper (s : TypedSignature) : Type 0 where
  pub no_bytes : is_hybrid s.scheme ≡ true → s.bytes ≡ []
  pub no_components : is_hybrid s.scheme ≡ false → s.components ≡ []

hybrid-only : (scheme : SignatureScheme) → is_hybrid scheme ≡ true → scheme ≡ SignatureScheme.hybrid
hybrid-only scheme h = ground arith

-- If `bincode` reads back what it writes, a signature that has its bytes or its components by its
-- scheme and that is written in binary form is read back as it was.
pub deserialize_binary-serialize_binary :
    (b : Bincode) (s : TypedSignature) {raw : BinaryTypedSignature}
    → IsLossless b
    → IsProper s
    → serialize_binary b s ≡ ok raw
    → deserialize_binary b raw ≡ ok s
unfolding serialize_binary deserialize_binary
deserialize_binary-serialize_binary b s {raw} lossless proper h =
    let chosen : Result Bytes = if is_hybrid s.scheme then b.encode s.components else ok s.bytes in
    let (payload, written, made) = >>=-eq-ok chosen _ h in
    let raw_is = ok-injective made in
    elim (Bool-cases (is_hybrid s.scheme)) [
      | inl hybrid ↦
          let encoded : b.encode s.components ≡ ok payload = rw hybrid at written in
          let decoded = lossless.decodes s.components payload encoded in
          let all_read = (==_iff (length payload) (length payload)).1 refl in
          let named = hybrid-only s.scheme hybrid in
          let empty = proper.no_bytes hybrid in
          rw (← raw_is, deserialize_binary, hybrid, decoded, all_read)
            λ i.
              ok (record { scheme = sym named i; bytes = sym empty i; components = s.components })
      | inr single ↦
          let bytes_are : s.bytes ≡ payload = ok-injective (rw single at written) in
          let empty = proper.no_components single in
          rw (← raw_is, deserialize_binary, single)
            λ i.
              ok (record { scheme = s.scheme; bytes = sym bytes_are i; components = sym empty i })
    ]
