-- ===== src/Tests/TypeRuns.antt =====
-- Hybrid signatures and their two forms.
use entangrid.Prelude.{◌≡◌, refl, List, [], ◌∷◌, some, Result, ok, err, length, All, arith}
use entangrid.BTree.Key.{nat_key}
use entangrid.BTree.Set.{contains}
use entangrid.Types.Scheme.{Bytes, SignatureScheme, SignatureComponent, TypedSignature}
use entangrid.Types.Signature.{
  try_hybrid, component_bytes, serialize_fields, visit_map, nothing_visited, Bincode,
  serialize_binary, deserialize_binary,
}
use entangrid.Types.Signature.RoundTrip.{
  IsLossless, IsProper, visit_map-serialize_fields, deserialize_binary-serialize_binary,
}
use entangrid.Types.Signature.Hybrid.{try_hybrid-finds}

abbrev classic : SignatureComponent
classic = record { scheme = SignatureScheme.ed25519; bytes = 1 ∷ 2 ∷ [] }

abbrev modern : SignatureComponent
modern = record { scheme = SignatureScheme.ml_dsa; bytes = 3 ∷ [] }

abbrev both : TypedSignature
both = record { scheme = SignatureScheme.hybrid; bytes = []; components = classic ∷ modern ∷ [] }

run_try : try_hybrid (classic ∷ modern ∷ []) ≡ ok both
unfolding try_hybrid contains
run_try = refl

try_hybrid-finds_example :
    (both.components ≡ classic ∷ modern ∷ [])
    × IsProper both
    × All (λ x. component_bytes both x.scheme ≡ some x.bytes) (classic ∷ modern ∷ [])
try_hybrid-finds_example = try_hybrid-finds (classic ∷ modern ∷ []) run_try

visit_map-serialize_fields_example : visit_map nothing_visited (serialize_fields both) ≡ ok both
visit_map-serialize_fields_example = visit_map-serialize_fields both

-- A format for a single `ed25519` component, which is its bytes.
abbrev encode_one : List SignatureComponent → Result Bytes
encode_one [] = err "no component"
encode_one (x ∷ y ∷ rest) = err "several components"
encode_one (x ∷ []) = elim x.scheme [
  | SignatureScheme.ed25519 ↦ ok x.bytes
  | _ ↦ err "another scheme"
]

abbrev single_format : Bincode
single_format = record {
  encode = λ components. encode_one components;
  decode =
      λ bytes. ok (record { scheme = SignatureScheme.ed25519; bytes = bytes } ∷ [], length bytes);
}

decodes_one :
    (components : List SignatureComponent) (bytes : Bytes)
    → encode_one components ≡ ok bytes
    → single_format.decode bytes ≡ ok (components, length bytes)
decodes_one [] bytes h = cc
decodes_one (x ∷ y ∷ rest) bytes h = cc
decodes_one (x ∷ []) bytes h = ground arith

single_format-IsLossless : IsLossless single_format
single_format-IsLossless = record { decodes = λ cs bytes h. decodes_one cs bytes h }

abbrev one : TypedSignature
one = record { scheme = SignatureScheme.hybrid; bytes = []; components = classic ∷ [] }

one-IsProper : IsProper one
one-IsProper = record { no_bytes = λ h. refl; no_components = λ h. absurd (ground (arith, h)) }

run_binary :
    serialize_binary single_format one
    ≡ ok (record { scheme = SignatureScheme.hybrid; bytes = 1 ∷ 2 ∷ [] })
unfolding serialize_binary
run_binary = refl

deserialize_binary-serialize_binary_example :
    deserialize_binary single_format
      (record { scheme = SignatureScheme.hybrid; bytes = 1 ∷ 2 ∷ [] })
    ≡ ok one
deserialize_binary-serialize_binary_example =
    deserialize_binary-serialize_binary single_format one single_format-IsLossless one-IsProper
      run_binary
