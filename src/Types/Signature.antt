-- ===== src/Types/Signature.antt =====
-- `TypedSignature`: its constructors and lookups, and its two serde forms. The text form is the
-- list of the fields of the map, the binary form is a scheme and bytes; `bincode`, which encodes
-- the components of a hybrid signature, is a parameter.
pub mod Hybrid
pub mod RoundTrip
use entangrid.Prelude.{
  ℕ, List, [], ◌∷◌, Option, none, some, Bool, true, false, not, ◌&&◌, ◌==◌, is_empty, is_some, find,
  length, map_option, unwrap_or, Result, ok, err, ◌>>=◌, ◌>>◌, bail_if, if◌then◌else◌,
}
use entangrid.BTree.Key.{nat_key}
use entangrid.BTree.Set.{contains}
use entangrid.Types.Scheme.{
  Bytes, SignatureScheme, SignatureComponent, TypedSignature, signature_tag, signature_scheme_eq,
}

abbrev pub is_hybrid : SignatureScheme → Bool
is_hybrid scheme = signature_scheme_eq scheme SignatureScheme.hybrid

-- The loop of `try_hybrid`, with the schemes that it has met.
unfoldable pub check_components : List ℕ → List SignatureComponent → Result (Unit {0})
check_components seen [] = ok tt
check_components seen (component ∷ rest) =
    let next = check_components (signature_tag component.scheme ∷ seen) rest in
    bail_if (is_hybrid component.scheme) "hybrid signature cannot contain a nested hybrid component"
    >> bail_if (contains seen (signature_tag component.scheme))
        "hybrid signature cannot contain duplicate component schemes"
    >> next

unfoldable pub try_hybrid : List SignatureComponent → Result TypedSignature
unfolding check_components
try_hybrid components =
    bail_if (is_empty components) "hybrid signature requires at least one component"
    >> check_components [] components
    >> ok (record { scheme = SignatureScheme.hybrid; bytes = []; components = components })

unfoldable pub as_single_bytes : TypedSignature → Option Bytes
as_single_bytes s = if is_hybrid s.scheme then none else some s.bytes

unfoldable pub component_bytes : TypedSignature → SignatureScheme → Option Bytes
component_bytes s scheme =
    if signature_scheme_eq s.scheme scheme && not (is_hybrid s.scheme)
    then some s.bytes
    else map_option (λ component. component.bytes)
        (find (λ component. signature_scheme_eq component.scheme scheme) s.components)

-- A field of the text form, with its value.
pub data Field : Type 0 where
  scheme_field : SignatureScheme → Field
  bytes_field : Bytes → Field
  components_field : List SignatureComponent → Field

-- `serialize` in a human readable format.
unfoldable pub serialize_fields : TypedSignature → List Field
serialize_fields s =
    Field.scheme_field s.scheme
    ∷ Field.bytes_field s.bytes
    ∷ (if is_empty s.components then [] else Field.components_field s.components ∷ [])

-- The variables of `visit_map`.
pub record Visited : Type 0 where
  pub scheme : Option SignatureScheme
  pub bytes : Option Bytes
  pub components : Option (List SignatureComponent)

abbrev pub nothing_visited : Visited
nothing_visited = record { scheme = none; bytes = none; components = none }

-- The end of `visit_map`.
unfoldable pub finish_map : Visited → Result TypedSignature
finish_map visited = elim visited.scheme [
  | none ↦ err "missing field `scheme`"
  | some scheme ↦ elim visited.bytes [
    | none ↦ err "missing field `bytes`"
    | some bytes ↦
        ok (record { scheme = scheme; bytes = bytes; components = unwrap_or visited.components [] })
  ]
]

-- `visit_map`: every field at most once, in any order.
unfoldable pub visit_map : Visited → List Field → Result TypedSignature
unfolding finish_map
visit_map visited [] = finish_map visited
visit_map visited (Field.scheme_field scheme ∷ rest) =
    let next = visit_map (record visited { scheme = some scheme }) rest in
    bail_if (is_some visited.scheme) "duplicate field `scheme`" >> next
visit_map visited (Field.bytes_field bytes ∷ rest) =
    let next = visit_map (record visited { bytes = some bytes }) rest in
    bail_if (is_some visited.bytes) "duplicate field `bytes`" >> next
visit_map visited (Field.components_field components ∷ rest) =
    let next = visit_map (record visited { components = some components }) rest in
    bail_if (is_some visited.components) "duplicate field `components`" >> next

-- `visit_seq`, of the elements that there are.
unfoldable pub visit_seq :
    Option SignatureScheme → Option Bytes → Option (List SignatureComponent) → Result TypedSignature
visit_seq none bytes components = err "invalid length 0"
visit_seq (some scheme) none components = err "invalid length 1"
visit_seq (some scheme) (some bytes) components =
    ok (record { scheme = scheme; bytes = bytes; components = unwrap_or components [] })

-- `bincode::serde::encode_to_vec` and `decode_from_slice` on the components: the second one
-- answers with the number of bytes that it has consumed, too.
pub record Bincode : Type 0 where
  pub encode : List SignatureComponent → Result Bytes
  pub decode : Bytes → Result (List SignatureComponent × ℕ)

pub record BinaryTypedSignature : Type 0 where
  pub scheme : SignatureScheme
  pub bytes : Bytes

module _ (b : Bincode) where
  -- `serialize` in a binary format.
  unfoldable pub serialize_binary : TypedSignature → Result BinaryTypedSignature
  serialize_binary s = do
    payload ← if is_hybrid s.scheme then b.encode s.components else ok s.bytes
    ok (record { scheme = s.scheme; bytes = payload })

  -- `deserialize` in a binary format.
  unfoldable pub deserialize_binary : BinaryTypedSignature → Result TypedSignature
  deserialize_binary raw =
      if not (is_hybrid raw.scheme)
      then ok (record { scheme = raw.scheme; bytes = raw.bytes; components = [] })
      else do
        (components, consumed) ← b.decode raw.bytes
        bail_if (not (consumed == length raw.bytes))
            "hybrid signature payload contained trailing bytes"
        ok (record { scheme = SignatureScheme.hybrid; bytes = []; components = components })
