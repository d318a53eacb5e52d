-- ===== src/Types/Scheme.antt =====
-- Signature and key schemes, and the values that carry one or several of them.
use entangrid.Prelude.{ℕ, List, [], ◌∷◌, Bool, true, false, ◌==◌, ◌&&◌}

abbrev pub Bytes : Type 0
Bytes = List ℕ

-- `Vec<u8>` equality
abbrev pub bytes_eq : Bytes → Bytes → Bool
bytes_eq [] [] = true
bytes_eq (a ∷ left) (b ∷ right) = let rest = bytes_eq left right in (a == b) && rest
bytes_eq _ _ = false

pub data SignatureScheme : Type 0 where
  dev_deterministic ed25519 ml_dsa hybrid : SignatureScheme

pub data PublicKeyScheme : Type 0 where
  dev_deterministic ed25519 ml_dsa hybrid : PublicKeyScheme

pub data SessionKeyScheme : Type 0 where
  dev_deterministic ml_kem hybrid : SessionKeyScheme

-- The derived `PartialEq` of the three.
abbrev pub signature_tag : SignatureScheme → ℕ
signature_tag SignatureScheme.dev_deterministic = 0
signature_tag SignatureScheme.ed25519 = 1
signature_tag SignatureScheme.ml_dsa = 2
signature_tag SignatureScheme.hybrid = 3

abbrev pub signature_scheme_eq : SignatureScheme → SignatureScheme → Bool
signature_scheme_eq a b = signature_tag a == signature_tag b

abbrev pub public_key_tag : PublicKeyScheme → ℕ
public_key_tag PublicKeyScheme.dev_deterministic = 0
public_key_tag PublicKeyScheme.ed25519 = 1
public_key_tag PublicKeyScheme.ml_dsa = 2
public_key_tag PublicKeyScheme.hybrid = 3

abbrev pub public_key_scheme_eq : PublicKeyScheme → PublicKeyScheme → Bool
public_key_scheme_eq a b = public_key_tag a == public_key_tag b

abbrev pub session_key_tag : SessionKeyScheme → ℕ
session_key_tag SessionKeyScheme.dev_deterministic = 0
session_key_tag SessionKeyScheme.ml_kem = 1
session_key_tag SessionKeyScheme.hybrid = 2

abbrev pub session_key_scheme_eq : SessionKeyScheme → SessionKeyScheme → Bool
session_key_scheme_eq a b = session_key_tag a == session_key_tag b

pub record SignatureComponent : Type 0 where
  pub scheme : SignatureScheme
  pub bytes : Bytes

pub record TypedSignature : Type 0 where
  pub scheme : SignatureScheme
  pub bytes : Bytes
  pub components : List SignatureComponent

pub record PublicIdentityComponent : Type 0 where
  pub scheme : PublicKeyScheme
  pub bytes : Bytes

pub record PublicIdentity : Type 0 where
  pub scheme : PublicKeyScheme
  pub bytes : Bytes
  pub components : List PublicIdentityComponent

pub record SessionPublicIdentityComponent : Type 0 where
  pub scheme : SessionKeyScheme
  pub bytes : Bytes

pub record SessionPublicIdentity : Type 0 where
  pub scheme : SessionKeyScheme
  pub bytes : Bytes
  pub components : List SessionPublicIdentityComponent

unfoldable pub components_eq : List SignatureComponent → List SignatureComponent → Bool
components_eq [] [] = true
components_eq (a ∷ left) (b ∷ right) =
    let rest = components_eq left right in
    signature_scheme_eq a.scheme b.scheme && bytes_eq a.bytes b.bytes && rest
components_eq _ _ = false

-- The derived `PartialEq` of `TypedSignature`.
unfoldable pub signature_eq : TypedSignature → TypedSignature → Bool
unfolding components_eq
signature_eq a b =
    signature_scheme_eq a.scheme b.scheme
    && bytes_eq a.bytes b.bytes
    && components_eq a.components b.components

-- `TypedSignature::default()`
abbrev pub default_signature : TypedSignature
default_signature = record {
  scheme = SignatureScheme.dev_deterministic;
  bytes = [];
  components = [];
}
