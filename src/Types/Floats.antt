-- ===== src/Types/Floats.antt =====
-- `f64` values as bit patterns, with the operations of the hardware as a parameter.
use entangrid.Prelude.{ℕ, Bool, if◌then◌else◌}
use entangrid.Types.Records.{F64, ServiceScoreWeights}

pub record Floats : Type 0 where
  pub of_u64 : ℕ → F64
  pub add : F64 → F64 → F64
  pub sub : F64 → F64 → F64
  pub mul : F64 → F64 → F64
  pub div : F64 → F64 → F64
  pub lt : F64 → F64 → Bool
  pub le : F64 → F64 → Bool
  pub eq : F64 → F64 → Bool

-- 0.0 and 1.0
abbrev pub f64_zero : F64
f64_zero = 0

abbrev pub f64_one : F64
f64_one = 0x3FF0000000000000

-- `clamp(0.0, 1.0)`
unfoldable pub clamp_unit : Floats → F64 → F64
clamp_unit f x = if f.lt x f64_zero then f64_zero else if f.lt f64_one x then f64_one else x

-- 0.25, 0.50, 0.25 and 1.0
abbrev pub default_service_score_weights : ServiceScoreWeights
default_service_score_weights = record {
  uptime_weight = 0x3FD0000000000000;
  delivery_weight = 0x3FE0000000000000;
  diversity_weight = 0x3FD0000000000000;
  penalty_weight = 0x3FF0000000000000;
}
