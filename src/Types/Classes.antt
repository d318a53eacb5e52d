-- ===== src/Types/Classes.antt =====
-- `MessageClass` as a key: the derived order is that of the declaration.
use entangrid.Prelude.{ℕ, ◌≡◌, Bool, Ordering, compare, ◌==◌, arith}
use entangrid.BTree.Key.{Key, IsLawful}
use entangrid.Types.Records.{MessageClass}

abbrev pub class_tag : MessageClass → ℕ
class_tag MessageClass.heartbeat = 0
class_tag MessageClass.transaction = 1
class_tag MessageClass.block = 2

abbrev pub compare_class : MessageClass → MessageClass → Ordering
compare_class a b = compare (class_tag a) (class_tag b)

eq_of_tag : (a b : MessageClass) → class_tag a ≡ class_tag b → a ≡ b
eq_of_tag a b h = ground arith

pub compare_class-IsLawful : IsLawful compare_class
compare_class-IsLawful = record {
  cmp_self = λ a. ground arith;
  eq_of_cmp = λ a b h. eq_of_tag a b (ground arith);
  gt_of_cmp = λ a b h. ground arith;
  lt_of_cmp = λ a b c h k. ground arith;
}

instance abbrev pub class_key : Key MessageClass
class_key = record { cmp = compare_class; lawful = compare_class-IsLawful }

abbrev pub is_heartbeat : MessageClass → Bool
is_heartbeat a = class_tag a == 0
