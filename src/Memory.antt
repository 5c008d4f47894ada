-- ===== src/Memory.antt =====
-- Memory as the virtual machine sees it, and the registers that its functions update through
-- `sp_ptr`, `fp_ptr` and `ip_ptr`; the object layout of src/c_vm/vm_defs.h.
--
-- Memory maps the byte address of an aligned word to the 64-bit word there. A pointer is a byte
-- address and `p[n]` is the word at `p + 8 * n`. C leaves a pointer outside its array undefined, so
-- addresses do not wrap.
mod Write
unfoldable pub use Write.*
use armliving_objects.Base.{ℕ, ◌+◌, ◌-◌, ◌*◌, ◌/◌, ◌%◌, ◌^◌, Bool, true, false, if◌then◌else◌, ◌==◌}

-- The object header, and field `n`: `OBJ_CLASS`, `OBJ_FORMAT`, `OBJ_SIZE`, `OBJ_FIELD`.
abbrev pub obj_class : Memory → ℕ → ℕ
obj_class m obj = m obj

abbrev pub obj_format : Memory → ℕ → ℕ
obj_format m obj = m (obj + 8)

abbrev pub obj_size : Memory → ℕ → ℕ
obj_size m obj = m (obj + 16)

abbrev pub field_address : ℕ → ℕ → ℕ
field_address obj n = obj + 8 * (3 + n)

abbrev pub obj_field : Memory → ℕ → ℕ → ℕ
obj_field m obj n = m (field_address obj n)

abbrev pub format_bytes : ℕ
format_bytes = 2

-- `raise(SIGTRAP)` ends the process: nothing installs a handler.
pub data Outcome {ℓ} (A : Type ℓ) : Type ℓ where
  ok : A → Outcome A
  trap : Outcome A

module _ {ℓ κ} {A : Type ℓ} {B : Type κ} where
  infixl 5 ◌>>=◌
  abbrev pub ◌>>=◌ : Outcome A → (A → Outcome B) → Outcome B
  ok a >>= k = k a
  trap >>= k = trap

-- Memory, the three registers, and the global `smalltalk_stack_limit_low`.
pub record Machine : Type 0 where
  pub mem : Memory
  pub sp : ℕ
  pub fp : ℕ
  pub ip : ℕ
  pub stack_limit_low : ℕ

-- `*--sp = value`
abbrev pub push : ℕ → Machine → Machine
push value vm = record vm { mem = write vm.mem (vm.sp - 8) value; sp = vm.sp - 8 }
