-- ===== src/Sysrepo.antt =====
-- What src/sysrepo_utils takes from the sysrepo library: result codes, values and the iterator over
-- the changes of a transaction. The contents of these are inputs of the model.
pub mod ReadLoop
use ccips_cfgipsec.Base.{
  ℕ, ◌+◌, ◌-◌, ◌%◌, ◌^◌, Bool, true, false, not, Option, none, some, List, [], ◌∷◌, ltb, ◌==◌,
  if◌then◌else◌, Run, ok, fault, null_deref, bad_pointer,
}
use ccips_cfgipsec.Text.{Text}

-- `sr_error_t`, as far as the program names its members
pub data Rc : Type 0 where
  err_ok : Rc
  operation_failed : Rc
  validation_failed : Rc
  not_found : Rc
  internal : Rc

abbrev pub is_ok : Rc → Bool
is_ok err_ok = true
is_ok _ = false

-- `sr_change_oper_t`
pub data Oper : Type 0 where
  created : Oper
  modified : Oper
  deleted : Oper
  moved : Oper

-- The union `sr_val_t.data`, which the program reads by the member it expects, whatever the value's
-- type: its 64 bits, which of a text are the address of its first byte.
pub data Data : Type 0 where
  number : ℕ → Data
  text : ℕ → Text → Data

abbrev bits : Data → ℕ
bits (number n) = n
bits (text a s) = a

-- `data.string_val`, read as a text. An integer there is no address of one.
unfoldable pub string_val : Data → Run Text
string_val (number n) = if n == 0 then fault null_deref else fault bad_pointer
string_val (text a s) = ok s

unfoldable pub bool_val : Data → Bool
bool_val d = not (bits d % 2 ^ 8 == 0)

unfoldable pub uint16_val : Data → ℕ
uint16_val d = bits d % 2 ^ 16

unfoldable pub uint32_val : Data → ℕ
uint32_val d = bits d % 2 ^ 32

unfoldable pub uint64_val : Data → ℕ
uint64_val d = bits d % 2 ^ 64

-- `data.int16_val` assigned to an unsigned int, and `data.int32_val` to an unsigned long.
unfoldable pub int16_val : Data → ℕ
int16_val d = let n = bits d % 2 ^ 16 in if ltb n (2 ^ 15) then n else n + (2 ^ 32 - 2 ^ 16)

unfoldable pub int32_val : Data → ℕ
int32_val d = let n = bits d % 2 ^ 32 in if ltb n (2 ^ 31) then n else n + (2 ^ 64 - 2 ^ 32)

pub record Value : Type 0 where
  pub xpath : Text
  pub val : Data

-- One answer of `sr_get_change_next`; `none` is NULL.
pub record Change : Type 0 where
  pub oper : Oper
  pub old_value : Option Value
  pub new_value : Option Value

-- `if (oper == SR_OP_CREATED) value = new_value; else value = old_value;`
abbrev pub value_of : Change → Option Value
value_of c = elim (c.oper) [ created ↦ c.new_value | _ ↦ c.old_value ]

-- What reading one change into a node comes to: the loop goes on, or it is left with a result code.
pub data Verdict (A : Type 0) : Type 0 where
  go_on : A → Verdict A
  leave : Rc → A → Verdict A
