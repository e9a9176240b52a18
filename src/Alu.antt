-- ===== src/Alu.antt =====
-- The arithmetic unit: include/ALU.h and emulator/src/ALU.c. A word is a number below 2 ^ 32, and
-- the wrap of each C operation is written out.
pub mod Range
pub mod Unsigned
pub mod Signed
use zlvm.Prelude.{
  ℕ, ◌+◌, ◌-◌, ◌*◌, ◌/◌, ◌%◌, ◌^◌, bit_and, bit_or, bit_xor, Bool, true, false, ◌&&◌, ◌||◌, Option,
  none, some, ltb, leb, ◌==◌, if◌then◌else◌, to_word, word_max,
}
use zlvm.Prelude.Int.{
  ℤ, pos, negsuc, signed, wrap, ◌+ℤ◌, ◌-ℤ◌, ◌*ℤ◌, ◌/ℤ◌, ◌%ℤ◌, ltb_ℤ, eqb_ℤ, sword_min, sword_max,
}

pub data Operation : Type 0 where
  op_noop op_id op_add op_sub op_mul op_div op_mod : Operation
  op_not op_and op_or op_xor op_nand op_nor op_inc op_dec : Operation
  op_sadd op_ssub op_smul op_sdiv op_smod op_total : Operation

-- The value of the enumerator.
unfoldable pub operation_code : Operation → ℕ
operation_code op_noop = 0
operation_code op_id = 1
operation_code op_add = 2
operation_code op_sub = 3
operation_code op_mul = 4
operation_code op_div = 5
operation_code op_mod = 6
operation_code op_not = 7
operation_code op_and = 8
operation_code op_or = 9
operation_code op_xor = 10
operation_code op_nand = 11
operation_code op_nor = 12
operation_code op_inc = 13
operation_code op_dec = 14
operation_code op_sadd = 15
operation_code op_ssub = 16
operation_code op_smul = 17
operation_code op_sdiv = 18
operation_code op_smod = 19
operation_code op_total = 20

pub record AluFlags : Type 0 where
  pub n : Bool
  pub z : Bool
  pub v : Bool
  pub c : Bool
  pub s : Bool

pub record Alu : Type 0 where
  pub left : ℕ
  pub right : ℕ
  pub result : ℕ
  pub op : Operation
  pub flags : AluFlags

-- `(ALUFlags){0}`
abbrev pub no_flags : AluFlags
no_flags = record { n = false; z = false; v = false; c = false; s = false }

-- `op == OP_DIV || op == OP_MOD || op == OP_SDIV || op == OP_SMOD`
unfoldable pub is_division : Operation → Bool
is_division op_div = true
is_division op_mod = true
is_division op_sdiv = true
is_division op_smod = true
is_division _ = false

-- What the switch of `alu_compute` stores into `result_`; `none` is its default case, which returns.
unfoldable pub operation_result : Operation → ℕ → ℕ → Option ℕ
operation_result op_id l r = some l
operation_result op_add l r = some (to_word (l + r))
operation_result op_sub l r = some (to_word (l + 2 ^ 32 - r))
operation_result op_mul l r = some (to_word (l * r))
operation_result op_div l r = some (l / r)
operation_result op_mod l r = some (l % r)
operation_result op_not l r = some (word_max - l)
operation_result op_and l r = some (bit_and l r)
operation_result op_or l r = some (bit_or l r)
operation_result op_xor l r = some (bit_xor l r)
operation_result op_nand l r = some (word_max - bit_and l r)
operation_result op_nor l r = some (word_max - bit_or l r)
operation_result op_inc l r = some (to_word (l + 1))
operation_result op_dec l r = some (to_word (l + 2 ^ 32 - 1))
operation_result op_sadd l r = some (wrap (signed l +ℤ signed r))
operation_result op_ssub l r = some (wrap (signed l -ℤ signed r))
operation_result op_smul l r = some (wrap (signed l *ℤ signed r))
operation_result op_sdiv l r = some (wrap (signed l /ℤ signed r))
operation_result op_smod l r = some (wrap (signed l %ℤ signed r))
operation_result _ l r = none

-- `result < SWORD_MIN || result > SWORD_MAX`
abbrev pub out_of_sword : ℤ → Bool
out_of_sword i = ltb_ℤ i sword_min || ltb_ℤ sword_max i

-- The switch of `alu_set_signed_flags`, on the two operands as signed words.
unfoldable pub signed_overflow : Operation → ℤ → ℤ → Bool
signed_overflow op_sadd l r = out_of_sword (l +ℤ r)
signed_overflow op_ssub l r = out_of_sword (l -ℤ r)
signed_overflow op_smul l r = out_of_sword (l *ℤ r)
signed_overflow op_sdiv l r = eqb_ℤ l sword_min && eqb_ℤ r (negsuc 0)
signed_overflow _ l r = false

-- The switch of `alu_set_unsigned_flags`. The sums and products are of `dword`s and do not wrap.
unfoldable pub unsigned_carry : Operation → ℕ → ℕ → Bool
unsigned_carry op_add l r = ltb word_max (l + r)
unsigned_carry op_sub l r = leb r l
unsigned_carry op_mul l r = ltb word_max (l * r)
unsigned_carry op_inc l r = l == word_max
unsigned_carry op_dec l r = leb 1 l
unsigned_carry _ l r = false

-- `op >= OP_SADD && op <= OP_SMOD`
unfoldable pub is_signed : Operation → Bool
unfolding operation_code
is_signed op =
    leb (operation_code op_sadd) (operation_code op)
    && leb (operation_code op) (operation_code op_smod)

unfoldable pub alu_set_flags : Alu → Alu
alu_set_flags a = record a {
  flags = record {
    n = ltb_ℤ (signed (to_word a.result)) (pos 0);
    z = to_word a.result == 0;
    v = is_signed a.op && signed_overflow a.op (signed a.left) (signed a.right);
    c = if is_signed a.op then false else unsigned_carry a.op a.left a.right;
    s = is_signed a.op;
  };
}

unfoldable pub alu_compute : Alu → Alu
alu_compute a =
    if is_division a.op && a.right == 0
    then record a { result = 0; flags = no_flags }
    else elim (operation_result a.op a.left a.right) [
      | none ↦ record a { flags = no_flags }
      | some result ↦ alu_set_flags (record a { result = result; flags = no_flags })
    ]

unfoldable pub alu_reset : Alu → Alu
alu_reset a = record { left = 0; right = 0; result = 0; op = op_noop; flags = no_flags }

-- The unit loaded with an operation and its operands, as the machine loads it before `alu_compute`.
abbrev pub loaded : Operation → ℕ → ℕ → Alu
loaded op l r = record { left = l; right = r; result = 0; op = op; flags = no_flags }
