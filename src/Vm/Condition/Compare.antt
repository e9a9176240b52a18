-- ===== src/Vm/Condition/Compare.antt =====
-- emulator/src/VirtualMachineInternal.c: the conditions after a comparison, against the order of
-- the operands. CMPR and CMPI subtract, CMPSR and CMPSI subtract as signed words.
use zlvm.Prelude.{
  ℕ, ◌-◌, ◌^◌, ◌≡◌, ◌∙◌, refl, arith, Bool, not, true, false, xor, ◌||◌, to_word, ltb, leb, ◌==◌,
  IsWord,
}
use zlvm.Prelude.Int.{ℤ, ◌≤ℤ◌, pos, negsuc, signed, ltb_ℤ, ◌-ℤ◌, wrap}
use zlvm.Condition.{condition_of}
use zlvm.Alu.Signed.{IsSword, signed-IsSword}
use zlvm.Alu.{
  out_of_sword, op_sub, op_ssub, alu_compute, alu_set_flags, is_division, operation_result,
  is_signed, operation_code, unsigned_carry, signed_overflow,
}
use zlvm.Vm.{VirtualMachine}
use zlvm.Vm.Condition.{test_condition, vm_check_condition, vm_do_operation}

-- The condition codes that read a comparison, by their values in include/Condition.h.
abbrev holds : VirtualMachine → ℕ → Bool
holds vm condition = (vm_check_condition vm condition).0

-- After an unsigned comparison of words `a` and `b`: `zs` (1) holds exactly when they are equal,
-- `zc` (2) when they differ, `cs` (7) when a ≥ b, `cc` (8) when a < b, `uh` (11) when a > b and
-- `ul` (12) when a ≤ b.
pub unsigned_comparison :
    (vm : VirtualMachine) (a b : ℕ)
    → IsWord a
    → IsWord b
    → let vm' = vm_do_operation vm op_sub a b in
      (holds vm' 1 ≡ a == b)
      × (holds vm' 2 ≡ not (a == b))
      × (holds vm' 7 ≡ leb b a)
      × (holds vm' 8 ≡ ltb a b)
      × (holds vm' 11 ≡ ltb b a)
      × (holds vm' 12 ≡ leb a b)
unfolding vm_check_condition condition_of vm_do_operation test_condition alu_compute alu_set_flags
    is_division operation_result is_signed operation_code unsigned_carry
unsigned_comparison vm a b p q =
    (ground arith, ground arith, ground arith, ground arith, ground arith, ground arith)

-- Sign and overflow together tell the sign of the exact difference.
sign_lem :
    (i : ℤ)
    → negsuc (2 ^ 32 - 1) ≤ℤ i
    → i ≤ℤ pos (2 ^ 32 - 1)
    → xor (ltb_ℤ (signed (to_word (wrap i))) (pos 0)) (out_of_sword i) ≡ ltb_ℤ i (pos 0)
unfolding xor
sign_lem (pos n) p q = ground arith
sign_lem (negsuc n) p q = ground arith

difference_sign :
    (x y : ℤ)
    → IsSword x
    → IsSword y
    → (negsuc (2 ^ 32 - 1) ≤ℤ x -ℤ y)
      × (x -ℤ y ≤ℤ pos (2 ^ 32 - 1))
      × (ltb_ℤ (x -ℤ y) (pos 0) ≡ ltb_ℤ x y)
unfolding ◌-ℤ◌
difference_sign x y p q = ground arith

less_lem :
    (x y : ℤ)
    → IsSword x
    → IsSword y
    → xor (ltb_ℤ (signed (to_word (wrap (x -ℤ y)))) (pos 0)) (out_of_sword (x -ℤ y)) ≡ ltb_ℤ x y
less_lem x y p q = let (low, high, e) = difference_sign x y p q in sign_lem (x -ℤ y) low high ∙ e

equal_lem : (a b : ℕ) → IsWord a → IsWord b → to_word (wrap (signed a -ℤ signed b)) == 0 ≡ a == b
unfolding ◌-ℤ◌
equal_lem a b p q = ground arith

signed_order :
    (a b : ℕ)
    → IsWord a
    → IsWord b
    → (a == b || ltb_ℤ (signed a) (signed b)) ≡ not (ltb_ℤ (signed b) (signed a))
signed_order a b p q = ground arith

not_not : (b : Bool) → not (not b) ≡ b
not_not true = refl
not_not false = refl

-- After a signed comparison of words: `zs` (1) holds exactly when they are equal, and `lt` (13),
-- `le` (14), `gt` (15) and `ge` (16) hold exactly when the signed readings are so ordered.
pub signed_comparison :
    (vm : VirtualMachine) (a b : ℕ)
    → IsWord a
    → IsWord b
    → let vm' = vm_do_operation vm op_ssub a b in
      (holds vm' 1 ≡ a == b)
      × (holds vm' 13 ≡ ltb_ℤ (signed a) (signed b))
      × (holds vm' 14 ≡ not (ltb_ℤ (signed b) (signed a)))
      × (holds vm' 15 ≡ ltb_ℤ (signed b) (signed a))
      × (holds vm' 16 ≡ not (ltb_ℤ (signed a) (signed b)))
unfolding vm_check_condition condition_of vm_do_operation test_condition alu_compute alu_set_flags
    is_division operation_result is_signed operation_code signed_overflow
signed_comparison vm a b p q =
    let less = less_lem (signed a) (signed b) (signed-IsSword a p) (signed-IsSword b q) in
    rw (equal_lem a b p q, less, signed_order a b p q) (refl, refl, refl, not_not _, refl)
