-- ===== src/Condition.antt =====
-- The conditions of an instruction: include/Condition.h and emulator/src/Condition.c.
use Prim.Native.String.{String}
use zlvm.Prelude.{ℕ, List, [], ◌∷◌, Option, none, some, get_elem?}

pub data Condition : Type 0 where
  unconditional zero_set zero_clear negative_set negative_clear : Condition
  overflow_set overflow_clear carry_set carry_clear signed_set signed_clear : Condition
  unsigned_higher unsigned_lower_or_same less less_or_equals greater greater_or_equals : Condition

-- In the order of the enumeration.
abbrev pub conditions : List Condition
conditions =
    unconditional ∷ zero_set ∷ zero_clear ∷ negative_set ∷ negative_clear ∷ overflow_set
    ∷ overflow_clear ∷ carry_set ∷ carry_clear ∷ signed_set ∷ signed_clear ∷ unsigned_higher
    ∷ unsigned_lower_or_same ∷ less ∷ less_or_equals ∷ greater ∷ greater_or_equals ∷ []

-- C_TOTAL
abbrev pub condition_total : ℕ
condition_total = 17

-- The named condition with a value, for a `switch`; `none` is the default case.
unfoldable pub condition_of : ℕ → Option Condition
unfolding get_elem?
condition_of n = get_elem? conditions n

condition_name : Condition → String
condition_name unconditional = "un"
condition_name zero_set = "zs"
condition_name zero_clear = "zc"
condition_name negative_set = "ns"
condition_name negative_clear = "nc"
condition_name overflow_set = "vs"
condition_name overflow_clear = "vc"
condition_name carry_set = "cs"
condition_name carry_clear = "cc"
condition_name signed_set = "ss"
condition_name signed_clear = "sc"
condition_name unsigned_higher = "uh"
condition_name unsigned_lower_or_same = "ul"
condition_name less = "lt"
condition_name less_or_equals = "le"
condition_name greater = "gt"
condition_name greater_or_equals = "ge"

unfoldable pub condition_to_string : ℕ → String
unfolding condition_name condition_of
condition_to_string n = elim (condition_of n) [ none ↦ "ERROR" | some c ↦ condition_name c ]
