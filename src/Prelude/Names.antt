-- ===== src/Prelude/Names.antt =====
-- `strcmp` on texts that are lists of bytes.
use Prim.Native.Nat.{ℕ}
use mathlib.Core.Path.{◌≡◌, refl}
use mathlib.Core.Bool.{Bool, true, false, ◌&&◌}
use mathlib.Core.List.{List, [], ◌∷◌}
use native.Mathlib.Omega.{arith}
use zlvm.Prelude.Tests.{◌==◌}

-- `strcmp(a, b) == 0`
unfoldable pub same_name : List ℕ → List ℕ → Bool
same_name [] [] = true
same_name [] (b ∷ bs) = false
same_name (a ∷ xs) [] = false
same_name (a ∷ xs) (b ∷ bs) = let rest = same_name xs bs in a == b && rest

pub same_name_refl : (xs : List ℕ) → same_name xs xs ≡ true
unfolding same_name
same_name_refl [] = refl
same_name_refl (x ∷ xs) = ground (arith, same_name_refl xs)

pub same_name_eq : (xs ys : List ℕ) → same_name xs ys ≡ true → xs ≡ ys
unfolding same_name
same_name_eq [] [] h = refl
same_name_eq [] (y ∷ ys) h = absurd cc
same_name_eq (x ∷ xs) [] h = absurd cc
same_name_eq (x ∷ xs) (y ∷ ys) h = ground (arith, same_name_eq xs ys)
