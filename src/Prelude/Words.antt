-- ===== src/Prelude/Words.antt =====
-- The fixed widths of include/Types.h: casts, shifts and the largest values.
use Prim.Native.Nat.{ℕ, ◌-◌, ◌*◌, ◌/◌, ◌%◌, ◌^◌, ◌<◌}

abbrev pub to_byte : ℕ → ℕ
to_byte n = n % 2 ^ 8

abbrev pub to_hword : ℕ → ℕ
to_hword n = n % 2 ^ 16

abbrev pub to_word : ℕ → ℕ
to_word n = n % 2 ^ 32

abbrev pub to_dword : ℕ → ℕ
to_dword n = n % 2 ^ 64

abbrev pub byte_max : ℕ
byte_max = 2 ^ 8 - 1

abbrev pub hword_max : ℕ
hword_max = 2 ^ 16 - 1

abbrev pub word_max : ℕ
word_max = 2 ^ 32 - 1

-- `size_t` has 64 bits.
abbrev pub size_t_max : ℕ
size_t_max = 2 ^ 64 - 1

infixl 75 ◌<<<◌ ◌>>>◌
abbrev pub ◌<<<◌ : ℕ → ℕ → ℕ
x <<< k = x * 2 ^ k

abbrev pub ◌>>>◌ : ℕ → ℕ → ℕ
x >>> k = x / 2 ^ k

abbrev pub IsByte : ℕ → Type 0
IsByte n = n < 2 ^ 8

abbrev pub IsWord : ℕ → Type 0
IsWord n = n < 2 ^ 32
