-- ===== src/Asm/Text.antt =====
-- Texts as lists of bytes: what the assembler uses of ctype.h, in the C locale, and the texts of
-- its tables.
use Prim.Native.Char.{char, code, IsScalar}
use Prim.Native.String.{String}
use zlvm.Prelude.{
  ℕ, ◌+◌, ◌-◌, ◌%◌, ◌^◌, Bool, ◌&&◌, ◌||◌, List, [], ◌∷◌, leb, ◌==◌, if◌then◌else◌, arith,
}

-- A literal's bytes.
abbrev pub codes : String → List ℕ
codes String.[] = []
codes (String.◌∷◌ c s) = code c ∷ codes s

scalar : (c : ℕ) → IsScalar (c % 2 ^ 8)
scalar c = ground arith

-- Each byte as the character with its number: two texts are equal when their bytes are.
unfoldable pub text_of : List ℕ → String
unfolding scalar
text_of [] = String.[]
text_of (c ∷ cs) = String.◌∷◌ (char (c % 2 ^ 8) (scalar c)) (text_of cs)

-- isspace, isdigit, isalpha, tolower and toupper
unfoldable pub isspace : ℕ → Bool
isspace c = (leb 9 c && leb c 13) || c == b' '

unfoldable pub isdigit : ℕ → Bool
isdigit c = leb b'0' c && leb c b'9'

unfoldable pub tolower : ℕ → ℕ
tolower c = if leb b'A' c && leb c b'Z' then c + 32 else c

unfoldable pub toupper : ℕ → ℕ
toupper c = if leb b'a' c && leb c b'z' then c - 32 else c
