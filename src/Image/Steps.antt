-- ===== src/Image/Steps.antt =====
-- What follows from an accepted step of zl_image_decode (emulator/src/Image.c).
use zlvm.Prelude.{
  ℕ, zero, suc, ◌+◌, ◌≡◌, refl, ap, arith, List, [], ◌∷◌, get_or, length, All, IsByte, IsWord,
}
use zlvm.Bytes.Laws.{get_bytes-le_value, le_value-lt}
use zlvm.Image.{get32}
use zlvm.Outcome.{accepted, and_then-accepted}
use zlvm.Image.Decode.{Decoded, decode_table, slice}

-- Every entry of a decoded table has what one accepted record has.
pub decode_table-All {ℓ κ} :
    {A : Type ℓ}
    → (P : A → Type κ) (f : ℕ → Decoded A) → ((index : ℕ) (x : A) → f index ≡ accepted x → P x)
    → (left index : ℕ) (xs : List A) → decode_table f left index ≡ accepted xs
    → All P xs × (length xs ≡ left)
unfolding decode_table
decode_table-All P f step zero index [] h = (tt, refl)
decode_table-All P f step zero index (x ∷ xs) h = absurd cc
decode_table-All P f step (suc left) index xs h =
    let (x, first, h') = and_then-accepted (f index) _ h in
    let (rest, others, h'') = and_then-accepted (decode_table f left (index + 1)) _ h' in
    let (all, len) = decode_table-All P f step left (index + 1) rest others in
    let same : xs ≡ x ∷ rest = cc in rw same ((step index x first, all), ap suc len)

pub get32-IsWord :
    (input : List ℕ) (offset : ℕ)
    → ((j : ℕ) → IsByte (get_or input j 0))
    → IsWord (get32 input offset)
unfolding get32
get32-IsWord input offset bytes = ground (
  arith,
  get_bytes-le_value 4 0 input offset 0 bytes (omega arith),
  le_value-lt 4 (λ j. get_or input j 0) offset bytes,
)

pub slice-All :
    (n : ℕ) (input : List ℕ) (offset : ℕ)
    → ((j : ℕ) → IsByte (get_or input j 0))
    → All IsByte (slice n input offset) × (length (slice n input offset) ≡ n)
unfolding slice
slice-All zero input offset bytes = (tt, refl)
slice-All (suc n) input offset bytes =
    let (all, len) = slice-All n input (offset + 1) bytes in ((bytes offset, all), ap suc len)
