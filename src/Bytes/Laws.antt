-- ===== src/Bytes/Laws.antt =====
-- The byte loops against the number that the bytes stand for.
use native.Mathlib.Nat.{
  div-div-eq-div-mul, add-mul-mod_self_left, mod-eq_of_lt, div-add-mod, mod-lt, one-le-pow,
}
use native.Mathlib.Numerals.{towards_suc}
use zlvm.Prelude.{
  ℕ, zero, suc, ◌+◌, ◌-◌, ◌*◌, ◌/◌, ◌%◌, ◌^◌, ◌≤◌, ◌<◌, bit_or, ◌≡◌, refl, sym, ap, ◌∙◌, arith,
  List, ◌&&◌, ltb, leb, if◌then◌else◌, to_byte, IsByte, ◌<<<◌, ◌>>>◌, length, get_or, set,
  get_or-set, length-set,
}
use zlvm.Prelude.Bits.{bit_or_fields}
use zlvm.Bytes.{put_bytes, get_bytes, le_value}

pub pow_next_byte : (i : ℕ) → 2 ^ ((i + 1) * 8) ≡ 2 ^ 8 * 2 ^ (i * 8)
pow_next_byte i =
    let e : (i + 1) * 8 ≡ i * 8 + 8 = omega arith in rw e (simp towards_suc (omega arith))

-- One round of a reading loop.
pub or_byte :
    (index value b : ℕ)
    → value < 2 ^ (index * 8)
    → IsByte b
    → (bit_or value (b <<< (index * 8)) ≡ value + 2 ^ (index * 8) * b)
      × (value + 2 ^ (index * 8) * b < 2 ^ ((index + 1) * 8))
or_byte index value b p q =
    (omega (arith, bit_or_fields (index * 8) b value p), rw pow_next_byte (grind arith))

-- The reading loop adds the value of the bytes that are left, above what it has.
pub get_bytes-le_value :
    (left index : ℕ) (input : List ℕ) (offset value : ℕ)
    → ((i : ℕ) → IsByte (get_or input i 0))
    → value < 2 ^ (index * 8)
    → get_bytes left index input offset value
      ≡ value + 2 ^ (index * 8) * le_value left (λ i. get_or input i 0) (offset + index)
unfolding get_bytes le_value
get_bytes-le_value zero index input offset value bytes p = omega arith
get_bytes-le_value (suc left) index input offset value bytes p =
    let b = get_or input (offset + index) 0 in
    let (e, lt) = or_byte index value b p (bytes (offset + index)) in
    let rest = le_value left (λ i. get_or input i 0) (offset + index + 1) in
    let assoc : offset + (index + 1) ≡ offset + index + 1 = omega arith in
    rw (e, get_bytes-le_value left (index + 1) input offset _ bytes lt, assoc, pow_next_byte)
      (omega arith)

mod_split : (v n : ℕ) → 0 < n → v % (2 ^ 8 * n) ≡ v % 2 ^ 8 + 2 ^ 8 * (v / 2 ^ 8 % n)
mod_split v n pos =
    let low = v % 2 ^ 8 + 2 ^ 8 * (v / 2 ^ 8 % n) in
    let small : low < 2 ^ 8 * n = omega (arith, mod-lt (v / 2 ^ 8) pos) in
    let whole : v ≡ low + 2 ^ 8 * n * (v / 2 ^ 8 / n) =
      omega (arith, ap (λ (t : ℕ). 2 ^ 8 * t) (div-add-mod (v / 2 ^ 8) n)) in
    ap (λ (t : ℕ). t % (2 ^ 8 * n)) whole
    ∙ add-mul-mod_self_left low (2 ^ 8 * n) (v / 2 ^ 8 / n)
    ∙ mod-eq_of_lt small

shift_next : (v i : ℕ) → v >>> ((i + 1) * 8) ≡ (v / 2 ^ 8) >>> (i * 8)
shift_next v i = rw pow_next_byte (sym (div-div-eq-div-mul v (2 ^ 8) (2 ^ (i * 8))))

-- A number below 2 ^ (count * 8) is the value of its bytes.
pub le_value_digits :
    (count : ℕ) (read : ℕ → ℕ) (offset v : ℕ)
    → ((i : ℕ) → i < count → read (offset + i) ≡ to_byte (v >>> (i * 8)))
    → le_value count read offset ≡ v % 2 ^ (count * 8)
unfolding le_value
le_value_digits zero read offset v h = omega arith
le_value_digits (suc count) read offset v h =
    let next : (i : ℕ) → i < count → read (offset + 1 + i) ≡ to_byte ((v / 2 ^ 8) >>> (i * 8)) =
      λ i p.
        let e : offset + 1 + i ≡ offset + (i + 1) = omega arith in
        rw (e, h (i + 1) (omega arith), shift_next) refl in
    let first : read offset ≡ v % 2 ^ 8 =
      let e : offset ≡ offset + 0 = omega arith in ap read e ∙ h 0 (omega arith) ∙ omega arith in
    let top : suc count ≡ count + 1 = omega arith in
    rw
      (
        first,
        le_value_digits count read (offset + 1) (v / 2 ^ 8) next,
        top,
        pow_next_byte,
        mod_split v (2 ^ (count * 8)) (one-le-pow (count * 8) 2 (omega arith)),
      )
      refl

pub length-put_bytes :
    (left index : ℕ) (output : List ℕ) (offset value : ℕ)
    → length (put_bytes left index output offset value) ≡ length output
unfolding put_bytes
length-put_bytes zero index output offset value = refl
length-put_bytes (suc left) index output offset value =
    length-put_bytes left (index + 1)
      (set output (offset + index) (to_byte (value >>> (index * 8)))) offset value
    ∙ length-set output (offset + index) _

-- A read after the writing loop.
pub get_or-put_bytes :
    (left index : ℕ) (output : List ℕ) (offset value j : ℕ)
    → offset + index + left ≤ length output
    → get_or (put_bytes left index output offset value) j 0 ≡ (
        if leb (offset + index) j && ltb j (offset + index + left)
        then to_byte (value >>> ((j - offset) * 8))
        else get_or output j 0)
unfolding put_bytes
get_or-put_bytes zero index output offset value j room = ground arith
get_or-put_bytes (suc left) index output offset value j room =
    let b = to_byte (value >>> (index * 8)) in
    let out = set output (offset + index) b in
    ground (
      arith,
      get_or-put_bytes left (index + 1) out offset value j,
      get_or-set output (offset + index) j b 0,
      length-set output (offset + index) b,
    )

-- The value depends on the bytes in the run only, and fits its width.
pub le_value_ext :
    (count : ℕ) (f g : ℕ → ℕ) (offset : ℕ)
    → ((i : ℕ) → offset ≤ i → i < offset + count → f i ≡ g i)
    → le_value count f offset ≡ le_value count g offset
unfolding le_value
le_value_ext zero f g offset h = refl
le_value_ext (suc count) f g offset h =
    rw
      (
        h offset (omega arith) (omega arith),
        le_value_ext count f g (offset + 1) (λ i p q. h i (omega arith) (omega arith)),
      )
      refl

pub le_value-lt :
    (count : ℕ) (f : ℕ → ℕ) (offset : ℕ)
    → ((i : ℕ) → IsByte (f i))
    → le_value count f offset < 2 ^ (count * 8)
unfolding le_value
le_value-lt zero f offset h = omega arith
le_value-lt (suc count) f offset h =
    let top : suc count ≡ count + 1 = omega arith in
    rw (top, pow_next_byte) (omega (arith, h offset, le_value-lt count f (offset + 1) h))

-- The same bytes at another place have the same value.
pub le_value_move :
    (count : ℕ) (f g : ℕ → ℕ) (offset place : ℕ)
    → ((j : ℕ) → f (offset + j) ≡ g (place + j))
    → le_value count f offset ≡ le_value count g place
unfolding le_value
le_value_move zero f g offset place h = refl
le_value_move (suc count) f g offset place h =
    let first : f offset ≡ g place =
      let e : offset ≡ offset + 0 = omega arith in
      let e2 : place ≡ place + 0 = omega arith in ap f e ∙ h 0 ∙ ap g (sym e2) in
    let next : (j : ℕ) → f (offset + 1 + j) ≡ g (place + 1 + j) = λ j.
      let e : offset + 1 + j ≡ offset + (j + 1) = omega arith in
      let e2 : place + 1 + j ≡ place + (j + 1) = omega arith in
      ap f e ∙ h (j + 1) ∙ ap g (sym e2) in
    rw (first, le_value_move count f g (offset + 1) (place + 1) next) refl
