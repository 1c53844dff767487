-- ===== src/Alu.antt =====
-- alu/alu_generator.c: the contents of the two 8K lookup chips of the ALU, and the look-up through
-- them of one 8-bit operation.
pub mod Nibble
pub mod Lookup
pub mod Arith
mod Tests
use cpu.Prelude.{
  ℕ, zero, suc, ◌+◌, ◌-◌, ◌*◌, bit_and, bit_or, bit_xor, Bool, true, false, Option, none, some, u8,
  u16, ◌<<<◌, ◌>>>◌, ◌==◌, if◌then◌else◌, update,
}

pub record Fields : Type 0 where
  pub a : ℕ
  pub b : ℕ
  pub cmd : ℕ
  pub carry_in : ℕ

unfoldable pub decode_address : ℕ → Fields
decode_address addr = record {
  a = bit_and addr 0b0000000001111;
  b = bit_and addr 0b0000011110000 >>> 4;
  cmd = bit_and addr 0b0111100000000 >>> 8;
  carry_in = bit_and addr 0b1000000000000 >>> 12;
}

unfoldable pub encode_address : ℕ → ℕ → ℕ → ℕ → ℕ
encode_address a b cmd carry_in =
    bit_or
      (bit_or (bit_or (bit_and a 0b0000000001111) (bit_and (b <<< 4) 0b0000011110000))
        (bit_and (cmd <<< 8) 0b0111100000000))
      (bit_and (carry_in <<< 12) 0b1000000000000)

abbrev pub c_add : ℕ
c_add = 0

abbrev pub c_adc : ℕ
c_adc = 1

abbrev pub c_sub : ℕ
c_sub = 2

abbrev pub c_sbc : ℕ
c_sbc = 3

abbrev pub c_or : ℕ
c_or = 4

abbrev pub c_orc : ℕ
c_orc = 5

abbrev pub c_xor : ℕ
c_xor = 6

abbrev pub c_xorc : ℕ
c_xorc = 7

abbrev pub c_and : ℕ
c_and = 8

abbrev pub c_andc : ℕ
c_andc = 9

abbrev pub c_neg : ℕ
c_neg = 10

abbrev pub c_not : ℕ
c_not = 11

-- What the `switch` of `gen` leaves in `R` and `OF`.
pub record Outcome : Type 0 where
  pub r : ℕ
  pub of : ℕ

-- The test of the sign bits that `add` and `sub` share.
overflow : ℕ → ℕ → ℕ → ℕ
overflow a b r =
    if bit_and a 0x80 == bit_and b 0x80
    then (if bit_and a 0x80 == bit_and r 0x80 then 0 else 1)
    else 0

gen_add : Fields → Bool → Outcome
unfolding overflow
gen_add f ignore_carry =
    let sum = u8 (f.a + f.b) in
    let r = if ignore_carry then sum else u8 (sum + f.carry_in) in
    record { r = r; of = overflow f.a f.b r }

-- `~b` on a byte is `255 - b`; 256 is added before `carry_in` is taken off.
gen_sub : Fields → Bool → Outcome
unfolding overflow
gen_sub f ignore_carry =
    let inverse = 255 - f.b in
    let b = if ignore_carry then u8 (inverse + 1) else u8 (inverse + 1 + 256 - f.carry_in) in
    let r = u8 (f.a + b) in record { r = r; of = overflow f.a b r }

gen_neg : Fields → Bool → Outcome
gen_neg f ignore_carry =
    let inverse = 255 - f.a in
    let r = if ignore_carry then u8 (inverse + 1) else u8 (inverse + f.carry_in) in
    record { r = bit_xor r 0x10; of = 0 }

-- The `switch`; `none` is the `default` case, which returns 0. `low` is the initial `ignore_carry`.
operate : Fields → Bool → Option Outcome
unfolding gen_add gen_sub gen_neg
operate f low =
    if f.cmd == c_adc
    then some (gen_add f false)
    else if f.cmd == c_add
    then some (gen_add f low)
    else if f.cmd == c_sbc
    then some (gen_sub f false)
    else if f.cmd == c_sub
    then some (gen_sub f low)
    else if f.cmd == c_neg
    then some (gen_neg f low)
    else if f.cmd == c_not
    then some (record { r = 255 - f.a; of = 0 })
    else if f.cmd == c_and
    then some (record { r = bit_and f.a f.b; of = 0 })
    else if f.cmd == c_andc
    then some (record { r = bit_and f.a f.b; of = 0 })
    else if f.cmd == c_or
    then some (record { r = bit_or f.a f.b; of = 0 })
    else if f.cmd == c_orc
    then some (record { r = bit_or f.a f.b; of = 0 })
    else if f.cmd == c_xor
    then some (record { r = bit_xor f.a f.b; of = 0 })
    else if f.cmd == c_xorc
    then some (record { r = bit_xor f.a f.b; of = 0 })
    else none

-- The four flags beside the four result bits.
pack : Outcome → ℕ
pack o =
    let zf = if bit_and o.r 0x0f == 0 then 1 else 0 in
    let cf = if bit_and o.r 0x10 == 0 then 0 else 1 in
    let sf = bit_and o.r 0x08 >>> 3 in
    bit_or (bit_or (bit_or (bit_or (bit_and o.r 0x0f) (cf <<< 4)) (zf <<< 5)) (sf <<< 6))
      (o.of <<< 7)

unfoldable pub gen : ℕ → Bool → ℕ
unfolding decode_address operate pack
gen addr low = elim (operate (decode_address addr) low) [ none ↦ 0 | some o ↦ pack o ]

abbrev pub image_size : ℕ
image_size = 8 * 1024

pub record Chips : Type 0 where
  pub low : ℕ → ℕ
  pub high : ℕ → ℕ

-- The loop of `main` that fills the images, `n` rounds of it.
unfoldable pub fill : ℕ → Chips → Chips
fill zero chips = chips
fill (suc n) chips =
    let done = fill n chips in
    record { low = update done.low n (gen n true); high = update done.high n (gen n false) }

-- The look-up of one operation: the low nibbles in one chip, whose carry goes into the other.
unfoldable pub test_gen_output : Chips → ℕ → ℕ → ℕ → ℕ → ℕ
unfolding encode_address
test_gen_output chips a b cmd carry_in =
    let addr_low = encode_address (bit_and a 0x0f) (bit_and b 0x0f) cmd carry_in in
    let res_low = chips.low addr_low in
    let internal_carry = bit_and res_low 0x10 >>> 4 in
    let addr_high =
      encode_address (bit_and a 0xf0 >>> 4) (bit_and b 0xf0 >>> 4) cmd internal_carry in
    let res_high = chips.high addr_high in u16 (bit_or (bit_and res_low 0x0f) (res_high <<< 4))
