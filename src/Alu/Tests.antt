-- ===== src/Alu/Tests.antt =====
-- alu/alu_generator.c: runs of the generator, and instances of the theorems about it.
use cpu.Prelude.{◌+◌, ◌*◌, ◌/◌, ◌%◌, ◌<◌, ◌≡◌, refl, Bool, arith}
use cpu.Alu.{gen, encode_address, test_gen_output, c_add, c_adc, c_sub, c_sbc}
use cpu.Alu.Lookup.{images}
use cpu.Alu.Arith.{word, add_adc, sub_sbc, gen_no_overflow, wide_add_sub}

-- 7 + 9 on the low chip: the nibble is 0, with carry and zero set.
gen-seven_nine : gen (encode_address 7 9 c_add 1) Bool.true ≡ 0x30
unfolding gen encode_address
gen-seven_nine = refl

-- A command outside the table.
gen-default : gen (encode_address 7 9 13 0) Bool.false ≡ 0
unfolding gen encode_address
gen-default = refl

add_adc_example :
    (test_gen_output images 200 100 c_add 1 ≡ word 300)
    × (test_gen_output images 200 100 c_adc 1 ≡ word 301)
add_adc_example = add_adc 200 100 1 (omega arith) (omega arith) (omega arith)

sub_sbc_example :
    (test_gen_output images 5 7 c_sub 1 ≡ word 510)
    × (test_gen_output images 5 7 c_sbc 1 ≡ word 509)
sub_sbc_example = sub_sbc 5 7 1 (omega arith) (omega arith) (omega arith)

gen_no_overflow_example : gen 0x177 Bool.true < 128
gen_no_overflow_example = gen_no_overflow 0x177 Bool.true (omega arith)

wide_add_sub_example :
    let lo = test_gen_output images 0xff 0x01 c_add 0 in
    let hi = test_gen_output images 0x12 0x34 c_adc (lo / 256 % 2) in
    let lo' = test_gen_output images 0xff 0x01 c_sub 0 in
    let hi' = test_gen_output images 0x12 0x34 c_sbc (lo' / 256 % 2) in
    (lo % 256 + 256 * (hi % 256) ≡ 0x4700) × (lo' % 256 + 256 * (hi' % 256) ≡ 0xdefe)
wide_add_sub_example = wide_add_sub 0x12ff 0x3401 (omega arith) (omega arith)
