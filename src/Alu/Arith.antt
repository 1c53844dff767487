-- ===== src/Alu/Arith.antt =====
-- alu/alu_generator.c: what a look-up returns for a byte operation.
use cpu.Prelude.{
  ℕ, ◌+◌, ◌-◌, ◌*◌, ◌/◌, ◌%◌, ◌<◌, ◌≡◌, ◌∙◌, refl, Bool, arith, bit_and, bit_or, bit_xor, ◌==◌,
  if◌then◌else◌, passes_below, passes_below-entry, ltb,
}
use cpu.Alu.{
  gen, image_size, test_gen_output, c_add, c_adc, c_sub, c_sbc, c_or, c_xor, c_and, c_neg, c_not,
}
use cpu.Alu.Nibble
use cpu.Alu.Lookup.{images, lookup_lem}

-- The result byte of a nine-bit sum, and beside it the carry, the zero flag (of the high nibble
-- alone), the sign, and an overflow flag that is clear.
abbrev pub word : ℕ → ℕ
word s =
    s % 256 + 256 * (s / 256 % 2) + 512 * (if s / 16 % 16 == 0 then 1 else 0) + 1024 * (s / 128 % 2)

-- The nibbles of a bitwise operation, put together.
abbrev Nibblewise : (ℕ → ℕ → ℕ) → Type 0
Nibblewise op =
    (a b : ℕ)
    → a < 256
    → b < 256
    → (op (a % 16) (b % 16) < 16)
      × (op (a / 16) (b / 16) < 16)
      × (op a b ≡ op (a % 16) (b % 16) + 16 * op (a / 16) (b / 16))

abbrev nibblewise_test : (ℕ → ℕ → ℕ) → ℕ → ℕ → Bool
nibblewise_test op a b =
    if ltb (op (a % 16) (b % 16)) 16
    then (if ltb (op (a / 16) (b / 16)) 16
        then op a b == op (a % 16) (b % 16) + 16 * op (a / 16) (b / 16)
        else Bool.false)
    else Bool.false

Nibblewise-of_table :
    (op : ℕ → ℕ → ℕ)
    → passes_below 256 (λ a. passes_below 256 (λ b. nibblewise_test op a b)) ≡ Bool.true
    → Nibblewise op
Nibblewise-of_table op table a b ha hb =
    let e : nibblewise_test op a b ≡ Bool.true =
      passes_below-entry 256 _ b (passes_below-entry 256 _ a table ha) hb in
    (ground arith, ground arith, ground arith)

bit_and-Nibblewise : Nibblewise bit_and
bit_and-Nibblewise = Nibblewise-of_table bit_and (unfold passes_below in refl)

bit_or-Nibblewise : Nibblewise bit_or
bit_or-Nibblewise = Nibblewise-of_table bit_or (unfold passes_below in refl)

bit_xor-Nibblewise : Nibblewise bit_xor
bit_xor-Nibblewise = Nibblewise-of_table bit_xor (unfold passes_below in refl)

module _ (a b c : ℕ) (ha : a < 256) (hb : b < 256) (hc : c < 2) where
  -- For all bytes and either carry in, `add` ignores the carry and `adc` adds it; both return the
  -- sum modulo 256, its carry out, its sign and no overflow.
  pub add_adc :
      (test_gen_output images a b c_add c ≡ word (a + b))
      × (test_gen_output images a b c_adc c ≡ word (a + b + c))
  add_adc = (
    lookup_lem c_add _ _ a b c (omega arith) Nibble.add_low Nibble.add_high ha hb hc ∙ ground arith,
    lookup_lem c_adc _ _ a b c (omega arith) Nibble.adc_low Nibble.adc_high ha hb hc ∙ ground arith,
  )

  -- For all bytes and either carry in, `sub` ignores the carry and `sbc` takes it off; both return
  -- the difference modulo 256 with the borrow as the carry out, its sign and no overflow.
  pub sub_sbc :
      (test_gen_output images a b c_sub c ≡ word (a + 512 - b))
      × (test_gen_output images a b c_sbc c ≡ word (a + 512 - b - c))
  sub_sbc = (
    lookup_lem c_sub _ _ a b c (omega arith) Nibble.sub_low Nibble.sub_high ha hb hc ∙ ground arith,
    lookup_lem c_sbc _ _ a b c (omega arith) Nibble.sbc_low Nibble.sbc_high ha hb hc ∙ ground arith,
  )

  -- For all bytes, `neg` returns `-a` modulo 256 with the carry set for 0 alone, and `not` returns
  -- the complement with the carry set.
  pub neg_not :
      (test_gen_output images a b c_neg c ≡ word (256 - a))
      × (test_gen_output images a b c_not c ≡ word (511 - a))
  neg_not = (
    lookup_lem c_neg _ _ a b c (omega arith) Nibble.neg_low Nibble.neg_high ha hb hc ∙ ground arith,
    lookup_lem c_not _ _ a b c (omega arith) Nibble.not_low Nibble.not_high ha hb hc ∙ ground arith,
  )

  -- For all bytes, `and`, `or` and `xor` return the bitwise operation with the carry clear.
  pub bitwise_lem :
      (test_gen_output images a b c_and c ≡ word (bit_and a b))
      × (test_gen_output images a b c_or c ≡ word (bit_or a b))
      × (test_gen_output images a b c_xor c ≡ word (bit_xor a b))
  bitwise_lem = (
    lookup_lem c_and _ _ a b c (omega arith) Nibble.and_low Nibble.and_high ha hb hc
        ∙ ground (arith, bit_and-Nibblewise a b ha hb),
    lookup_lem c_or _ _ a b c (omega arith) Nibble.or_low Nibble.or_high ha hb hc
        ∙ ground (arith, bit_or-Nibblewise a b ha hb),
    lookup_lem c_xor _ _ a b c (omega arith) Nibble.xor_low Nibble.xor_high ha hb hc
        ∙ ground (arith, bit_xor-Nibblewise a b ha hb),
  )

-- No entry of either chip has its overflow bit set, whatever the command and the operands.
pub gen_no_overflow : (addr : ℕ) (low : Bool) → addr < image_size → gen addr low < 128
gen_no_overflow addr Bool.true h =
    let e : ltb (gen addr Bool.true) 128 ≡ Bool.true =
      passes_below-entry image_size (λ addr. ltb (gen addr Bool.true) 128) addr
        (unfold gen passes_below in refl) h in
    ground arith
gen_no_overflow addr Bool.false h =
    let e : ltb (gen addr Bool.false) 128 ≡ Bool.true =
      passes_below-entry image_size (λ addr. ltb (gen addr Bool.false) 128) addr
        (unfold gen passes_below in refl) h in
    ground arith

-- A 16-bit value as its two bytes: `add` on the low bytes, then `adc` on the high bytes with the
-- carry that the first look-up returned, make the sum modulo 65536; `sub` and `sbc` the difference.
pub wide_add_sub :
    (x y : ℕ)
    → x < 65536
    → y < 65536
    → let lo = test_gen_output images (x % 256) (y % 256) c_add 0 in
      let hi = test_gen_output images (x / 256) (y / 256) c_adc (lo / 256 % 2) in
      let lo' = test_gen_output images (x % 256) (y % 256) c_sub 0 in
      let hi' = test_gen_output images (x / 256) (y / 256) c_sbc (lo' / 256 % 2) in
      (lo % 256 + 256 * (hi % 256) ≡ (x + y) % 65536)
      × (lo' % 256 + 256 * (hi' % 256) ≡ (x + 65536 - y) % 65536)
wide_add_sub x y hx hy =
    let p = add_adc (x % 256) (y % 256) 0 (omega arith) (omega arith) (omega arith) in
    let q = sub_sbc (x % 256) (y % 256) 0 (omega arith) (omega arith) (omega arith) in
    let r =
      add_adc (x / 256) (y / 256) (word (x % 256 + y % 256) / 256 % 2) (omega arith) (omega arith)
        (omega arith) in
    let t =
      sub_sbc (x / 256) (y / 256) (word (x % 256 + 512 - y % 256) / 256 % 2) (omega arith)
        (omega arith) (omega arith) in
    (rw (p.0, r.1) (ground arith), rw (q.0, t.1) (ground arith))
