-- ===== src/Alu/Lookup.antt =====
-- alu/alu_generator.c: after `main` has filled the chips, a look-up reads what `gen` computes, and
-- its two addresses stay inside the images.
use cpu.Prelude.{
  ℕ, zero, suc, ◌+◌, ◌*◌, ◌/◌, ◌%◌, ◌<◌, ◌≡◌, refl, true, false, arith, bit_and, bit_or, ◌>>>◌,
  ◌<<<◌, ltb, ◌==◌, ==_iff, if◌then◌else◌, passes_below, passes_below-entry,
}
use cpu.Alu.{Chips, encode_address, gen, image_size, fill, test_gen_output}
use cpu.Alu.Nibble.{Holds, entry}

fill-low :
    (n i : ℕ) (chips : Chips) → (fill n chips).low i ≡ (if ltb i n then gen i true else chips.low i)
unfolding fill
fill-low zero i chips = ground arith
fill-low (suc n) i chips = ground (arith, fill-low n i chips)

fill-high :
    (n i : ℕ) (chips : Chips)
    → (fill n chips).high i ≡ (if ltb i n then gen i false else chips.high i)
unfolding fill
fill-high zero i chips = ground arith
fill-high (suc n) i chips = ground (arith, fill-high n i chips)

abbrev pub blank : Chips
blank = record { low = λ i. 0; high = λ i. 0 }

-- The images that `main` writes.
pub images : Chips
images = fill image_size blank

images-low : (i : ℕ) → i < image_size → images.low i ≡ gen i true
unfolding images
images-low i h = ground (arith, fill-low image_size i blank)

images-high : (i : ℕ) → i < image_size → images.high i ≡ gen i false
unfolding images
images-high i h = ground (arith, fill-high image_size i blank)

byte_check : (f g : ℕ → ℕ) (x : ℕ) → passes_below 256 (λ x. f x == g x) ≡ true → x < 256 → f x ≡ g x
byte_check f g x table h = (==_iff _ _).0 (passes_below-entry 256 _ x table h)

low_nibble : (x : ℕ) → x < 256 → bit_and x 0x0f ≡ x % 16
low_nibble x h = byte_check (λ x. bit_and x 0x0f) (λ x. x % 16) x (unfold passes_below in refl) h

high_nibble : (x : ℕ) → x < 256 → bit_and x 0xf0 >>> 4 ≡ x / 16
high_nibble x h =
    byte_check (λ x. bit_and x 0xf0 >>> 4) (λ x. x / 16) x (unfold passes_below in refl) h

carry_bit : (x : ℕ) → x < 256 → bit_and x 0x10 >>> 4 ≡ x / 16 % 2
carry_bit x h =
    byte_check (λ x. bit_and x 0x10 >>> 4) (λ x. x / 16 % 2) x (unfold passes_below in refl) h

join_nibbles : (x y : ℕ) → x < 16 → y < 256 → bit_or x (y <<< 4) ≡ x + 16 * y
join_nibbles x y hx hy = (==_iff _ _).0 (
    passes_below-entry 256 _ y
      (passes_below-entry 16 (λ x. passes_below 256 (λ y. bit_or x (y <<< 4) == x + 16 * y)) x
        (unfold passes_below in refl) hx)
      hy)

encode_address-lt :
    (a b cmd c : ℕ) → a < 16 → b < 16 → cmd < 16 → c < 2 → encode_address a b cmd c < image_size
encode_address-lt a b cmd c ha hb hcmd hc = ground (arith, inside)
  where
    table :
        passes_below 16 (λ a. passes_below 16 (λ b.
          passes_below 16 (λ cmd. passes_below 2 (λ c. ltb (encode_address a b cmd c) image_size))))
        ≡ true
    table = unfold encode_address passes_below in refl

    inside : ltb (encode_address a b cmd c) image_size ≡ true
    inside =
        passes_below-entry 2 _ c
          (passes_below-entry 16 _ cmd
            (passes_below-entry 16 _ b (passes_below-entry 16 _ a table ha) hb) hcmd)
          hc

entry-lt : (r : ℕ) → entry r < 128
entry-lt r = ground arith

entry_carry : (r : ℕ) → (entry r % 16 ≡ r % 16) × (entry r / 16 % 2 ≡ r / 16 % 2)
entry_carry r = ground arith

-- A look-up through the images, for a command whose entries are known.
pub lookup_lem :
    (cmd : ℕ) (lo hi : ℕ → ℕ → ℕ → ℕ) (a b c : ℕ)
    → cmd < 16
    → Holds cmd true lo
    → Holds cmd false hi
    → a < 256
    → b < 256
    → c < 2
    → let r = lo (a % 16) (b % 16) c in
      test_gen_output images a b cmd c ≡ r % 16 + 16 * entry (hi (a / 16) (b / 16) (r / 16 % 2))
unfolding test_gen_output
lookup_lem cmd lo hi a b c hcmd hlo hhi ha hb hc =
    rw
      (
        low_nibble a ha,
        low_nibble b hb,
        high_nibble a ha,
        high_nibble b hb,
        images-low _
            (encode_address-lt (a % 16) (b % 16) cmd c (omega arith) (omega arith) hcmd hc),
        hlo (a % 16) (b % 16) c (omega arith) (omega arith) hc,
        low_nibble (entry r) (omega (arith, entry-lt r)),
        carry_bit (entry r) (omega (arith, entry-lt r)),
        (entry_carry r).0,
        (entry_carry r).1,
        images-high _ (
            encode_address-lt (a / 16) (b / 16) cmd (r / 16 % 2) (omega arith) (omega arith) hcmd
              (omega arith)),
        hhi (a / 16) (b / 16) (r / 16 % 2) (omega arith) (omega arith) (omega arith),
        join_nibbles (r % 16) (entry (hi (a / 16) (b / 16) (r / 16 % 2))) (omega arith)
            (omega (arith, entry-lt (hi (a / 16) (b / 16) (r / 16 % 2)))),
      )
      (omega (arith, entry-lt (hi (a / 16) (b / 16) (r / 16 % 2))))
  where
    r : ℕ
    r = lo (a % 16) (b % 16) c
