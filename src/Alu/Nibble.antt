-- ===== src/Alu/Nibble.antt =====
-- alu/alu_generator.c: the entries of the chips for the addition, subtraction and bitwise commands,
-- as arithmetic on one nibble.
use cpu.Prelude.{
  ℕ, ◌+◌, ◌-◌, ◌*◌, ◌/◌, ◌%◌, ◌<◌, ◌≡◌, refl, Bool, true, false, bit_and, bit_or, bit_xor, ◌==◌,
  ==_iff, if◌then◌else◌, passes_below, passes_below-entry,
}
use cpu.Alu.{encode_address, gen, c_add, c_adc, c_sub, c_sbc, c_or, c_xor, c_and, c_neg, c_not}

-- What a chip holds for a five-bit result: four bits, the carry, and the zero and sign flags.
abbrev pub entry : ℕ → ℕ
entry r = r % 16 + 16 * (r / 16 % 2) + 32 * (if r % 16 == 0 then 1 else 0) + 64 * (r / 8 % 2)

abbrev on_nibbles : (ℕ → ℕ → ℕ → Bool) → Bool
on_nibbles p = passes_below 16 (λ a. passes_below 16 (λ b. passes_below 2 (λ c. p a b c)))

on_nibbles_sound :
    (p : ℕ → ℕ → ℕ → Bool) (a b c : ℕ)
    → on_nibbles p ≡ true
    → a < 16
    → b < 16
    → c < 2
    → p a b c ≡ true
on_nibbles_sound p a b c h ha hb hc =
    passes_below-entry 2 _ c (passes_below-entry 16 _ b (passes_below-entry 16 _ a h ha) hb) hc

-- One command on one chip, as arithmetic.
abbrev pub Holds : ℕ → Bool → (ℕ → ℕ → ℕ → ℕ) → Type 0
Holds cmd low spec =
    (a b c : ℕ) → a < 16 → b < 16 → c < 2 → gen (encode_address a b cmd c) low ≡ entry (spec a b c)

abbrev checks : ℕ → Bool → (ℕ → ℕ → ℕ → ℕ) → Bool
checks cmd low spec = on_nibbles (λ a b c. gen (encode_address a b cmd c) low == entry (spec a b c))

Holds-of_checks :
    (cmd : ℕ) (low : Bool) (spec : ℕ → ℕ → ℕ → ℕ) → checks cmd low spec ≡ true → Holds cmd low spec
Holds-of_checks cmd low spec h a b c ha hb hc = (==_iff _ _).0 (on_nibbles_sound _ a b c h ha hb hc)

pub add_low : Holds c_add true (λ a b c. a + b)
add_low = Holds-of_checks c_add true _ (unfold gen encode_address passes_below in refl)

pub add_high : Holds c_add false (λ a b c. a + b + c)
add_high = Holds-of_checks c_add false _ (unfold gen encode_address passes_below in refl)

pub adc_low : Holds c_adc true (λ a b c. a + b + c)
adc_low = Holds-of_checks c_adc true _ (unfold gen encode_address passes_below in refl)

pub adc_high : Holds c_adc false (λ a b c. a + b + c)
adc_high = Holds-of_checks c_adc false _ (unfold gen encode_address passes_below in refl)

pub sub_low : Holds c_sub true (λ a b c. a + 32 - b)
sub_low = Holds-of_checks c_sub true _ (unfold gen encode_address passes_below in refl)

pub sub_high : Holds c_sub false (λ a b c. a + 32 - b - c)
sub_high = Holds-of_checks c_sub false _ (unfold gen encode_address passes_below in refl)

pub sbc_low : Holds c_sbc true (λ a b c. a + 32 - b - c)
sbc_low = Holds-of_checks c_sbc true _ (unfold gen encode_address passes_below in refl)

pub sbc_high : Holds c_sbc false (λ a b c. a + 32 - b - c)
sbc_high = Holds-of_checks c_sbc false _ (unfold gen encode_address passes_below in refl)

pub neg_low : Holds c_neg true (λ a b c. 16 - a)
neg_low = Holds-of_checks c_neg true _ (unfold gen encode_address passes_below in refl)

pub neg_high : Holds c_neg false (λ a b c. 15 - a + c)
neg_high = Holds-of_checks c_neg false _ (unfold gen encode_address passes_below in refl)

pub not_low : Holds c_not true (λ a b c. 31 - a)
not_low = Holds-of_checks c_not true _ (unfold gen encode_address passes_below in refl)

pub not_high : Holds c_not false (λ a b c. 31 - a)
not_high = Holds-of_checks c_not false _ (unfold gen encode_address passes_below in refl)

pub and_low : Holds c_and true (λ a b c. bit_and a b)
and_low = Holds-of_checks c_and true _ (unfold gen encode_address passes_below in refl)

pub and_high : Holds c_and false (λ a b c. bit_and a b)
and_high = Holds-of_checks c_and false _ (unfold gen encode_address passes_below in refl)

pub or_low : Holds c_or true (λ a b c. bit_or a b)
or_low = Holds-of_checks c_or true _ (unfold gen encode_address passes_below in refl)

pub or_high : Holds c_or false (λ a b c. bit_or a b)
or_high = Holds-of_checks c_or false _ (unfold gen encode_address passes_below in refl)

pub xor_low : Holds c_xor true (λ a b c. bit_xor a b)
xor_low = Holds-of_checks c_xor true _ (unfold gen encode_address passes_below in refl)

pub xor_high : Holds c_xor false (λ a b c. bit_xor a b)
xor_high = Holds-of_checks c_xor false _ (unfold gen encode_address passes_below in refl)
