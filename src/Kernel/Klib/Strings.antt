-- ===== src/Kernel/Klib/Strings.antt =====
-- software/kernel/klib.c: what `strcmp`, `memcmp` and `printhex` tell.
use cpu.Prelude.{
  ℕ, ◌+◌, ◌-◌, ◌*◌, ◌/◌, ◌%◌, ◌<◌, bit_and, ◌≡◌, refl, ap₂, inl, inr, Bool, true, false, ◌&&◌, [],
  ◌∷◌, arith, ltb, leb, ◌==◌, if◌then◌else◌, Bool-cases, length, ◌>>>◌, passes_below,
  passes_below-entry,
}
use cpu.Kernel.Klib.{CString, strcmp, hex_digit, printhex}

-- The bytes of a C string.
unfoldable pub bytes_ok : CString → Bool
bytes_ok [] = true
bytes_ok (a ∷ s) = if ltb 0 a && ltb a 256 then bytes_ok s else false

-- The order of a dictionary.
unfoldable pub precedes : CString → CString → Bool
precedes s [] = false
precedes [] (b ∷ t) = true
precedes (a ∷ s) (b ∷ t) = if a == b then precedes s t else ltb a b

abbrev pub negative : ℕ → Bool
negative d = leb 32768 d

-- `strcmp` on two C strings is 0 where they are the same and nowhere else, and it is negative where
-- the first stands before the second in a dictionary and nowhere else.
pub strcmp_lem :
    (s t : CString)
    → bytes_ok s ≡ true
    → bytes_ok t ≡ true
    → (strcmp s t ≡ 0 → s ≡ t) × (s ≡ t → strcmp s t ≡ 0) × (negative (strcmp s t) ≡ precedes s t)
unfolding strcmp bytes_ok precedes
strcmp_lem [] [] hs ht = (λ e. refl, λ e. refl, refl)
strcmp_lem [] (b ∷ t) hs ht = (λ e. absurd (ground (arith, e)), λ e. absurd cc, ground arith)
strcmp_lem (a ∷ s) [] hs ht = (λ e. absurd (ground (arith, e)), λ e. absurd cc, ground arith)
strcmp_lem (a ∷ s) (b ∷ t) hs ht = elim (Bool-cases (a == b)) [
  | inl same ↦
      let on = strcmp_lem s t (ground arith) (ground arith) in
      let e : a ≡ b = ground (arith, same) in rw same (λ z. ap₂ ◌∷◌ e (on.0 z), λ q. on.1 cc, on.2)
  | inr other ↦ rw other (
    λ z. absurd (ground (arith, other)),
    λ q. absurd (ground (arith, other)),
    ground (arith, other),
  )
]

-- The value of a hexadecimal digit.
abbrev pub hex_value : ℕ → ℕ
hex_value c = if leb b'a' c then c - b'a' + 10 else c - b'0'

-- The number that a row of digits stands for.
unfoldable pub hex_number : ℕ → CString → ℕ
hex_number acc [] = acc
hex_number acc (c ∷ s) = hex_number (acc * 16 + hex_value c) s

nibbles :
    passes_below 65536 (λ i.
      (hex_value (hex_digit (bit_and i 0xf0 >>> 4)) == i / 16 % 16)
      && (hex_value (hex_digit (bit_and i 0x0f)) == i % 16))
    ≡ true
unfolding passes_below
nibbles = refl

nibble_lem :
    (i : ℕ)
    → i < 65536
    → (hex_value (hex_digit (bit_and i 0xf0 >>> 4)) ≡ i / 16 % 16)
      × (hex_value (hex_digit (bit_and i 0x0f)) ≡ i % 16)
nibble_lem i below =
    let entry = passes_below-entry 65536 _ i nibbles below in (ground arith, ground arith)

-- `printhex` puts out 0x and four digits, which read as a hexadecimal number give back its argument of
-- 16 bits.
pub hex_number-printhex :
    (i : ℕ)
    → i < 65536
    → (digits : CString) × (printhex i ≡ b'0' ∷ b'x' ∷ digits)
      × (length digits ≡ 4)
      × (hex_number 0 digits ≡ i)
unfolding printhex hex_number
hex_number-printhex i below =
    let high = nibble_lem (i / 256) (omega arith) in
    let low = nibble_lem i below in (_, refl, refl, rw (high.0, high.1, low.0, low.1) omega arith)
