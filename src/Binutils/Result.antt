-- ===== src/Binutils/Result.antt =====
-- binutils: how a run of the assembler ends. `panic` is `panic_full` of util.c, which leaves the
-- program, or a use of memory or of a number that C gives no meaning to.
use cpu.Prelude.{◌≡◌, refl, ◌⊎◌, inl, inr, Option, none, some}

-- The messages, and after them what C leaves undefined: a null section, a negative place in its data,
-- a division by 0. `out_of_fuel` is of the model.
pub data Reason : Type 0 where
  no_section section_overflow max_sections arguments_expected bad_directive : Reason
  constant_list_overflow wrong_label_size unexpected_char unexpected_literal : Reason
  bad_instruction eof_expecting_args quote_expected no_such_label : Reason
  null_section negative_place division_by_zero out_of_fuel : Reason

pub data Result {ℓ} (A : Type ℓ) : Type ℓ where
  panic : Reason → Result A
  ok : A → Result A

-- The value of an option, or the end of the program.
abbrev pub get_or {ℓ} : {A : Type ℓ} → Reason → Option A → Result A
get_or why none = panic why
get_or why (some a) = ok a

-- What comes after a step that may end the program.
infixl 5 ◌>>=◌
abbrev pub ◌>>=◌ {ℓ} : {A B : Type ℓ} (step : Result A) (after : A → Result B) → Result B
panic why >>= after = panic why
ok value >>= after = after value

-- A chain that has come to a value has come through its first step.
pub ok-bind {ℓ} :
    {A B : Type ℓ} (step : Result A) (after : A → Result B) (b : B)
    → (step >>= after) ≡ ok b
    → (a : A) × (step ≡ ok a) × (after a ≡ ok b)
ok-bind (panic why) after b came = absurd cc
ok-bind (ok value) after b came = (value, refl, came)

pub Result-cases {ℓ} :
    {A : Type ℓ} (end : Result A) → ((a : A) × (end ≡ ok a)) ⊎ ((why : Reason) × (end ≡ panic why))
Result-cases (panic why) = inr (why, refl)
Result-cases (ok value) = inl (value, refl)
