-- ===== src/Binutils/Assemble/Loop/Fuel.antt =====
-- binutils/asm.c: no operation on the arguments of `assemble` runs out of fuel.
use cpu.Prelude.{
  ℕ, ◌≡◌, refl, Bool, true, false, Option, none, some, List, [], ◌∷◌, arith, ltb, if◌then◌else◌,
}
use cpu.Binutils.Section.{low, high}
use cpu.Binutils.Text.{Text}
use cpu.Binutils.Result.{
  Reason, no_section, arguments_expected, null_section, out_of_fuel, Result, ok, panic, get_or,
  ◌>>=◌,
}
use cpu.Binutils.Labels.{Labels}
use cpu.Binutils.Constants.{find_constant}
use cpu.Binutils.Keywords.{strtol}
use cpu.Binutils.Assemble.{AsmSection, Assembler, current, on_current, emit_byte, emit, emit_all}
use cpu.Binutils.Assemble.Arguments.{
  on_labels, labels_of, label_bytes, label_argument, char_argument, emit_value, literal_argument,
  constant_argument, half_word,
}

abbrev pub has_fuel : Reason → Bool
has_fuel out_of_fuel = false
has_fuel _ = true

abbrev pub fueled {ℓ} : {A : Type ℓ} → Result A → Bool
fueled (ok a) = true
fueled (panic why) = has_fuel why

pub fueled-bind {ℓ} :
    {A B : Type ℓ} (r : Result A) (f : A → Result B)
    → fueled r ≡ true
    → ((a : A) → fueled (f a) ≡ true)
    → fueled (r >>= f) ≡ true
fueled-bind (ok a) f h k = k a
fueled-bind (panic why) f h k = h

pub fueled-get_or {ℓ} :
    {A : Type ℓ} (why : Reason) (o : Option A) → has_fuel why ≡ true → fueled (get_or why o) ≡ true
fueled-get_or why none h = h
fueled-get_or why (some a) h = refl

pub fueled-emit_byte : (b : ℕ) (sec : AsmSection) → fueled (emit_byte b sec) ≡ true
unfolding emit_byte
fueled-emit_byte b sec = ground arith

pub fueled-on_current :
    (why : Reason) (f : AsmSection → Result AsmSection) (s : Assembler)
    → has_fuel why ≡ true
    → ((sec : AsmSection) → fueled (f sec) ≡ true)
    → fueled (on_current why f s) ≡ true
unfolding on_current
fueled-on_current why f s h k =
    fueled-bind (get_or why (current s)) _ (fueled-get_or why (current s) h)
      (λ sec. fueled-bind (f sec) _ (k sec) (λ sec'. refl))

pub fueled-emit : (b : ℕ) (s : Assembler) → fueled (emit b s) ≡ true
fueled-emit b s = fueled-on_current no_section (emit_byte b) s refl (fueled-emit_byte b)

pub fueled-emit_all : (bs : List ℕ) (s : Assembler) → fueled (emit_all bs s) ≡ true
unfolding emit_all
fueled-emit_all [] s = refl
fueled-emit_all (b ∷ bs) s = fueled-bind (emit b s) _ (fueled-emit b s) (fueled-emit_all bs)

pub fueled-on_labels :
    (f : AsmSection → Labels → Result Labels) (s : Assembler)
    → ((sec : AsmSection) (l : Labels) → fueled (f sec l) ≡ true)
    → fueled (on_labels f s) ≡ true
unfolding on_labels
fueled-on_labels f s k =
    fueled-bind (get_or null_section (current s)) _ (fueled-get_or _ (current s) refl)
      (λ sec. fueled-bind (f sec (labels_of sec s)) _ (k sec _) (λ l. refl))

pub fueled-label_bytes : (half : ℕ) (s : Assembler) → fueled (label_bytes half s) ≡ true
unfolding label_bytes
fueled-label_bytes half s =
    let one = fueled-emit 0 s in
    let two = fueled-bind (emit 0 s) (emit 0) one (fueled-emit 0) in ground arith

pub fueled-label_argument : (token : Text) (s : Assembler) → fueled (label_argument token s) ≡ true
unfolding label_argument
fueled-label_argument token s =
    fueled-bind (on_labels _ s) _ (fueled-on_labels _ s (λ sec l. refl)) (λ used.
      fueled-bind (label_bytes (half_word token) used) _ (fueled-label_bytes (half_word token) used)
        (λ filled. refl))

pub fueled-char_argument : (token : Text) (s : Assembler) → fueled (char_argument token s) ≡ true
unfolding char_argument
fueled-char_argument token s = fueled-bind (emit _ s) _ (fueled-emit _ s) (λ s₁.
    fueled-bind (if ltb 1 s.expect_arg_size then emit 0 s₁ else ok s₁) _
      (let more = fueled-emit 0 s₁ in ground arith) (λ s₂. ground arith))

pub fueled-emit_value : (value : ℕ) (s : Assembler) → fueled (emit_value value s) ≡ true
unfolding emit_value
fueled-emit_value value s =
    let one = fueled-emit (low value) s in
    let two = fueled-bind (emit (low value) s) (emit (high value)) one (fueled-emit (high value)) in
    ground arith

pub fueled-literal_argument :
    (token : Text) (s : Assembler) → fueled (literal_argument token s) ≡ true
unfolding literal_argument
fueled-literal_argument token s =
    fueled-bind (emit_value (strtol token) s) _ (fueled-emit_value _ s) (λ s'. ground arith)

pub fueled-constant_argument :
    (token : Text) (s : Assembler) → fueled (constant_argument token s) ≡ true
unfolding constant_argument
fueled-constant_argument token s =
    fueled-bind (get_or arguments_expected (find_constant token s.constants)) _
      (fueled-get_or _ (find_constant token s.constants) refl)
      (λ e. fueled-bind (emit_value e.value s) _ (fueled-emit_value e.value s) (λ s'. refl))
