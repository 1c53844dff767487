-- ===== src/Binutils/Assemble/Loop/Valid.antt =====
-- binutils/asm.c: the arguments of `assemble` and the choice of a section keep the lists of the
-- assembler within their bounds, and the current section in the list.
use cpu.Prelude.{
  ℕ, zero, suc, ◌+◌, ◌≡◌, refl, ◌∙◌, inl, inr, Bool, true, ◌&&◌, Option, none, some, List, [], ◌∷◌,
  arith, ltb, leb, if◌then◌else◌, Option-cases, length, length-append,
}
use cpu.Binutils.Text.{Text}
use cpu.Binutils.Result.{
  Reason, no_section, null_section, arguments_expected, Result, ok, panic, get_or, ◌>>=◌,
}
use cpu.Binutils.Labels.{Labels}
use cpu.Binutils.Constants.{ConstantEntry, max_constants, find_constant, write_value}
use cpu.Binutils.Keywords.{strtol}
use cpu.Binutils.Section.{low, high}
use cpu.Binutils.Assemble.{
  AsmSection, Assembler, max_section_list, write_at, current, set_current, on_current, emit_byte,
  emit, emit_all, select_section, create_section, section_named, new_section,
}
use cpu.Binutils.Assemble.Arguments.{
  on_labels, labels_of, label_bytes, label_argument, char_argument, emit_value, literal_argument,
  constant_argument, half_word,
}
use cpu.Binutils.Assemble.Directives.{Going}

abbrev pub in_range : Option ℕ → ℕ → Bool
in_range none n = true
in_range (some i) n = ltb i n

-- The current section is one of the list, and the lists of sections and constants have their places.
abbrev pub valid : Assembler → Bool
valid s =
    in_range s.current_section (length s.sections)
    && (leb (length s.sections) max_section_list && leb (length s.constants) max_constants)

abbrev pub valid_result : Result Assembler → Bool
valid_result (ok s) = valid s
valid_result (panic why) = true

abbrev pub valid_going : Result Going → Bool
valid_going (ok (s, cs)) = valid s
valid_going (panic why) = true

pub valid-bind :
    (r : Result Assembler) (f : Assembler → Result Assembler)
    → valid_result r ≡ true
    → ((s : Assembler) → valid s ≡ true → valid_result (f s) ≡ true)
    → valid_result (r >>= f) ≡ true
valid-bind (ok s) f h k = k s h
valid-bind (panic why) f h k = refl

-- Whatever is bound to a value that is no assembler.
pub valid-value :
    {A : Type 0} (r : Result A) (f : A → Result Assembler)
    → ((a : A) → valid_result (f a) ≡ true)
    → valid_result (r >>= f) ≡ true
valid-value (ok a) f k = k a
valid-value (panic why) f k = refl

pub length-write_at :
    (i : ℕ) (sec : AsmSection) (xs : List AsmSection) → length (write_at i sec xs) ≡ length xs
unfolding write_at
length-write_at i sec [] = refl
length-write_at zero sec (x ∷ xs) = refl
length-write_at (suc i) sec (x ∷ xs) = ground (arith, length-write_at i sec xs)

pub valid-set_current : (sec : AsmSection) (s : Assembler) → valid (set_current sec s) ≡ valid s
valid-set_current sec s = elim (Option-cases s.current_section) [
  | inl nothing ↦ rw nothing refl
  | inr (i, at) ↦ rw (at, length-write_at i sec s.sections) refl
]

pub valid-on_current :
    (why : Reason) (f : AsmSection → Result AsmSection) (s : Assembler)
    → valid s ≡ true
    → valid_result (on_current why f s) ≡ true
unfolding on_current
valid-on_current why f s h =
    valid-value (get_or why (current s)) _
      (λ sec. valid-value (f sec) _ (λ sec'. valid-set_current sec' s ∙ h))

pub valid-emit : (b : ℕ) (s : Assembler) → valid s ≡ true → valid_result (emit b s) ≡ true
valid-emit b s = valid-on_current no_section (emit_byte b) s

pub valid-emit_all :
    (bs : List ℕ) (s : Assembler) → valid s ≡ true → valid_result (emit_all bs s) ≡ true
unfolding emit_all
valid-emit_all [] s h = h
valid-emit_all (b ∷ bs) s h =
    valid-bind (emit b s) (emit_all bs) (valid-emit b s h) (valid-emit_all bs)

pub valid-on_labels :
    (f : AsmSection → Labels → Result Labels) (s : Assembler)
    → valid s ≡ true
    → valid_result (on_labels f s) ≡ true
unfolding on_labels
valid-on_labels f s h = valid-value (get_or null_section (current s)) _ (λ sec.
    valid-value (f sec (labels_of sec s)) _ (λ l.
      valid-set_current (record sec { label_vec = l.label_vec; label_mask = l.label_mask }) s ∙ h))

pub valid-label_bytes :
    (half : ℕ) (s : Assembler) → valid s ≡ true → valid_result (label_bytes half s) ≡ true
unfolding label_bytes
valid-label_bytes half s h =
    let one = valid-emit 0 s h in
    let two = valid-bind (emit 0 s) (emit 0) one (valid-emit 0) in ground arith

pub valid-label_argument :
    (token : Text) (s : Assembler) → valid s ≡ true → valid_result (label_argument token s) ≡ true
unfolding label_argument
valid-label_argument token s h = valid-bind (on_labels _ s) _ (valid-on_labels _ s h) (λ used good.
    valid-bind (label_bytes (half_word token) used) _
      (valid-label_bytes (half_word token) used good) (λ filled fine. fine))

pub valid-char_argument :
    (token : Text) (s : Assembler) → valid s ≡ true → valid_result (char_argument token s) ≡ true
unfolding char_argument
valid-char_argument token s h = valid-bind (emit _ s) _ (valid-emit _ s h) (λ s₁ good.
    valid-bind (if ltb 1 s.expect_arg_size then emit 0 s₁ else ok s₁) _
      (let more = valid-emit 0 s₁ good in ground arith) (λ s₂ fine. ground arith))

pub valid-emit_value :
    (value : ℕ) (s : Assembler) → valid s ≡ true → valid_result (emit_value value s) ≡ true
unfolding emit_value
valid-emit_value value s h =
    let one = valid-emit (low value) s h in
    let two = valid-bind (emit (low value) s) (emit (high value)) one (valid-emit (high value)) in
    ground arith

pub valid-literal_argument :
    (token : Text) (s : Assembler) → valid s ≡ true → valid_result (literal_argument token s) ≡ true
unfolding literal_argument
valid-literal_argument token s h =
    valid-bind (emit_value (strtol token) s) _ (valid-emit_value _ s h) (λ s' good. ground arith)

pub valid-constant_argument :
    (token : Text) (s : Assembler)
    → valid s ≡ true
    → valid_result (constant_argument token s) ≡ true
unfolding constant_argument
valid-constant_argument token s h =
    valid-value (get_or arguments_expected (find_constant token s.constants)) _
      (λ e. valid-bind (emit_value e.value s) _ (valid-emit_value e.value s h) (λ s' good. good))

in_range-section_named :
    (name : Text) (xs : List AsmSection) (i : ℕ)
    → in_range (section_named name xs i) (i + length xs) ≡ true
unfolding section_named
in_range-section_named name [] i = refl
in_range-section_named name (x ∷ xs) i =
    let on = in_range-section_named name xs (i + 1) in ground arith

pub valid-select_section :
    (name : Text) (s : Assembler) → valid s ≡ true → valid_result (select_section name s) ≡ true
unfolding select_section create_section
valid-select_section name s h =
    let found = in_range-section_named name s.sections 0 in
    let longer = length-append s.sections (new_section name s.unwritten ∷ []) in ground arith

pub length-write_value :
    (name : Text) (value : ℕ) (list : List ConstantEntry)
    → length (write_value name value list) ≡ length list
unfolding write_value
length-write_value name value [] = refl
length-write_value name value (e ∷ list) = ground (arith, length-write_value name value list)
