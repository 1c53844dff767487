-- ===== src/Binutils/Assemble/Loop/Ends.antt =====
-- binutils/asm.c: every turn of the loop of `assemble` but the last reads a byte, so that the
-- loop ends.
use cpu.Prelude.{
  ℕ, zero, suc, ◌-◌, ◌≤◌, ◌<◌, ◌≡◌, refl, ap, ◌≢◌, ◌⊎◌, inl, inr, Bool, true, false, Option, none,
  some, [], ◌∷◌, arith, ltb, leb, ◌==◌, Bool-cases, length,
}
use cpu.Binutils.Assemble.Loop.Fuel.{
  has_fuel, fueled, fueled-bind, fueled-get_or, fueled-on_current, fueled-on_labels, fueled-emit,
  fueled-emit_all, fueled-label_argument, fueled-char_argument, fueled-literal_argument,
  fueled-constant_argument,
}
use cpu.Binutils.Text.{Text}
use cpu.Binutils.Result.{
  Reason, constant_list_overflow, bad_instruction, no_such_label, null_section, out_of_fuel, Result,
  ok, panic, get_or, ◌>>=◌, Result-cases,
}
use cpu.Binutils.Token.{
  get_next_token, is_empty, skip_comment, Quoted, char, closed, unfinished, get_quoted_text,
  inside_quotes,
}
use cpu.Binutils.Token.Words.{length-rest, length-behind_line, length-rest_strict}
use cpu.Binutils.Labels.{mark_label_export}
use cpu.Binutils.Constants.{set_constant}
use cpu.Binutils.Keywords.{starts_with, strtol}
use cpu.Binutils.Asm.{Encoded, without_first, gen_instruction}
use cpu.Binutils.Assemble.{Assembler, emit, emit_all, select_section, create_section}
use cpu.Binutils.Assemble.Directives.{
  Going, align_section, ascii, quoted_turn, org, skip, align, const, export_label, import_all,
  with_token, named_directive, directive,
}
use cpu.Binutils.Assemble.Loop.{
  behind_tokens, expecting_of, next_tokens, instruction, without_last, position_label, keeping,
  turn_of, handle, finish, Turn, again, stop, turn, follow, assemble, assemble_file,
}

-- The file left is no longer than `n`, where the result has one.
abbrev pub fits : ℕ → Result Going → Bool
fits n (ok (s, cs)) = leb (length cs) n
fits n (panic why) = has_fuel why

fits-keeping :
    (cs : Text) (r : Result Assembler) (n : ℕ)
    → fueled r ≡ true
    → length cs ≤ n
    → fits n (r >>= (λ s. ok (s, cs))) ≡ true
fits-keeping cs (ok s) n h below = ground arith
fits-keeping cs (panic why) n h below = h

-- A byte of a quoted text shortens the file.
abbrev shorter : ℕ → Quoted → Bool
shorter n (char c rest) = ltb (length rest) n
shorter n (closed rest) = leb (length rest) n
shorter n unfinished = true

shorter-inside_quotes : (cs : Text) → shorter (length cs) (inside_quotes cs) ≡ true
unfolding inside_quotes
shorter-inside_quotes [] = refl
shorter-inside_quotes (c ∷ []) = ground arith
shorter-inside_quotes (c ∷ d ∷ cs) = ground arith

shorter-weaken : (n m : ℕ) (q : Quoted) → shorter n q ≡ true → n ≤ m → shorter m q ≡ true
shorter-weaken n m (char c rest) h below = ground arith
shorter-weaken n m (closed rest) h below = ground arith
shorter-weaken n m unfinished h below = refl

shorter-get_quoted_text :
    (within : Bool) (cs : Text) → shorter (length cs) (get_quoted_text within cs) ≡ true
unfolding get_quoted_text
shorter-get_quoted_text true cs = shorter-inside_quotes cs
shorter-get_quoted_text false [] = refl
shorter-get_quoted_text false (c ∷ cs) = elim (Bool-cases (c == b'"')) [
  | inl opens ↦ rw opens (
      shorter-weaken (length cs) (suc (length cs)) (inside_quotes cs) (shorter-inside_quotes cs)
        (omega arith))
  | inr other ↦ rw other (
      shorter-weaken (length cs) (suc (length cs)) (get_quoted_text false cs)
        (shorter-get_quoted_text false cs) (omega arith))
]

fits-weaken : (n m : ℕ) (r : Result Going) → fits n r ≡ true → n ≤ m → fits m r ≡ true
fits-weaken n m (ok (s, cs)) h below = ground arith
fits-weaken n m (panic why) h below = h

fits-bind :
    (r : Result Assembler) (f : Assembler → Result Going) (n : ℕ)
    → fueled r ≡ true
    → ((s : Assembler) → fits n (f s) ≡ true)
    → fits n (r >>= f) ≡ true
fits-bind (ok s) f n h k = k s
fits-bind (panic why) f n h k = h

-- A turn of `ascii`, where the rest of the loop fits.
fits-quoted_turn :
    (n : ℕ) (q : Quoted) (s : Assembler) (loop : Text → Assembler → Result Going)
    → shorter n q ≡ true
    → ((rest : Text) (s' : Assembler) → length rest < n → fits n (loop rest s') ≡ true)
    → fits n (quoted_turn q s loop) ≡ true
unfolding quoted_turn
fits-quoted_turn n unfinished s loop h k = refl
fits-quoted_turn n (closed rest) s loop h k = h
fits-quoted_turn n (char c rest) s loop h k =
    fits-bind (emit c s) _ n (fueled-emit c s) (λ s'. k rest s' (ground arith))

fits-ascii :
    (fuel : ℕ) (within : Bool) (cs : Text) (s : Assembler)
    → length cs < fuel
    → fits (length cs) (ascii fuel within cs s) ≡ true
unfolding ascii
fits-ascii zero within cs s below = absurd (omega arith)
fits-ascii (suc fuel) within cs s below =
    fits-quoted_turn (length cs) (get_quoted_text within cs) s (ascii fuel true)
      (shorter-get_quoted_text within cs)
      (λ rest s' less.
        fits-weaken (length rest) (length cs) (ascii fuel true rest s')
          (fits-ascii fuel true rest s' (omega arith)) (omega arith))

fits-with_token :
    (cs : Text) (n : ℕ) (f : Text → Result Assembler)
    → ((token : Text) → fueled (f token) ≡ true)
    → length cs ≤ n
    → fits n (with_token (get_next_token cs) f) ≡ true
fits-with_token cs n f h below =
    let less = length-rest [] cs in
    fits-keeping (get_next_token cs).rest (f (get_next_token cs).text) n (h _) (omega arith)

fueled-select_section : (name : Text) (s : Assembler) → fueled (select_section name s) ≡ true
unfolding select_section create_section
fueled-select_section name s = ground arith

fueled-align : (token : Text) (s : Assembler) → fueled (align token s) ≡ true
unfolding align align_section
fueled-align token s = fueled-on_current null_section _ s refl (λ sec. ground arith)

fueled-const : (name value : Text) (s : Assembler) → fueled (const name value s) ≡ true
unfolding const
fueled-const name value s =
    fueled-bind (get_or constant_list_overflow (set_constant name (strtol value) s.constants)) _
      (fueled-get_or constant_list_overflow (set_constant name (strtol value) s.constants) refl)
      (λ constants. refl)

fueled-export_label : (token : Text) (s : Assembler) → fueled (export_label token s) ≡ true
unfolding export_label
fueled-export_label token s =
    fueled-on_labels _ s (λ sec l. fueled-get_or no_such_label (mark_label_export token l) refl)

fits-named_directive :
    (name cs : Text) (s : Assembler) → fits (length cs) (named_directive name cs s) ≡ true
unfolding named_directive org skip
fits-named_directive name cs s =
    let n = length cs in
    let t = get_next_token cs in
    let less = length-rest [] cs in
    let org_fits =
      fits-with_token cs n (λ token. org token s)
        (λ token. fueled-on_current null_section _ s refl (λ sec. refl)) (omega arith) in
    let ascii_fits = fits-ascii (suc n) false cs s (omega arith) in
    let skip_fits =
      fits-with_token cs n (λ token. skip token s)
        (λ token. fueled-on_current null_section _ s refl (λ sec. refl)) (omega arith) in
    let align_fits =
      fits-with_token cs n (λ token. align token s) (λ token. fueled-align token s) (omega arith) in
    let section_fits =
      fits-with_token cs n (λ token. select_section token s)
        (λ token. fueled-select_section token s) (omega arith) in
    let const_fits =
      fits-with_token t.rest n (λ value. const t.text value s)
        (λ value. fueled-const t.text value s) less in
    let export_fits =
      fits-with_token cs n (λ token. export_label token s) (λ token. fueled-export_label token s)
        (omega arith) in
    let import_fits =
      fits-with_token cs n (λ token. ok (import_all token s)) (λ token. refl) (omega arith) in
    ground arith

length-behind_tokens : (n : ℕ) (cs : Text) → length (behind_tokens n cs) ≤ length cs
unfolding behind_tokens
length-behind_tokens zero cs = omega arith
length-behind_tokens (suc n) cs =
    let on = length-behind_tokens n (get_next_token cs).rest in
    let less = length-rest [] cs in omega arith

fits-encoded :
    (r : Result Encoded) (cs : Text) (s : Assembler)
    → fueled r ≡ true
    → fits (length cs) (
        r >>= (λ e.
          emit_all e.bytes s
          >>= (λ s'. ok (expecting_of e s', behind_tokens (3 - length e.rest) cs))))
      ≡ true
fits-encoded (panic why) cs s h = h
fits-encoded (ok e) cs s h =
    fits-bind (emit_all e.bytes s) _ (length cs) (fueled-emit_all e.bytes s)
      (λ s'. let less = length-behind_tokens (3 - length e.rest) cs in ground arith)

fits-instruction :
    (token cs : Text) (s : Assembler) → fits (length cs) (instruction token cs s) ≡ true
unfolding instruction
fits-instruction token cs s =
    fits-encoded (get_or bad_instruction (gen_instruction token (next_tokens 3 cs))) cs s
      (fueled-get_or bad_instruction (gen_instruction token (next_tokens 3 cs)) refl)

fits-directive : (name cs : Text) (s : Assembler) → fits (length cs) (directive name cs s) ≡ true
unfolding directive
fits-directive name cs s = (let on = fits-named_directive name cs s in ground arith)

fueled-position_label : (label : Text) (s : Assembler) → fueled (position_label label s) ≡ true
unfolding position_label
fueled-position_label label s = fueled-on_labels _ s (λ sec l. refl)

fits-handle : (token cs : Text) (s : Assembler) → fits (length cs) (handle token cs s) ≡ true
unfolding handle
fits-handle token cs s =
    let kept : (r : Result Assembler) → fueled r ≡ true → fits (length cs) (keeping cs r) ≡ true =
      λ r h. fits-keeping cs r (length cs) h (omega arith) in
    let position = kept _ (fueled-position_label (without_last token) s) in
    let dot = fits-directive (without_first token) cs s in
    let label = kept _ (fueled-label_argument token s) in
    let quote = kept _ (fueled-char_argument token s) in
    let number = kept _ (fueled-literal_argument token s) in
    let constant = kept _ (fueled-constant_argument token s) in
    let code = fits-instruction token cs s in ground arith

-- A turn goes on with a shorter file, or ends with fuel left.
abbrev pub turns : ℕ → Turn → Bool
turns n (again s cs) = ltb (length cs) n
turns n (stop r) = fueled r

turns-turn_of : (n m : ℕ) (r : Result Going) → fits n r ≡ true → n < m → turns m (turn_of r) ≡ true
turns-turn_of n m (ok (s, cs)) h below = ground arith
turns-turn_of n m (panic why) h below = h

length-skip_comment : (last : Option ℕ) (cs : Text) → length (skip_comment last cs) ≤ length cs
unfolding skip_comment
length-skip_comment none cs = length-behind_line cs
length-skip_comment (some c) cs = ground (arith, length-behind_line cs)

fueled-finish : (s : Assembler) → fueled (finish s) ≡ true
unfolding finish
fueled-finish s = ground arith

is_empty-starts_with : (c : ℕ) (t : Text) → starts_with c t ≡ true → is_empty t ≡ false
is_empty-starts_with c [] h = cc
is_empty-starts_with c (d ∷ t) h = refl

turns-turn : (cs : Text) (s : Assembler) → turns (length cs) (turn cs s) ≡ true
unfolding turn
turns-turn cs s =
    let t = get_next_token cs in
    elim (Bool-cases (starts_with b';' t.text)) [
      | inl comment ↦
          let strict = length-rest_strict cs (is_empty-starts_with b';' t.text comment) in
          let less = length-skip_comment t.b_getc_last t.rest in rw comment ground arith
      | inr other ↦ elim (Bool-cases (is_empty t.text)) [
        | inl last ↦ rw (other, last) (fueled-finish s)
        | inr more ↦
            rw (other, more)
              (turns-turn_of (length t.rest) (length cs) (handle t.text t.rest s)
                (fits-handle t.text t.rest s) (length-rest_strict cs more))
      ]
    ]

fueled-follow :
    (n : ℕ) (t : Turn) (loop : Text → Assembler → Result Assembler)
    → turns n t ≡ true
    → ((cs : Text) (s : Assembler) → length cs < n → fueled (loop cs s) ≡ true)
    → fueled (follow t loop) ≡ true
fueled-follow n (again s cs) loop h k = k cs s (ground arith)
fueled-follow n (stop r) loop h k = h

fueled-assemble :
    (fuel : ℕ) (cs : Text) (s : Assembler) → length cs < fuel → fueled (assemble fuel cs s) ≡ true
unfolding assemble
fueled-assemble zero cs s below = absurd (omega arith)
fueled-assemble (suc fuel) cs s below =
    fueled-follow (length cs) (turn cs s) (assemble fuel) (turns-turn cs s)
      (λ cs' s' less. fueled-assemble fuel cs' s' (omega arith))

follow-same :
    (n : ℕ) (t : Turn) (loop loop' : Text → Assembler → Result Assembler)
    → turns n t ≡ true
    → ((cs : Text) (s : Assembler) → length cs < n → loop cs s ≡ loop' cs s)
    → follow t loop ≡ follow t loop'
follow-same n (again s cs) loop loop' h k = k cs s (ground arith)
follow-same n (stop r) loop loop' h k = refl

-- With more fuel than the file has bytes, the amount makes no difference.
pub assemble-same :
    (fuel fuel' : ℕ) (cs : Text) (s : Assembler)
    → length cs < fuel
    → length cs < fuel'
    → assemble fuel cs s ≡ assemble fuel' cs s
unfolding assemble
assemble-same zero fuel' cs s below below' = absurd (omega arith)
assemble-same (suc fuel) zero cs s below below' = absurd (omega arith)
assemble-same (suc fuel) (suc fuel') cs s below below' =
    follow-same (length cs) (turn cs s) (assemble fuel) (assemble fuel') (turns-turn cs s)
      (λ cs' s' less. assemble-same fuel fuel' cs' s' (omega arith) (omega arith))

-- Assembling a file, from any state, ends by itself: it gives a state, or a message of the program,
-- or one of the three ends that C leaves undefined, but never runs out of the model's fuel.
pub assemble_file-ends :
    (cs : Text) (s : Assembler)
    → ((s' : Assembler) × (assemble_file cs s ≡ ok s'))
      ⊎ ((why : Reason) × (assemble_file cs s ≡ panic why) × (why ≢ out_of_fuel))
unfolding assemble_file
assemble_file-ends cs s =
    let h = fueled-assemble (suc (length cs)) cs s (omega arith) in
    elim (Result-cases (assemble (suc (length cs)) cs s)) [
      | inl done ↦ inl done
      | inr (why, e) ↦ inr (why, e, λ w. absurd (ground (arith, ap fueled e)))
    ]
