-- ===== src/Binutils/Assemble/Loop/Bounds.antt =====
-- binutils/asm.c: the lists of the assembler stay within their bounds, and the current section is one
-- of the list.
use cpu.Prelude.{
  ℕ, zero, suc, ◌-◌, ◌≤◌, ◌≡◌, refl, sym, ap, ◌∙◌, inl, inr, Bool, true, false, Option, none, some,
  List, [], ◌∷◌, map, arith, Option-cases, length, length-append,
}
use cpu.Binutils.Text.{Text}
use cpu.Binutils.Result.{null_section, bad_instruction, Result, ok, panic, get_or, ◌>>=◌}
use cpu.Binutils.Token.{
  Quoted, char, closed, unfinished, get_next_token, get_quoted_text, Token, skip_comment,
}
use cpu.Binutils.Constants.{ConstantEntry, max_constants, set_constant}
use cpu.Binutils.Keywords.{strtol}
use cpu.Binutils.Asm.{Encoded, without_first, gen_instruction}
use cpu.Binutils.Assemble.{AsmSection, Assembler, emit, emit_all, select_section}
use cpu.Binutils.Assemble.Arguments.{
  label_argument, char_argument, literal_argument, constant_argument,
}
use cpu.Binutils.Assemble.Directives.{
  Going, quoted_turn, ascii, org, skip, align, const, export_label, import_label, import_all,
  with_token, named_directive, directive,
}
use cpu.Binutils.Assemble.Loop.{
  behind_tokens, expecting_of, next_tokens, instruction, without_last, position_label, handle,
  finish, turn, turn_of, follow, assemble, assemble_file,
}
use cpu.Binutils.Assemble.Loop.Valid.{
  valid, valid_result, valid_going, valid-on_current, valid-emit, valid-emit_all, valid-on_labels,
  valid-label_argument, valid-char_argument, valid-literal_argument, valid-constant_argument,
  valid-select_section, length-write_value,
}

abbrev length_of : Option (List ConstantEntry) → ℕ
length_of none = 0
length_of (some list) = length list

set_constant-bound :
    (name : Text) (value : ℕ) (list list' : List ConstantEntry)
    → length list ≤ max_constants
    → set_constant name value list ≡ some list'
    → length list' ≤ max_constants
unfolding set_constant
set_constant-bound name value list list' below h =
    let longer = length-append list (record { name = name; value = value } ∷ []) in
    let same = length-write_value name value list in let len = ap length_of h in ground arith

valid-const :
    (name value : Text) (s : Assembler) → valid s ≡ true → valid_result (const name value s) ≡ true
unfolding const
valid-const name value s h = elim (Option-cases (set_constant name (strtol value) s.constants)) [
  | inl nothing ↦ rw nothing refl
  | inr (list, found) ↦
      let bound = set_constant-bound name (strtol value) s.constants list (ground arith) found in
      rw found ground arith
]

length-map : (f : AsmSection → AsmSection) (xs : List AsmSection) → length (map f xs) ≡ length xs
length-map f [] = refl
length-map f (x ∷ xs) = ground (arith, length-map f xs)

valid-import_all :
    (token : Text) (s : Assembler) → valid s ≡ true → valid (import_all token s) ≡ true
unfolding import_all
valid-import_all token s h = rw (length-map (import_label token) s.sections) h

valid-keeping :
    (cs : Text) (r : Result Assembler)
    → valid_result r ≡ true
    → valid_going (r >>= (λ s. ok (s, cs))) ≡ true
valid-keeping cs (ok s) h = h
valid-keeping cs (panic why) h = refl

valid-then :
    (r : Result Assembler) (f : Assembler → Result Going)
    → valid_result r ≡ true
    → ((s : Assembler) → valid s ≡ true → valid_going (f s) ≡ true)
    → valid_going (r >>= f) ≡ true
valid-then (ok s) f h k = k s h
valid-then (panic why) f h k = refl

valid-quoted_turn :
    (q : Quoted) (s : Assembler) (loop : Text → Assembler → Result Going)
    → valid s ≡ true
    → ((cs : Text) (s' : Assembler) → valid s' ≡ true → valid_going (loop cs s') ≡ true)
    → valid_going (quoted_turn q s loop) ≡ true
unfolding quoted_turn
valid-quoted_turn unfinished s loop h k = refl
valid-quoted_turn (closed rest) s loop h k = h
valid-quoted_turn (char c rest) s loop h k =
    valid-then (emit c s) (loop rest) (valid-emit c s h) (k rest)

valid-ascii :
    (fuel : ℕ) (within : Bool) (cs : Text) (s : Assembler)
    → valid s ≡ true
    → valid_going (ascii fuel within cs s) ≡ true
unfolding ascii
valid-ascii zero within cs s h = refl
valid-ascii (suc fuel) within cs s h =
    valid-quoted_turn (get_quoted_text within cs) s (ascii fuel true) h (valid-ascii fuel true)

valid-with_token :
    (t : Token) (f : Text → Result Assembler)
    → ((token : Text) → valid_result (f token) ≡ true)
    → valid_going (with_token t f) ≡ true
valid-with_token t f h = valid-keeping t.rest (f t.text) (h t.text)

valid-named_directive :
    (name cs : Text) (s : Assembler)
    → valid s ≡ true
    → valid_going (named_directive name cs s) ≡ true
unfolding named_directive org skip align export_label
valid-named_directive name cs s h =
    let t = get_next_token cs in
    let org_valid =
      valid-with_token t (λ token. org token s) (λ token. valid-on_current null_section _ s h) in
    let ascii_valid = valid-ascii (suc (length cs)) false cs s h in
    let skip_valid =
      valid-with_token t (λ token. skip token s) (λ token. valid-on_current null_section _ s h) in
    let align_valid =
      valid-with_token t (λ token. align token s) (λ token. valid-on_current null_section _ s h) in
    let section_valid =
      valid-with_token t (λ token. select_section token s)
        (λ token. valid-select_section token s h) in
    let const_valid =
      valid-with_token (get_next_token t.rest) (λ value. const t.text value s)
        (λ value. valid-const t.text value s h) in
    let export_valid =
      valid-with_token t (λ token. export_label token s) (λ token. valid-on_labels _ s h) in
    let import_valid =
      valid-with_token t (λ token. ok (import_all token s)) (λ token. valid-import_all token s h) in
    ground arith

valid-directive :
    (name cs : Text) (s : Assembler) → valid s ≡ true → valid_going (directive name cs s) ≡ true
unfolding directive
valid-directive name cs s h = let on = valid-named_directive name cs s h in ground arith

valid-encoded :
    (r : Result Encoded) (cs : Text) (s : Assembler)
    → valid s ≡ true
    → valid_going (
        r >>= (λ e.
          emit_all e.bytes s
          >>= (λ s'. ok (expecting_of e s', behind_tokens (3 - length e.rest) cs))))
      ≡ true
valid-encoded (panic why) cs s h = refl
valid-encoded (ok e) cs s h =
    valid-then (emit_all e.bytes s) _ (valid-emit_all e.bytes s h) (λ s' good. ground arith)

valid-instruction :
    (token cs : Text) (s : Assembler) → valid s ≡ true → valid_going (instruction token cs s) ≡ true
unfolding instruction
valid-instruction token cs s h =
    valid-encoded (get_or bad_instruction (gen_instruction token (next_tokens 3 cs))) cs s h

valid-position_label :
    (label : Text) (s : Assembler) → valid s ≡ true → valid_result (position_label label s) ≡ true
unfolding position_label
valid-position_label label s h = valid-on_labels _ s h

valid-handle :
    (token cs : Text) (s : Assembler) → valid s ≡ true → valid_going (handle token cs s) ≡ true
unfolding handle
valid-handle token cs s h =
    let position =
      valid-keeping cs (position_label (without_last token) s)
        (valid-position_label (without_last token) s h) in
    let dot = valid-directive (without_first token) cs s h in
    let label = valid-keeping cs (label_argument token s) (valid-label_argument token s h) in
    let quote = valid-keeping cs (char_argument token s) (valid-char_argument token s h) in
    let number = valid-keeping cs (literal_argument token s) (valid-literal_argument token s h) in
    let constant =
      valid-keeping cs (constant_argument token s) (valid-constant_argument token s h) in
    let code = valid-instruction token cs s h in ground arith

valid-turn_of :
    (r : Result Going) (loop : Text → Assembler → Result Assembler)
    → valid_going r ≡ true
    → ((cs : Text) (s : Assembler) → valid s ≡ true → valid_result (loop cs s) ≡ true)
    → valid_result (follow (turn_of r) loop) ≡ true
valid-turn_of (ok (s, cs)) loop h k = k cs s h
valid-turn_of (panic why) loop h k = refl

valid-turn :
    (cs : Text) (s : Assembler) (loop : Text → Assembler → Result Assembler)
    → valid s ≡ true
    → ((cs' : Text) (s' : Assembler) → valid s' ≡ true → valid_result (loop cs' s') ≡ true)
    → valid_result (follow (turn cs s) loop) ≡ true
unfolding turn finish
valid-turn cs s loop h k =
    let t = get_next_token cs in
    let on = valid-turn_of (handle t.text t.rest s) loop (valid-handle t.text t.rest s h) k in
    let comment = k (skip_comment t.b_getc_last t.rest) s h in ground arith

valid-assemble :
    (fuel : ℕ) (cs : Text) (s : Assembler)
    → valid s ≡ true
    → valid_result (assemble fuel cs s) ≡ true
unfolding assemble
valid-assemble zero cs s h = refl
valid-assemble (suc fuel) cs s h = valid-turn cs s (assemble fuel) h (valid-assemble fuel)

-- Assembling a file from a state whose current section is one of its list, with at most 2048 sections and
-- 256 constants, ends without a state or in one of which the same holds.
pub valid-assemble_file :
    (cs : Text) (s s' : Assembler) → valid s ≡ true → assemble_file cs s ≡ ok s' → valid s' ≡ true
unfolding assemble_file
valid-assemble_file cs s s' h ran =
    sym (ap valid_result ran) ∙ valid-assemble (suc (length cs)) cs s h
