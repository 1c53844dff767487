-- ===== src/Binutils/Assemble/Loop/Layout.antt =====
-- binutils/asm.c and binutils/token.c: comments and separators.
use cpu.Prelude.{ℕ, suc, ◌≡◌, refl, ap, ◌∙◌, true, [], ◌∷◌, ◌++◌, arith, length, length-append}
use cpu.Binutils.Text.{Text}
use cpu.Binutils.Token.{separates, token_loop}
use cpu.Binutils.Token.Words.{
  no_newline, get_next_token-separator, skip_comment-token_loop, starts-token_loop,
}
use cpu.Binutils.Keywords.{starts_with}
use cpu.Binutils.Assemble.{Assembler}
use cpu.Binutils.Assemble.Loop.{turn, again, follow, assemble, assemble_file}
use cpu.Binutils.Assemble.Loop.Ends.{assemble-same}

turn-comment :
    (comment cs : Text) (s : Assembler)
    → no_newline comment ≡ true
    → turn (b';' ∷ (comment ++ (b'\n' ∷ cs))) s ≡ again s cs
unfolding turn token_loop
turn-comment comment cs s one_line =
    let line = comment ++ (b'\n' ∷ cs) in
    let begun = starts-token_loop b';' [] line in
    rw (ap (starts_with b';') begun.1)
      (ap (again s) (skip_comment-token_loop (b';' ∷ []) comment cs refl one_line))

turn-separator :
    (c : ℕ) (cs : Text) (s : Assembler) → separates c ≡ true → turn (c ∷ cs) s ≡ turn cs s
unfolding turn
turn-separator c cs s sep = rw (get_next_token-separator c cs sep) refl

-- A line that is a comment assembles to nothing: from any state, the file goes on as if the line, from
-- its semicolon to its end of line, were not there. The same holds of a separator in front of a token.
pub assemble_file-comment :
    (comment cs : Text) (c : ℕ) (s : Assembler)
    → no_newline comment ≡ true
    → separates c ≡ true
    → (assemble_file (b';' ∷ (comment ++ (b'\n' ∷ cs))) s ≡ assemble_file cs s)
      × (assemble_file (c ∷ cs) s ≡ assemble_file cs s)
unfolding assemble_file assemble
assemble_file-comment comment cs c s one_line sep =
    let line = comment ++ (b'\n' ∷ cs) in
    let long = length-append comment (b'\n' ∷ cs) in
    (
      ap (λ t. follow t (assemble (suc (length line)))) (turn-comment comment cs s one_line)
          ∙ assemble-same (suc (length line)) (suc (length cs)) cs s (omega arith) (omega arith),
      ap (λ t. follow t (assemble (suc (length cs)))) (turn-separator c cs s sep)
          ∙ assemble-same (suc (suc (length cs))) (suc (length cs)) cs s (omega arith)
              (omega arith),
    )
