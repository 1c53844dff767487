-- ===== src/Kernel/Klib/Input.antt =====
-- software/kernel/klib.c: the line that `getline` reads.
use cpu.Prelude.{
  ℕ, zero, suc, ◌+◌, ◌-◌, ◌≤◌, ◌≡◌, refl, sym, ap, ap₂, ◌∙◌, inl, inr, Bool, true, false, Option,
  some, List, [], ◌∷◌, ◌++◌, arith, ltb, ◌==◌, if◌then◌else◌, Bool-cases,
}
use cpu.Kernel.Klib.{CString, Line, ends_line, getline_loop, getline}

-- The bytes that are there, without the zeros of an empty buffer.
unfoldable pub received : List ℕ → List ℕ
received [] = []
received (c ∷ cs) = if c == 0 then received cs else c ∷ received cs

unfoldable pub no_line_end : List ℕ → Bool
no_line_end [] = true
no_line_end (c ∷ cs) = if ends_line c then false else no_line_end cs

unfoldable pub first : ℕ → List ℕ → List ℕ
first zero xs = []
first (suc n) [] = []
first (suc n) (x ∷ xs) = x ∷ first n xs

append_assoc : (xs ys zs : List ℕ) → (xs ++ ys) ++ zs ≡ xs ++ (ys ++ zs)
append_assoc [] ys zs = refl
append_assoc (x ∷ xs) ys zs = ap (λ r. x ∷ r) (append_assoc xs ys zs)

append_nil : (xs : List ℕ) → xs ++ [] ≡ xs
append_nil [] = refl
append_nil (x ∷ xs) = ap (λ r. x ∷ r) (append_nil xs)

first-nil : (n : ℕ) → first n [] ≡ []
unfolding first
first-nil zero = refl
first-nil (suc n) = refl

abbrev line_of : CString → List ℕ → List ℕ → Option Line
line_of text echo rest = some (record { text = text; echo = echo; rest = rest })

same_line :
    {text text' echo echo' : List ℕ} (rest : List ℕ)
    → text ≡ text'
    → echo ≡ echo'
    → line_of text echo rest ≡ line_of text' echo' rest
same_line rest t e = ap₂ (λ t e. line_of t e rest) t e

getline_loop-line :
    (bytes rest : List ℕ) (end count : ℕ) (text echo : List ℕ)
    → no_line_end bytes ≡ true
    → ends_line end ≡ true
    → count ≤ 126
    → getline_loop (bytes ++ (end ∷ rest)) count text echo
      ≡ some (record {
        text = text ++ first (126 - count) (received bytes);
        echo = echo ++ (received bytes ++ (end ∷ []));
        rest = rest;
      })
unfolding getline_loop no_line_end received first
getline_loop-line [] rest end count text echo clean ends below = rw ends (
    same_line rest (sym (append_nil text) ∙ ap (λ xs. text ++ xs) (sym (first-nil (126 - count))))
      refl)
getline_loop-line (c ∷ bytes) rest end count text echo clean ends below =
    let inner : ends_line c ≡ false = ground arith in
    let clean' : no_line_end bytes ≡ true = ground arith in
    elim (Bool-cases (c == 0)) [
      | inl nothing ↦
          rw (inner, nothing) (getline_loop-line bytes rest end count text echo clean' ends below)
      | inr byte ↦ elim (Bool-cases (ltb count 126)) [
        | inl room ↦
            let at : 126 - count ≡ suc (126 - (count + 1)) = ground arith in
            rw (inner, byte, room)
              (getline_loop-line bytes rest end (count + 1) (text ++ (c ∷ [])) (echo ++ (c ∷ []))
                  clean' ends (ground arith)
                ∙ same_line rest
                    (append_assoc text (c ∷ []) _
                      ∙ ap (λ n. text ++ first n (c ∷ received bytes)) (sym at))
                    (append_assoc echo (c ∷ []) _))
        | inr full ↦
            let at : 126 - count ≡ 0 = ground arith in
            rw (inner, byte, full)
              (getline_loop-line bytes rest end count text (echo ++ (c ∷ [])) clean' ends below
                ∙ same_line rest
                    (ap (λ n. text ++ first n (received bytes)) at
                      ∙ ap (λ n. text ++ first n (c ∷ received bytes)) (sym at))
                    (append_assoc echo (c ∷ []) _))
      ]
    ]

-- When the bytes that arrive hold an end of line, `getline` returns: the line is the first 126 of the
-- bytes in front of the end that are not 0, or all of them where there are fewer, each of them and the
-- end are echoed, and the bytes behind the end are left to be read.
pub getline_lem :
    (bytes rest : List ℕ) (end : ℕ)
    → no_line_end bytes ≡ true
    → ends_line end ≡ true
    → getline (bytes ++ (end ∷ rest))
      ≡ some (record {
        text = first 126 (received bytes);
        echo = received bytes ++ (end ∷ []);
        rest = rest;
      })
unfolding getline
getline_lem bytes rest end clean ends =
    getline_loop-line bytes rest end 0 [] [] clean ends (omega arith)
