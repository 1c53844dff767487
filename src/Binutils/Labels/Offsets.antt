-- ===== src/Binutils/Labels/Offsets.antt =====
-- binutils/labels.c: how the text of a use is cut into a name and an offset.
use cpu.Prelude.{
  ℕ, zero, suc, ◌+◌, ◌≤◌, ◌≡◌, ◌≢◌, refl, arith, none, some, [], ◌∷◌, ◌++◌, length, u16, inl, inr,
  Option-cases,
}
use cpu.Binutils.Text.{Text, strchr, before}
use cpu.Binutils.Labels.{next_sign, signed_term, offset_sum, label_name}

strchr-append_self :
    (c : ℕ) (s t : Text) → strchr c s ≡ none → strchr c (s ++ (c ∷ t)) ≡ some (c ∷ t)
unfolding strchr
strchr-append_self c [] t h = ground arith
strchr-append_self c (a ∷ s) t h = ground (arith, strchr-append_self c s t)

before-append_self : (c : ℕ) (s t : Text) → strchr c s ≡ none → before c (s ++ (c ∷ t)) ≡ s
unfolding strchr before
before-append_self c [] t h = ground arith
before-append_self c (a ∷ s) t h = ground (arith, before-append_self c s t)

before_all : (c : ℕ) (s : Text) → strchr c s ≡ none → before c s ≡ s
unfolding strchr before
before_all c [] h = refl
before_all c (a ∷ s) h = ground (arith, before_all c s)

strchr-append_ne :
    (c d : ℕ) (s t : Text)
    → c ≢ d
    → strchr c s ≡ none
    → strchr c t ≡ none
    → strchr c (s ++ (d ∷ t)) ≡ none
unfolding strchr
strchr-append_ne c d [] t ne h k = ground arith
strchr-append_ne c d (a ∷ s) t ne h k = ground (arith, strchr-append_ne c d s t ne)

-- The name of a use ends before the first '+', so that a '-' that stands before it stays in the
-- name; only a text with no '+' is cut at its first '-'; a text with neither is the name.
pub label_name_lem :
    (s t : Text)
    → strchr b'+' s ≡ none
    → (label_name (s ++ (b'+' ∷ t)) ≡ s)
      × (strchr b'-' s ≡ none → strchr b'+' t ≡ none → label_name (s ++ (b'-' ∷ t)) ≡ s)
      × (strchr b'-' s ≡ none → label_name s ≡ s)
unfolding label_name
label_name_lem s t h = (
  rw (strchr-append_self b'+' s t h, label_name) (before-append_self b'+' s t h),
  λ k l.
      rw (strchr-append_ne b'+' b'-' s t (omega arith) h l, label_name)
        (before-append_self b'-' s t k),
  λ k. rw (h, label_name) (before_all b'-' s k),
)

length-strchr : (c : ℕ) (s p : Text) → strchr c s ≡ some p → length p ≤ length s
unfolding strchr
length-strchr c [] p h = cc
length-strchr c (a ∷ s) p h = ground (arith, length-strchr c s p)

length-next_sign : (s p : Text) → next_sign s ≡ some p → length p ≤ length s
unfolding next_sign
length-next_sign s p h = elim (Option-cases (strchr b'+' s)) [
  | inl absent ↦ length-strchr b'-' s p (rw (absent, next_sign) at h)
  | inr (q, e) ↦ ground (arith, length-strchr b'+' s q)
]

offset_sum-nil : (fuel offset : ℕ) → offset_sum fuel [] offset ≡ offset
unfolding offset_sum next_sign strchr
offset_sum-nil zero offset = refl
offset_sum-nil (suc fuel) offset = refl

-- Any two amounts of fuel that reach the length of the text give the same sum: the loop of
-- `calculate_offset_sum` has ended by then.
pub offset_sum_fuel :
    (n m : ℕ) (s : Text) (offset : ℕ)
    → length s ≤ n
    → length s ≤ m
    → offset_sum n s offset ≡ offset_sum m s offset
unfolding offset_sum
offset_sum_fuel zero m [] offset h k = rw (offset_sum-nil m offset)
offset_sum_fuel zero m (c ∷ s) offset h k = absurd (omega arith)
offset_sum_fuel (suc n) zero [] offset h k = offset_sum-nil (suc n) offset
offset_sum_fuel (suc n) zero (c ∷ s) offset h k = absurd (omega arith)
offset_sum_fuel (suc n) (suc m) s offset h k = elim (Option-cases (next_sign s)) [
  | inl absent ↦ rw (absent, offset_sum)
  | inr ([], e) ↦ rw (e, offset_sum)
  | inr (sign ∷ rest, e) ↦
      let shorter = length-next_sign s (sign ∷ rest) e in
      rw (e, offset_sum)
        (offset_sum_fuel n m rest (u16 (offset + signed_term sign rest)) (omega arith)
          (omega arith))
]
