-- ===== src/Binutils/Assemble/Emit.antt =====
-- binutils/asm.c: the bytes that `emit` puts into the current section.
use cpu.Prelude.{
  ℕ, zero, suc, ◌+◌, ◌≤◌, ◌<◌, ◌≡◌, refl, sym, ap, ◌∙◌, subst, false, some, List, [], ◌∷◌, arith,
  ◌==◌, length, get_elem?, u8, update,
}
use cpu.Binutils.Result.{ok, ◌>>=◌, ok-bind}
use cpu.Binutils.Assemble.{AsmSection, Assembler, write_at, on_current, emit_byte, emit, emit_all}

pub get_elem-write_at :
    (i : ℕ) (sec old : AsmSection) (xs : List AsmSection)
    → get_elem? xs i ≡ some old
    → get_elem? (write_at i sec xs) i ≡ some sec
unfolding write_at
get_elem-write_at i sec old [] h = absurd cc
get_elem-write_at zero sec old (x ∷ xs) h = refl
get_elem-write_at (suc i) sec old (x ∷ xs) h = get_elem-write_at i sec old xs h

pub get_elem-write_at_ne :
    (i j : ℕ) (sec : AsmSection) (xs : List AsmSection)
    → (j == i) ≡ false
    → get_elem? (write_at i sec xs) j ≡ get_elem? xs j
unfolding write_at
get_elem-write_at_ne i j sec [] h = refl
get_elem-write_at_ne zero zero sec (x ∷ xs) h = absurd cc
get_elem-write_at_ne zero (suc j) sec (x ∷ xs) h = refl
get_elem-write_at_ne (suc i) zero sec (x ∷ xs) h = refl
get_elem-write_at_ne (suc i) (suc j) sec (x ∷ xs) h =
    get_elem-write_at_ne i j sec xs (ground (arith, h))

-- The section `i` is the current one and is `sec`.
abbrev pub IsCurrent : ℕ → AsmSection → Assembler → Type 0
IsCurrent i sec s = (s.current_section ≡ some i) × (get_elem? s.sections i ≡ some sec)

-- What `emit_all` has done to a section.
pub record Filled (bs : List ℕ) (sec sec' : AsmSection) : Type 0 where
  pub end : sec'.data_pos ≡ sec.data_pos + length bs
  pub bound : sec.data_pos ≤ 65534 → sec'.data_pos ≤ 65534
  pub kept : (j : ℕ) → j < sec.data_pos → sec'.image j ≡ sec.image j
  pub stored : (j b : ℕ) → get_elem? bs j ≡ some b → sec'.image (sec.data_pos + j) ≡ u8 b

emit_byte-ok :
    (b : ℕ) (sec sec' : AsmSection)
    → emit_byte b sec ≡ ok sec'
    → (sec.data_pos < 65534)
      × (sec' ≡ (record sec {
        image = update sec.image sec.data_pos (u8 b);
        data_pos = sec.data_pos + 1;
      }))
unfolding emit_byte
emit_byte-ok b sec sec' h = ground arith

stored_of :
    (b : ℕ) (bs : List ℕ) (sec mid sec' : AsmSection)
    → mid.data_pos ≡ sec.data_pos + 1
    → mid.image ≡ update sec.image sec.data_pos (u8 b)
    → Filled bs mid sec'
    → (j c : ℕ) → get_elem? (b ∷ bs) j ≡ some c
    → sec'.image (sec.data_pos + j) ≡ u8 c
stored_of b bs sec mid sec' at image f zero c h =
    let same : b ≡ c = ground (arith, h) in
    ap sec'.image (omega arith)
    ∙ f.kept sec.data_pos (omega arith)
    ∙ ap (λ g. g sec.data_pos) image
    ∙ ground arith
stored_of b bs sec mid sec' at image f (suc j) c h = ap sec'.image (omega arith) ∙ f.stored j c h

Filled-emit_byte :
    (b : ℕ) (bs : List ℕ) (sec mid sec' : AsmSection)
    → emit_byte b sec ≡ ok mid
    → Filled bs mid sec'
    → Filled (b ∷ bs) sec sec'
Filled-emit_byte b bs sec mid sec' h f =
    let step = emit_byte-ok b sec mid h in
    let at : mid.data_pos ≡ sec.data_pos + 1 = ap AsmSection.data_pos step.1 in
    let image : mid.image ≡ update sec.image sec.data_pos (u8 b) = ap AsmSection.image step.1 in
    record {
      end = omega (arith, f.end, at);
      bound = λ below. f.bound (omega (arith, at, step.0));
      kept = λ j below. f.kept j (omega (arith, at)) ∙ ap (λ g. g j) image ∙ ground arith;
      stored = stored_of b bs sec mid sec' at image f;
    }

ok-injective : (s t : Assembler) → ok s ≡ ok t → s ≡ t
ok-injective s t h = cc

emit-ok :
    (b i : ℕ) (sec : AsmSection) (s s' : Assembler)
    → IsCurrent i sec s
    → emit b s ≡ ok s'
    → (mid : AsmSection) × (emit_byte b sec ≡ ok mid)
      × (s' ≡ (record s { sections = write_at i mid s.sections }))
unfolding on_current
emit-ok b i sec s s' (at, found) h =
    let put : AsmSection → Assembler = λ mid. record s { sections = write_at i mid s.sections } in
    let ran : emit b s ≡ (emit_byte b sec >>= (λ mid. ok (put mid))) =
      rw (on_current, at, found) refl in
    let step = ok-bind (emit_byte b sec) (λ mid. ok (put mid)) s' (sym ran ∙ h) in
    (step.0, step.1, ok-injective s' (put step.0) (sym step.2))

Filled-nil : (sec : AsmSection) → Filled [] sec sec
Filled-nil sec = record {
  end = omega arith;
  bound = λ below. below;
  kept = λ j below. refl;
  stored = λ j b h. absurd cc;
}

-- The sections beside the one in the place `i` are the same.
abbrev pub SameOthers : ℕ → Assembler → Assembler → Type 0
SameOthers i s s' = (j : ℕ) → (j == i) ≡ false → get_elem? s'.sections j ≡ get_elem? s.sections j

-- Bytes that are emitted without an error stand in the current section, from its place on and one behind
-- the other, each reduced to 8 bits. The place moves by their number and stays within 65534, the bytes in
-- front of it stay, and no other section changes.
pub emit_all-Filled :
    (bs : List ℕ) (i : ℕ) (sec : AsmSection) (s s' : Assembler)
    → IsCurrent i sec s
    → emit_all bs s ≡ ok s'
    → (sec' : AsmSection) × (IsCurrent i sec' s') × (Filled bs sec sec') × SameOthers i s s'
unfolding emit_all
emit_all-Filled [] i sec s s' at h =
    let same = ok-injective s s' h in
    (
      sec,
      subst (IsCurrent i sec) same at,
      Filled-nil sec,
      λ j other. ap (λ t. get_elem? t.sections j) (sym same),
    )
emit_all-Filled (b ∷ bs) i sec s s' at h =
    let first = ok-bind (emit b s) (emit_all bs) s' h in
    let mid = emit-ok b i sec s first.0 at first.1 in
    let now : IsCurrent i mid.0 first.0 =
      subst (IsCurrent i mid.0) (sym mid.2) (at.0, get_elem-write_at i mid.0 sec s.sections at.1) in
    let on = emit_all-Filled bs i mid.0 first.0 s' now first.2 in
    (
      on.0,
      on.1,
      Filled-emit_byte b bs sec mid.0 on.0 mid.1 on.2,
      λ j other.
          on.3 j other
          ∙ ap (λ t. get_elem? t.sections j) mid.2
          ∙ get_elem-write_at_ne i j mid.0 s.sections other,
    )
