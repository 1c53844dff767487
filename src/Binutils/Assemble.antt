-- ===== src/Binutils/Assemble.antt =====
-- binutils/asm.c: the state of the assembler, its sections, and `emit`.
pub mod Emit
pub mod Sections
pub mod Arguments
pub mod Directives
pub mod Loop
use cpu.Prelude.{
  ℕ, zero, suc, ◌+◌, ◌-◌, Bool, true, false, ◌||◌, Option, none, some, List, [], ◌∷◌, ◌++◌, length,
  get_elem?, ltb, leb, ◌==◌, if◌then◌else◌, u8, update,
}
use cpu.Binutils.Text.{Text, codes, str_eq}
use cpu.Binutils.Result.{
  Reason, no_section, section_overflow, max_sections, null_section, negative_place, Result, ok,
  panic, get_or, ◌>>=◌,
}
use cpu.Binutils.Labels.{LabelEntry, LabelUse, Labels}
use cpu.Binutils.Constants.{ConstantEntry}
use cpu.Binutils.Section.{section_name_size}

-- A section while it is filled; `data_pos` is an `int`, in two's complement.
pub record AsmSection : Type 0 where
  pub name : Text
  pub executable : Bool
  pub image : ℕ → ℕ
  pub data_pos : ℕ
  pub label_vec : List LabelEntry
  pub label_mask : List LabelUse

-- The globals of asm.c, and the counter of labels.c. `current_section` is the place of the section in
-- the list, `expect_arg_n` a `char`, and `unwritten` what fresh memory holds.
pub record Assembler : Type 0 where
  pub sections : List AsmSection
  pub current_section : Option ℕ
  pub constants : List ConstantEntry
  pub expect_arg_n : ℕ
  pub expect_arg_size : ℕ
  pub current_label_id : ℕ
  pub unwritten : ℕ → ℕ

abbrev pub int_negative : ℕ → Bool
int_negative x = leb 2147483648 x

abbrev pub max_section_list : ℕ
max_section_list = 2048

-- `!strncmp(name, prefix, strlen(prefix))`
unfoldable pub has_prefix : Text → Text → Bool
has_prefix [] name = true
has_prefix (c ∷ prefix) [] = false
has_prefix (c ∷ prefix) (d ∷ name) = if c == d then has_prefix prefix name else false

abbrev pub is_section_executable : Text → Bool
is_section_executable name = has_prefix (codes "text") name || str_eq name (codes "start_section")

-- `strncpy`, up to the byte that is set to 0.
unfoldable pub cut : ℕ → Text → Text
cut zero s = []
cut (suc n) [] = []
cut (suc n) (c ∷ s) = c ∷ cut n s

unfoldable pub new_section : Text → (ℕ → ℕ) → AsmSection
new_section sect_name unwritten = record {
  name = cut (section_name_size - 1) sect_name;
  executable = is_section_executable sect_name;
  image = unwritten;
  data_pos = 0;
  label_vec = [];
  label_mask = [];
}

unfoldable pub create_section : Text → Assembler → Result Assembler
create_section sect_name s =
    if ltb (length s.sections) max_section_list
    then ok (record s {
      sections = s.sections ++ (new_section sect_name s.unwritten ∷ []);
      current_section = some (length s.sections);
    })
    else panic max_sections

-- The loop of `select_section`, from the section `i` on.
unfoldable pub section_named : Text → List AsmSection → ℕ → Option ℕ
section_named sect_name [] i = none
section_named sect_name (sec ∷ rest) i =
    if str_eq sect_name sec.name then some i else section_named sect_name rest (i + 1)

unfoldable pub select_section : Text → Assembler → Result Assembler
select_section sect_name s = elim (section_named sect_name s.sections 0) [
  | some i ↦ ok (record s { current_section = some i })
  | none ↦ create_section sect_name s
]

-- The section in the place `i`, replaced.
unfoldable pub write_at : ℕ → AsmSection → List AsmSection → List AsmSection
write_at i sec [] = []
write_at zero sec (x ∷ xs) = sec ∷ xs
write_at (suc i) sec (x ∷ xs) = x ∷ write_at i sec xs

-- What `current_section` points to.
abbrev pub current : Assembler → Option AsmSection
current s = elim s.current_section [ none ↦ none | some i ↦ get_elem? s.sections i ]

abbrev pub set_current : AsmSection → Assembler → Assembler
set_current sec s = elim s.current_section [
  | none ↦ s
  | some i ↦ record s { sections = write_at i sec s.sections }
]

-- Work on the current section, with the end of the program when there is none.
unfoldable pub on_current : Reason → (AsmSection → Result AsmSection) → Assembler → Result Assembler
on_current why f s = do sec ← get_or why (current s); sec' ← f sec; ok (set_current sec' s)

-- Behind the array the byte is lost, since the program stops at the next test.
unfoldable pub emit_byte : ℕ → AsmSection → Result AsmSection
emit_byte opcode sec =
    if int_negative sec.data_pos
    then panic negative_place
    else if leb 65534 sec.data_pos
    then panic section_overflow
    else ok (record sec {
      image = update sec.image sec.data_pos (u8 opcode);
      data_pos = sec.data_pos + 1;
    })

abbrev pub emit : ℕ → Assembler → Result Assembler
emit opcode = on_current no_section (emit_byte opcode)

unfoldable pub emit_all : List ℕ → Assembler → Result Assembler
emit_all [] s = ok s
emit_all (b ∷ bs) s = emit b s >>= emit_all bs
