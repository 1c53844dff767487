-- ===== src/Binutils/Reach/Needed.antt =====
-- binutils/link.c: the marked sections are those that the entry needs.
use cpu.Prelude.{
  ℕ, zero, suc, ◌+◌, ◌≡◌, refl, sym, subst, ◌↔◌, inl, inr, true, false, Option, none, some, List,
  [], ◌∷◌, arith, Bool-cases, Option-cases, length, get_elem?,
}
use cpu.Binutils.Text.{Text}
use cpu.Binutils.Labels.{LabelEntry}
use cpu.Binutils.Link.{Objects, Node, section_of}
use cpu.Binutils.Reach.{
  Used, is_used, mark, Search, done, provider, require_entries, require_label, entry_name,
  none_used, mark_used_sects,
}
use cpu.Binutils.Reach.Closure.{Post, Search-cases, mark_inv, require_label-Post}

-- The sections that the entry needs: the one that has its label, and those that have a label that
-- a needed section uses and does not place.
pub data Needed (o : Objects) (nodes : List Node) : ℕ → ℕ → Type 0 where
  by_entry :
      (n : Node) → provider o nodes entry_name none ≡ some n → Needed o nodes n.origin n.section
  by_use :
      (file s k : ℕ) (e : LabelEntry) (n : Node)
      → Needed o nodes file s
      → get_elem? (o.sections file s).label_vec k ≡ some e
      → e.present ≡ false
      → provider o nodes e.name (some file) ≡ some n
      → Needed o nodes n.origin n.section

module _ (o : Objects) (nodes : List Node) where
  AllNeeded : Used → Type 0
  AllNeeded u = (file s : ℕ) → u file s ≡ true → Needed o nodes file s

  require_entries-AllNeeded :
      (require : Text → Used → Search) (file : ℕ)
      → (es : List LabelEntry)
      → ((k : ℕ) (e : LabelEntry) (u v : Used)
          → get_elem? es k ≡ some e
          → e.present ≡ false
          → AllNeeded u
          → require e.name u ≡ done v
          → AllNeeded v)
      → (u v : Used) → AllNeeded u
      → require_entries require es u ≡ done v
      → AllNeeded v
  unfolding require_entries
  require_entries-AllNeeded require file [] call u v needed run =
      let same : u ≡ v = cc in subst AllNeeded same needed
  require_entries-AllNeeded require file (e ∷ es) call u v needed run =
      elim (Bool-cases e.present) [
        | inl present ↦
            require_entries-AllNeeded require file es (λ k. call (suc k)) u v needed
              (ground (arith, present))
        | inr absent ↦ elim (Search-cases (require e.name u)) [
          | inl exit ↦ absurd (ground (arith, absent, exit))
          | inr (inl empty) ↦ absurd (ground (arith, absent, empty))
          | inr (inr (w, step)) ↦
              require_entries-AllNeeded require file es (λ k. call (suc k)) w v
                (call 0 e u w refl absent needed step) (ground (arith, absent, step))
        ]
      ]

  mark-AllNeeded :
      (n : Node) (u : Used) → Needed o nodes n.origin n.section → AllNeeded u → AllNeeded (mark n u)
  unfolding AllNeeded
  mark-AllNeeded n u here needed file s marked = elim (mark_inv n u file s marked) [
    | inl old ↦ needed file s old
    | inr (same_file, same_number) ↦
        subst (λ f. Needed o nodes f s) (sym same_file)
          (subst (λ k. Needed o nodes n.origin k) (sym same_number) here)
  ]

  require_label-AllNeeded :
      (fuel : ℕ) (label : Text) (from : Option ℕ) (u v : Used)
      → ((n : Node) → provider o nodes label from ≡ some n → Needed o nodes n.origin n.section)
      → AllNeeded u
      → require_label o nodes fuel label from u ≡ done v
      → AllNeeded v
  unfolding require_label
  require_label-AllNeeded zero label from u v provides needed run = absurd cc
  require_label-AllNeeded (suc fuel) label from u v provides needed run =
      elim (Option-cases (provider o nodes label from)) [
        | inl missing ↦ absurd (ground (arith, missing))
        | inr (n, found) ↦ elim (Bool-cases (is_used n u)) [
          | inl marked ↦
              let same : u ≡ v = ground (arith, found, marked) in subst AllNeeded same needed
          | inr new ↦
              let here = provides n found in
              require_entries-AllNeeded (λ l w. require_label o nodes fuel l (some n.origin) w)
                n.origin (section_of o n).label_vec
                (λ k e w x at absent before call.
                  require_label-AllNeeded fuel e.name (some n.origin) w x
                    (λ m. by_use n.origin n.section k e m here at absent) before call)
                (mark n u) v (mark-AllNeeded n u here needed) (ground (arith, found, new))
        ]
      ]

  Needed-marked :
      (v : Used) (file s : ℕ)
      → Post o nodes entry_name none none_used v
      → Needed o nodes file s
      → v file s ≡ true
  Needed-marked v file s post (by_entry n found) =
      let (m, found', marked) = post.provided in
      let same : m ≡ n = cc in subst (λ x. is_used x v ≡ true) same marked
  Needed-marked v file s post (by_use file' s' k e n before at absent found) =
      elim (post.closed file' s' (Needed-marked v file' s' post before)) [
        | inl old ↦ absurd cc
        | inr closed ↦
            let (m, found', marked) = closed k e at absent in
            let same : m ≡ n = cc in subst (λ x. is_used x v ≡ true) same marked
      ]

-- When the search for the entry ends without an error, the marked sections are exactly those that
-- the entry needs.
pub mark_used_sects-Needed :
    (o : Objects) (nodes : List Node) (used : Used)
    → mark_used_sects o nodes ≡ done used
    → (file s : ℕ) → (used file s ≡ true) ↔ Needed o nodes file s
unfolding mark_used_sects AllNeeded
mark_used_sects-Needed o nodes used run file s = (
  λ marked.
      require_label-AllNeeded o nodes (length nodes + 1) entry_name none none_used used
        (λ n found. by_entry n found) (λ f s h. absurd cc) run file s marked,
  λ needed.
      Needed-marked o nodes used file s
        (require_label-Post o nodes (length nodes + 1) entry_name none none_used used run) needed,
)
