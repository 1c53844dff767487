-- ===== src/Binutils/Reach/Closure.antt =====
-- binutils/link.c: the marked sections are those that the entry needs.
use cpu.Prelude.{
  ℕ, zero, suc, ◌≡◌, refl, sym, subst, ◌⊎◌, inl, inr, true, false, Option, some, List, [], ◌∷◌,
  arith, Bool-cases, Option-cases, get_elem?,
}
use cpu.Binutils.Text.{Text}
use cpu.Binutils.Labels.{LabelEntry}
use cpu.Binutils.Link.{Objects, Node, section_of}
use cpu.Binutils.Reach.{
  Used, is_used, mark, Search, exits, out_of_fuel, done, provider, require_entries, require_label,
}

abbrev pub Below : Used → Used → Type 0
Below u v = (file s : ℕ) → u file s ≡ true → v file s ≡ true

-- The node for a label is there and marked.
abbrev pub Provided : Objects → List Node → Used → Text → Option ℕ → Type 0
Provided o nodes used label from =
    (n : Node) × (provider o nodes label from ≡ some n) × (is_used n used ≡ true)

-- Every label that the section only uses is provided.
abbrev pub Closed : Objects → List Node → Used → ℕ → ℕ → Type 0
Closed o nodes used file s =
    (k : ℕ) (e : LabelEntry)
    → get_elem? (o.sections file s).label_vec k ≡ some e
    → e.present ≡ false
    → Provided o nodes used e.name (some file)

pub Search-cases : (r : Search) → (r ≡ exits) ⊎ ((r ≡ out_of_fuel) ⊎ ((u : Used) × (r ≡ done u)))
Search-cases exits = inl refl
Search-cases out_of_fuel = inr (inl refl)
Search-cases (done u) = inr (inr (u, refl))

pub mark-Below : (n : Node) (u : Used) → Below u (mark n u)
mark-Below n u file s marked = ground (arith, marked)

pub mark_inv :
    (n : Node) (u : Used) (file s : ℕ)
    → mark n u file s ≡ true
    → (u file s ≡ true) ⊎ ((file ≡ n.origin) × (s ≡ n.section))
mark_inv n u file s marked = ground arith

pub mark_self : (n : Node) (u : Used) → is_used n (mark n u) ≡ true
mark_self n u = ground arith

module _ (o : Objects) (nodes : List Node) where
  -- What a call of `require_label` leaves, whatever was marked before.
  pub record Post (label : Text) (from : Option ℕ) (u v : Used) : Type 0 where
    pub grows : Below u v
    pub provided : Provided o nodes v label from
    pub closed : (file s : ℕ) → v file s ≡ true → (u file s ≡ true) ⊎ Closed o nodes v file s

  Provided-Below :
      (u v : Used) (label : Text) (from : Option ℕ)
      → Below u v
      → Provided o nodes u label from
      → Provided o nodes v label from
  Provided-Below u v label from grows (n, found, marked) =
      (n, found, grows n.origin n.section marked)

  Closed-Below :
      (u v : Used) (file s : ℕ) → Below u v → Closed o nodes u file s → Closed o nodes v file s
  Closed-Below u v file s grows closed k e at absent =
      Provided-Below u v e.name (some file) grows (closed k e at absent)

  -- What the loop over the entries leaves.
  record PostAll (file : ℕ) (es : List LabelEntry) (u v : Used) : Type 0 where
    pub grows : Below u v
    pub provided :
        (k : ℕ) (e : LabelEntry)
        → get_elem? es k ≡ some e
        → e.present ≡ false
        → Provided o nodes v e.name (some file)
    pub closed : (file s : ℕ) → v file s ≡ true → (u file s ≡ true) ⊎ Closed o nodes v file s

  Closed-join :
      (u v w : Used)
      → Below v w
      → ((file s : ℕ) → v file s ≡ true → (u file s ≡ true) ⊎ Closed o nodes v file s)
      → ((file s : ℕ) → w file s ≡ true → (v file s ≡ true) ⊎ Closed o nodes w file s)
      → (file s : ℕ) → w file s ≡ true
      → (u file s ≡ true) ⊎ Closed o nodes w file s
  Closed-join u v w grows first second file s marked = elim (second file s marked) [
    | inr closed ↦ inr closed
    | inl before ↦ elim (first file s before) [
      | inl old ↦ inl old
      | inr closed ↦ inr (Closed-Below v w file s grows closed)
    ]
  ]

  Provided-cons :
      (v : Used) (file : ℕ) (e : LabelEntry) (es : List LabelEntry)
      → (e.present ≡ false → Provided o nodes v e.name (some file))
      → ((k : ℕ) (x : LabelEntry)
          → get_elem? es k ≡ some x
          → x.present ≡ false
          → Provided o nodes v x.name (some file))
      → (k : ℕ) (x : LabelEntry) → get_elem? (e ∷ es) k ≡ some x
      → x.present ≡ false
      → Provided o nodes v x.name (some file)
  Provided-cons v file e es first others zero x at absent =
      let same : e ≡ x = cc in
      subst (λ y. Provided o nodes v y.name (some file)) same
        (first (subst (λ y. y.present ≡ false) (sym same) absent))
  Provided-cons v file e es first others (suc k) x at absent = others k x at absent

  require_entries-PostAll :
      (require : Text → Used → Search) (file : ℕ)
      → ((l : Text) (u v : Used) → require l u ≡ done v → Post l (some file) u v)
      → (es : List LabelEntry) (u v : Used) → require_entries require es u ≡ done v
      → PostAll file es u v
  unfolding require_entries
  require_entries-PostAll require file post [] u v run =
      let same : u ≡ v = cc in
      record {
        grows = λ f s h. subst (λ w. w f s ≡ true) same h;
        provided = λ k e at. absurd cc;
        closed = λ f s h. inl (subst (λ w. w f s ≡ true) (sym same) h);
      }
  require_entries-PostAll require file post (e ∷ es) u v run = elim (Bool-cases e.present) [
    | inl present ↦
        let tail = require_entries-PostAll require file post es u v (ground (arith, present)) in
        record {
          grows = tail.grows;
          provided = Provided-cons v file e es (λ absent. absurd cc) tail.provided;
          closed = tail.closed;
        }
    | inr absent ↦ elim (Search-cases (require e.name u)) [
      | inl exit ↦ absurd (ground (arith, absent, exit))
      | inr (inl empty) ↦ absurd (ground (arith, absent, empty))
      | inr (inr (w, call)) ↦
          let first = post e.name u w call in
          let tail =
            require_entries-PostAll require file post es w v (ground (arith, absent, call)) in
          record {
            grows = λ f s h. tail.grows f s (first.grows f s h);
            provided =
                Provided-cons v file e es
                  (λ _. Provided-Below w v e.name (some file) tail.grows first.provided)
                  tail.provided;
            closed = Closed-join u w v tail.grows first.closed tail.closed;
          }
    ]
  ]

  pub require_label-Post :
      (fuel : ℕ) (label : Text) (from : Option ℕ) (u v : Used)
      → require_label o nodes fuel label from u ≡ done v
      → Post label from u v
  unfolding require_label
  require_label-Post zero label from u v run = absurd cc
  require_label-Post (suc fuel) label from u v run =
      elim (Option-cases (provider o nodes label from)) [
        | inl missing ↦ absurd (ground (arith, missing))
        | inr (n, found) ↦ elim (Bool-cases (is_used n u)) [
          | inl marked ↦
              let same : u ≡ v = ground (arith, found, marked) in
              record {
                grows = λ f s h. subst (λ w. w f s ≡ true) same h;
                provided = (n, found, subst (λ w. is_used n w ≡ true) same marked);
                closed = λ f s h. inl (subst (λ w. w f s ≡ true) (sym same) h);
              }
          | inr new ↦
              let all =
                require_entries-PostAll (λ l w. require_label o nodes fuel l (some n.origin) w)
                  n.origin (λ l w x call. require_label-Post fuel l (some n.origin) w x call)
                  (section_of o n).label_vec (mark n u) v (ground (arith, found, new)) in
              record {
                grows = λ f s h. all.grows f s (mark-Below n u f s h);
                provided = (n, found, all.grows n.origin n.section (mark_self n u));
                closed = λ f s h. elim (all.closed f s h) [
                  | inr closed ↦ inr closed
                  | inl before ↦ elim (mark_inv n u f s before) [
                    | inl old ↦ inl old
                    | inr (same_file, same_number) ↦ inr (
                        subst (λ f. Closed o nodes v f s) (sym same_file)
                          (subst (λ s. Closed o nodes v n.origin s) (sym same_number) all.provided))
                  ]
                ];
              }
        ]
      ]
