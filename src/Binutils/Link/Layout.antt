-- ===== src/Binutils/Link/Layout.antt =====
-- binutils/link.c: where `linker_offset_labels` places the sections, and where their bytes are in
-- the file that `main` writes.
use cpu.Prelude.{
  ℕ, ◌+◌, ◌<◌, ◌≡◌, refl, ap, ◌∙◌, subst, inl, inr, true, some, List, [], ◌∷◌, ◌++◌, arith,
  if◌then◌else◌, Bool-cases, Option-cases, length, get_elem?,
}
use cpu.Binutils.Link.{
  LinkSection, Objects, Node, SectionDict, section_of, change_section, offset_section, bump,
  next_off, place_labels, place_nodes, place_dicts, patch_uses, locate_from, link_node, link_nodes,
  linker_link,
}

-- Two states of the loaded files with the same sizes of sections.
pub SameSizes : Objects → Objects → Type 0
SameSizes o o' = (file s : ℕ) → (o'.sections file s).data_pos ≡ (o.sections file s).data_pos

pub change_section-SameSizes :
    (n : Node) (f : LinkSection → LinkSection) (o : Objects)
    → ((s : LinkSection) → (f s).data_pos ≡ s.data_pos)
    → SameSizes o (change_section n f o)
unfolding SameSizes
change_section-SameSizes n f o keep file s = ground (arith, keep (section_of o n))

pub SameSizes-section :
    (o o' : Objects) (n : Node)
    → SameSizes o o'
    → (section_of o' n).data_pos ≡ (section_of o n).data_pos
unfolding SameSizes
SameSizes-section o o' n same = same n.origin n.section

pub SameSizes-refl : (o p : Objects) → o ≡ p → SameSizes o p
unfolding SameSizes
SameSizes-refl o p same file s = cc

pub SameSizes-trans : (o p q : Objects) → SameSizes o p → SameSizes p q → SameSizes o q
unfolding SameSizes
SameSizes-trans o p q h k file s = k file s ∙ h file s

-- The bytes that a node adds to the file.
abbrev pub node_size : Objects → Node → ℕ
node_size o n = if n.used then (section_of o n).data_pos else 0

unfoldable pub nodes_size : Objects → List Node → ℕ
nodes_size o [] = 0
nodes_size o (n ∷ ns) = node_size o n + nodes_size o ns

pub nodes_size-SameSizes :
    (o o' : Objects) (ns : List Node) → SameSizes o o' → nodes_size o' ns ≡ nodes_size o ns
unfolding nodes_size SameSizes
nodes_size-SameSizes o o' [] same = refl
nodes_size-SameSizes o o' (n ∷ ns) same =
    ground (arith, same n.origin n.section, nodes_size-SameSizes o o' ns same)

place_labels-SameSizes : (c_off : ℕ) (n : Node) (o : Objects) → SameSizes o (place_labels c_off n o)
unfolding SameSizes
place_labels-SameSizes c_off n o file s = elim (Bool-cases n.used) [
  | inl used ↦ rw used (change_section-SameSizes n (offset_section c_off) o (λ s. refl) file s)
  | inr idle ↦ rw idle refl
]

next_off-fits :
    (c_off : ℕ) (n : Node) (o : Objects)
    → c_off + node_size o n < 65536
    → next_off c_off n o ≡ c_off + node_size o n
next_off-fits c_off n o fits = ground arith

-- Placement writes positions of labels only.
pub place_nodes-SameSizes :
    (c_off : ℕ) (ns : List Node) (o : Objects) → SameSizes o (place_nodes c_off ns o).objects
unfolding place_nodes SameSizes
place_nodes-SameSizes c_off [] o file s = refl
place_nodes-SameSizes c_off (n ∷ ns) o file s =
    place_nodes-SameSizes (next_off c_off n o) ns (place_labels c_off n o) file s
    ∙ place_labels-SameSizes c_off n o file s

-- The node behind `xs` starts behind the bytes of `xs`.
pub place_nodes-start :
    (c_off : ℕ) (xs : List Node) (n : Node) (ys : List Node) (o : Objects)
    → n.used ≡ true
    → c_off + nodes_size o xs < 65536
    → get_elem? (place_nodes c_off (xs ++ (n ∷ ys)) o).items (length xs)
      ≡ some (record n { start = c_off + nodes_size o xs })
unfolding place_nodes nodes_size
place_nodes-start c_off [] n ys o used fits = ground arith
place_nodes-start c_off (x ∷ xs) n ys o used fits =
    let o' = place_labels c_off x o in
    let next : next_off c_off x o ≡ c_off + node_size o x = next_off-fits c_off x o (omega arith) in
    let size : nodes_size o' xs ≡ nodes_size o xs =
      nodes_size-SameSizes o o' xs (place_labels-SameSizes c_off x o) in
    place_nodes-start (next_off c_off x o) xs n ys o' used (omega arith)
    ∙ ap (λ c. some (record n { start = c })) (omega (arith, next, size))

pub place_dicts-SameSizes :
    (bss c_off : ℕ) (ds : List SectionDict) (o : Objects)
    → SameSizes o (place_dicts bss c_off ds o).objects
unfolding place_dicts
place_dicts-SameSizes bss c_off [] o = SameSizes-refl o o refl
place_dicts-SameSizes bss c_off (d ∷ ds) o =
    let placed = place_nodes (bump bss d c_off) d.list o in
    SameSizes-trans o placed.objects (place_dicts bss placed.c_off ds placed.objects).objects
      (place_nodes-SameSizes (bump bss d c_off) d.list o)
      (place_dicts-SameSizes bss placed.c_off ds placed.objects)

-- Linking keeps the sizes of the sections.
link_node-SameSizes : (n : Node) (o o' : Objects) → link_node n o ≡ some o' → SameSizes o o'
unfolding link_node
link_node-SameSizes n o o' run =
    let mask = (section_of o n).label_mask in
    elim (Bool-cases n.used) [
      | inr idle ↦ SameSizes-refl o o' (ground (arith, idle))
      | inl used ↦
          elim (Option-cases (patch_uses (locate_from n o) mask (section_of o n).content)) [
            | inl stops ↦ absurd (ground (arith, used, stops))
            | inr (content, patched) ↦
                subst (SameSizes o) {x = change_section n (λ s. record s { content = content }) o}
                  {y = o'} (ground (arith, used, patched))
                  (change_section-SameSizes n (λ s. record s { content = content }) o (λ s. refl))
          ]
    ]

link_nodes-SameSizes :
    (ns : List Node) (o o' : Objects) → link_nodes ns o ≡ some o' → SameSizes o o'
unfolding link_nodes
link_nodes-SameSizes [] o o' run = SameSizes-refl o o' cc
link_nodes-SameSizes (n ∷ ns) o o' run = elim (Option-cases (link_node n o)) [
  | inl stops ↦ absurd (ground (arith, stops))
  | inr (p, step) ↦
      SameSizes-trans o p o' (link_node-SameSizes n o p step)
        (link_nodes-SameSizes ns p o' (ground (arith, step)))
]

pub linker_link-SameSizes :
    (ds : List SectionDict) (o o' : Objects) → linker_link ds o ≡ some o' → SameSizes o o'
unfolding linker_link
linker_link-SameSizes [] o o' run = SameSizes-refl o o' cc
linker_link-SameSizes (d ∷ ds) o o' run = elim (Option-cases (link_nodes d.list o)) [
  | inl stops ↦ absurd (ground (arith, stops))
  | inr (p, step) ↦
      SameSizes-trans o p o' (link_nodes-SameSizes d.list o p step)
        (linker_link-SameSizes ds p o' (ground (arith, step)))
]
