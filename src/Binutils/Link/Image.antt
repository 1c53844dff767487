-- ===== src/Binutils/Link/Image.antt =====
-- binutils/link.c: the bytes of the placed sections in the file that `main` writes.
use cpu.Prelude.{
  ℕ, suc, ◌+◌, ◌<◌, ◌≡◌, refl, sym, ap, ap₂, ◌∙◌, subst, true, false, some, List, [], ◌∷◌, ◌++◌,
  arith, if◌then◌else◌, length, get_elem?, length-append, get_elem-append_right,
  get_elem-append_left,
}
use mathlib.Core.List.{append_assoc}
use cpu.Binutils.Section.Bytes.{length-bytes, get_elem-bytes}
use cpu.Binutils.Link.{
  Objects, Node, SectionDict, section_of, is_bss, bump, Placed, next_off, place_labels, place_nodes,
  place_dicts, linker_offset_labels, linker_link, chunk, image_nodes, image,
}
use cpu.Binutils.Link.Layout.{
  SameSizes, SameSizes-section, SameSizes-trans, node_size, nodes_size, place_nodes-start,
  nodes_size-SameSizes, place_dicts-SameSizes, linker_link-SameSizes,
}

unfoldable pub all_nodes : List SectionDict → List Node
all_nodes [] = []
all_nodes (d ∷ ds) = d.list ++ all_nodes ds

abbrev pub NoBss : List SectionDict → Type 0
NoBss ds = (k : ℕ) (d : SectionDict) → get_elem? ds k ≡ some d → is_bss d ≡ false

abbrev joined : {A : Type 0} → Placed (List A) → Placed (List A) → Placed (List A)
joined p q = record q { items = p.items ++ q.items }

place_nodes-append :
    (c_off : ℕ) (xs ys : List Node) (o : Objects)
    → place_nodes c_off (xs ++ ys) o
      ≡ joined
          (place_nodes c_off xs o)
          (place_nodes (place_nodes c_off xs o).c_off ys (place_nodes c_off xs o).objects)
unfolding place_nodes
place_nodes-append c_off [] ys o = refl
place_nodes-append c_off (x ∷ xs) ys o =
    ap {A = Placed (List Node)}
      (λ r. record r { items = (if x.used then record x { start = c_off } else x) ∷ r.items })
      (place_nodes-append (next_off c_off x o) xs ys (place_labels c_off x o))

bump-code : (bss : ℕ) (d : SectionDict) (c_off : ℕ) → is_bss d ≡ false → bump bss d c_off ≡ c_off
unfolding bump
bump-code bss d c_off code = rw code refl

-- The placed nodes of the dictionaries `text`, and of what follows them.
place_dicts-all_nodes :
    (bss c_off : ℕ) (text rest : List SectionDict) (o : Objects)
    → NoBss text
    → all_nodes (place_dicts bss c_off (text ++ rest) o).items
      ≡ (place_nodes c_off (all_nodes text) o).items
        ++ all_nodes
            (place_dicts bss
              (place_nodes c_off (all_nodes text) o).c_off
              rest
              (place_nodes c_off (all_nodes text) o).objects).items
unfolding place_dicts all_nodes place_nodes
place_dicts-all_nodes bss c_off [] rest o code = refl
place_dicts-all_nodes bss c_off (d ∷ ds) rest o code =
    let placed = place_nodes c_off d.list o in
    let placed' = place_nodes placed.c_off (all_nodes ds) placed.objects in
    rw
      (
        bump-code bss d c_off (code 0 d refl),
        place_nodes-append c_off d.list (all_nodes ds) o,
        place_dicts-all_nodes bss placed.c_off ds rest placed.objects (λ k. code (suc k)),
      )
      (sym (
        append_assoc placed.items placed'.items
          (all_nodes (place_dicts bss placed'.c_off rest placed'.objects).items)))

image_nodes-append :
    (o : Objects) (xs ys : List Node)
    → image_nodes o (xs ++ ys) ≡ image_nodes o xs ++ image_nodes o ys
unfolding image_nodes
image_nodes-append o [] ys = refl
image_nodes-append o (x ∷ xs) ys =
    rw (image_nodes-append o xs ys) (sym (append_assoc (chunk o x) _ _))

image_nodes-place :
    (o o' : Objects) (c_off : ℕ) (ns : List Node)
    → image_nodes o' (place_nodes c_off ns o).items ≡ image_nodes o' ns
unfolding image_nodes place_nodes
image_nodes-place o o' c_off [] = refl
image_nodes-place o o' c_off (n ∷ ns) =
    ground (arith, image_nodes-place (place_labels c_off n o) o' (next_off c_off n o) ns)

length-chunk : (o : Objects) (n : Node) → length (chunk o n) ≡ node_size o n
length-chunk o n = ground (arith, length-bytes (section_of o n).content 0 (section_of o n).data_pos)

length-image_nodes : (o : Objects) (ns : List Node) → length (image_nodes o ns) ≡ nodes_size o ns
unfolding image_nodes nodes_size
length-image_nodes o [] = refl
length-image_nodes o (n ∷ ns) =
    length-append (chunk o n) (image_nodes o ns)
    ∙ ap₂ ◌+◌ (length-chunk o n) (length-image_nodes o ns)

-- The bytes of the dictionaries `text`, and of what follows them.
place_dicts-image :
    (bss c_off : ℕ) (text rest : List SectionDict) (o p : Objects)
    → NoBss text
    → image p (place_dicts bss c_off (text ++ rest) o).items
      ≡ image_nodes p (place_nodes c_off (all_nodes text) o).items
        ++ image p
            (place_dicts bss
              (place_nodes c_off (all_nodes text) o).c_off
              rest
              (place_nodes c_off (all_nodes text) o).objects).items
unfolding place_dicts all_nodes place_nodes image is_bss image_nodes
place_dicts-image bss c_off [] rest o p code = refl
place_dicts-image bss c_off (d ∷ ds) rest o p code =
    let placed = place_nodes c_off d.list o in
    let placed' = place_nodes placed.c_off (all_nodes ds) placed.objects in
    rw
      (
        bump-code bss d c_off (code 0 d refl),
        code 0 d refl,
        place_nodes-append c_off d.list (all_nodes ds) o,
        place_dicts-image bss placed.c_off ds rest placed.objects p (λ k. code (suc k)),
        image_nodes-append p placed.items placed'.items,
      )
      (sym (
        append_assoc (image_nodes p placed.items) (image_nodes p placed'.items)
          (image p (place_dicts bss placed'.c_off rest placed'.objects).items)))

-- The bytes of the node behind `xs`, in the bytes of a list of nodes.
image_nodes-entry :
    (o : Objects) (xs : List Node) (n : Node) (ys : List Node) (i : ℕ)
    → n.used ≡ true
    → i < (section_of o n).data_pos
    → get_elem? (image_nodes o (xs ++ (n ∷ ys))) (nodes_size o xs + i)
      ≡ some ((section_of o n).content i)
unfolding image_nodes
image_nodes-entry o xs n ys i used below =
    let array = (section_of o n).content in
    let size = (section_of o n).data_pos in
    let bytes_here : get_elem? (chunk o n ++ image_nodes o ys) i ≡ some (array i) = rw used (
      get_elem-bytes array 0 size i (image_nodes o ys) below
      ∙ ap (λ k. some (array k)) {x = 0 + i} {y = i} (omega arith)) in
    ap₂ get_elem? (image_nodes-append o xs (n ∷ ys))
      (ap (λ k. k + i) (sym (length-image_nodes o xs)))
    ∙ get_elem-append_right (image_nodes o xs) (chunk o n ++ image_nodes o ys) i
    ∙ bytes_here

-- In the file that `main` writes after `linker_link` has succeeded, the bytes of every used section
-- before the first bss section are at its start address less the start offset, as long as that
-- address fits 16 bits; and it starts behind the bytes of the used sections before it.
pub linker_image :
    (bss start : ℕ) (text rest : List SectionDict) (o o' : Objects) (xs : List Node) (n : Node)
    (ys : List Node)
    → NoBss text
    → all_nodes text ≡ xs ++ (n ∷ ys)
    → n.used ≡ true
    → start + nodes_size o xs < 65536
    → linker_link
        (linker_offset_labels bss start (text ++ rest) o).items
        (linker_offset_labels bss start (text ++ rest) o).objects
      ≡ some o'
    → (get_elem? (all_nodes (linker_offset_labels bss start (text ++ rest) o).items) (length xs)
        ≡ some (record n { start = start + nodes_size o xs }))
      × ((i : ℕ)
          → i < (section_of o n).data_pos
          → get_elem?
              (image o' (linker_offset_labels bss start (text ++ rest) o).items)
              (nodes_size o xs + i)
            ≡ some ((section_of o' n).content i))
linker_image bss start text rest o o' xs n ys code split used fits run =
    let placed = linker_offset_labels bss start (text ++ rest) o in
    let flat = place_nodes start (all_nodes text) o in
    let behind = (place_dicts bss flat.c_off rest flat.objects).items in
    let same : SameSizes o o' =
      SameSizes-trans o placed.objects o' (place_dicts-SameSizes bss start (text ++ rest) o)
        (linker_link-SameSizes placed.items placed.objects o' run) in
    let nodes : get_elem? flat.items (length xs)
        ≡ some (record n { start = start + nodes_size o xs }) =
      ap (λ ns. get_elem? (place_nodes start ns o).items (length xs)) split
      ∙ place_nodes-start start xs n ys o used fits in
    (
      ap (λ ns. get_elem? ns (length xs)) (place_dicts-all_nodes bss start text rest o code)
          ∙ get_elem-append_left flat.items (all_nodes behind) (length xs) _ nodes,
      λ i below.
          let entry : get_elem? (image_nodes o' flat.items) (nodes_size o xs + i)
              ≡ some ((section_of o' n).content i) =
            ap₂ (λ ns k. get_elem? ns (k + i))
              (image_nodes-place o o' start (all_nodes text) ∙ ap (image_nodes o') split)
              (sym (nodes_size-SameSizes o o' xs same))
            ∙ image_nodes-entry o' xs n ys i used
                (subst (λ size. i < size) (sym (SameSizes-section o o' n same)) below) in
          ap (λ bs. get_elem? bs (nodes_size o xs + i))
            (place_dicts-image bss start text rest o o' code)
          ∙ get_elem-append_left (image_nodes o' flat.items) (image o' behind) (nodes_size o xs + i)
              _ entry,
    )
