-- ===== src/Vfs/Linked.antt =====
-- A new node under the root, as `vfs_create_base_dirs` of src/vfs.c links it, and the search for it.
use kfs.Prelude.{
  ℕ, suc, ◌<◌, ◌≡◌, ◌≢◌, refl, sym, ap, ◌∙◌, Option, none, some, some-injective, List, [], ◌∷◌,
  ◌++◌, ◌==◌, length, length-append, length-modify, get_or, get_or-modify_self, get_or-modify_ne,
  get_or-modify_field, get_or-append, get_or-append_last, modify, if◌then◌else◌, arith, Bool-cases,
  inl, inr,
}
use kfs.Vfs.{Vfs, Node, node_at, same_text, is_directory, zero_node, directory}
use kfs.Vfs.Lookup.{find_child, vfs_virtual_finddir, add_node}
use kfs.Vfs.Create.{link_child}
use kfs.Vfs.Children.{IsOrdered, Alike, find_child-none, find_child-Alike}

-- A new node is linked as the first child of the root `r`.
module _ (st : Vfs) (r : ℕ) (n : Node) (ordered : IsOrdered st) (rooted : st.root ≡ some r)
    (inside : r < length st.nodes) (leaf : n.children ≡ none) where
  abbrev pub linked : Vfs
  linked = link_child (add_node st n)

  abbrev first : Option ℕ
  first = (node_at (add_node st n).1 r).children

  abbrev grown : List Node
  grown = st.nodes ++ (n ∷ [])

  abbrev in_front : List Node
  in_front =
      modify (λ d. record d { father = some r; next_sibling = first }) grown (length st.nodes)

  abbrev done : List Node
  done = modify (λ (d : Node). record d { children = some (length st.nodes) }) in_front r

  linked_nodes : linked.nodes ≡ done
  unfolding link_child
  linked_nodes = rw rooted refl

  old : (i : ℕ) → i < length st.nodes → get_or in_front i zero_node ≡ node_at st i
  old i h =
      get_or-modify_ne _ grown (length st.nodes) i zero_node (omega arith)
      ∙ get_or-append st.nodes (n ∷ []) i zero_node h

  -- A field that the last write leaves alone.
  kept :
      {B : Type 0} (g : Node → B)
      → ((d : Node) → g (record d { children = some (length st.nodes) }) ≡ g d)
      → (i : ℕ) → i < length st.nodes
      → g (node_at linked i) ≡ g (node_at st i)
  kept g same i h =
      ap (λ ns. g (get_or ns i zero_node)) linked_nodes
      ∙ get_or-modify_field g _ in_front r i zero_node same
      ∙ ap g (old i h)

  new_kept :
      {B : Type 0} (g : Node → B)
      → ((d : Node) → g (record d { children = some (length st.nodes) }) ≡ g d)
      → g (node_at linked (length st.nodes))
        ≡ g (record n { father = some r; next_sibling = first })
  new_kept g same =
      ap (λ ns. g (get_or ns (length st.nodes) zero_node)) linked_nodes
      ∙ get_or-modify_field g _ in_front r (length st.nodes) zero_node same
      ∙ ap g (
          get_or-modify_self _ grown (length st.nodes) zero_node
            (omega (arith, length-append st.nodes (n ∷ [])))
          ∙ ap (λ (d : Node). record d { father = some r; next_sibling = first })
              (get_or-append_last st.nodes n zero_node))

  long : r < length in_front
  long = omega (
    arith,
    length-append st.nodes (n ∷ []),
    length-modify (λ (d : Node). record d { father = some r; next_sibling = first }) grown
        (length st.nodes),
  )

  longer : length linked.nodes ≡ suc (length st.nodes)
  longer =
      ap length linked_nodes
      ∙ length-modify _ in_front r
      ∙ length-modify _ grown (length st.nodes)
      ∙ length-append st.nodes (n ∷ [])
      ∙ omega arith

  -- A node other than the root.
  kept_whole : (i : ℕ) → r ≢ i → node_at linked i ≡ get_or in_front i zero_node
  kept_whole i d =
      ap (λ ns. get_or ns i zero_node) linked_nodes ∙ get_or-modify_ne _ in_front r i zero_node d

  first_before : first ≡ (node_at st r).children
  first_before = ap (λ d. d.children) (get_or-append st.nodes (n ∷ []) r zero_node inside)

  alike : Alike st linked
  alike = record {
    names = kept (λ d. d.name) (λ d. refl);
    siblings = kept (λ d. d.next_sibling) (λ d. refl);
  }

  pub root_same : linked.root ≡ some r
  unfolding link_child
  root_same = rw rooted rooted

  root_child : (node_at linked r).children ≡ some (length st.nodes)
  root_child =
      ap (λ ns. (get_or ns r zero_node).children) linked_nodes
      ∙ ap (λ d. d.children) (get_or-modify_self _ in_front r zero_node long)

  from_first :
      (c : Option ℕ) (name : List ℕ)
      → (node_at st r).children ≡ c
      → find_child (length st.nodes) linked c name ≡ find_child (length st.nodes) st c name
  from_first none name e =
      find_child-none (length st.nodes) linked name
      ∙ sym (find_child-none (length st.nodes) st name)
  from_first (some c) name e =
      let l = ordered.exists r c inside e in
      sym
        (find_child-Alike st linked name (length st.nodes) (length st.nodes) c ordered alike l l l)

  pub linked-finddir :
      (name : List ℕ)
      → vfs_virtual_finddir linked r name ≡ (
          if is_directory (node_at st r).kind
          then (if same_text n.name name
              then some (length st.nodes)
              else vfs_virtual_finddir st r name)
          else none)
  unfolding vfs_virtual_finddir find_child
  linked-finddir name = elim (Bool-cases (is_directory (node_at st r).kind)) [
    | inl k ↦
        rw
          (
            kept (λ d. d.kind) (λ d. refl) r inside,
            k,
            root_child,
            longer,
            new_kept (λ d. d.name) (λ d. refl),
            new_kept (λ d. d.next_sibling) (λ d. refl),
            first_before,
          )
          (ap (λ o. if same_text n.name name then some (length st.nodes) else o)
            (from_first (node_at st r).children name refl))
    | inr k ↦ rw (kept (λ d. d.kind) (λ d. refl) r inside, k) refl
  ]

  no_child : (i c : ℕ) → i ≡ length st.nodes → (node_at linked i).children ≢ some c
  no_child i c at_end e =
      let there =
        kept_whole (length st.nodes) (ground arith)
        ∙ get_or-modify_self _ grown (length st.nodes) zero_node
            (omega (arith, length-append st.nodes (n ∷ [])))
        ∙ ap (λ (d : Node). record d { father = some r; next_sibling = first })
            (get_or-append_last st.nodes n zero_node) in
      let nothing : (node_at linked i).children ≡ none =
        ap (λ k. (node_at linked k).children) at_end ∙ (ap (λ d. d.children) there ∙ leaf) in
      absurd (ground (arith, nothing, e))

  pub linked-IsOrdered : IsOrdered linked
  linked-IsOrdered = record {
    earlier = λ i j h e. elim (Bool-cases (i == length st.nodes)) [
      | inl s ↦
          let at_end : i ≡ length st.nodes = ground arith in
          let next =
            sym first_before
            ∙ (sym (new_kept (λ d. d.next_sibling) (λ d. refl))
                ∙ (ap (λ k. (node_at linked k).next_sibling) (sym at_end) ∙ e)) in
          omega (arith, at_end, ordered.exists r j inside next)
      | inr s ↦
          ordered.earlier i j (ground (arith, longer, h))
            (sym (alike.siblings i (ground (arith, longer, h))) ∙ e)
    ];
    exists = λ i c h e. elim (Bool-cases (i == r)) [
      | inl s ↦
          let at_root : i ≡ r = ground arith in
          let here =
            some-injective (length st.nodes) c
              (sym root_child ∙ (ap (λ k. (node_at linked k).children) (sym at_root) ∙ e)) in
          omega (arith, here, longer)
      | inr s ↦ elim (Bool-cases (i == length st.nodes)) [
        | inl q ↦ absurd (no_child i c (ground arith) e)
        | inr q ↦
            let before : i < length st.nodes = ground (arith, longer, h) in
            let known =
              ap (λ d. d.children) (sym (kept_whole i (ground arith) ∙ old i before)) ∙ e in
            omega (arith, ordered.exists i c before known, longer)
      ]
    ];
  }

-- If every node's siblings and children were allocated before it and exist, and the root is a directory,
-- then after a new node without children is linked under the root, the search that `vfs_init` gives to
-- the root finds that node by its name, for every other name what it found before; every node but the
-- root is as it was, and the order of allocation is kept.
pub link-finddir :
    (st : Vfs) (r : ℕ) (n : Node)
    → IsOrdered st
    → st.root ≡ some r
    → r < length st.nodes
    → (node_at st r).kind ≡ directory
    → n.children ≡ none
    → let st' = link_child (add_node st n) in
      ((name : List ℕ)
        → vfs_virtual_finddir st' r name ≡ (
            if same_text n.name name
            then some (length st.nodes)
            else vfs_virtual_finddir st r name))
      × ((i : ℕ) → i < length st.nodes → r ≢ i → node_at st' i ≡ node_at st i)
      × IsOrdered st'
link-finddir st r n o rooted inside k leaf = (
  λ name.
      linked-finddir st r n o rooted inside leaf name
      ∙ ap
          (λ b.
            if b
            then (if same_text n.name name
                then some (length st.nodes)
                else vfs_virtual_finddir st r name)
            else none)
          (ap is_directory k),
  λ i h d. kept_whole st r n o rooted inside leaf i d ∙ old st r n o rooted inside leaf i h,
  linked-IsOrdered st r n o rooted inside leaf,
)
