-- ===== src/Shell/Listing.antt =====
-- The loop of `ls` of src/shell.c ends.
use kfs.Prelude.{
  ℕ, zero, suc, ◌+◌, ◌<◌, ◌≤◌, ◌≡◌, ◌⊎◌, ◌≢◌, refl, ap, sym, subst, ◌∙◌, Bool, true, false, ◌||◌,
  inl, inr, Option, none, some, List, [], ◌∷◌, length, length-append, get_or-append, get_elem?,
  get_elem?-lt, arith, Bool-cases, Option-cases, codes, if◌then◌else◌, ltb,
}
use kfs.Vfs.{
  Vfs, Node, Filesystem, InodeField, number, file_data, Operation, null, virtual, ext2, node_at,
  is_directory, same_text,
}
use kfs.Vfs.Lookup.{
  vfs_readdir, vfs_virtual_readdir, vfs_ext2_readdir, vfs_create_node_from_ext2, nth_child,
  add_node,
}
use kfs.Vfs.Children.{IsOrdered}
use kfs.Shell.{Shell, Answers, returned, say}
use kfs.Shell.Files.{list_from, list_node, listed, print_entry, entry_bound, disk_entries}

-- Nodes were added at the end only.
record Grown (st u : Vfs) : Type 0 where
  more : length st.nodes ≤ length u.nodes
  same : (i : ℕ) → i < length st.nodes → node_at u i ≡ node_at st i

add_node-Grown : (st u : Vfs) (n : Node) → Grown st u → Grown st (add_node u n).1
add_node-Grown st u n g = record {
  more = omega (arith, g.more, length-append u.nodes (n ∷ []));
  same = λ i l. get_or-append u.nodes (n ∷ []) i _ (omega (arith, l, g.more)) ∙ g.same i l;
}

nth_child-none : (n : ℕ) (u : Vfs) → nth_child n u none ≡ none
unfolding nth_child
nth_child-none zero u = refl
nth_child-none (suc n) u = refl

-- A line of siblings ends before it has gone through as many nodes as there are.
nth_child-ends :
    (st u : Vfs) (n c : ℕ)
    → IsOrdered st
    → Grown st u
    → c < length st.nodes
    → c < n
    → nth_child n u (some c) ≡ none
unfolding nth_child
nth_child-ends st u zero c o g l h = absurd (omega arith)
nth_child-ends st u (suc n) c o g l h =
    ap (λ d. nth_child n u d.next_sibling) (g.same c l)
    ∙ (elim (Option-cases (node_at st c).next_sibling) [
      | inl e ↦ rw e (nth_child-none n u)
      | inr (j, e) ↦
          let b = o.earlier c j l e in
          rw e (nth_child-ends st u n j o g (omega arith) (omega arith))
    ])

create-Grown :
    (st u : Vfs) (ok : Bool) (f : Filesystem) (i : ℕ) (name : List ℕ)
    → Grown st u
    → Grown st (vfs_create_node_from_ext2 ok u f i name).1
unfolding vfs_create_node_from_ext2
create-Grown st u true f i name g = elim (Option-cases (f.read_inode i)) [
  | inl e ↦ rw (vfs_create_node_from_ext2, e) g
  | inr (n, e) ↦ rw (vfs_create_node_from_ext2, e) (add_node-Grown st u _ g)
]
create-Grown st u false f i name g = elim (Option-cases (f.read_inode i)) [
  | inl e ↦ rw (vfs_create_node_from_ext2, e) g
  | inr (n, e) ↦ rw (vfs_create_node_from_ext2, e) g
]

virtual-Grown :
    (st u : Vfs) (ok : Bool) (d i : ℕ) → Grown st u → Grown st (vfs_virtual_readdir ok u d i).1
unfolding vfs_virtual_readdir
virtual-Grown st u ok d i g = elim (Bool-cases (is_directory (node_at u d).kind)) [
  | inr b ↦ rw b g
  | inl b ↦ elim (Option-cases (nth_child i u (node_at u d).children)) [
    | inl e ↦ rw (b, e) g
    | inr (c, e) ↦ elim (Bool-cases ok) [
      | inl k ↦ rw (b, e, k) (add_node-Grown st u (node_at u c) g)
      | inr k ↦ rw (b, e, k) g
    ]
  ]
]

InodeField-cases :
    (i : InodeField) → ((n : ℕ) × (i ≡ number n)) ⊎ ((content : List ℕ) × (i ≡ file_data content))
InodeField-cases (number n) = inl (n, refl)
InodeField-cases (file_data content) = inr (content, refl)

ext2-Grown :
    (st u : Vfs) (ok : Bool) (d i : ℕ) → Grown st u → Grown st (vfs_ext2_readdir ok u d i).1
unfolding vfs_ext2_readdir
ext2-Grown st u ok d i g = elim (Option-cases (node_at u d).fs) [
  | inl e ↦ rw (vfs_ext2_readdir, e) g
  | inr (f, e) ↦ elim (Bool-cases (is_directory (node_at u d).kind)) [
    | inr b ↦ rw (vfs_ext2_readdir, e, b) g
    | inl b ↦ elim (InodeField-cases (node_at u d).inode) [
      | inr (content, k) ↦ rw (vfs_ext2_readdir, e, b, k) g
      | inl (n, k) ↦ elim (Option-cases (get_elem? (f.read_dir n) i)) [
        | inl x ↦ rw (vfs_ext2_readdir, e, b, k, x) g
        | inr (x, h) ↦ rw (vfs_ext2_readdir, e, b, k, h) (create-Grown st u ok f _ _ g)
      ]
    ]
  ]
]

-- A virtual directory has fewer entries than there are nodes, an EXT2 one those of its disk.
virtual-ends :
    (st u : Vfs) (ok : Bool) (d i : ℕ)
    → IsOrdered st
    → Grown st u
    → d < length st.nodes
    → length st.nodes ≤ i
    → (vfs_virtual_readdir ok u d i).0 ≡ none
unfolding vfs_virtual_readdir
virtual-ends st u ok d i o g l h = elim (Bool-cases (is_directory (node_at u d).kind)) [
  | inr b ↦ rw (vfs_virtual_readdir, b) refl
  | inl b ↦
      let none_left : nth_child i u (node_at u d).children ≡ none =
        ap (λ n. nth_child i u n.children) (g.same d l)
        ∙ (elim (Option-cases (node_at st d).children) [
          | inl e ↦ rw e (nth_child-none i u)
          | inr (c, e) ↦
              let x = o.exists d c l e in rw e (nth_child-ends st u i c o g x (omega arith))
        ]) in
      rw (vfs_virtual_readdir, b, none_left) refl
]

ext2-ends :
    (st u : Vfs) (ok : Bool) (d i : ℕ)
    → Grown st u
    → d < length st.nodes
    → disk_entries (node_at st d).fs (node_at st d).inode ≤ i
    → (vfs_ext2_readdir ok u d i).0 ≡ none
unfolding vfs_ext2_readdir
ext2-ends st u ok d i g l h =
    let same = g.same d l in
    elim (Option-cases (node_at u d).fs) [
      | inl e ↦ rw (vfs_ext2_readdir, e) refl
      | inr (f, e) ↦ elim (Bool-cases (is_directory (node_at u d).kind)) [
        | inr b ↦ rw (vfs_ext2_readdir, e, b) refl
        | inl b ↦ elim (InodeField-cases (node_at u d).inode) [
          | inr (content, k) ↦ rw (vfs_ext2_readdir, e, b, k) refl
          | inl (n, k) ↦
              let fewer : length (f.read_dir n) ≤ i =
                subst (λ m. m ≤ i)
                  (ap (λ (v : Node). disk_entries v.fs v.inode) (sym same) ∙ rw (e, k) refl) h in
              elim (Option-cases (get_elem? (f.read_dir n) i)) [
                | inl x ↦ rw (vfs_ext2_readdir, e, b, k, x) refl
                | inr (x, y) ↦ absurd (omega (arith, fewer, get_elem?-lt (f.read_dir n) i y))
              ]
        ]
      ]
    ]

readdir-Grown :
    (st u : Vfs) (ok : Bool) (d i : ℕ) → Grown st u → Grown st (vfs_readdir ok u (some d) i).1
readdir-Grown st u ok d i g = go (node_at u d).readdir
  where
    go :
        (o : Operation)
        → Grown st
            (elim o as (λ x. Option ℕ × Vfs) [
              | null ↦ (none, u)
              | virtual ↦ vfs_virtual_readdir ok u d i
              | ext2 ↦ vfs_ext2_readdir ok u d i
            ]).1
    go null = g
    go virtual = virtual-Grown st u ok d i g
    go ext2 = ext2-Grown st u ok d i g

readdir-ends :
    (st u : Vfs) (ok : Bool) (d i : ℕ)
    → IsOrdered st
    → Grown st u
    → d < length st.nodes
    → length st.nodes + disk_entries (node_at st d).fs (node_at st d).inode ≤ i
    → (vfs_readdir ok u (some d) i).0 ≡ none
readdir-ends st u ok d i o g l h = go (node_at u d).readdir
  where
    go :
        (p : Operation)
        → (elim p as (λ x. Option ℕ × Vfs) [
          | null ↦ (none, u)
          | virtual ↦ vfs_virtual_readdir ok u d i
          | ext2 ↦ vfs_ext2_readdir ok u d i
        ]).0
          ≡ none
    go null = refl
    go virtual = virtual-ends st u ok d i o g l (omega (arith, h))
    go ext2 = ext2-ends st u ok d i g l (omega (arith, h))

print_entry_vfs : (sh : Shell) (n : Node) → (print_entry sh n).vfs ≡ sh.vfs
unfolding print_entry say
print_entry_vfs sh n = ground arith

-- The rest of the loop, by what `vfs_readdir` gives.
list_next : ℕ → Answers → Shell → (dir index : ℕ) → Option ℕ × Vfs → Option Shell
list_next fuel ans sh dir index (none, vfs) = some (record sh { vfs = vfs })
list_next fuel ans sh dir index (some e, vfs) =
    let entry = node_at vfs e in
    if same_text entry.name (codes ".") || same_text entry.name (codes "..")
    then list_from fuel ans (record sh { vfs = vfs }) dir (index + 1)
    else list_from fuel ans (print_entry (record sh { vfs = vfs }) entry) dir (index + 1)

list_from_next :
    (fuel : ℕ) (ans : Answers) (sh : Shell) (d index : ℕ)
    → list_from (suc fuel) ans sh d index
      ≡ list_next fuel ans sh d index (vfs_readdir (ans.entry_memory index) sh.vfs (some d) index)
unfolding list_from list_next
list_from_next fuel ans sh d index = go (vfs_readdir (ans.entry_memory index) sh.vfs (some d) index)
  where
    go :
        (r : Option ℕ × Vfs)
        → elim r.0 as (λ x. Option Shell) [
          | none ↦ some (record sh { vfs = r.1 })
          | some e ↦
              let entry = node_at r.1 e in
              if same_text entry.name (codes ".") || same_text entry.name (codes "..")
              then list_from fuel ans (record sh { vfs = r.1 }) d (index + 1)
              else list_from fuel ans (print_entry (record sh { vfs = r.1 }) entry) d (index + 1)
        ]
          ≡ list_next fuel ans sh d index r
    go (none, vfs) = refl
    go (some e, vfs) = refl

-- A listing that ends.
abbrev Ends : Option Shell → Type 0
Ends r = (sh' : Shell) × (r ≡ some sh')

either_Ends : (c : Bool) (a b : Option Shell) → Ends a → Ends b → Ends (if c then a else b)
either_Ends true a b p q = p
either_Ends false a b p q = q

next-Ends :
    (st : Vfs) (ans : Answers) (d fuel index : ℕ) (sh : Shell) (r : Option ℕ × Vfs)
    → Grown st r.1
    → ((sh' : Shell) → r.0 ≢ none → Grown st sh'.vfs → Ends (list_from fuel ans sh' d (index + 1)))
    → Ends (list_next fuel ans sh d index r)
unfolding list_next
next-Ends st ans d fuel index sh (none, vfs) g ih = (_, refl)
next-Ends st ans d fuel index sh (some e, vfs) g ih =
    let sh' = record sh { vfs = vfs } in
    either_Ends _ _ _ (ih sh' (λ x. absurd (cc)) g) (
      ih (print_entry sh' (node_at vfs e)) (λ x. absurd (cc))
        (subst (Grown st) (sym (print_entry_vfs sh' (node_at vfs e))) g))

-- From the entry at `index` on, steps up to the bound are enough.
list_from-Ends :
    (st : Vfs) (ans : Answers) (d fuel index : ℕ) (sh : Shell)
    → IsOrdered st
    → Grown st sh.vfs
    → d < length st.nodes
    → index + fuel ≡ entry_bound st d
    → 0 < fuel
    → Ends (list_from fuel ans sh d index)
list_from-Ends st ans d zero index sh o g l e h = absurd (omega (arith, h))
list_from-Ends st ans d (suc fuel) index sh o g l e h =
    subst Ends (sym (list_from_next fuel ans sh d index)) (
      next-Ends st ans d fuel index sh (vfs_readdir (ans.entry_memory index) sh.vfs (some d) index)
        (readdir-Grown st sh.vfs (ans.entry_memory index) d index g)
        (λ sh' some_entry g'.
          list_from-Ends st ans d fuel (index + 1) sh' o g' l (omega (arith, e))
            (elim (Bool-cases (ltb 0 fuel)) [
              | inl p ↦ ground arith
              | inr p ↦ absurd (
                  some_entry (
                    readdir-ends st sh.vfs (ans.entry_memory index) d index o g l
                      (ground (arith, e))))
            ])))

-- `ls` of a node that exists, in a file system whose siblings and children were allocated before their
-- nodes and exist, always returns: as many steps as there are nodes and entries on disk, and one more, are
-- enough for its loop, whatever the allocator answers.
pub list_node-returns :
    (ans : Answers) (sh : Shell) (path : List ℕ) (d : ℕ)
    → IsOrdered sh.vfs
    → d < length sh.vfs.nodes
    → (sh' : Shell) × (list_node ans sh path (some d) ≡ returned sh')
unfolding list_node listed say
list_node-returns ans sh path d o l = elim (Bool-cases (is_directory (node_at sh.vfs d).kind)) [
  | inr b ↦ rw b (_, refl)
  | inl b ↦
      let (sh', e) =
        list_from-Ends sh.vfs ans d (entry_bound sh.vfs d) 0 (say (codes "\n") sh) o
          (record { more = omega arith; same = λ i k. refl }) l (omega arith) (omega arith) in
      rw (b, e) (_, refl)
]
