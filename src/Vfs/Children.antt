-- ===== src/Vfs/Children.antt =====
-- The children of a virtual directory, as src/vfs.c links and searches them.
use kfs.Prelude.{
  ℕ, zero, suc, ◌≤◌, ◌<◌, ◌≡◌, refl, none, some, List, length, arith, Option-cases, inl, inr,
}
use kfs.Vfs.{Vfs, node_at}
use kfs.Vfs.Lookup.{find_child}

-- Siblings were allocated before, and children exist.
pub record IsOrdered (st : Vfs) : Type 0 where
  pub earlier : (i j : ℕ) → i < length st.nodes → (node_at st i).next_sibling ≡ some j → j < i
  pub exists :
      (i c : ℕ) → i < length st.nodes → (node_at st i).children ≡ some c → c < length st.nodes

-- The nodes of `u` that `st` has show the same to a search.
pub record Alike (st u : Vfs) : Type 0 where
  pub names : (i : ℕ) → i < length st.nodes → (node_at u i).name ≡ (node_at st i).name
  pub siblings :
      (i : ℕ) → i < length st.nodes → (node_at u i).next_sibling ≡ (node_at st i).next_sibling

pub find_child-none : (fuel : ℕ) (st : Vfs) (name : List ℕ) → find_child fuel st none name ≡ none
unfolding find_child
find_child-none zero st name = refl
find_child-none (suc fuel) st name = refl

pub find_child-Alike :
    (st u : Vfs) (name : List ℕ) (fuel fuel' c : ℕ)
    → IsOrdered st
    → Alike st u
    → c < length st.nodes
    → c < fuel
    → c < fuel'
    → find_child fuel st (some c) name ≡ find_child fuel' u (some c) name
unfolding find_child
find_child-Alike st u name zero fuel' c o a l p q = absurd (omega arith)
find_child-Alike st u name (suc fuel) zero c o a l p q = absurd (omega arith)
find_child-Alike st u name (suc fuel) (suc fuel') c o a l p q =
    elim (Option-cases (node_at st c).next_sibling) [
      | inl e ↦
          rw
            (
              a.names c l,
              a.siblings c l,
              e,
              find_child-none fuel st name,
              find_child-none fuel' u name,
            )
            refl
      | inr (j, e) ↦
          let b = o.earlier c j l e in
          let rest =
            find_child-Alike st u name fuel fuel' j o a (omega arith) (omega arith) (omega arith) in
          rw (a.names c l, a.siblings c l, e, rest) refl
    ]

-- If siblings and children were allocated before a node and exist, a search along the siblings of a
-- node ends within as many steps as there are nodes: more steps change nothing.
find_child-ends :
    (st : Vfs) (name : List ℕ) (fuel c : ℕ)
    → IsOrdered st
    → c < length st.nodes
    → length st.nodes ≤ fuel
    → find_child fuel st (some c) name ≡ find_child (length st.nodes) st (some c) name
find_child-ends st name fuel c o l p =
    find_child-Alike st st name fuel (length st.nodes) c o
      (record { names = λ i h. refl; siblings = λ i h. refl }) l (omega arith) l
