-- ===== src/Htable/Chains.antt =====
-- src/htable.c: how the chains of the table and the list hang together, one operation on the
-- queues at a time.
use libecoli.Base.{
  ℕ, zero, suc, ◌<◌, ◌≡◌, refl, sym, ◌∙◌, ap, true, false, Bool-cases, inl, inr, if◌then◌else◌,
  ◌==◌, str_eq, ==_iff, List, [], ◌∷◌, ◌++◌, append_assoc, append-nil, length, set, length-set, All,
  arith,
}
use libecoli.Htable.Bits.{index, index-lt}
use libecoli.Htable.Ops.{Ref, remove, chain, chain_remove, chain_insert, empty_chains, move_refs}

-- The references that belong in chain `i` of a table of `size` chains, in their order.
abbrev pub in_chain : ℕ → ℕ → List Ref → List Ref
in_chain size i [] = []
in_chain size i (r ∷ rs) =
    if index r.hash size == i then r ∷ in_chain size i rs else in_chain size i rs

-- No two references have the same address or the same key.
abbrev pub Distinct : List Ref → Type 0
Distinct [] = Unit
Distinct (r ∷ rs) =
    All (λ s. ((s.addr == r.addr) ≡ false) × (str_eq s.key r.key ≡ false)) rs × Distinct rs

pub chain-set_same :
    (table : List (List Ref)) (i : ℕ) (v : List Ref)
    → i < length table
    → chain (set table i v) i ≡ v
unfolding chain
chain-set_same [] i v h = ground arith
chain-set_same (rs ∷ table) zero v h = refl
chain-set_same (rs ∷ table) (suc i) v h = chain-set_same table i v (omega arith)

pub chain-set_other :
    (table : List (List Ref)) (i j : ℕ) (v : List Ref)
    → (i == j) ≡ false
    → chain (set table i v) j ≡ chain table j
unfolding chain
chain-set_other [] i j v h = refl
chain-set_other (rs ∷ table) zero zero v h = ground arith
chain-set_other (rs ∷ table) zero (suc j) v h = refl
chain-set_other (rs ∷ table) (suc i) zero v h = refl
chain-set_other (rs ∷ table) (suc i) (suc j) v h = chain-set_other table i j v (ground arith)

pub chain-empty_chains : (n i : ℕ) → chain (empty_chains n) i ≡ []
unfolding chain empty_chains
chain-empty_chains zero i = refl
chain-empty_chains (suc n) zero = refl
chain-empty_chains (suc n) (suc i) = chain-empty_chains n i

pub length-empty_chains : (n : ℕ) → length (empty_chains n) ≡ n
unfolding empty_chains
length-empty_chains zero = refl
length-empty_chains (suc n) = ap suc (length-empty_chains n)

pub in_chain-append :
    (size i : ℕ) (rs ss : List Ref)
    → in_chain size i (rs ++ ss) ≡ in_chain size i rs ++ in_chain size i ss
in_chain-append size i [] ss = refl
in_chain-append size i (r ∷ rs) ss = elim (Bool-cases (index r.hash size == i)) [
  | inl e ↦ rw e (ap (◌∷◌ r) (in_chain-append size i rs ss))
  | inr e ↦ rw e (in_chain-append size i rs ss)
]

-- A reference that is removed from the list and from its chain.
pub in_chain-remove_same :
    (size i : ℕ) (rs : List Ref) (addr : ℕ)
    → All (λ s. (s.addr == addr) ≡ true → (index s.hash size == i) ≡ true) rs
    → in_chain size i (remove rs addr) ≡ remove (in_chain size i rs) addr
unfolding remove
in_chain-remove_same size i [] addr h = refl
in_chain-remove_same size i (r ∷ rs) addr h = elim (Bool-cases (r.addr == addr)) [
  | inl e ↦ rw (e, h.0 e, e) refl
  | inr e ↦ elim (Bool-cases (index r.hash size == i)) [
    | inl e' ↦ rw (e, e', e) (ap (◌∷◌ r) (in_chain-remove_same size i rs addr h.1))
    | inr e' ↦ rw (e, e') (in_chain-remove_same size i rs addr h.1)
  ]
]

-- The other chains are left alone.
pub in_chain-remove_other :
    (size i j : ℕ) (rs : List Ref) (addr : ℕ)
    → All (λ s. (s.addr == addr) ≡ true → (index s.hash size == i) ≡ true) rs
    → (i == j) ≡ false
    → in_chain size j (remove rs addr) ≡ in_chain size j rs
unfolding remove
in_chain-remove_other size i j [] addr h ne = refl
in_chain-remove_other size i j (r ∷ rs) addr h ne = elim (Bool-cases (r.addr == addr)) [
  | inl e ↦ rw (e, elsewhere (index r.hash size) (h.0 e)) refl
  | inr e ↦ elim (Bool-cases (index r.hash size == j)) [
    | inl e' ↦ rw (e, e') (ap (◌∷◌ r) (in_chain-remove_other size i j rs addr h.1 ne))
    | inr e' ↦ rw (e, e') (in_chain-remove_other size i j rs addr h.1 ne)
  ]
]
  where
    elsewhere : (k : ℕ) → (k == i) ≡ true → (k == j) ≡ false
    elsewhere k eq = ground arith

pub chain-chain_insert :
    (table : List (List Ref)) (size i : ℕ) (r : Ref)
    → 0 < size
    → length table ≡ size
    → chain (chain_insert table (index r.hash size) r) i ≡ chain table i ++ in_chain size i (r ∷ [])
unfolding chain_insert
chain-chain_insert table size i r pos len = elim (Bool-cases (index r.hash size == i)) [
  | inl e ↦
      rw (e, (==_iff (index r.hash size) i).0 e)
        (chain-set_same table i (chain table i ++ (r ∷ [])) (within e))
  | inr e ↦
      rw (e, append-nil (chain table i))
        (chain-set_other table (index r.hash size) i (chain table (index r.hash size) ++ (r ∷ []))
          e)
]
  where
    within : (index r.hash size == i) ≡ true → i < length table
    within e = ground (arith, index-lt r.hash size pos)

pub length-chain_insert :
    (table : List (List Ref)) (i : ℕ) (r : Ref) → length (chain_insert table i r) ≡ length table
unfolding chain_insert
length-chain_insert table i r = length-set table i (chain table i ++ (r ∷ []))

pub length-chain_remove :
    (table : List (List Ref)) (i addr : ℕ) → length (chain_remove table i addr) ≡ length table
unfolding chain_remove
length-chain_remove table i addr = length-set table i (remove (chain table i) addr)

-- After the loop of a resize each chain of the new table holds its references, in the list's order.
pub chain-move_refs :
    (rs : List Ref) (size new_size : ℕ) (table new_table : List (List Ref)) (i : ℕ)
    → 0 < new_size
    → length new_table ≡ new_size
    → (chain (move_refs rs size new_size table new_table).1 i
        ≡ chain new_table i ++ in_chain new_size i rs)
      × (length (move_refs rs size new_size table new_table).1 ≡ new_size)
unfolding move_refs
chain-move_refs [] size new_size table new_table i pos len =
    (sym (append-nil (chain new_table i)), len)
chain-move_refs (r ∷ rs) size new_size table new_table i pos len =
    let rest =
      chain-move_refs rs size new_size (chain_remove table (index r.hash size) r.addr)
        (chain_insert new_table (index r.hash new_size) r) i pos
        (length-chain_insert new_table (index r.hash new_size) r ∙ len) in
    (
      rest.0
          ∙ rw (chain-chain_insert new_table new_size i r pos len) (
              append_assoc (chain new_table i) (in_chain new_size i (r ∷ []))
                (in_chain new_size i rs)
              ∙ ap (λ zs. chain new_table i ++ zs) (sym (in_chain-append new_size i (r ∷ []) rs))),
      rest.1,
    )
