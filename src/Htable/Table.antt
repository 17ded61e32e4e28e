-- ===== src/Htable/Table.antt =====
-- src/htable.c: the invariant of the table, and that its operations keep it.
use libecoli.Base.{
  ℕ, suc, ◌≤◌, ◌<◌, ◌≡◌, refl, sym, ◌∙◌, ap, Bytes, true, false, Bool-cases, inl, inr, ◌==◌,
  ==_self, str_eq, ==_iff, none, some, List, [], ◌∷◌, All, All-map, All-append, length,
  length-append, arith,
}
use mathlib.Core.Path.{subst}
use libecoli.Htable.Bits.{IsMaskable, index, index-lt}
use libecoli.Htable.Ops.{
  Ref, Htable, htable, remove, chain, chain_remove, find_key, insert, unlink, lookup,
}
use libecoli.Htable.Chains.{
  in_chain, Distinct, chain-set_same, chain-set_other, in_chain-append, in_chain-remove_same,
  in_chain-remove_other, chain-chain_insert, length-chain_insert, length-chain_remove,
}
use libecoli.Htable.Keys.{
  to_lookup, find_key-in_chain, find_key-remove, IsRemoval, remove-All, remove-Distinct,
  append-Distinct,
}

-- The chains hold the list's references, each in the chain of its hash and in the list's order;
-- there are at least as many chains as references, and their number is a power of two.
pub record IsTable (hash : Bytes → ℕ) (h : Htable) : Type 0 where
  pub len_eq : h.len ≡ length h.list
  pub size_eq : length h.table ≡ h.table_size
  pub load : h.len ≤ h.table_size
  pub chains : (i : ℕ) → chain h.table i ≡ in_chain h.table_size i h.list
  pub hashes : All (λ r. r.hash ≡ hash r.key) h.list
  pub distinct : Distinct h.list
  pub maskable : 0 < h.table_size → IsMaskable h.table_size

pub IsTable-htable : (hash : Bytes → ℕ) → IsTable hash htable
unfolding htable chain
IsTable-htable hash = record {
  len_eq = refl;
  size_eq = refl;
  load = omega arith;
  chains = λ i. refl;
  hashes = tt;
  distinct = tt;
  maskable = λ h. ground arith;
}

module _ (hash : Bytes → ℕ) where
  -- The search through the chains is the search through the list.
  pub lookup-find_key :
      (h : Htable) (key : Bytes)
      → IsTable hash h
      → lookup hash h (some key) ≡ to_lookup (find_key h.list key)
  unfolding lookup find_key
  lookup-find_key h key t = elim (Bool-cases (h.table_size == 0)) [
    | inl e ↦ rw (e, nothing e) refl
    | inr e ↦
        rw
          (
            e,
            t.chains (index (hash key) h.table_size),
            find_key-in_chain hash h.table_size h.list key t.hashes,
          )
          refl
  ]
    where
      empty : (rs : List Ref) → length rs ≤ 0 → find_key rs key ≡ none
      empty [] le = refl
      empty (r ∷ rs) le = ground arith

      nothing : (h.table_size == 0) ≡ true → find_key h.list key ≡ none
      nothing e = empty h.list (ground (arith, t.len_eq, t.load))

  pub IsTable-unlink :
      (h : Htable) (key : Bytes) (r : Ref)
      → IsTable hash h
      → find_key h.list key ≡ some r
      → IsTable hash (unlink h r)
  unfolding unlink chain_remove
  IsTable-unlink h key r t e = record {
    len_eq = omega (arith, t.len_eq, len);
    size_eq = length-chain_remove h.table k r.addr ∙ t.size_eq;
    load = omega (arith, t.load);
    chains = chains_unlink;
    hashes = remove-All _ h.list r.addr t.hashes;
    distinct = remove-Distinct h.list r.addr t.distinct;
    maskable = t.maskable;
  }
    where
      k : ℕ
      k = index r.hash h.table_size

      removal : IsRemoval h.list key r
      removal = find_key-remove h.list key r e t.distinct

      len : suc (length (remove h.list r.addr)) ≡ length h.list
      len = removal.2

      there : All (λ s. (s.addr == r.addr) ≡ true → (index s.hash h.table_size == k) ≡ true) h.list
      there = All-map _ _ h.list (λ s f eq. rw (f eq) (==_self k)) removal.3

      k-lt : k < length h.table
      k-lt = rw (t.size_eq) (index-lt r.hash h.table_size (omega (arith, t.load, t.len_eq, len)))

      chains_unlink :
          (i : ℕ)
          → chain (chain_remove h.table k r.addr) i ≡ in_chain h.table_size i (remove h.list r.addr)
      chains_unlink i = elim (Bool-cases (k == i)) [
        | inl eq ↦
            subst
              (λ j.
                chain (chain_remove h.table k r.addr) j
                ≡ in_chain h.table_size j (remove h.list r.addr))
              ((==_iff k i).0 eq)
              (chain-set_same h.table k (remove (chain h.table k) r.addr) k-lt
                ∙ ap (λ rs. remove rs r.addr) (t.chains k)
                ∙ sym (in_chain-remove_same h.table_size k h.list r.addr there))
        | inr eq ↦
            chain-set_other h.table k i (remove (chain h.table k) r.addr) eq
            ∙ t.chains i
            ∙ sym (in_chain-remove_other h.table_size k i h.list r.addr there eq)
      ]

  pub IsTable-insert :
      (h : Htable) (r : Ref)
      → IsTable hash h
      → h.len < h.table_size
      → r.hash ≡ hash r.key
      → All (λ s. (s.addr == r.addr) ≡ false) h.list
      → All (λ s. str_eq s.key r.key ≡ false) h.list
      → IsTable hash (insert h r)
  unfolding insert
  IsTable-insert h r t lt eq fresh absent = record {
    len_eq = omega (arith, t.len_eq, length-append h.list (r ∷ []));
    size_eq = length-chain_insert h.table (index r.hash h.table_size) r ∙ t.size_eq;
    load = omega arith;
    chains = λ i.
        chain-chain_insert h.table h.table_size i r (omega arith) t.size_eq
        ∙ rw (t.chains i) (sym (in_chain-append h.table_size i h.list (r ∷ [])));
    hashes = All-append _ h.list (r ∷ []) t.hashes (eq, tt);
    distinct = append-Distinct h.list r t.distinct fresh absent;
    maskable = t.maskable;
  }
