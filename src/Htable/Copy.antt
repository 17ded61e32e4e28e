-- ===== src/Htable/Copy.antt =====
-- src/htable.c: ec_htable_dup.
use libecoli.Base.{
  ℕ, ◌+◌, ◌<◌, ◌^◌, ◌≡◌, refl, sym, ◌∙◌, ap, Bytes, false, str_eq, none, some, List, [], ◌∷◌, ◌++◌,
  All, All-map, All-zip, append_assoc, append-nil, length, arith,
}
use libecoli.Htable.Ops.{Ref, Htable, htable, set_ref, dup_loop, htable_dup}
use libecoli.Htable.Chains.{Distinct}
use libecoli.Htable.Keys.{entries, del_entry-absent, str_eq_comm}
use libecoli.Htable.Table.{IsTable, IsTable-htable}
use libecoli.Htable.Refines.{set_ref-IsStored}

module _ (hash : Bytes → ℕ) where
  dup_loop-step :
      (rs : List Ref) (addr : ℕ) (dup dup' : Htable) (r : Ref)
      → set_ref hash dup (record r { addr = addr }) ≡ (dup', none)
      → dup_loop hash (r ∷ rs) addr dup ≡ dup_loop hash rs (addr + 1) dup'
  unfolding dup_loop
  dup_loop-step rs addr dup dup' r e =
      ap (λ m. elim m.1 [ none ↦ dup_loop hash rs (addr + 1) m.0 | some e' ↦ none ]) e

  -- The addresses of a copy's references are behind those already given.
  dup_loop-entries :
      (rs : List Ref) (addr : ℕ) (dup : Htable)
      → IsTable hash dup
      → dup.len + length rs < 2 ^ 60
      → All (λ r. r.hash ≡ hash r.key) rs
      → Distinct rs
      → All (λ r. All (λ s. str_eq s.key r.key ≡ false) dup.list) rs
      → All (λ s. s.addr < addr) dup.list
      → (h' : Htable) × (dup_loop hash rs addr dup ≡ some h')
        × IsTable hash h'
        × (entries h'.list ≡ entries dup.list ++ entries rs)
  unfolding dup_loop
  dup_loop-entries [] addr dup t small hashes distinct absent below =
      (dup, refl, t, sym (append-nil (entries dup.list)))
  dup_loop-entries (r ∷ rs) addr dup t small hashes distinct absent below =
      let (dup', e, (t', view, le, keep)) =
        set_ref-IsStored hash dup (copy r) t (omega (arith, small)) hashes.0
          (All-map _ _ dup.list (λ s lt. ground arith) below) in
      let (h', e', t'', view') =
        dup_loop-entries rs (addr + 1) dup' t' (omega (arith, le, small)) hashes.1 distinct.1
          (All-map _ _ rs
            (λ q d. keep (λ s. str_eq s.key q.key ≡ false) d.0 (str_eq_comm q.key r.key d.1.1))
            (All-zip _ _ rs absent.1 distinct.0))
          (keep (λ s. s.addr < addr + 1) (All-map _ _ dup.list (λ s lt. omega arith) below)
            (omega arith)) in
      (
        h',
        dup_loop-step rs addr dup dup' r e ∙ e',
        t'',
        view'
            ∙ rw (view, del_entry-absent dup.list r.key absent.0)
                (append_assoc (entries dup.list) ((r.key, r.value) ∷ []) (entries rs)),
      )
    where
      copy : Ref → Ref
      copy q = record q { addr = addr }

  -- ec_htable_dup of a table of less than 2^60 elements: it succeeds, and the copy is a table with
  -- the same entries in the same order.
  pub htable_dup-entries :
      (h : Htable) (addr : ℕ)
      → IsTable hash h
      → h.len < 2 ^ 60
      → (h' : Htable) × (htable_dup hash h addr ≡ some h')
        × IsTable hash h'
        × (entries h'.list ≡ entries h.list)
  unfolding htable_dup htable
  htable_dup-entries h addr t small =
      dup_loop-entries h.list addr htable (IsTable-htable hash) (omega (arith, t.len_eq)) t.hashes
        t.distinct (trivial h.list) tt
    where
      trivial :
          (rs : List Ref)
          → All {A = Ref} (λ r. All {A = Ref} (λ s. str_eq s.key r.key ≡ false) []) rs
      trivial [] = tt
      trivial (r ∷ rs) = (tt, trivial rs)
