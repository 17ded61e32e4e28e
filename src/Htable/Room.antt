-- ===== src/Htable/Room.antt =====
-- src/htable.c: the growth of the table.
use libecoli.Base.{
  ℕ, ◌*◌, ◌≤◌, ◌<◌, ◌^◌, ◌%◌, ◌≡◌, refl, ◌∙◌, Bytes, true, false, Bool-cases, inl, inr, ◌==◌, leb,
  none, ◌++◌, length, arith,
}
use libecoli.Htable.Bits.{IsMaskable, IsMaskable-8, grow}
use libecoli.Htable.Ops.{Htable, chain, table_resize, next_size, make_room, empty_chains, move_refs}
use libecoli.Htable.Chains.{in_chain, chain-move_refs, chain-empty_chains, length-empty_chains}
use libecoli.Htable.Table.{IsTable}

module _ (hash : Bytes → ℕ) where
  -- A resize to a power of two keeps the list.
  pub IsTable-table_resize :
      (h : Htable) (new_size : ℕ)
      → IsTable hash h
      → 0 < new_size
      → h.len ≤ new_size
      → IsMaskable new_size
      → (h' : Htable) × (table_resize h new_size ≡ (h', none))
        × IsTable hash h'
        × (h'.list ≡ h.list)
        × (h'.len ≡ h.len)
        × (h'.table_size ≡ new_size)
  unfolding table_resize
  IsTable-table_resize h new_size t pos le mask = (
    resized,
    rw (nonzero, mask 64) refl,
    record {
      len_eq = t.len_eq;
      size_eq = (moved 0).1;
      load = le;
      chains = λ i. (moved i).0 ∙ rw (chain-empty_chains new_size i) refl;
      hashes = t.hashes;
      distinct = t.distinct;
      maskable = λ p. mask;
    },
    refl,
    refl,
    refl,
  )
    where
      resized : Htable
      resized = record h {
        table = (move_refs h.list h.table_size new_size h.table (empty_chains new_size)).1;
        table_size = new_size;
      }

      moved :
          (i : ℕ)
          → (chain resized.table i ≡ chain (empty_chains new_size) i ++ in_chain new_size i h.list)
            × (length resized.table ≡ new_size)
      moved i =
          chain-move_refs h.list h.table_size new_size h.table (empty_chains new_size) i pos
            (length-empty_chains new_size)

      nonzero : (new_size == 0) ≡ false
      nonzero = ground arith

  -- There is room for one more reference while the size of the table does not overflow.
  pub IsTable-make_room :
      (h : Htable)
      → IsTable hash h
      → h.len < 2 ^ 60
      → (h' : Htable) × (make_room h ≡ (h', none))
        × IsTable hash h'
        × (h'.list ≡ h.list)
        × (h'.len ≡ h.len)
        × (h'.len < h'.table_size)
  unfolding make_room next_size
  IsTable-make_room h t small = elim (Bool-cases (leb h.table_size h.len)) [
    | inr e ↦ (h, rw e refl, t, refl, refl, ground arith)
    | inl e ↦ elim (Bool-cases (h.table_size == 0)) [
      | inl z ↦
          let (h', a, b, c, d, s) =
            IsTable-table_resize h 8 t (omega arith) (ground (arith, t.load)) IsMaskable-8 in
          (h', rw (e, z) a, b, c, d, ground (arith, t.load))
      | inr z ↦
          let (h', a, b, c, d, s) =
            IsTable-table_resize h ((h.table_size * 8) % 2 ^ 64) t (times_8-pos e z)
              (omega (arith, t.load, times_8 e))
              (grow h.table_size ((h.table_size * 8) % 2 ^ 64) (pos z) (times_8 e)
                (t.maskable (pos z))) in
          (h', rw (e, z) a, b, c, d, omega (arith, s, d, t.load, times_8 e, pos z))
    ]
  ]
    where
      pos : (h.table_size == 0) ≡ false → 0 < h.table_size
      pos z = ground arith

      le : leb h.table_size h.len ≡ true → h.table_size ≤ h.len
      le e = ground arith

      times_8 : leb h.table_size h.len ≡ true → (h.table_size * 8) % 2 ^ 64 ≡ 8 * h.table_size
      times_8 e = omega (arith, le e)

      times_8-pos :
          leb h.table_size h.len ≡ true
          → (h.table_size == 0) ≡ false
          → 0 < (h.table_size * 8) % 2 ^ 64
      times_8-pos e z = omega (arith, times_8 e, pos z)
