-- ===== src/Htable/Refines.antt =====
-- src/htable.c: the table does what a list of keys with their values does.
use libecoli.Base.{
  ℕ, suc, ◌+◌, ◌≤◌, ◌<◌, ◌^◌, ◌≡◌, refl, sym, ◌∙◌, ap, Bytes, Bool, true, false, Option-cases, inl,
  inr, if◌then◌else◌, ◌==◌, str_eq, Option, none, some, List, [], ◌∷◌, ◌++◌, All, All-append,
  length, arith,
}
use libecoli.Htable.Ops.{
  Ref, Htable, Errno, enoent, find_key, make_room, insert, unlink, htable_len, htable_has_key,
  htable_get, htable_del, set_ref, htable_set, Lookup, missing, found,
}
use libecoli.Htable.Room.{IsTable-make_room}
use libecoli.Htable.Keys.{
  to_lookup, entries, get_entry, has_entry, del_entry, entries-append, find_key-none,
  find_key-remove, remove-All, is_found, value_of, get_entry-entries, has_entry-entries,
}
use libecoli.Htable.Table.{IsTable, lookup-find_key, IsTable-unlink, IsTable-insert}

length-entries : (rs : List Ref) → length (entries rs) ≡ length rs
length-entries [] = refl
length-entries (r ∷ rs) = ap suc (length-entries rs)

module _ (hash : Bytes → ℕ) where
  -- The readers give what the list of entries gives: the value or NULL, the presence of the key,
  -- and the number of entries.
  pub htable_get-entries :
      (h : Htable) (key : Bytes)
      → IsTable hash h
      → (htable_get hash h (some key) ≡ get_entry (entries h.list) key)
        × (htable_has_key hash h (some key) ≡ has_entry (entries h.list) key)
        × (htable_len h ≡ length (entries h.list))
  unfolding htable_get htable_has_key htable_len
  htable_get-entries h key t =
      rw (htable_get, htable_has_key, lookup-find_key hash h key t)
        (
          get (find_key h.list key) ∙ get_entry-entries h.list key,
          has (find_key h.list key) ∙ has_entry-entries h.list key,
          t.len_eq ∙ sym (length-entries h.list),
        )
    where
      value : Lookup → ℕ
      value (found r) = r.value
      value (missing e) = 0

      present : Lookup → Bool
      present (found r) = true
      present (missing e) = false

      get : (o : Option Ref) → value (to_lookup o) ≡ value_of o
      get none = refl
      get (some r) = refl

      has : (o : Option Ref) → present (to_lookup o) ≡ is_found o
      has none = refl
      has (some r) = refl

  -- A table without the entry of a key, on the way of an insertion or a removal.
  abbrev Deleted : Htable → Bytes → Htable → Type 1
  Deleted h key h' =
      IsTable hash h'
      × (entries h'.list ≡ del_entry (entries h.list) key)
      × All (λ s. str_eq s.key key ≡ false) h'.list
      × (h'.len ≤ h.len)
      × ((P : Ref → Type 0) → All P h.list → All P h'.list)

  htable_del-Deleted :
      (h : Htable) (key : Bytes)
      → IsTable hash h
      → (h' : Htable) × (htable_del hash h (some key)
          ≡ (h', if has_entry (entries h.list) key then none else some enoent))
        × Deleted h key h'
  unfolding htable_del unlink
  htable_del-Deleted h key t = elim (Option-cases (find_key h.list key)) [
    | inl e ↦
        let (same, absent) = find_key-none h.list key e in
        (
          h,
          rw (htable_del, lookup-find_key hash h key t, e, ← has_entry-entries h.list key, e) refl,
          (t, sym same, absent, omega arith, λ P all. all),
        )
    | inr (r, e) ↦
        let removal = find_key-remove h.list key r e t.distinct in
        (
          unlink h r,
          rw (htable_del, lookup-find_key hash h key t, e, ← has_entry-entries h.list key, e) refl,
          (
            IsTable-unlink hash h key r t e,
            removal.0,
            removal.1,
            omega arith,
            λ P all. remove-All P h.list r.addr all,
          ),
        )
  ]

  -- ec_htable_del of a key: it reports whether there was an entry, and keeps the others in order.
  pub htable_del-entries :
      (h : Htable) (key : Bytes)
      → IsTable hash h
      → (h' : Htable) × (htable_del hash h (some key)
          ≡ (h', if has_entry (entries h.list) key then none else some enoent))
        × IsTable hash h'
        × (entries h'.list ≡ del_entry (entries h.list) key)
  htable_del-entries h key t =
      let (h', e, (t', view, absent, le, keep)) = htable_del-Deleted h key t in (h', e, t', view)

  -- What a reference that is set leaves behind.
  abbrev pub IsStored : Htable → Ref → Htable → Type 1
  IsStored h r h' =
      IsTable hash h'
      × (entries h'.list ≡ del_entry (entries h.list) r.key ++ ((r.key, r.value) ∷ []))
      × (h'.len ≤ h.len + 1)
      × ((P : Ref → Type 0) → All P h.list → P r → All P h'.list)

  set_ref-steps :
      (h h1 h2 : Htable) (r : Ref) (code : Option Errno)
      → htable_del hash h (some r.key) ≡ (h1, code)
      → make_room h1 ≡ (h2, none)
      → set_ref hash h r ≡ (insert h2 r, none)
  unfolding set_ref
  set_ref-steps h h1 h2 r code del room = ap (λ d. after (make_room d.0)) del ∙ ap after room
    where
      after : Htable × Option Errno → Htable × Option Errno
      after m = elim m.1 [ none ↦ (insert m.0 r, none) | some e' ↦ (m.0, some e') ]

  pub set_ref-IsStored :
      (h : Htable) (r : Ref)
      → IsTable hash h
      → h.len < 2 ^ 60
      → r.hash ≡ hash r.key
      → All (λ s. (s.addr == r.addr) ≡ false) h.list
      → (h' : Htable) × (set_ref hash h r ≡ (h', none)) × IsStored h r h'
  unfolding insert
  set_ref-IsStored h r t small eq fresh =
      let (h1, del, (t1, view, absent, len1, keep)) = htable_del-Deleted h r.key t in
      let (h2, room, t2, list2, len2, lt) =
        IsTable-make_room hash h1 t1 (omega (arith, len1, small)) in
      (
        insert h2 r,
        set_ref-steps h h1 h2 r _ del room,
        (
          IsTable-insert hash h2 r t2 lt eq
              (rw list2 (keep (λ s. (s.addr == r.addr) ≡ false) fresh)) (rw list2 absent),
          rw list2 (entries-append h1.list (r ∷ []) ∙ rw view refl),
          omega (arith, len1, len2),
          λ P all p. rw list2 (All-append P h1.list (r ∷ []) (keep P all) (p, tt)),
        ),
      )

  -- ec_htable_set of a key that is not empty, in a table that holds less than 2^60 elements: it
  -- succeeds, drops the key's former entry if there was one, and puts the new one behind the rest.
  pub htable_set-entries :
      (h : Htable) (key : Bytes) (addr value : ℕ)
      → IsTable hash h
      → h.len < 2 ^ 60
      → 0 < length key
      → All (λ s. (s.addr == addr) ≡ false) h.list
      → (h' : Htable) × (htable_set hash h (some key) addr value ≡ (h', none))
        × IsTable hash h'
        × (entries h'.list ≡ del_entry (entries h.list) key ++ ((key, value) ∷ []))
  unfolding htable_set
  htable_set-entries h key addr value t small pos fresh =
      let (h', e, (t', view, le, keep)) =
        set_ref-IsStored h (record { addr = addr; key = key; hash = hash key; value = value }) t
          small refl fresh in
      (h', rw (nonempty (length key) pos) e, t', view)
    where
      nonempty : (n : ℕ) → 0 < n → (n == 0) ≡ false
      nonempty n lt = ground arith
