-- ===== src/Dict/Laws.antt =====
-- src/dict.c over src/htable.c: what a dictionary gives after a change.
use libecoli.Base.{
  ℕ, ◌<◌, ◌^◌, ◌≡◌, refl, ◌∙◌, ap, Bytes, true, false, ◌&&◌, Bool-cases, inl, inr, if◌then◌else◌,
  ◌==◌, str_eq, str_eq_iff, none, some, List, [], ◌∷◌, ◌++◌, All, All-map, length, length-append,
  arith,
}
use libecoli.Htable.Ops.{Ref, enoent, htable_get}
use libecoli.Htable.Chains.{Distinct}
use libecoli.Htable.Keys.{entries, get_entry, has_entry, del_entry}
use libecoli.Htable.Table.{IsTable}
use libecoli.Htable.Refines.{htable_get-entries, htable_set-entries, htable_del-entries}
use libecoli.Dict.{Dict, key_bytes, dict_get, dict_set, dict_del}

str_eq_self : (s : Bytes) → str_eq s s ≡ true
str_eq_self s = (str_eq_iff s s).1 refl

str_eq_trans : (a b c : Bytes) → str_eq a b ≡ true → str_eq a c ≡ str_eq b c
str_eq_trans a b c e = ap (λ s. str_eq s c) ((str_eq_iff a b).0 e)

-- The NUL does not tell keys apart.
key_bytes_eq : (a b : Bytes) → str_eq (key_bytes a) (key_bytes b) ≡ str_eq a b
unfolding key_bytes str_eq
key_bytes_eq [] [] = refl
key_bytes_eq [] (c ∷ []) = ground arith
key_bytes_eq [] (c ∷ d ∷ b) = ground arith
key_bytes_eq (c ∷ []) [] = ground arith
key_bytes_eq (c ∷ d ∷ a) [] = ground arith
key_bytes_eq (c ∷ a) (d ∷ b) = ap (λ rest. (c == d) && rest) (key_bytes_eq a b)

get_entry-del_entry_other :
    (es : List (Bytes × ℕ)) (key other : Bytes)
    → str_eq key other ≡ false
    → get_entry (del_entry es key) other ≡ get_entry es other
get_entry-del_entry_other [] key other ne = refl
get_entry-del_entry_other ((k, v) ∷ es) key other ne = elim (Bool-cases (str_eq k key)) [
  | inl e ↦ rw (e, str_eq_trans k key other e, ne) refl
  | inr e ↦ elim (Bool-cases (str_eq k other)) [
    | inl e' ↦ rw (e, e') refl
    | inr e' ↦ rw (e, e') (get_entry-del_entry_other es key other ne)
  ]
]

get_entry-append_other :
    (es : List (Bytes × ℕ)) (key other : Bytes) (value : ℕ)
    → str_eq key other ≡ false
    → get_entry (es ++ ((key, value) ∷ [])) other ≡ get_entry es other
get_entry-append_other [] key other value ne = rw ne refl
get_entry-append_other ((k, v) ∷ es) key other value ne = elim (Bool-cases (str_eq k other)) [
  | inl e ↦ rw e refl
  | inr e ↦ rw e (get_entry-append_other es key other value ne)
]

get_entry-append_same :
    (es : List (Bytes × ℕ)) (key : Bytes) (value : ℕ)
    → has_entry es key ≡ false
    → get_entry (es ++ ((key, value) ∷ [])) key ≡ value
get_entry-append_same [] key value new = rw (str_eq_self key) refl
get_entry-append_same ((k, v) ∷ es) key value new = elim (Bool-cases (str_eq k key)) [
  | inl e ↦ ground arith
  | inr e ↦ rw e (get_entry-append_same es key value (ground arith))
]

-- Keys are told apart, so no second entry of the key is behind the one that is removed.
del_entry-gone :
    (rs : List Ref) (key : Bytes)
    → Distinct rs
    → (has_entry (del_entry (entries rs) key) key ≡ false)
      × (get_entry (del_entry (entries rs) key) key ≡ 0)
del_entry-gone [] key d = (refl, refl)
del_entry-gone (r ∷ rs) key d = elim (Bool-cases (str_eq r.key key)) [
  | inl e ↦ rw e (absent rs (All-map _ _ rs (λ s p. without s p.1 e) d.0))
  | inr e ↦ rw (e, e) (del_entry-gone rs key d.1)
]
  where
    without :
        (s : Ref) → str_eq s.key r.key ≡ false → str_eq r.key key ≡ true → str_eq s.key key ≡ false
    without s p e = rw (← (str_eq_iff r.key key).0 e) p

    absent :
        (ss : List Ref)
        → All (λ s. str_eq s.key key ≡ false) ss
        → (has_entry (entries ss) key ≡ false) × (get_entry (entries ss) key ≡ 0)
    absent [] h = (refl, refl)
    absent (s ∷ ss) h = rw (h.0) (absent ss h.1)

key_bytes-pos : (key : Bytes) → 0 < length (key_bytes key)
unfolding key_bytes
key_bytes-pos key = omega (arith, length-append key (0 ∷ []))

module _ (hash : Bytes → ℕ) where
  -- In a dictionary of less than 2^60 elements, ec_dict_set succeeds; then ec_dict_get gives the
  -- new value for that key, and for every other key what it gave before.
  pub dict_get-dict_set :
      (d : Dict) (key other : Bytes) (addr value : ℕ)
      → IsTable hash d
      → d.len < 2 ^ 60
      → All (λ s. (s.addr == addr) ≡ false) d.list
      → (d' : Dict) × (dict_set hash d (some key) addr value ≡ (d', none))
        × IsTable hash d'
        × (dict_get hash d' (some other)
            ≡ (if str_eq key other then value else dict_get hash d (some other)))
  unfolding dict_get dict_set
  dict_get-dict_set d key other addr value t small fresh =
      let (d', e, t', view) =
        htable_set-entries hash d (key_bytes key) addr value t small (key_bytes-pos key) fresh in
      (
        d',
        e,
        t',
        (htable_get-entries hash d' (key_bytes other) t').0
            ∙ ap (λ es. get_entry es (key_bytes other)) view
            ∙ read (key_bytes_eq key other),
      )
    where
      old : List (Bytes × ℕ)
      old = del_entry (entries d.list) (key_bytes key)

      read :
          str_eq (key_bytes key) (key_bytes other) ≡ str_eq key other
          → get_entry (old ++ ((key_bytes key, value) ∷ [])) (key_bytes other)
            ≡ (if str_eq key other then value else htable_get hash d (some (key_bytes other)))
      read same = elim (Bool-cases (str_eq key other)) [
        | inl e ↦
            rw (e, ← (str_eq_iff key other).0 e)
              (get_entry-append_same old (key_bytes key) value
                (del_entry-gone d.list (key_bytes key) t.distinct).0)
        | inr e ↦
            rw (e, (htable_get-entries hash d (key_bytes other) t).0)
              (get_entry-append_other old (key_bytes key) (key_bytes other) value (same ∙ e)
                ∙ get_entry-del_entry_other (entries d.list) (key_bytes key) (key_bytes other)
                    (same ∙ e))
      ]

  -- After ec_dict_del, whether or not the key was there, ec_dict_get gives NULL for that key, and
  -- for every other key what it gave before.
  pub dict_get-dict_del :
      (d : Dict) (key other : Bytes)
      → IsTable hash d
      → (d' : Dict) × (dict_del hash d (some key)
          ≡ (d', if has_entry (entries d.list) (key_bytes key) then none else some enoent))
        × IsTable hash d'
        × (dict_get hash d' (some other)
            ≡ (if str_eq key other then 0 else dict_get hash d (some other)))
  unfolding dict_get dict_del
  dict_get-dict_del d key other t =
      let (d', e, t', view) = htable_del-entries hash d (key_bytes key) t in
      (
        d',
        e,
        t',
        (htable_get-entries hash d' (key_bytes other) t').0
            ∙ ap (λ es. get_entry es (key_bytes other)) view
            ∙ read (key_bytes_eq key other),
      )
    where
      read :
          str_eq (key_bytes key) (key_bytes other) ≡ str_eq key other
          → get_entry (del_entry (entries d.list) (key_bytes key)) (key_bytes other)
            ≡ (if str_eq key other then 0 else htable_get hash d (some (key_bytes other)))
      read same = elim (Bool-cases (str_eq key other)) [
        | inl e ↦
            rw (e, ← (str_eq_iff key other).0 e)
              (del_entry-gone d.list (key_bytes key) t.distinct).1
        | inr e ↦
            rw (e, (htable_get-entries hash d (key_bytes other) t).0)
              (get_entry-del_entry_other (entries d.list) (key_bytes key) (key_bytes other)
                (same ∙ e))
      ]
