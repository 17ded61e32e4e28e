-- ===== src/Tests/Tables.antt =====
-- src/htable.c and src/dict.c on a table of two elements, whose keys have the same hash.
use libecoli.Base.{
  ℕ, ◌+◌, ◌<◌, ◌^◌, ◌≡◌, refl, sym, ◌∙◌, ap, Bytes, codes, true, false, ◌==◌, str_eq, none, some,
  [], ◌∷◌, ◌++◌, All, length, arith,
}
use mathlib.Core.Path.{subst}
use libecoli.Htable.Bits.{band, index}
use libecoli.Htable.Ops.{
  Ref, Htable, einval, htable, remove, chain, chain_remove, chain_insert, empty_chains, find_key,
  move_refs, table_resize, next_size, make_room, insert, unlink, lookup, htable_len, htable_get,
  htable_has_key, htable_del, set_ref, htable_set, htable_dup,
}
use libecoli.Htable.Keys.{entries}
use libecoli.Htable.Table.{IsTable, IsTable-htable}
use libecoli.Htable.Refines.{htable_get-entries, htable_set-entries, htable_del-entries}
use libecoli.Dict.{dict_get, dict_set, dict_del, key_bytes}
use libecoli.Htable.Copy.{htable_dup-entries}
use libecoli.Dict.Laws.{dict_get-dict_set, dict_get-dict_del}

-- A hash function with collisions.
abbrev sum_hash : Bytes → ℕ
sum_hash [] = 0
sum_hash (c ∷ s) = c + sum_hash s

-- Keys as ec_dict_set makes them, with a NUL.
abbrev key1 : Bytes
key1 = codes "ab" ++ (0 ∷ [])

abbrev key2 : Bytes
key2 = codes "ba" ++ (0 ∷ [])

abbrev ref1 : Ref
ref1 = record { addr = 1; key = key1; hash = 195; value = 7 }

abbrev ref2 : Ref
ref2 = record { addr = 2; key = key2; hash = 195; value = 8 }

-- One element, in the fourth of eight chains.
abbrev table1 : Htable
table1 = record {
  len = 1;
  table_size = 8;
  list = ref1 ∷ [];
  table = [] ∷ [] ∷ [] ∷ (ref1 ∷ []) ∷ [] ∷ [] ∷ [] ∷ [] ∷ [];
}

abbrev table2 : Htable
table2 = record {
  len = 2;
  table_size = 8;
  list = ref1 ∷ ref2 ∷ [];
  table = [] ∷ [] ∷ [] ∷ (ref1 ∷ ref2 ∷ []) ∷ [] ∷ [] ∷ [] ∷ [] ∷ [];
}

-- The first insertion gives the table its first eight chains.
set_first : htable_set sum_hash htable (some key1) 1 7 ≡ (table1, none)
unfolding htable htable_set set_ref htable_del lookup make_room next_size table_resize move_refs
    empty_chains insert chain_insert chain index band
set_first = refl

set_second : htable_set sum_hash table1 (some key2) 2 8 ≡ (table2, none)
unfolding htable_set set_ref htable_del lookup find_key str_eq make_room insert chain_insert chain
    index band
set_second = refl

-- A key that is set again moves to the end.
set_again : entries (htable_set sum_hash table2 (some key1) 3 9).0.list ≡ (key2, 8) ∷ (key1, 9) ∷ []
unfolding htable_set set_ref htable_del lookup find_key str_eq unlink remove chain_remove make_room
    insert chain_insert chain index band
set_again = refl

-- An empty key is refused, and so is a NULL one.
set_empty : htable_set sum_hash table2 (some []) 3 9 ≡ (table2, some einval)
unfolding htable_set
set_empty = refl

set_IsTable :
    (h h' : Htable) (key : Bytes) (addr value : ℕ)
    → htable_set sum_hash h (some key) addr value ≡ (h', none)
    → IsTable sum_hash h
    → h.len < 2 ^ 60
    → 0 < length key
    → All (λ s. (s.addr == addr) ≡ false) h.list
    → IsTable sum_hash h'
set_IsTable h h' key addr value eq t small pos fresh =
    let (h'', e, t', view) = htable_set-entries sum_hash h key addr value t small pos fresh in
    subst (λ x. IsTable sum_hash x) (ap (λ p. p.0) (sym e ∙ eq)) t'

table1-IsTable : IsTable sum_hash table1
unfolding htable
table1-IsTable =
    set_IsTable htable table1 key1 1 7 set_first (IsTable-htable sum_hash) (omega arith)
      (omega arith) tt

table2-IsTable : IsTable sum_hash table2
table2-IsTable =
    set_IsTable table1 table2 key2 2 8 set_second table1-IsTable (omega arith) (omega arith)
      (refl, tt)

htable_get-entries_example :
    (htable_get sum_hash table2 (some key2) ≡ 8)
    × (htable_has_key sum_hash table2 (some key2) ≡ true)
    × (htable_len table2 ≡ 2)
unfolding str_eq
htable_get-entries_example = htable_get-entries sum_hash table2 key2 table2-IsTable

htable_set-entries_example :
    (h' : Htable) × (htable_set sum_hash table2 (some key1) 3 9 ≡ (h', none))
    × IsTable sum_hash h'
    × (entries h'.list ≡ (key2, 8) ∷ (key1, 9) ∷ [])
unfolding str_eq
htable_set-entries_example =
    htable_set-entries sum_hash table2 key1 3 9 table2-IsTable (omega arith) (omega arith)
      (refl, (refl, tt))

htable_del-entries_example :
    (h' : Htable) × (htable_del sum_hash table2 (some key1) ≡ (h', none))
    × IsTable sum_hash h'
    × (entries h'.list ≡ (key2, 8) ∷ [])
unfolding str_eq
htable_del-entries_example = htable_del-entries sum_hash table2 key1 table2-IsTable

htable_dup-entries_example :
    (h' : Htable) × (htable_dup sum_hash table2 10 ≡ some h')
    × IsTable sum_hash h'
    × (entries h'.list ≡ (key1, 7) ∷ (key2, 8) ∷ [])
htable_dup-entries_example = htable_dup-entries sum_hash table2 10 table2-IsTable (omega arith)

dict_get-dict_set_example :
    (d' : Htable) × (dict_set sum_hash table2 (some (codes "ab")) 3 9 ≡ (d', none))
    × IsTable sum_hash d'
    × (dict_get sum_hash d' (some (codes "ba")) ≡ dict_get sum_hash table2 (some (codes "ba")))
unfolding str_eq
dict_get-dict_set_example =
    dict_get-dict_set sum_hash table2 (codes "ab") (codes "ba") 3 9 table2-IsTable (omega arith)
      (refl, (refl, tt))

dict_get-dict_del_example :
    (d' : Htable) × (dict_del sum_hash table2 (some (codes "ab")) ≡ (d', none))
    × IsTable sum_hash d'
    × (dict_get sum_hash d' (some (codes "ab")) ≡ 0)
unfolding str_eq key_bytes
dict_get-dict_del_example =
    dict_get-dict_del sum_hash table2 (codes "ab") (codes "ab") table2-IsTable
