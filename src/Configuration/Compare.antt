-- ===== src/Configuration/Compare.antt =====
-- src/config.c: ec_config_cmp does not depend on the order of its arguments.
use libecoli.Base.{
  suc, ◌≡◌, refl, sym, ◌∙◌, ap, Bool, true, false, Bool-cases, Option-cases, inl, inr, ==_iff, ◌&&◌,
  ◌==◌, Bytes, str_eq, str_eq_iff, none, some, arith,
}
use libecoli.Htable.Keys.{str_eq_comm}
use libecoli.Config.{
  Config, Configs, Entries, bool, i64, u64, string, node, list, dict, end, item, empty, entry,
  entries_len, entries_get, entries_del, bool_eq, value_cmp, list_cmp, dict_cmp, config_cmp,
}
use libecoli.Configuration.Keys.{
  IsConfig, AreConfigs, IsDict, entries_get-entry_other, entries_get-other,
  entries_get-entries_del-other, entries_get-same, entries_del-same, entries_del-other, some_inj,
  str_eq_sym, entries_del-IsDict,
}

bool_eq_comm : (a b : Bool) → bool_eq a b ≡ true → bool_eq b a ≡ true
unfolding bool_eq
bool_eq_comm true true e = refl
bool_eq_comm true false e = e
bool_eq_comm false true e = e
bool_eq_comm false false e = refl

-- What a comparison of dictionaries says of its first entry.
dict_cmp-entry :
    (d e : Entries) (key : Bytes) (v : Config)
    → dict_cmp (entry key v d) e ≡ true
    → (w : Config) × (entries_get e key ≡ some w) × (value_cmp v w ≡ true) × (dict_cmp d e ≡ true)
unfolding dict_cmp
dict_cmp-entry d e key v h = elim (Option-cases (entries_get e key)) [
  | inl k ↦ absurd (ground (arith, k, h))
  | inr (w, k) ↦ (w, k, ground (arith, k, h), ground (arith, k, h))
]

dict_cmp-build :
    (d e : Entries) (key : Bytes) (v w : Config)
    → entries_get e key ≡ some w
    → value_cmp v w ≡ true
    → dict_cmp d e ≡ true
    → dict_cmp (entry key v d) e ≡ true
unfolding dict_cmp
dict_cmp-build d e key v w k c h = rw (dict_cmp, k, c) h

-- A key that the first does not have may come and go in the second.
dict_cmp-entry_other :
    (d e : Entries) (key : Bytes) (w : Config)
    → entries_get d key ≡ none
    → dict_cmp d e ≡ true
    → dict_cmp d (entry key w e) ≡ true
unfolding dict_cmp
dict_cmp-entry_other empty e key w absent h = refl
dict_cmp-entry_other (entry k v d) e key w absent h =
    let (ne, absent') = entries_get-entry_other d k key v absent in
    let (u, at, c, rest) = dict_cmp-entry d e k v h in
    dict_cmp-build d (entry key w e) k v u (entries_get-other e key k w (str_eq_comm k key ne) ∙ at)
      c (dict_cmp-entry_other d e key w absent' rest)

dict_cmp-entries_del :
    (d e : Entries) (key : Bytes)
    → entries_get d key ≡ none
    → dict_cmp d e ≡ true
    → dict_cmp d (entries_del e key) ≡ true
unfolding dict_cmp
dict_cmp-entries_del empty e key absent h = refl
dict_cmp-entries_del (entry k v d) e key absent h =
    let (ne, absent') = entries_get-entry_other d k key v absent in
    let (u, at, c, rest) = dict_cmp-entry d e k v h in
    dict_cmp-build d (entries_del e key) k v u
      (entries_get-entries_del-other e key k (str_eq_comm k key ne) ∙ at) c
      (dict_cmp-entries_del d e key absent' rest)

-- Removing a key that is there takes one entry away.
entries_len-entries_del :
    (e : Entries) (key : Bytes) (w : Config)
    → entries_get e key ≡ some w
    → entries_len e ≡ suc (entries_len (entries_del e key))
unfolding entries_get entries_del entries_len
entries_len-entries_del empty key w h = absurd (cc)
entries_len-entries_del (entry j u e) key w h = elim (Bool-cases (str_eq j key)) [
  | inl p ↦ rw p refl
  | inr p ↦ rw p (ap suc (entries_len-entries_del e key w (ground (arith, p, h))))
]

-- An entry that both have can be put back on both sides.
dict_cmp-put_back :
    (e d : Entries) (key : Bytes) (v w : Config)
    → IsDict e
    → entries_get e key ≡ some w
    → value_cmp w v ≡ true
    → dict_cmp (entries_del e key) d ≡ true
    → dict_cmp e (entry key v d) ≡ true
unfolding entries_get
dict_cmp-put_back empty d key v w t at c h = absurd (cc)
dict_cmp-put_back (entry j u e) d key v w (absent, t, ts) at c h =
    elim (Bool-cases (str_eq j key)) [
      | inl p ↦
          dict_cmp-build e (entry key v d) j u v (entries_get-same d key j v (str_eq_sym j key p))
            (rw (some_inj u w (sym (entries_get-same e j key u p) ∙ at)) c)
            (dict_cmp-entry_other e d key v
              (ap (entries_get e) (sym ((str_eq_iff j key).0 p)) ∙ absent)
              (ap (λ x. dict_cmp x d) (sym (entries_del-same e j key u p)) ∙ h))
      | inr p ↦
          let (x, at2, c2, rest) =
            dict_cmp-entry (entries_del e key) d j u
              (ap (λ x. dict_cmp x d) (sym (entries_del-other e j key u p)) ∙ h) in
          dict_cmp-build e (entry key v d) j u x
            (entries_get-other d key j v (str_eq_comm j key p) ∙ at2) c2
            (dict_cmp-put_back e d key v w ts (sym (entries_get-other e j key u p) ∙ at) c rest)
    ]

entries_get-IsConfig :
    (e : Entries) (key : Bytes) (w : Config) → IsDict e → entries_get e key ≡ some w → IsConfig w
unfolding entries_get
entries_get-IsConfig empty key w t h = absurd (cc)
entries_get-IsConfig (entry j u e) key w (absent, t, ts) h = elim (Bool-cases (str_eq j key)) [
  | inl p ↦ rw (sym (some_inj u w (sym (entries_get-same e j key u p) ∙ h))) t
  | inr p ↦ entries_get-IsConfig e key w ts (sym (entries_get-other e j key u p) ∙ h)
]

both : (a b : Bool) → (a && b) ≡ true → (a ≡ true) × (b ≡ true)
both true b h = (refl, h)
both false b h = absurd (cc)

mutual
  unfolding value_cmp list_cmp entries_len

  value_cmp_sym :
      (v w : Config) → IsConfig v → IsConfig w → value_cmp v w ≡ true → value_cmp w v ≡ true
  value_cmp_sym (bool a) (bool b) t t' h = bool_eq_comm a b h
  value_cmp_sym (i64 a) (i64 b) t t' h = ground (arith, h)
  value_cmp_sym (u64 a) (u64 b) t t' h = ground (arith, h)
  value_cmp_sym (string a) (string b) t t' h = str_eq_sym a b h
  value_cmp_sym (node a) (node b) t t' h = ground (arith, h)
  value_cmp_sym (list vs) (list ws) t t' h = list_cmp_sym vs ws t t' h
  value_cmp_sym (dict d) (dict e) t t' h =
      let (n, c) = both (entries_len d == entries_len e) (dict_cmp d e) h in
      rw
        ((==_iff (entries_len e) (entries_len d)).1
          (sym ((==_iff (entries_len d) (entries_len e)).0 n)))
        (dict_cmp_sym d e t t' ((==_iff _ _).0 n) c)
  value_cmp_sym _ _ t t' h = absurd (cc)

  list_cmp_sym :
      (vs ws : Configs)
      → AreConfigs vs
      → AreConfigs ws
      → list_cmp vs ws ≡ true
      → list_cmp ws vs ≡ true
  list_cmp_sym end end t t' h = h
  list_cmp_sym end (item w ws) t t' h = absurd (cc)
  list_cmp_sym (item v vs) end t t' h = absurd (cc)
  list_cmp_sym (item v vs) (item w ws) (t, ts) (t', ts') h =
      let (c, rest) = both (value_cmp v w) (list_cmp vs ws) h in
      rw (value_cmp_sym v w t t' c) (list_cmp_sym vs ws ts ts' rest)

  dict_cmp_sym :
      (d e : Entries)
      → IsDict d
      → IsDict e
      → entries_len d ≡ entries_len e
      → dict_cmp d e ≡ true
      → dict_cmp e d ≡ true
  dict_cmp_sym empty empty t t' n h = h
  dict_cmp_sym empty (entry k w e) t t' n h = absurd (omega (arith, n))
  dict_cmp_sym (entry key v d) e (absent, t, ts) t' n h =
      let (w, at, c, rest) = dict_cmp-entry d e key v h in
      dict_cmp-put_back e d key v w t' at
        (value_cmp_sym v w t (entries_get-IsConfig e key w t' at) c)
        (dict_cmp_sym d (entries_del e key) ts (entries_del-IsDict e key t')
          (omega (arith, n, entries_len-entries_del e key w at))
          (dict_cmp-entries_del d e key absent rest))

-- Where dictionaries have distinct keys, ec_config_cmp gives the same in both orders.
pub config_cmp_comm :
    (v w : Config)
    → IsConfig v
    → IsConfig w
    → config_cmp (some v) (some w) ≡ config_cmp (some w) (some v)
unfolding config_cmp
config_cmp_comm v w t t' = elim (Bool-cases (value_cmp v w)) [
  | inl e ↦ e ∙ sym (value_cmp_sym v w t t' e)
  | inr e ↦ elim (Bool-cases (value_cmp w v)) [
    | inl f ↦ value_cmp_sym w v t' t f ∙ sym f
    | inr f ↦ e ∙ sym f
  ]
]
