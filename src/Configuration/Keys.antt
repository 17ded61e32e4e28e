-- ===== src/Configuration/Keys.antt =====
-- src/config.c: dictionaries whose keys are told apart, and what a key gives after a change.
use libecoli.Base.{
  ◌≡◌, refl, sym, ◌∙◌, ap, true, false, Bool-cases, inl, inr, Bytes, str_eq, str_eq_iff, Option,
  none, some, arith,
}
use libecoli.Htable.Keys.{str_eq_comm}
use libecoli.Config.{
  Config, Configs, Entries, list, dict, end, item, empty, entry, entries_get, entries_del,
  entries_add,
}

-- A configuration as the operations build it: the keys of each dictionary are told apart.
abbrev mutual
  pub IsConfig : Config → Type 0
  IsConfig (list vs) = AreConfigs vs
  IsConfig (dict d) = IsDict d
  IsConfig _ = Unit

  pub AreConfigs : Configs → Type 0
  AreConfigs end = Unit
  AreConfigs (item v vs) = IsConfig v × AreConfigs vs

  pub IsDict : Entries → Type 0
  IsDict empty = Unit
  IsDict (entry key v d) = (entries_get d key ≡ none) × IsConfig v × IsDict d

pub entries_get-entry_other :
    (d : Entries) (k key : Bytes) (v : Config)
    → entries_get (entry k v d) key ≡ none
    → (str_eq k key ≡ false) × (entries_get d key ≡ none)
unfolding entries_get
entries_get-entry_other d k key v h = elim (Bool-cases (str_eq k key)) [
  | inl e ↦ absurd (ground (arith, e, h))
  | inr e ↦ (e, ground (arith, e, h))
]

pub entries_get-entry-none :
    (d : Entries) (k key : Bytes) (v : Config)
    → str_eq k key ≡ false
    → entries_get d key ≡ none
    → entries_get (entry k v d) key ≡ none
unfolding entries_get
entries_get-entry-none d k key v e h = rw e h

-- A key that is not there is not removed, and another key that is not there is not added.
pub entries_del-absent :
    (d : Entries) (key : Bytes) → entries_get d key ≡ none → entries_del d key ≡ d
unfolding entries_del
entries_del-absent empty key h = refl
entries_del-absent (entry k v d) key h =
    let (e, h') = entries_get-entry_other d k key v h in
    rw e (ap (entry k v) (entries_del-absent d key h'))

pub entries_get-entries_add-none :
    (d : Entries) (key k : Bytes) (w : Config)
    → str_eq key k ≡ false
    → entries_get d k ≡ none
    → entries_get (entries_add d key w) k ≡ none
unfolding entries_add entries_get
entries_get-entries_add-none empty key k w e h = rw e refl
entries_get-entries_add-none (entry j v d) key k w e h =
    let (ne, h') = entries_get-entry_other d j k v h in
    rw ne (entries_get-entries_add-none d key k w e h')

pub str_eq_self : (s : Bytes) → str_eq s s ≡ true
str_eq_self s = (str_eq_iff s s).1 refl

pub entries_get-other :
    (d : Entries) (k key : Bytes) (v : Config)
    → str_eq k key ≡ false
    → entries_get (entry k v d) key ≡ entries_get d key
unfolding entries_get
entries_get-other d k key v e = rw e refl

pub entries_get-entries_del-other :
    (e : Entries) (key k : Bytes)
    → str_eq key k ≡ false
    → entries_get (entries_del e key) k ≡ entries_get e k
unfolding entries_get entries_del
entries_get-entries_del-other empty key k ne = refl
entries_get-entries_del-other (entry j u e) key k ne = elim (Bool-cases (str_eq j key)) [
  | inl p ↦ rw (p, ap (λ x. str_eq x k) ((str_eq_iff j key).0 p) ∙ ne) refl
  | inr p ↦ elim (Bool-cases (str_eq j k)) [
    | inl q ↦ rw (p, q) refl
    | inr q ↦ rw (p, q) (entries_get-entries_del-other e key k ne)
  ]
]

pub entries_get-same :
    (d : Entries) (k key : Bytes) (v : Config)
    → str_eq k key ≡ true
    → entries_get (entry k v d) key ≡ some v
unfolding entries_get
entries_get-same d k key v e = rw e refl

pub entries_del-same :
    (d : Entries) (k key : Bytes) (v : Config)
    → str_eq k key ≡ true
    → entries_del (entry k v d) key ≡ d
unfolding entries_del
entries_del-same d k key v e = rw e refl

pub entries_del-other :
    (d : Entries) (k key : Bytes) (v : Config)
    → str_eq k key ≡ false
    → entries_del (entry k v d) key ≡ entry k v (entries_del d key)
unfolding entries_del
entries_del-other d k key v e = rw e refl

pub some_inj : (a b : Config) → ◌≡◌ {A = Option Config} (some a) (some b) → a ≡ b
some_inj a b e = cc

pub str_eq_sym : (s t : Bytes) → str_eq s t ≡ true → str_eq t s ≡ true
str_eq_sym s t e = (str_eq_iff t s).1 (sym ((str_eq_iff s t).0 e))

pub entries_del-IsDict : (e : Entries) (key : Bytes) → IsDict e → IsDict (entries_del e key)
unfolding entries_del
entries_del-IsDict empty key t = tt
entries_del-IsDict (entry j u e) key (absent, t, ts) = elim (Bool-cases (str_eq j key)) [
  | inl p ↦ rw p ts
  | inr p ↦ rw p (
    entries_get-entries_del-other e key j (str_eq_comm j key p) ∙ absent,
    t,
    entries_del-IsDict e key ts,
  )
]
