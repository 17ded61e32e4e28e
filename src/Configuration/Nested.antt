-- ===== src/Configuration/Nested.antt =====
-- src/config.c: a change of an element of a list or dictionary through a pointer to it, which
-- ec_config_dict_get and the loops over a list hand out.
use mathlib.Core.Path.{subst}
use libecoli.Base.{
  ℕ, zero, suc, ◌≡◌, sym, ◌∙◌, Bool-cases, inl, inr, if◌then◌else◌, Bytes, str_eq, Option, none,
  some, arith,
}
use libecoli.Config.{Config, Configs, Entries, end, item, empty, entry, entries_get}
use libecoli.Configuration.Keys.{
  IsConfig, AreConfigs, IsDict, some_inj, entries_get-same, entries_get-other,
  entries_get-entry_other, entries_get-entry-none,
}

-- The element that a loop over the list reaches after `i` others.
abbrev pub item_at : Configs → ℕ → Option Config
item_at end i = none
item_at (item v vs) zero = some v
item_at (item v vs) (suc i) = item_at vs i

-- The list once the element there has become `w`.
abbrev pub put_item : Configs → ℕ → Config → Configs
put_item end i w = end
put_item (item v vs) zero w = item w vs
put_item (item v vs) (suc i) w = item v (put_item vs i w)

-- The dictionary once the value of the key has become `w`.
abbrev pub put_entry : Entries → Bytes → Config → Entries
put_entry empty key w = empty
put_entry (entry k v d) key w = if str_eq k key then entry k w d else entry k v (put_entry d key w)

pub item_at-IsConfig :
    (vs : Configs) (i : ℕ) (v : Config) → item_at vs i ≡ some v → AreConfigs vs → IsConfig v
item_at-IsConfig end i v e ts = absurd (ground (arith, e))
item_at-IsConfig (item u vs) zero v e (t, ts) = subst IsConfig (some_inj u v e) t
item_at-IsConfig (item u vs) (suc i) v e (t, ts) = item_at-IsConfig vs i v e ts

pub put_item-AreConfigs :
    (vs : Configs) (i : ℕ) (w : Config) → AreConfigs vs → IsConfig w → AreConfigs (put_item vs i w)
put_item-AreConfigs end i w ts t = tt
put_item-AreConfigs (item u vs) zero w (t', ts) t = (t, ts)
put_item-AreConfigs (item u vs) (suc i) w (t', ts) t = (t', put_item-AreConfigs vs i w ts t)

pub get-IsConfig :
    (d : Entries) (key : Bytes) (v : Config) → entries_get d key ≡ some v → IsDict d → IsConfig v
unfolding entries_get
get-IsConfig empty key v e ts = absurd (ground (arith, e))
get-IsConfig (entry k u d) key v e (absent, t, ts) = elim (Bool-cases (str_eq k key)) [
  | inl p ↦ subst IsConfig (some_inj u v (sym (entries_get-same d k key u p) ∙ e)) t
  | inr p ↦ get-IsConfig d key v (sym (entries_get-other d k key u p) ∙ e) ts
]

-- The keys are those that there were.
put_entry-none :
    (d : Entries) (key k : Bytes) (w : Config)
    → entries_get d k ≡ none
    → entries_get (put_entry d key w) k ≡ none
put_entry-none empty key k w e = e
put_entry-none (entry j u d) key k w e =
    let (ne, e') = entries_get-entry_other d j k u e in
    elim (Bool-cases (str_eq j key)) [
      | inl p ↦ rw p (entries_get-entry-none d j k w ne e')
      | inr p ↦
          rw p (entries_get-entry-none (put_entry d key w) j k u ne (put_entry-none d key k w e'))
    ]

pub put_entry-IsDict :
    (d : Entries) (key : Bytes) (w : Config) → IsDict d → IsConfig w → IsDict (put_entry d key w)
put_entry-IsDict empty key w ts t = tt
put_entry-IsDict (entry k u d) key w (absent, t', ts) t = elim (Bool-cases (str_eq k key)) [
  | inl p ↦ rw p (absent, t, ts)
  | inr p ↦ rw p (put_entry-none d key k w absent, t', put_entry-IsDict d key w ts t)
]
