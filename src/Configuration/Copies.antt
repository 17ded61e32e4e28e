-- ===== src/Configuration/Copies.antt =====
-- src/config.c: ec_config_dup against ec_config_cmp.
use libecoli.Base.{◌≡◌, refl, sym, ◌∙◌, ap, Bool, true, false, ==_self, Bytes, none, some}
use libecoli.Htable.Keys.{str_eq_comm}
use libecoli.Configuration.Keys.{
  IsConfig, AreConfigs, IsDict, entries_get-entry_other, entries_del-absent,
  entries_get-entries_add-none, str_eq_self,
}
use libecoli.Config.{
  Config, Configs, Entries, bool, i64, u64, string, node, list, dict, end, item, empty, entry,
  insert_tail, entries_len, entries_get, entries_add, entries_set, bool_eq, value_cmp, list_cmp,
  dict_cmp, config_cmp, value_dup, items_dup, entries_dup, config_dup,
}

-- One list behind another.
abbrev join : Configs → Configs → Configs
join end ws = ws
join (item v vs) ws = item v (join vs ws)

abbrev join_entries : Entries → Entries → Entries
join_entries empty e = e
join_entries (entry k v d) e = entry k v (join_entries d e)

join-insert_tail : (vs ws : Configs) (v : Config) → join (insert_tail vs v) ws ≡ join vs (item v ws)
unfolding insert_tail
join-insert_tail end ws v = refl
join-insert_tail (item u vs) ws v = ap (item u) (join-insert_tail vs ws v)

join-end : (vs : Configs) → join vs end ≡ vs
join-end end = refl
join-end (item v vs) = ap (item v) (join-end vs)

join_entries-empty : (d : Entries) → join_entries d empty ≡ d
join_entries-empty empty = refl
join_entries-empty (entry k v d) = ap (entry k v) (join_entries-empty d)

join_entries-entries_add :
    (d e : Entries) (key : Bytes) (w : Config)
    → join_entries (entries_add d key w) e ≡ join_entries d (entry key w e)
unfolding entries_add
join_entries-entries_add empty e key w = refl
join_entries-entries_add (entry k v d) e key w = ap (entry k v) (join_entries-entries_add d e key w)

-- No key of the second is in the first.
abbrev Fresh : Entries → Entries → Type 0
Fresh dup empty = Unit
Fresh dup (entry k v d) = (entries_get dup k ≡ none) × Fresh dup d

Fresh-entries_add :
    (dup d : Entries) (key : Bytes) (w : Config)
    → Fresh dup d
    → entries_get d key ≡ none
    → Fresh (entries_add dup key w) d
Fresh-entries_add dup empty key w f h = tt
Fresh-entries_add dup (entry k v d) key w (f, fs) h =
    let (e, h') = entries_get-entry_other d k key v h in
    (
      entries_get-entries_add-none dup key k w (str_eq_comm k key e) f,
      Fresh-entries_add dup d key w fs h',
    )

Fresh-empty : (d : Entries) → Fresh empty d
unfolding entries_get
Fresh-empty empty = tt
Fresh-empty (entry k v d) = (refl, Fresh-empty d)

mutual
  unfolding value_dup items_dup entries_dup entries_set

  pub value_dup_lem : (v : Config) → IsConfig v → value_dup v ≡ v
  value_dup_lem (bool b) t = refl
  value_dup_lem (i64 n) t = refl
  value_dup_lem (u64 n) t = refl
  value_dup_lem (string s) t = refl
  value_dup_lem (node n) t = refl
  value_dup_lem (list vs) t = ap list (items_dup_lem end vs t)
  value_dup_lem (dict d) t = ap dict (entries_dup_lem empty d (Fresh-empty d) t)

  items_dup_lem : (dup vs : Configs) → AreConfigs vs → items_dup dup vs ≡ join dup vs
  items_dup_lem dup end t = sym (join-end dup)
  items_dup_lem dup (item v vs) (t, ts) =
      rw (value_dup_lem v t) (items_dup_lem (insert_tail dup v) vs ts ∙ join-insert_tail dup vs v)

  entries_dup_lem :
      (dup d : Entries) → Fresh dup d → IsDict d → entries_dup dup d ≡ join_entries dup d
  entries_dup_lem dup empty f t = sym (join_entries-empty dup)
  entries_dup_lem dup (entry key v d) (f, fs) (absent, t, ts) =
      rw (value_dup_lem v t, entries_del-absent dup key f)
        (entries_dup_lem (entries_add dup key v) d (Fresh-entries_add dup d key v fs absent) ts
          ∙ join_entries-entries_add dup d key v)

bool_eq_self : (b : Bool) → bool_eq b b ≡ true
unfolding bool_eq
bool_eq_self true = refl
bool_eq_self false = refl

-- Each entry of the first is what the second gives for its key.
abbrev pub Within : Entries → Entries → Type 0
Within empty e = Unit
Within (entry k v d) e = (entries_get e k ≡ some v) × Within d e

Within-entry :
    (d e : Entries) (key : Bytes) (w : Config)
    → Within d e
    → entries_get d key ≡ none
    → Within d (entry key w e)
unfolding entries_get
Within-entry empty e key w h absent = tt
Within-entry (entry k v d) e key w (h, hs) absent =
    let (ne, absent') = entries_get-entry_other d k key v absent in
    (rw (str_eq_comm k key ne) h, Within-entry d e key w hs absent')

pub Within-self : (d : Entries) → IsDict d → Within d d
unfolding entries_get
Within-self empty t = tt
Within-self (entry k v d) (absent, t, ts) =
    (rw (str_eq_self k) refl, Within-entry d d k v (Within-self d ts) absent)

mutual
  unfolding value_cmp list_cmp dict_cmp

  value_cmp_self : (v : Config) → IsConfig v → value_cmp v v ≡ true
  value_cmp_self (bool b) t = bool_eq_self b
  value_cmp_self (i64 n) t = ==_self n
  value_cmp_self (u64 n) t = ==_self n
  value_cmp_self (string s) t = str_eq_self s
  value_cmp_self (node n) t = ==_self n
  value_cmp_self (list vs) t = list_cmp_self vs t
  value_cmp_self (dict d) t = rw (==_self (entries_len d)) (dict_cmp-Within d d t (Within-self d t))

  list_cmp_self : (vs : Configs) → AreConfigs vs → list_cmp vs vs ≡ true
  list_cmp_self end t = refl
  list_cmp_self (item v vs) (t, ts) = rw (value_cmp_self v t) (list_cmp_self vs ts)

  dict_cmp-Within : (d e : Entries) → IsDict d → Within d e → dict_cmp d e ≡ true
  dict_cmp-Within empty e t h = refl
  dict_cmp-Within (entry k v d) e (absent, t, ts) (h, hs) =
      rw (dict_cmp, h, value_cmp_self v t) (dict_cmp-Within d e ts hs)

-- A configuration whose dictionaries have distinct keys compares equal to its copy.
pub config_cmp-config_dup :
    (v : Config) → IsConfig v → config_cmp (some v) (config_dup (some v)) ≡ true
unfolding config_cmp config_dup
config_cmp-config_dup v t = rw (value_dup_lem v t) (value_cmp_self v t)
