-- ===== src/Configuration/Changes.antt =====
-- src/config.c: the operations that make and change configurations keep the keys of dictionaries
-- told apart.
use mathlib.Core.Path.{subst}
use libecoli.Base.{
  ℕ, zero, suc, ◌≡◌, refl, sym, ◌∙◌, ap, Bool, false, Bool-cases, Option-cases, inl, inr,
  if◌then◌else◌, Bytes, str_eq, str_eq_iff, Option, none, some,
}
use libecoli.Htable.Keys.{str_eq_comm}
use libecoli.Config.{
  Config, Configs, Entries, bool, i64, u64, list, dict, end, item, empty, entry, insert_tail,
  remove_at, entries_get, entries_del, entries_add, entries_set, config_string, config_node,
  config_dup, config_list_add, config_list_del, config_dict_set, config_dict_del, config_dict_get,
}
use libecoli.Configuration.Keys.{
  IsConfig, AreConfigs, IsDict, entries_get-entry_other, entries_get-entries_add-none,
  entries_get-other, entries_get-entries_del-other, entries_get-same, entries_del-IsDict,
  str_eq_self,
}
use libecoli.Configuration.Nested.{
  item_at, put_item, put_entry, item_at-IsConfig, put_item-AreConfigs, get-IsConfig,
  put_entry-IsDict,
}
use libecoli.Configuration.Copies.{value_dup_lem}

-- One operation that changes a configuration, on the object itself or, through a pointer to an
-- element below it, on this element; the first argument is the value that is handed over.
pub data Changed : Option Config → Config → Config → Type 0 where
  by_list_add :
      (c v c' : Config) → config_list_add (some c) (some v) ≡ some c' → Changed (some v) c c'
  by_list_del :
      (c : Config) (i : ℕ) (c' : Config) → config_list_del (some c) i ≡ some c' → Changed none c c'
  by_dict_set :
      (c v : Config) (key : Option Bytes) (c' : Config)
      → config_dict_set (some c) key (some v) ≡ some c'
      → Changed (some v) c c'
  by_dict_del :
      (c : Config) (key : Option Bytes) (c' : Config)
      → config_dict_del (some c) key ≡ some c'
      → Changed none c c'
  in_list :
      (given : Option Config) (vs : Configs) (i : ℕ) (v v' : Config)
      → item_at vs i ≡ some v
      → Changed given v v'
      → Changed given (list vs) (list (put_item vs i v'))
  in_dict :
      (given : Option Config) (d : Entries) (key : Bytes) (v v' : Config)
      → config_dict_get (some (dict d)) (some key) ≡ some v
      → Changed given v v'
      → Changed given (dict d) (dict (put_entry d key v'))

-- The configurations that the operations give.
pub data Made : Config → Type 0 where
  of_bool : (b : Bool) → Made (bool b)
  of_i64 : (n : ℕ) → Made (i64 n)
  of_u64 : (n : ℕ) → Made (u64 n)
  of_string : (s : Option Bytes) (c : Config) → config_string s ≡ some c → Made c
  of_node : (n : Option ℕ) (c : Config) → config_node n ≡ some c → Made c
  new_list : Made (list end)
  new_dict : Made (dict empty)
  by_change : (c c' : Config) → Made c → Changed none c c' → Made c'
  by_gift : (c v c' : Config) → Made c → Made v → Changed (some v) c c' → Made c'
  by_dup : (c c' : Config) → Made c → config_dup (some c) ≡ some c' → Made c'

insert_tail-AreConfigs :
    (vs : Configs) (v : Config) → AreConfigs vs → IsConfig v → AreConfigs (insert_tail vs v)
unfolding insert_tail
insert_tail-AreConfigs end v ts t = (t, tt)
insert_tail-AreConfigs (item u vs) v (t', ts) t = (t', insert_tail-AreConfigs vs v ts t)

remove_at-AreConfigs : (vs : Configs) (i : ℕ) → AreConfigs vs → AreConfigs (remove_at vs i)
unfolding remove_at
remove_at-AreConfigs end i ts = tt
remove_at-AreConfigs (item v vs) zero (t, ts) = ts
remove_at-AreConfigs (item v vs) (suc i) (t, ts) = (t, remove_at-AreConfigs vs i ts)

entries_add-IsDict :
    (d : Entries) (key : Bytes) (v : Config)
    → entries_get d key ≡ none
    → IsDict d
    → IsConfig v
    → IsDict (entries_add d key v)
unfolding entries_add entries_get
entries_add-IsDict empty key v absent ts t = (refl, t, tt)
entries_add-IsDict (entry k u d) key v absent (absent', t', ts) t =
    let (ne, absent2) = entries_get-entry_other d k key u absent in
    (
      entries_get-entries_add-none d key k v (str_eq_comm k key ne) absent',
      t',
      entries_add-IsDict d key v absent2 ts t,
    )

-- A key that was removed is gone, since it stood there once.
entries_get-entries_del :
    (d : Entries) (key : Bytes) → IsDict d → entries_get (entries_del d key) key ≡ none
unfolding entries_del entries_get
entries_get-entries_del empty key t = refl
entries_get-entries_del (entry k u d) key (absent, t, ts) = elim (Bool-cases (str_eq k key)) [
  | inl e ↦ rw e (ap (entries_get d) (sym ((str_eq_iff k key).0 e)) ∙ absent)
  | inr e ↦ rw (e, e) (entries_get-entries_del d key ts)
]

entries_set-IsDict :
    (d : Entries) (key : Bytes) (v : Config) → IsDict d → IsConfig v → IsDict (entries_set d key v)
unfolding entries_set
entries_set-IsDict d key v ts t =
    entries_add-IsDict (entries_del d key) key v (entries_get-entries_del d key ts)
      (entries_del-IsDict d key ts) t

-- What an operation returns is a configuration, or nothing.
abbrev Gives : Option Config → Type 0
Gives none = Unit
Gives (some c) = IsConfig c

string-Gives : (s : Option Bytes) → Gives (config_string s)
unfolding config_string
string-Gives none = tt
string-Gives (some s) = tt

node-Gives : (n : Option ℕ) → Gives (config_node n)
unfolding config_node
node-Gives none = tt
node-Gives (some n) = tt

list_add-Gives :
    (c v : Config) → IsConfig c → IsConfig v → Gives (config_list_add (some c) (some v))
unfolding config_list_add
list_add-Gives (list vs) v t t' = insert_tail-AreConfigs vs v t t'
list_add-Gives _ v t t' = tt

list_del-Gives : (c : Config) (i : ℕ) → IsConfig c → Gives (config_list_del (some c) i)
unfolding config_list_del
list_del-Gives (list vs) i t = remove_at-AreConfigs vs i t
list_del-Gives _ i t = tt

dict_set-Gives :
    (c v : Config) (key : Option Bytes)
    → IsConfig c
    → IsConfig v
    → Gives (config_dict_set (some c) key (some v))
unfolding config_dict_set
dict_set-Gives (dict d) v (some key) t t' = entries_set-IsDict d key v t t'
dict_set-Gives _ v _ t t' = tt

dict_del-Gives :
    (c : Config) (key : Option Bytes) → IsConfig c → Gives (config_dict_del (some c) key)
unfolding config_dict_del
dict_del-Gives (dict d) (some key) t = elim (Option-cases (entries_get d key)) [
  | inl e ↦ rw (config_dict_del, e) tt
  | inr (v, e) ↦ rw (config_dict_del, e) (entries_del-IsDict d key t)
]
dict_del-Gives _ _ t = tt

dup-Gives : (c : Config) → IsConfig c → Gives (config_dup (some c))
unfolding config_dup
dup-Gives c t = rw (value_dup_lem c t) t

Changed-IsConfig :
    (given : Option Config) (c c' : Config)
    → Changed given c c'
    → Gives given
    → IsConfig c
    → IsConfig c'
unfolding config_dict_get
Changed-IsConfig _ _ _ (by_list_add c v c' e) g t = subst Gives e (list_add-Gives c v t g)
Changed-IsConfig _ _ _ (by_list_del c i c' e) g t = subst Gives e (list_del-Gives c i t)
Changed-IsConfig _ _ _ (by_dict_set c v key c' e) g t = subst Gives e (dict_set-Gives c v key t g)
Changed-IsConfig _ _ _ (by_dict_del c key c' e) g t = subst Gives e (dict_del-Gives c key t)
Changed-IsConfig _ _ _ (in_list given vs i v v' e m) g t =
    put_item-AreConfigs vs i v' t (Changed-IsConfig given v v' m g (item_at-IsConfig vs i v e t))
Changed-IsConfig _ _ _ (in_dict given d key v v' e m) g t =
    put_entry-IsDict d key v' t (Changed-IsConfig given v v' m g (get-IsConfig d key v e t))

-- Whatever sequence of creations, of additions, settings and deletions on the configuration or on
-- an element anywhere below it, and of copies makes a configuration, the keys of each of its
-- dictionaries are distinct.
pub Made-IsConfig : (c : Config) → Made c → IsConfig c
Made-IsConfig _ (of_bool b) = tt
Made-IsConfig _ (of_i64 n) = tt
Made-IsConfig _ (of_u64 n) = tt
Made-IsConfig c (of_string s _ e) = subst Gives e (string-Gives s)
Made-IsConfig c (of_node n _ e) = subst Gives e (node-Gives n)
Made-IsConfig _ new_list = tt
Made-IsConfig _ new_dict = tt
Made-IsConfig c (by_change b _ m ch) = Changed-IsConfig none b c ch tt (Made-IsConfig b m)
Made-IsConfig c (by_gift b v _ m m' ch) =
    Changed-IsConfig (some v) b c ch (Made-IsConfig v m') (Made-IsConfig b m)
Made-IsConfig c (by_dup b _ m e) = subst Gives e (dup-Gives b (Made-IsConfig b m))

entries_get-entries_add :
    (d : Entries) (key : Bytes) (v : Config)
    → entries_get d key ≡ none
    → entries_get (entries_add d key v) key ≡ some v
unfolding entries_add
entries_get-entries_add empty key v absent = entries_get-same empty key key v (str_eq_self key)
entries_get-entries_add (entry k u d) key v absent =
    let (ne, absent') = entries_get-entry_other d k key u absent in
    entries_get-other (entries_add d key v) k key u ne ∙ entries_get-entries_add d key v absent'

entries_get-entries_add-other :
    (d : Entries) (key k : Bytes) (v : Config)
    → str_eq key k ≡ false
    → entries_get (entries_add d key v) k ≡ entries_get d k
unfolding entries_add entries_get
entries_get-entries_add-other empty key k v ne = rw ne refl
entries_get-entries_add-other (entry j u d) key k v ne = elim (Bool-cases (str_eq j k)) [
  | inl e ↦ rw e refl
  | inr e ↦ rw e (entries_get-entries_add-other d key k v ne)
]

-- ec_config_dict_set on a dictionary with distinct keys succeeds; then ec_config_dict_get gives the value for the key,
-- and for any other key what it gave before.
pub config_dict_get-config_dict_set :
    (d : Entries) (key k : Bytes) (v : Config)
    → IsConfig (dict d)
    → config_dict_get (config_dict_set (some (dict d)) (some key) (some v)) (some k)
      ≡ (if str_eq key k then some v else config_dict_get (some (dict d)) (some k))
unfolding config_dict_get config_dict_set entries_set
config_dict_get-config_dict_set d key k v t = elim (Bool-cases (str_eq key k)) [
  | inl e ↦
      rw (e, ← (str_eq_iff key k).0 e)
        (entries_get-entries_add (entries_del d key) key v (entries_get-entries_del d key t))
  | inr e ↦ rw e (
      entries_get-entries_add-other (entries_del d key) key k v e
      ∙ entries_get-entries_del-other d key k e)
]
