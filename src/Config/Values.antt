-- ===== src/Config/Values.antt =====
-- src/config.c: configuration values, their comparison, copies and changes.
use libecoli.Base.{
  ℕ, zero, suc, Bool, true, false, ◌&&◌, if◌then◌else◌, ◌==◌, Bytes, str_eq, Option, none, some,
}

-- enum ec_config_type; `other` is a value of the C type that has no name.
pub data ConfigType : Type 0 where
  bool_type int64_type uint64_type string_type node_type list_type dict_type : ConfigType
  other : ℕ → ConfigType

-- struct ec_config. An int64 is its 64 bits, a node its address. A dictionary is its entries in the
-- order of iteration, each key once.
mutual
  pub data Config : Type 0 where
    bool : Bool → Config
    i64 : ℕ → Config
    u64 : ℕ → Config
    string : Bytes → Config
    node : ℕ → Config
    list : Configs → Config
    dict : Entries → Config

  -- the TAILQ of a list
  pub data Configs : Type 0 where
    end : Configs
    item : Config → Configs → Configs

  pub data Entries : Type 0 where
    empty : Entries
    entry : Bytes → Config → Entries → Entries

-- ec_config_get_type
unfoldable pub config_type : Config → ConfigType
config_type (bool b) = bool_type
config_type (i64 n) = int64_type
config_type (u64 n) = uint64_type
config_type (string s) = string_type
config_type (node n) = node_type
config_type (list vs) = list_type
config_type (dict d) = dict_type

-- ec_config_string; NULL is refused
unfoldable pub config_string : Option Bytes → Option Config
config_string none = none
config_string (some s) = some (string s)

-- ec_config_node; NULL is refused
unfoldable pub config_node : Option ℕ → Option Config
config_node none = none
config_node (some n) = some (node n)

unfoldable pub count : Configs → ℕ
count end = 0
count (item v vs) = suc (count vs)

-- ec_config_count; `none` is -1
unfoldable pub config_count : Config → Option ℕ
config_count (list vs) = some (count vs)
config_count _ = none

-- TAILQ_INSERT_TAIL
unfoldable pub insert_tail : Configs → Config → Configs
insert_tail end w = item w end
insert_tail (item v vs) w = item v (insert_tail vs w)

-- ec_dict_len, ec_dict_get, ec_dict_del and ec_dict_set on the entries
unfoldable pub entries_len : Entries → ℕ
entries_len empty = 0
entries_len (entry k v d) = suc (entries_len d)

unfoldable pub entries_get : Entries → Bytes → Option Config
entries_get empty key = none
entries_get (entry k v d) key = if str_eq k key then some v else entries_get d key

unfoldable pub entries_del : Entries → Bytes → Entries
entries_del empty key = empty
entries_del (entry k v d) key = if str_eq k key then d else entry k v (entries_del d key)

unfoldable pub entries_add : Entries → Bytes → Config → Entries
entries_add empty key w = entry key w empty
entries_add (entry k v d) key w = entry k v (entries_add d key w)

unfoldable pub entries_set : Entries → Bytes → Config → Entries
entries_set d key w = entries_add (entries_del d key) key w

unfoldable pub bool_eq : Bool → Bool → Bool
bool_eq true b = b
bool_eq false true = false
bool_eq false false = true

-- ec_config_cmp, ec_config_list_cmp, and the loop of ec_config_dict_cmp; `true` is 0, `false` -1.
unfoldable mutual
  pub value_cmp : Config → Config → Bool
  value_cmp (bool a) (bool b) = bool_eq a b
  value_cmp (i64 a) (i64 b) = a == b
  value_cmp (u64 a) (u64 b) = a == b
  value_cmp (string s) (string t) = str_eq s t
  value_cmp (node a) (node b) = a == b
  value_cmp (list vs) (list ws) = list_cmp vs ws
  value_cmp (dict d) (dict e) = (entries_len d == entries_len e) && dict_cmp d e
  value_cmp _ _ = false

  pub list_cmp : Configs → Configs → Bool
  list_cmp end end = true
  list_cmp (item v vs) (item w ws) = value_cmp v w && list_cmp vs ws
  list_cmp _ _ = false

  pub dict_cmp : Entries → Entries → Bool
  dict_cmp empty e = true
  dict_cmp (entry key v d) e = elim (entries_get e key) [
    | none ↦ false
    | some w ↦ value_cmp v w && dict_cmp d e
  ]

-- ec_config_cmp; `none` is NULL
unfoldable pub config_cmp : Option Config → Option Config → Bool
config_cmp none w = false
config_cmp (some v) none = false
config_cmp (some v) (some w) = value_cmp v w

-- ec_config_dup, and the loops of ec_config_list_dup and ec_config_dict_dup. ec_node_clone gives
-- the same node.
unfoldable mutual
  pub value_dup : Config → Config
  value_dup (bool b) = bool b
  value_dup (i64 n) = i64 n
  value_dup (u64 n) = u64 n
  value_dup (string s) = string s
  value_dup (node n) = node n
  value_dup (list vs) = list (items_dup end vs)
  value_dup (dict d) = dict (entries_dup empty d)

  pub items_dup : Configs → Configs → Configs
  items_dup dup end = dup
  items_dup dup (item v vs) = items_dup (insert_tail dup (value_dup v)) vs

  pub entries_dup : Entries → Entries → Entries
  entries_dup dup empty = dup
  entries_dup dup (entry key v d) = entries_dup (entries_set dup key (value_dup v)) d

-- ec_config_dup
unfoldable pub config_dup : Option Config → Option Config
config_dup none = none
config_dup (some v) = some (value_dup v)

-- ec_config_dict_get; `none` is NULL
unfoldable pub config_dict_get : Option Config → Option Bytes → Option Config
config_dict_get (some (dict d)) (some key) = entries_get d key
config_dict_get _ _ = none

-- ec_config_dict_set; `none` is -1, and leaves the dictionary as it was
unfoldable pub config_dict_set : Option Config → Option Bytes → Option Config → Option Config
config_dict_set (some (dict d)) (some key) (some v) = some (dict (entries_set d key v))
config_dict_set _ _ _ = none

-- ec_config_dict_del; `none` is -1
unfoldable pub config_dict_del : Option Config → Option Bytes → Option Config
config_dict_del (some (dict d)) (some key) = elim (entries_get d key) [
  | none ↦ none
  | some v ↦ some (dict (entries_del d key))
]
config_dict_del _ _ = none

-- ec_config_list_first
unfoldable pub config_list_first : Option Config → Option Config
config_list_first (some (list (item v vs))) = some v
config_list_first _ = none

-- ec_config_list_add; `none` is -1
unfoldable pub config_list_add : Option Config → Option Config → Option Config
config_list_add (some (list vs)) (some v) = some (list (insert_tail vs v))
config_list_add _ _ = none

-- TAILQ_REMOVE of the element at a place
unfoldable pub remove_at : Configs → ℕ → Configs
remove_at end i = end
remove_at (item v vs) zero = vs
remove_at (item v vs) (suc i) = item v (remove_at vs i)

-- ec_config_list_del, of the element at a place; `none` is -1
unfoldable pub config_list_del : Option Config → ℕ → Option Config
config_list_del (some (list vs)) i = some (list (remove_at vs i))
config_list_del _ i = none
