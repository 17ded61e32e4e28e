-- ===== src/Int.antt =====
-- src/node_int.c, the types int and uint, with the number parsers of src/string.c.
use libecoli.Base.{
  ℕ, suc, ◌-◌, ◌^◌, ◌%◌, Bool, true, false, ◌&&◌, ◌||◌, if◌then◌else◌, ltb, ◌==◌, Bytes, codes,
  Option, none, some, List, [], ◌∷◌,
}
use libecoli.Base.Signed.{ℤ, pos, negsuc, ltb_ℤ, eq_ℤ, to_signed, of_signed}
use libecoli.Strvec.{Strvec}
use libecoli.Parse.{Outcome, matched, nomatch, nil}
use libecoli.Config.{
  Config, i64, u64, dict, empty, Schema, Subschema, field, last, null, array, int64_type,
  uint64_type, Checked, ok, config_dict_get, config_dict_set, config_validate,
}
pub mod Bounds

-- errno after strtoll(3) or strtoull(3)
pub data Errno : Type 0 where
  no_error erange other_error : Errno

-- What they return: the value, what `endptr` points to, and errno.
pub record Conversion (A : Type 0) : Type 0 where
  pub value : A
  pub rest : Bytes
  pub err : Errno

unfoldable pub is_erange : Errno → Bool
is_erange erange = true
is_erange _ = false

unfoldable pub is_error : Errno → Bool
is_error no_error = false
is_error _ = true

unfoldable pub is_empty : Bytes → Bool
is_empty [] = true
is_empty (c ∷ s) = false

unfoldable pub has_minus : Bytes → Bool
has_minus [] = false
has_minus (c ∷ s) = c == 45 || has_minus s

abbrev pub llong_max : ℤ
llong_max = pos (2 ^ 63 - 1)

abbrev pub llong_min : ℤ
llong_min = negsuc (2 ^ 63 - 1)

abbrev pub ullong_max : ℕ
ullong_max = 2 ^ 64 - 1

-- struct ec_node_int_uint. `min` and `max` are the 64 bits of the unions.
pub record IntUint : Type 0 where
  pub is_signed : Bool
  pub check_min : Bool
  pub check_max : Bool
  pub min : ℕ
  pub max : ℕ
  pub base : ℕ

-- a new node's memory, and ec_node_uint_init_priv for the type int
abbrev pub new_priv : Bool → IntUint
new_priv is_signed = record {
  is_signed = is_signed;
  check_min = false;
  check_max = false;
  min = 0;
  max = 0;
  base = 0;
}

-- ec_node_int_schema, ec_node_uint_schema
abbrev pub int_schema : Schema
int_schema = field (some (codes "min")) int64_type false null (
    field (some (codes "max")) int64_type false null
      (field (some (codes "base")) uint64_type false null last))

abbrev pub uint_schema : Schema
uint_schema = field (some (codes "min")) uint64_type false null (
    field (some (codes "max")) uint64_type false null
      (field (some (codes "base")) uint64_type false null last))

-- `value->i64`, `value->u64`: the schema gives the values these types
unfoldable pub bits_of : Config → ℕ
bits_of (i64 n) = n
bits_of (u64 n) = n
bits_of _ = 0

unfoldable pub bits_or : ℕ → Option Config → ℕ
bits_or n none = n
bits_or n (some v) = bits_of v

unfoldable pub is_given : Option Config → Bool
is_given none = false
is_given (some v) = true

-- `min > max`, in the type of the node
unfoldable pub exceeds : Bool → Option Config → Option Config → Bool
exceeds true (some min) (some max) = ltb_ℤ (to_signed (bits_of max)) (to_signed (bits_of min))
exceeds false (some min) (some max) = ltb (bits_of max) (bits_of min)
exceeds _ _ _ = false

-- what both functions store
unfoldable pub store_config : IntUint → (min_value max_value base_value : Option Config) → IntUint
store_config priv min_value max_value base_value = record priv {
  check_min = is_given min_value;
  min = bits_or priv.min min_value;
  check_max = is_given max_value;
  max = bits_or priv.max max_value;
  base = bits_or 0 base_value % 2 ^ 32;
}

-- ec_node_int_set_config; `none` is -1
unfoldable pub int_set_config : IntUint → Config → Option IntUint
int_set_config priv config =
    let min_value = config_dict_get (some config) (some (codes "min")) in
    let max_value = config_dict_get (some config) (some (codes "max")) in
    let base_value = config_dict_get (some config) (some (codes "base")) in
    if exceeds true min_value max_value
    then none
    else some (store_config priv min_value max_value base_value)

-- ec_node_uint_set_config
unfoldable pub uint_set_config : IntUint → Config → Option IntUint
uint_set_config priv config =
    let min_value = config_dict_get (some config) (some (codes "min")) in
    let max_value = config_dict_get (some config) (some (codes "max")) in
    let base_value = config_dict_get (some config) (some (codes "base")) in
    if exceeds false min_value max_value
    then none
    else some (store_config priv min_value max_value base_value)

-- ec_node_set_config of these types
unfoldable pub node_set_config : IntUint → Config → Option IntUint
node_set_config priv config =
    elim (config_validate (some config)
      (array (if priv.is_signed then int_schema else uint_schema))) [
        | ok ↦ if priv.is_signed then int_set_config priv config else uint_set_config priv config
        | _ ↦ none
      ]

-- the configuration that ec_node_int and ec_node_uint build
unfoldable pub int_config : (min max base : Config) → Option Config
int_config min max base =
    config_dict_set
      (config_dict_set (config_dict_set (some (dict empty)) (some (codes "min")) (some min))
        (some (codes "max")) (some max))
      (some (codes "base")) (some base)

-- ec_node_int
unfoldable pub node_int : ℤ → ℤ → ℕ → Option IntUint
node_int min max base = elim (int_config (i64 (of_signed min)) (i64 (of_signed max)) (u64 base)) [
  | none ↦ none
  | some config ↦ node_set_config (new_priv true) config
]

-- ec_node_uint
unfoldable pub node_uint : ℕ → ℕ → ℕ → Option IntUint
node_uint min max base = elim (int_config (u64 min) (u64 max) (u64 base)) [
  | none ↦ none
  | some config ↦ node_set_config (new_priv false) config
]

module _ (strtoll : Bytes → ℕ → Conversion ℤ) (strtoull : Bytes → ℕ → Conversion ℕ) where
  -- ec_str_parse_llint; `none` is -1, and errno is left out
  unfoldable pub str_parse_llint : Bytes → ℕ → ℤ → ℤ → Option ℤ
  str_parse_llint str base min max =
      let val = (strtoll str base).value in
      let err = (strtoll str base).err in
      if is_erange err && (eq_ℤ val llong_max || eq_ℤ val llong_min)
        || is_error err && eq_ℤ val (pos 0)
      then none
      else if ltb_ℤ val min
      then none
      else if ltb_ℤ max val
      then none
      else if is_empty (strtoll str base).rest
      then some val
      else none

  -- ec_str_parse_ullint
  unfoldable pub str_parse_ullint : Bytes → ℕ → ℕ → ℕ → Option ℕ
  str_parse_ullint str base min max =
      let val = (strtoull str base).value in
      let err = (strtoull str base).err in
      if has_minus str
      then none
      else if is_erange err && val == ullong_max || is_error err && val == 0
      then none
      else if ltb val min
      then none
      else if ltb max val
      then none
      else if is_empty (strtoull str base).rest
      then some val
      else none

  -- parse_llint
  unfoldable pub parse_llint : IntUint → Bytes → Option ℤ
  parse_llint priv str =
      str_parse_llint str priv.base (if priv.check_min then to_signed priv.min else llong_min)
        (if priv.check_max then to_signed priv.max else llong_max)

  -- parse_ullint
  unfoldable pub parse_ullint : IntUint → Bytes → Option ℕ
  parse_ullint priv str =
      str_parse_ullint str priv.base (if priv.check_min then priv.min else 0)
        (if priv.check_max then priv.max else ullong_max)

  unfoldable pub when_some : {A : Type 0} → Option A → Outcome
  when_some none = nomatch nil
  when_some (some v) = matched 1 nil

  -- ec_node_int_uint_parse
  unfoldable pub int_uint_parse : IntUint → Strvec → Outcome
  int_uint_parse priv [] = nomatch nil
  int_uint_parse priv (e ∷ vec) =
      if priv.is_signed
      then when_some (parse_llint priv e.str)
      else when_some (parse_ullint priv e.str)

  -- ec_node_int_getval; `is_signed` tells the types apart, and `none` is -1
  unfoldable pub int_getval : IntUint → Bytes → Option ℤ
  int_getval priv str = if priv.is_signed then parse_llint priv str else none

  -- ec_node_uint_getval
  unfoldable pub uint_getval : IntUint → Bytes → Option ℕ
  uint_getval priv str = if priv.is_signed then none else parse_ullint priv str
