-- ===== src/Config/Validate.antt =====
-- src/config.c: ec_config_validate, the check of a configuration against a schema.
use libecoli.Base.{ℕ, ◌+◌, Bool, if◌then◌else◌, ◌==◌, Bytes, str_eq, Option, none, some}
use libecoli.Config.Values.{
  ConfigType, bool_type, int64_type, uint64_type, string_type, node_type, list_type, dict_type,
  other, Config, Configs, Entries, list, dict, end, item, empty, entry, config_type, entries_get,
}
use libecoli.Config.Fields.{
  Schema, Subschema, last, field, null, array, Checked, ok, einval, ebadmsg, null_read, then_check,
}

-- the values of enum ec_config_type
unfoldable pub type_code : ConfigType → ℕ
type_code bool_type = 1
type_code int64_type = 2
type_code uint64_type = 3
type_code string_type = 4
type_code node_type = 5
type_code list_type = 6
type_code dict_type = 7
type_code (other n) = 8 + n

unfoldable pub type_eq : ConfigType → ConfigType → Bool
type_eq a b = type_code a == type_code b

-- ec_config_list_validate: the loop, with the check of one element
unfoldable pub each_item : (Config → Checked) → Configs → Checked
each_item check end = ok
each_item check (item v vs) = then_check (check v) (each_item check vs)

-- What ec_config_schema_lookup finds in an array.
pub data Searched : Type 0 where
  found : ConfigType → Subschema → Searched
  missing null_key : Searched

-- ec_config_schema_lookup; a NULL key before the one sought is read by strcmp
unfoldable pub schema_lookup : Schema → Bytes → Searched
schema_lookup last key = missing
schema_lookup (field none type mandatory sub rest) key = null_key
schema_lookup (field (some name) type mandatory sub rest) key =
    if str_eq key name then found type sub else schema_lookup rest key

unfoldable pub found_check : Searched → Checked
found_check (found type sub) = ok
found_check missing = ebadmsg
found_check null_key = null_read

-- ec_config_dict_validate: the second loop
unfoldable pub known_keys : Schema → Entries → Checked
known_keys s empty = ok
known_keys s (entry key v d) = then_check (found_check (schema_lookup s key)) (known_keys s d)

-- ec_dict_get, where a NULL key finds nothing
unfoldable pub get_value : Entries → Option Bytes → Option Config
get_value d none = none
get_value d (some key) = entries_get d key

-- ec_config_dict_validate: what the first loop does with the value of a key
unfoldable pub field_check : Bool → ConfigType → (Config → Checked) → Option Config → Checked
field_check mandatory type check none = if mandatory then ebadmsg else ok
field_check mandatory type check (some v) =
    if type_eq type (config_type v) then check v else ebadmsg

unfoldable mutual
  -- The call of ec_config_list_validate or ec_config_dict_validate on a value.
  pub value_validate : Subschema → Config → Checked
  value_validate null (list end) = ok
  value_validate null (list (item v vs)) = null_read
  value_validate null (dict d) = null_read
  value_validate null _ = ok
  value_validate (array s) (list vs) = each_item (item_validate s) vs
  value_validate (array s) (dict d) = then_check (fields_validate s d) (known_keys s d)
  value_validate (array s) _ = ok

  -- ec_config_list_validate: one element, by the first entry of the array
  pub item_validate : Schema → Config → Checked
  item_validate last v = ebadmsg
  item_validate (field key type mandatory sub rest) v =
      if type_eq (config_type v) type then value_validate sub v else ebadmsg

  -- ec_config_dict_validate: the first loop
  pub fields_validate : Schema → Entries → Checked
  fields_validate last d = ok
  fields_validate (field key type mandatory sub rest) d =
      then_check (field_check mandatory type (value_validate sub) (get_value d key))
        (fields_validate rest d)

-- ec_config_validate
unfoldable pub config_validate : Option Config → Subschema → Checked
config_validate none s = null_read
config_validate (some (dict d)) (array s) = value_validate (array s) (dict d)
config_validate (some _) _ = einval
