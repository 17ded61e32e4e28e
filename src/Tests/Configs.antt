-- ===== src/Tests/Configs.antt =====
-- Configurations and schemas at concrete values, and the theorems on them at these values.
use libecoli.Base.{◌↔◌, ◌≡◌, ◌≢◌, refl, true, false, if◌then◌else◌, codes, str_eq, none, some}
use libecoli.Config.{
  Entries, field_check, Config, string, list, dict, end, item, empty, entry, string_type, list_type,
  bool_type, Schema, last, field, null, array, ok, ebadmsg, eexist, null_read, schema_validate,
  sub_check, keys_check, dict_keys_check, reserved_check, key_is_reserved, dup_check, same_key,
  type_check, log_key, null_logged, schema_len, then_check, config_validate, value_validate,
  entries_get, entries_set, entries_del, entries_add, config_cmp, config_dup, config_dict_get,
  config_dict_set, config_list_add, config_node, insert_tail, node, config_type, type_eq, type_code,
  each_item, known_keys, found_check, schema_lookup, get_value,
}
use libecoli.Configuration.Schemas.{schema_validate-ne-null_read}
use libecoli.Configuration.Safe.{config_validate-ne-null_read}
use libecoli.Configuration.Fits.{Fits}
use libecoli.Configuration.Accepts.{config_validate_iff}
use libecoli.Configuration.Keys.{IsConfig}
use libecoli.Configuration.Copies.{config_cmp-config_dup}
use libecoli.Configuration.Compare.{config_cmp_comm}
use libecoli.Configuration.Changes.{
  Made-IsConfig, new_dict, new_list, of_node, by_dict_set, by_list_add, by_gift, in_dict,
  config_dict_get-config_dict_set,
}

-- a name, which must be given, and a list of strings
abbrev command : Schema
command = field (some (codes "name")) string_type true null (
    field (some (codes "args")) list_type false (array (field none string_type false null last))
      last)

abbrev named : Config
named = dict (
    entry (codes "args") (list (item (string (codes "-v")) end))
      (entry (codes "name") (string (codes "ls")) empty))

abbrev named_before : Config
named_before = dict (
    entry (codes "name") (string (codes "ls"))
      (entry (codes "args") (list (item (string (codes "-v")) end)) empty))

-- what a run computes with
checks : Unit {0}
unfolding schema_validate sub_check value_validate field_check keys_check dict_keys_check
    reserved_check key_is_reserved dup_check same_key type_check log_key schema_len then_check
    config_validate config_type type_eq type_code each_item known_keys found_check schema_lookup
    get_value entries_get str_eq
checks = tt

command_ok : schema_validate command ≡ ok
unfolding checks
command_ok = refl

named_ok : config_validate (some named) (array command) ≡ ok
unfolding checks
named_ok = refl

unnamed : config_validate (some (dict empty)) (array command) ≡ ebadmsg
unfolding checks
unnamed = refl

twice :
    schema_validate (
      field
        (some (codes "a"))
        bool_type
        true
        null
        (field (some (codes "a")) bool_type true null last))
    ≡ eexist
unfolding checks
twice = refl

-- A list of lists without subschema is refused, but the log of it gets the NULL key.
nameless :
    schema_validate (
      field
        (some (codes "rows"))
        list_type
        false
        (array (field none list_type false null last))
        last)
    ≡ null_logged
unfolding checks
nameless = refl

-- Without the check of the schema, a list without subschema is read through NULL.
unchecked :
    config_validate (some named) (array (field (some (codes "args")) list_type false null last))
    ≡ null_read
unfolding checks
unchecked = refl

named-IsConfig : IsConfig named
unfolding entries_get str_eq
named-IsConfig = (refl, (tt, tt), (refl, tt, tt))

named_before-IsConfig : IsConfig named_before
unfolding entries_get str_eq
named_before-IsConfig = (refl, tt, (refl, (tt, tt), tt))

schema_validate-ne-null_read_example : schema_validate command ≢ null_read
schema_validate-ne-null_read_example = schema_validate-ne-null_read command

config_validate-ne-null_read_example : config_validate (some named) (array command) ≢ null_read
config_validate-ne-null_read_example = config_validate-ne-null_read named command command_ok

config_cmp-config_dup_example : config_cmp (some named) (config_dup (some named)) ≡ true
config_cmp-config_dup_example = config_cmp-config_dup named named-IsConfig

config_cmp_comm_example :
    config_cmp (some named) (some named_before) ≡ config_cmp (some named_before) (some named)
config_cmp_comm_example = config_cmp_comm named named_before named-IsConfig named_before-IsConfig

-- the way of ec_node_seq_add: an element is added to a list below a dictionary
abbrev no_children : Config
no_children = dict (entry (codes "children") (list end) empty)

Made-IsConfig_example : IsConfig (dict (entry (codes "children") (list (item (node 3) end)) empty))
unfolding config_dict_set config_dict_get config_list_add config_node insert_tail entries_set
    entries_del entries_add entries_get str_eq
Made-IsConfig_example =
    Made-IsConfig (dict (entry (codes "children") (list (item (node 3) end)) empty)) (
      by_gift no_children (node 3) _
        (by_gift (dict empty) (list end) no_children new_dict new_list
          (by_dict_set (dict empty) (list end) (some (codes "children")) no_children refl))
        (of_node (some 3) (node 3) refl)
        (in_dict (some (node 3)) (entry (codes "children") (list end) empty) (codes "children")
          (list end) (list (item (node 3) end)) refl
          (by_list_add (list end) (node 3) (list (item (node 3) end)) refl)))

config_dict_get-config_dict_set_example :
    config_dict_get
      (config_dict_set (some named) (some (codes "name")) (some (string (codes "cp"))))
      (some (codes "args"))
    ≡ (if str_eq (codes "name") (codes "args")
        then some (string (codes "cp"))
        else config_dict_get (some named) (some (codes "args")))
config_dict_get-config_dict_set_example =
    config_dict_get-config_dict_set
      (entry (codes "args") (list (item (string (codes "-v")) end))
        (entry (codes "name") (string (codes "ls")) empty))
      (codes "name") (codes "args") (string (codes "cp")) named-IsConfig

abbrev named_entries : Entries
named_entries =
    entry (codes "args") (list (item (string (codes "-v")) end))
      (entry (codes "name") (string (codes "ls")) empty)

config_validate_iff_example :
    (config_validate (some (dict named_entries)) (array command) ≡ ok)
    ↔ Fits (dict named_entries) (array command)
config_validate_iff_example = config_validate_iff named_entries command command_ok named-IsConfig
