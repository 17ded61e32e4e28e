-- ===== src/Config/Fields.antt =====
-- src/config.c: schemas, and ec_config_schema_validate.
use libecoli.Base.{
  ℕ, suc, Bool, ◌||◌, if◌then◌else◌, ◌==◌, Bytes, codes, str_eq, Option, none, some,
}
use libecoli.Config.Values.{ConfigType, list_type, dict_type, other}

-- struct ec_config_schema[], up to the entry of type EC_CONFIG_TYPE_NONE: a key (`none` is NULL), a
-- type, the flag EC_CONFIG_F_MANDATORY, a subschema, and the rest of the array. The description is
-- only read by the dump.
mutual
  pub data Schema : Type 0 where
    last : Schema
    field : Option Bytes → ConfigType → Bool → Subschema → Schema → Schema

  -- a `const struct ec_config_schema *`
  pub data Subschema : Type 0 where
    null : Subschema
    array : Schema → Subschema

-- What a check returns: 0, -1 with an errno, a read through a NULL pointer, or a NULL key that is
-- handed to a log as its `%s`. The other logs are left out.
pub data Checked : Type 0 where
  ok einval eexist ebadmsg null_read null_logged : Checked

unfoldable pub then_check : Checked → Checked → Checked
then_check ok c = c
then_check e c = e

-- ec_config_reserved_keys, ec_config_key_is_reserved
unfoldable pub key_is_reserved : Bytes → Bool
key_is_reserved name =
    str_eq name (codes "id")
    || str_eq name (codes "attrs")
    || str_eq name (codes "help")
    || str_eq name (codes "type")

-- ec_config_schema_len
unfoldable pub schema_len : Schema → ℕ
schema_len last = 0
schema_len (field key type mandatory sub rest) = suc (schema_len rest)

-- __ec_config_schema_validate: no key is NULL
unfoldable pub dict_keys_check : Schema → Checked
dict_keys_check last = ok
dict_keys_check (field none type mandatory sub rest) = einval
dict_keys_check (field (some key) type mandatory sub rest) = dict_keys_check rest

-- __ec_config_schema_validate: the type of the schema
unfoldable pub keys_check : ConfigType → Schema → Checked
keys_check list_type (field (some key) type mandatory sub rest) = einval
keys_check list_type (field none type mandatory sub rest) = ok
keys_check list_type last = ok
keys_check dict_type s = dict_keys_check s
keys_check _ s = einval

unfoldable pub reserved_check : Option Bytes → Checked
reserved_check none = ok
reserved_check (some key) = if key_is_reserved key then einval else ok

-- `!strcmp(key, other)`, where NULL is read
unfoldable pub same_key : Option Bytes → Option Bytes → Checked
same_key (some key) (some name) = if str_eq key name then eexist else ok
same_key _ _ = null_read

-- __ec_config_schema_validate: the loop on the entries behind one
unfoldable pub dup_check : Option Bytes → Schema → Checked
dup_check key last = ok
dup_check key (field name type mandatory sub rest) =
    then_check (same_key key name) (dup_check key rest)

-- __ec_config_schema_validate: the switch on the type, its logs apart
unfoldable pub type_check : ConfigType → Subschema → Checked
type_check (other n) sub = einval
type_check list_type null = einval
type_check list_type (array s) = if schema_len s == 1 then ok else einval
type_check dict_type null = einval
type_check dict_type (array s) = if schema_len s == 0 then einval else ok
type_check _ null = ok
type_check _ (array s) = einval

-- __ec_config_schema_validate: the logs of the switch, which print the key of the entry
unfoldable pub log_key : Option Bytes → Checked → Checked
log_key none einval = null_logged
log_key _ c = c

-- __ec_config_schema_validate: its loop, and its call on a subschema that is not NULL
unfoldable mutual
  pub fields_check : Schema → Checked
  fields_check last = ok
  fields_check (field key type mandatory sub rest) = then_check (reserved_check key) (
      then_check (dup_check key rest) (
        then_check (log_key key (type_check type sub))
          (then_check (sub_check type sub) (fields_check rest))))

  pub sub_check : ConfigType → Subschema → Checked
  sub_check type null = ok
  sub_check type (array s) = then_check (keys_check type s) (fields_check s)

-- ec_config_schema_validate
unfoldable pub schema_validate : Schema → Checked
schema_validate s = sub_check dict_type (array s)
