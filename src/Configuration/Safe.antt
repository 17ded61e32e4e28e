-- ===== src/Configuration/Safe.antt =====
-- src/config.c: ec_config_validate against a schema that ec_config_schema_validate accepts.
use libecoli.Base.{
  ◌≡◌, ◌≢◌, refl, sym, ap, Bool, true, false, Bool-cases, Option-cases, inl, inr, ==_iff,
  if◌then◌else◌, ◌==◌, Bytes, str_eq, Option, none, some, arith,
}
use libecoli.Config.{
  ConfigType, bool_type, int64_type, uint64_type, string_type, node_type, list_type, dict_type,
  other, Config, Configs, Entries, bool, i64, u64, string, node, list, dict, end, item, empty,
  entry, config_type, Schema, Subschema, last, field, null, array, Checked, ok, ebadmsg, null_read,
  keys_check, dict_keys_check, type_check, fields_check, sub_check, schema_validate, type_eq,
  type_code, each_item, schema_lookup, found_check, known_keys, get_value, value_validate,
  item_validate, fields_validate, field_check, config_validate, found, missing, null_key, Searched,
}
use libecoli.Configuration.Schemas.{then_check-ne-null_read, then_check-ok, log_key-ok}

pub list_only : (t : ConfigType) → type_code t ≡ 6 → t ≡ list_type
unfolding type_code
list_only bool_type e = absurd (omega (arith, e))
list_only int64_type e = absurd (omega (arith, e))
list_only uint64_type e = absurd (omega (arith, e))
list_only string_type e = absurd (omega (arith, e))
list_only node_type e = absurd (omega (arith, e))
list_only list_type e = refl
list_only dict_type e = absurd (omega (arith, e))
list_only (other n) e = absurd (omega (arith, e))

pub dict_only : (t : ConfigType) → type_code t ≡ 7 → t ≡ dict_type
unfolding type_code
dict_only bool_type e = absurd (omega (arith, e))
dict_only int64_type e = absurd (omega (arith, e))
dict_only uint64_type e = absurd (omega (arith, e))
dict_only string_type e = absurd (omega (arith, e))
dict_only node_type e = absurd (omega (arith, e))
dict_only list_type e = absurd (omega (arith, e))
dict_only dict_type e = refl
dict_only (other n) e = absurd (omega (arith, e))

-- An accepted subschema: there is one where the type is a list or a dictionary, and its parts are
-- accepted in turn.
abbrev pub IsAccepted : ConfigType → Subschema → Type 0
IsAccepted type sub = (type_check type sub ≡ ok) × (sub_check type sub ≡ ok)

pub no_null : (type : ConfigType) → IsAccepted type null → (type ≢ list_type) × (type ≢ dict_type)
unfolding type_check
no_null type (t, s) = (
  (λ e. absurd (ground (arith, ap (λ x. type_check x null) e, t))),
  (λ e. absurd (ground (arith, ap (λ x. type_check x null) e, t))),
)

pub fields_accepted :
    (type : ConfigType) (s : Schema) → IsAccepted type (array s) → fields_check s ≡ ok
unfolding sub_check
fields_accepted type s (t, a) = (then_check-ok _ _ a).1

pub keys_accepted : (s : Schema) → IsAccepted dict_type (array s) → dict_keys_check s ≡ ok
unfolding sub_check keys_check
keys_accepted s (t, a) = (then_check-ok _ _ a).0

pub field-IsAccepted :
    (key : Option Bytes) (type : ConfigType) (m : Bool) (sub : Subschema) (rest : Schema)
    → fields_check (field key type m sub rest) ≡ ok
    → IsAccepted type sub × (fields_check rest ≡ ok)
unfolding fields_check
field-IsAccepted key type m sub rest h =
    let (r, h1) = then_check-ok _ _ h in
    let (d, h2) = then_check-ok _ _ h1 in
    let (t, h3) = then_check-ok _ _ h2 in
    let (s, h4) = then_check-ok _ _ h3 in ((log_key-ok key _ t, s), h4)

each_item-ne-null_read :
    (check : Config → Checked) (vs : Configs)
    → ((v : Config) → check v ≢ null_read)
    → each_item check vs ≢ null_read
unfolding each_item
each_item-ne-null_read check end h = λ e. cc
each_item-ne-null_read check (item v vs) h =
    then_check-ne-null_read _ _ (h v) (λ e. each_item-ne-null_read check vs h)

schema_lookup-ne-null_key :
    (s : Schema) (key : Bytes) → dict_keys_check s ≡ ok → schema_lookup s key ≢ null_key
unfolding schema_lookup dict_keys_check
schema_lookup-ne-null_key last key h = λ e. cc
schema_lookup-ne-null_key (field none t m sub rest) key h = absurd (cc)
schema_lookup-ne-null_key (field (some name) t m sub rest) key h =
    elim (Bool-cases (str_eq key name)) [
      | inl e ↦ rw e (λ k. cc)
      | inr e ↦ rw e (schema_lookup-ne-null_key rest key h)
    ]

found_check-ne-null_read : (f : Searched) → f ≢ null_key → found_check f ≢ null_read
unfolding found_check
found_check-ne-null_read (found t sub) h = λ e. cc
found_check-ne-null_read missing h = λ e. cc
found_check-ne-null_read null_key h = absurd (h refl)

known_keys-ne-null_read :
    (s : Schema) (d : Entries) → dict_keys_check s ≡ ok → known_keys s d ≢ null_read
unfolding known_keys
known_keys-ne-null_read s empty h = λ e. cc
known_keys-ne-null_read s (entry key v d) h =
    then_check-ne-null_read _ _ (found_check-ne-null_read _ (schema_lookup-ne-null_key s key h))
      (λ e. known_keys-ne-null_read s d h)

pub dict-IsAccepted :
    (type : ConfigType) (s : Schema)
    → IsAccepted type (array s)
    → type_code type ≡ 7
    → IsAccepted dict_type (array s)
dict-IsAccepted type s a e = rw (← dict_only type e) a

typed-ne-null_read :
    (same : Bool) (c : Checked)
    → (same ≡ true → c ≢ null_read)
    → (if same then c else ebadmsg) ≢ null_read
typed-ne-null_read true c h = h refl
typed-ne-null_read false c h = λ e. cc

absent-ne-null_read : (m : Bool) → (if m then ebadmsg else ok) ≢ null_read
absent-ne-null_read true = λ e. cc
absent-ne-null_read false = λ e. cc

mutual
  unfolding value_validate item_validate fields_validate type_code config_type type_eq field_check

  value_validate-ne-null_read :
      (type : ConfigType) (sub : Subschema) (v : Config)
      → IsAccepted type sub
      → type_code (config_type v) ≡ type_code type
      → value_validate sub v ≢ null_read
  value_validate-ne-null_read type null (list vs) a e =
      absurd ((no_null type a).0 (list_only type (sym e)))
  value_validate-ne-null_read type null (dict d) a e =
      absurd ((no_null type a).1 (dict_only type (sym e)))
  value_validate-ne-null_read type null (bool b) a e = λ k. cc
  value_validate-ne-null_read type null (i64 b) a e = λ k. cc
  value_validate-ne-null_read type null (u64 b) a e = λ k. cc
  value_validate-ne-null_read type null (string b) a e = λ k. cc
  value_validate-ne-null_read type null (node b) a e = λ k. cc
  value_validate-ne-null_read type (array s) (list vs) a e =
      each_item-ne-null_read (item_validate s) vs
        (λ v. item_validate-ne-null_read s v (fields_accepted type s a))
  value_validate-ne-null_read type (array s) (dict d) a e =
      then_check-ne-null_read _ _ (fields_validate-ne-null_read s d (fields_accepted type s a))
        (λ k. known_keys-ne-null_read s d (keys_accepted s (dict-IsAccepted type s a (sym e))))
  value_validate-ne-null_read type (array s) (bool b) a e = λ k. cc
  value_validate-ne-null_read type (array s) (i64 b) a e = λ k. cc
  value_validate-ne-null_read type (array s) (u64 b) a e = λ k. cc
  value_validate-ne-null_read type (array s) (string b) a e = λ k. cc
  value_validate-ne-null_read type (array s) (node b) a e = λ k. cc

  item_validate-ne-null_read :
      (s : Schema) (v : Config) → fields_check s ≡ ok → item_validate s v ≢ null_read
  item_validate-ne-null_read last v h = λ e. cc
  item_validate-ne-null_read (field key t m sub rest) v h =
      typed-ne-null_read (type_code (config_type v) == type_code t) _ (λ e.
        value_validate-ne-null_read t sub v (field-IsAccepted key t m sub rest h).0
          ((==_iff _ _).0 e))

  fields_validate-ne-null_read :
      (s : Schema) (d : Entries) → fields_check s ≡ ok → fields_validate s d ≢ null_read
  fields_validate-ne-null_read last d h = λ e. cc
  fields_validate-ne-null_read (field key t m sub rest) d h =
      then_check-ne-null_read _ _
        (elim (Option-cases (get_value d key)) [
          | inl e ↦ rw e (absent-ne-null_read m)
          | inr (v, e) ↦ rw e (
              typed-ne-null_read (type_code t == type_code (config_type v)) _ (λ k.
                value_validate-ne-null_read t sub v (field-IsAccepted key t m sub rest h).0
                  (sym ((==_iff _ _).0 k))))
        ])
        (λ e. fields_validate-ne-null_read rest d (field-IsAccepted key t m sub rest h).1)

validate_dict-ne-null_read :
    (s : Schema) (d : Entries)
    → schema_validate s ≡ ok
    → value_validate (array s) (dict d) ≢ null_read
unfolding schema_validate sub_check keys_check value_validate
validate_dict-ne-null_read s d h =
    let (keys, fields) = then_check-ok _ _ h in
    then_check-ne-null_read _ _ (fields_validate-ne-null_read s d fields)
      (λ k. known_keys-ne-null_read s d keys)

-- A configuration can be checked against a schema that ec_config_schema_validate accepts: no NULL
-- subschema or key is read, whatever the configuration, which is not NULL itself.
pub config_validate-ne-null_read :
    (c : Config) (s : Schema)
    → schema_validate s ≡ ok
    → config_validate (some c) (array s) ≢ null_read
unfolding config_validate
config_validate-ne-null_read (dict d) s h = validate_dict-ne-null_read s d h
config_validate-ne-null_read (bool b) s h = λ e. cc
config_validate-ne-null_read (i64 b) s h = λ e. cc
config_validate-ne-null_read (u64 b) s h = λ e. cc
config_validate-ne-null_read (string b) s h = λ e. cc
config_validate-ne-null_read (node b) s h = λ e. cc
config_validate-ne-null_read (list b) s h = λ e. cc
