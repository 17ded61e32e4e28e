-- ===== src/Configuration/Schemas.antt =====
-- src/config.c: ec_config_schema_validate reads no NULL key, and a schema that it accepts is safe
-- to validate values with.
use libecoli.Base.{◌≡◌, ◌≢◌, refl, Bool, Bytes, Option, none, some, arith}
use libecoli.Config.{
  ConfigType, bool_type, int64_type, uint64_type, string_type, node_type, list_type, dict_type,
  other, Schema, Subschema, last, field, null, array, Checked, ok, einval, eexist, ebadmsg,
  null_read, then_check, keys_check, dict_keys_check, reserved_check, same_key, dup_check,
  type_check, log_key, null_logged, fields_check, sub_check, schema_validate, schema_len,
}

-- Two checks in turn read no NULL when the first does not, and the second does not where the first
-- succeeds.
pub then_check-ne-null_read :
    (a b : Checked) → a ≢ null_read → (a ≡ ok → b ≢ null_read) → then_check a b ≢ null_read
unfolding then_check
then_check-ne-null_read ok b h k = k refl
then_check-ne-null_read einval b h k = h
then_check-ne-null_read eexist b h k = h
then_check-ne-null_read ebadmsg b h k = h
then_check-ne-null_read null_logged b h k = h
then_check-ne-null_read null_read b h k = h

-- Two checks in turn succeed when both do.
pub then_check-ok : (a b : Checked) → then_check a b ≡ ok → (a ≡ ok) × (b ≡ ok)
unfolding then_check
then_check-ok ok b h = (refl, h)
then_check-ok einval b h = absurd (cc)
then_check-ok eexist b h = absurd (cc)
then_check-ok ebadmsg b h = absurd (cc)
then_check-ok null_logged b h = absurd (cc)
then_check-ok null_read b h = absurd (cc)

dict_keys_check-ne-null_read : (s : Schema) → dict_keys_check s ≢ null_read
unfolding dict_keys_check
dict_keys_check-ne-null_read last = λ e. cc
dict_keys_check-ne-null_read (field none t m sub rest) = λ e. cc
dict_keys_check-ne-null_read (field (some key) t m sub rest) = dict_keys_check-ne-null_read rest

keys_check-ne-null_read : (type : ConfigType) (s : Schema) → keys_check type s ≢ null_read
unfolding keys_check
keys_check-ne-null_read list_type last = λ e. cc
keys_check-ne-null_read list_type (field none t m sub rest) = λ e. cc
keys_check-ne-null_read list_type (field (some key) t m sub rest) = λ e. cc
keys_check-ne-null_read dict_type s = dict_keys_check-ne-null_read s
keys_check-ne-null_read bool_type s = λ e. cc
keys_check-ne-null_read int64_type s = λ e. cc
keys_check-ne-null_read uint64_type s = λ e. cc
keys_check-ne-null_read string_type s = λ e. cc
keys_check-ne-null_read node_type s = λ e. cc
keys_check-ne-null_read (other n) s = λ e. cc

reserved_check-ne-null_read : (key : Option Bytes) → reserved_check key ≢ null_read
unfolding reserved_check
reserved_check-ne-null_read none = λ e. cc
reserved_check-ne-null_read (some key) = ground arith

dup_check-ne-null_read :
    (key : Bytes) (s : Schema) → dict_keys_check s ≡ ok → dup_check (some key) s ≢ null_read
unfolding dict_keys_check dup_check same_key
dup_check-ne-null_read key last h = λ e. cc
dup_check-ne-null_read key (field none t m sub rest) h = absurd (cc)
dup_check-ne-null_read key (field (some name) t m sub rest) h =
    then_check-ne-null_read _ _ (ground arith) (λ e. dup_check-ne-null_read key rest h)

type_check-ne-null_read : (type : ConfigType) (sub : Subschema) → type_check type sub ≢ null_read
unfolding type_check
type_check-ne-null_read (other n) sub = λ e. cc
type_check-ne-null_read list_type null = λ e. cc
type_check-ne-null_read list_type (array s) = ground arith
type_check-ne-null_read dict_type null = λ e. cc
type_check-ne-null_read dict_type (array s) = ground arith
type_check-ne-null_read bool_type null = λ e. cc
type_check-ne-null_read bool_type (array s) = λ e. cc
type_check-ne-null_read int64_type null = λ e. cc
type_check-ne-null_read int64_type (array s) = λ e. cc
type_check-ne-null_read uint64_type null = λ e. cc
type_check-ne-null_read uint64_type (array s) = λ e. cc
type_check-ne-null_read string_type null = λ e. cc
type_check-ne-null_read string_type (array s) = λ e. cc
type_check-ne-null_read node_type null = λ e. cc
type_check-ne-null_read node_type (array s) = λ e. cc

pub log_key-ok : (key : Option Bytes) (c : Checked) → log_key key c ≡ ok → c ≡ ok
unfolding log_key
log_key-ok (some key) c h = h
log_key-ok none ok h = refl
log_key-ok none einval h = absurd (cc)
log_key-ok none eexist h = h
log_key-ok none ebadmsg h = h
log_key-ok none null_read h = h
log_key-ok none null_logged h = h

log_key-ne-null_read :
    (key : Option Bytes) (c : Checked) → c ≢ null_read → log_key key c ≢ null_read
unfolding log_key
log_key-ne-null_read (some key) c h = h
log_key-ne-null_read none ok h = h
log_key-ne-null_read none einval h = λ e. cc
log_key-ne-null_read none eexist h = h
log_key-ne-null_read none ebadmsg h = h
log_key-ne-null_read none null_read h = h
log_key-ne-null_read none null_logged h = h

fields_check-ne-null_read :
    (key : Option Bytes) (type : ConfigType) (m : Bool) (sub : Subschema) (rest : Schema)
    → dup_check key rest ≢ null_read
    → (type_check type sub ≡ ok → sub_check type sub ≢ null_read)
    → fields_check rest ≢ null_read
    → fields_check (field key type m sub rest) ≢ null_read
unfolding fields_check
fields_check-ne-null_read key type m sub rest dup deep more =
    then_check-ne-null_read _ _ (reserved_check-ne-null_read key) (λ r.
      then_check-ne-null_read _ _ dup (λ d.
        then_check-ne-null_read _ _ (log_key-ne-null_read key _ (type_check-ne-null_read type sub))
          (λ t. then_check-ne-null_read _ _ (deep (log_key-ok key _ t)) (λ s. more))))

mutual
  unfolding sub_check fields_check type_check dict_keys_check dup_check schema_len keys_check

  sub_check-ne-null_read :
      (type : ConfigType) (sub : Subschema)
      → type_check type sub ≡ ok
      → sub_check type sub ≢ null_read
  sub_check-ne-null_read type null h = λ e. cc
  sub_check-ne-null_read list_type (array s) h =
      then_check-ne-null_read _ _ (keys_check-ne-null_read list_type s)
        (λ k. single-ne-null_read s (ground (arith, h)))
  sub_check-ne-null_read dict_type (array s) h =
      then_check-ne-null_read _ _ (keys_check-ne-null_read dict_type s)
        (λ k. keyed-ne-null_read s k)
  sub_check-ne-null_read bool_type (array s) h = absurd (cc)
  sub_check-ne-null_read int64_type (array s) h = absurd (cc)
  sub_check-ne-null_read uint64_type (array s) h = absurd (cc)
  sub_check-ne-null_read string_type (array s) h = absurd (cc)
  sub_check-ne-null_read node_type (array s) h = absurd (cc)
  sub_check-ne-null_read (other n) (array s) h = absurd (cc)

  single-ne-null_read : (s : Schema) → schema_len s ≡ 1 → fields_check s ≢ null_read
  single-ne-null_read last h = λ e. cc
  single-ne-null_read (field key t m sub last) h =
      fields_check-ne-null_read key t m sub last (λ e. cc) (λ c. sub_check-ne-null_read t sub c)
        (λ e. cc)
  single-ne-null_read (field key t m sub (field key' t' m' sub' rest)) h = absurd (omega (arith, h))

  keyed-ne-null_read : (s : Schema) → dict_keys_check s ≡ ok → fields_check s ≢ null_read
  keyed-ne-null_read last h = λ e. cc
  keyed-ne-null_read (field none t m sub rest) h = absurd (cc)
  keyed-ne-null_read (field (some key) t m sub rest) h =
      fields_check-ne-null_read (some key) t m sub rest (dup_check-ne-null_read key rest h)
        (λ c. sub_check-ne-null_read t sub c) (keyed-ne-null_read rest h)

-- ec_config_schema_validate never hands a NULL key to strcmp, whatever the schema.
pub schema_validate-ne-null_read : (s : Schema) → schema_validate s ≢ null_read
unfolding schema_validate sub_check keys_check
schema_validate-ne-null_read s =
    then_check-ne-null_read _ _ (keys_check-ne-null_read dict_type s) (λ k. keyed-ne-null_read s k)
