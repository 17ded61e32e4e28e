-- ===== src/Configuration/Accepts.antt =====
-- src/config.c: ec_config_validate accepts the configurations that fit an accepted schema, and no
-- others.
use libecoli.Base.{
  ◌≡◌, ◌↔◌, ◌≢◌, ◌∙◌, refl, sym, ap, Bool, true, false, Bool-cases, Option-cases, inl, inr, ==_iff,
  Bytes, str_eq, str_eq_iff, Option, none, some, arith,
}
use libecoli.Config.{
  ConfigType, Config, Configs, Entries, bool, i64, u64, string, node, list, dict, end, item, empty,
  entry, config_type, Schema, Subschema, last, field, null, array, Checked, ok, keys_check,
  dict_keys_check, fields_check, sub_check, schema_validate, type_eq, type_code, each_item,
  schema_lookup, found_check, known_keys, get_value, value_validate, item_validate, fields_validate,
  config_validate, found, field_check, dup_check, same_key, then_check, entries_get,
}
use libecoli.Htable.Keys.{str_eq_comm}
use libecoli.Configuration.Schemas.{then_check-ok}
use libecoli.Configuration.Keys.{IsConfig, some_inj, str_eq_self}
use libecoli.Configuration.Safe.{
  IsAccepted, no_null, list_only, dict_only, fields_accepted, keys_accepted, field-IsAccepted,
  dict-IsAccepted,
}
use libecoli.Configuration.Fits.{Fits, AllFit, EachFits, Provided, Fits-value_validate, found_inj}

then_check-both : (a b : Checked) → a ≡ ok → b ≡ ok → then_check a b ≡ ok
unfolding then_check
then_check-both a b e f = rw e f

-- The fields of the first are found in the second.
abbrev InSchema : Schema → Schema → Type 0
InSchema last s = Unit
InSchema (field none t m sub rest) s = InSchema rest s
InSchema (field (some key) t m sub rest) s = (schema_lookup s key ≡ found t sub) × InSchema rest s

InSchema-field :
    (r s : Schema) (key : Bytes) (t : ConfigType) (m : Bool) (sub : Subschema)
    → InSchema r s
    → dict_keys_check r ≡ ok
    → dup_check (some key) r ≡ ok
    → InSchema r (field (some key) t m sub s)
unfolding schema_lookup dup_check same_key dict_keys_check
InSchema-field last s key t m sub h k d = tt
InSchema-field (field none t' m' sub' rest) s key t m sub h k d = absurd (cc)
InSchema-field (field (some name) t' m' sub' rest) s key t m sub (h, hs) k d =
    let (one, more) = then_check-ok _ _ d in
    (rw (str_eq_comm key name (ground (arith, one))) h, InSchema-field rest s key t m sub hs k more)

dup_ok :
    (key : Option Bytes) (t : ConfigType) (m : Bool) (sub : Subschema) (rest : Schema)
    → fields_check (field key t m sub rest) ≡ ok
    → (dup_check key rest ≡ ok) × (fields_check rest ≡ ok)
unfolding fields_check
dup_ok key t m sub rest h =
    let (r, h1) = then_check-ok _ _ h in
    let (d, h2) = then_check-ok _ _ h1 in (d, (then_check-ok _ _ (then_check-ok _ _ h2).1).1)

InSchema-self : (s : Schema) → dict_keys_check s ≡ ok → fields_check s ≡ ok → InSchema s s
unfolding dict_keys_check schema_lookup
InSchema-self last k h = tt
InSchema-self (field none t m sub rest) k h = absurd (cc)
InSchema-self (field (some key) t m sub rest) k h =
    let (d, more) = dup_ok (some key) t m sub rest h in
    (
      rw (str_eq_self key) refl,
      InSchema-field rest rest key t m sub (InSchema-self rest k more) k d,
    )

lookup-IsAccepted :
    (s : Schema) (key : Bytes) (type : ConfigType) (sub : Subschema)
    → fields_check s ≡ ok
    → schema_lookup s key ≡ found type sub
    → IsAccepted type sub
unfolding schema_lookup
lookup-IsAccepted last key type sub h l = absurd (cc)
lookup-IsAccepted (field none t m sub' rest) key type sub h l = absurd (cc)
lookup-IsAccepted (field (some name) t m sub' rest) key type sub h l =
    elim (Bool-cases (str_eq key name)) [
      | inl e ↦
          let (et, es) = found_inj t type sub' sub (ground (arith, e, l)) in
          rw (← et, ← es) ((field-IsAccepted (some name) t m sub' rest h).0)
      | inr e ↦
          lookup-IsAccepted rest key type sub (field-IsAccepted (some name) t m sub' rest h).1
            (ground (arith, e, l))
    ]

-- Every entry has a type and a subschema in the schema, and is accepted by them.
abbrev EachOk : Entries → Schema → Type 0
EachOk empty s = Unit
EachOk (entry key v d) s =
    ((type : ConfigType) × (sub : Subschema) × (schema_lookup s key ≡ found type sub)
      × (type_code (config_type v) ≡ type_code type)
      × (value_validate sub v ≡ ok))
    × EachOk d s

EachOk-entries_get :
    (d : Entries) (s : Schema) (key : Bytes) (v : Config) (type : ConfigType) (sub : Subschema)
    → EachOk d s
    → entries_get d key ≡ some v
    → schema_lookup s key ≡ found type sub
    → (type_code (config_type v) ≡ type_code type) × (value_validate sub v ≡ ok)
unfolding entries_get
EachOk-entries_get empty s key v type sub o at l = absurd (cc)
EachOk-entries_get (entry k u d) s key v type sub ((t, b, l', same, fits), os) at l =
    elim (Bool-cases (str_eq k key)) [
      | inl e ↦
          let (et, es) =
            found_inj t type b sub (sym l' ∙ ap (schema_lookup s) ((str_eq_iff k key).0 e) ∙ l) in
          rw (← some_inj u v (ground (arith, e, at)), ← et, ← es) (same, fits)
      | inr e ↦ EachOk-entries_get d s key v type sub os (ground (arith, e, at)) l
    ]

known_keys-EachOk : (d : Entries) (s : Schema) → EachOk d s → known_keys s d ≡ ok
unfolding known_keys found_check
known_keys-EachOk empty s o = refl
known_keys-EachOk (entry key v d) s ((t, b, l, same, fits), os) =
    then_check-both _ _ (rw l refl) (known_keys-EachOk d s os)

field_check-some :
    (m : Bool) (type : ConfigType) (check : Config → Checked) (v : Config)
    → type_code (config_type v) ≡ type_code type
    → check v ≡ ok
    → field_check m type check (some v) ≡ ok
unfolding field_check type_eq
field_check-some m type check v same fits =
    rw ((==_iff (type_code type) (type_code (config_type v))).1 (sym same)) fits

field_check-none :
    (m : Bool) (type : ConfigType) (check : Config → Checked)
    → m ≢ true
    → field_check m type check none ≡ ok
unfolding field_check
field_check-none true type check given = absurd (given refl)
field_check-none false type check given = refl

fields_validate-EachOk :
    (r s : Schema) (d : Entries)
    → InSchema r s
    → dict_keys_check r ≡ ok
    → Provided r d
    → EachOk d s
    → fields_validate r d ≡ ok
unfolding fields_validate dict_keys_check get_value
fields_validate-EachOk last s d h k p o = refl
fields_validate-EachOk (field none t m sub rest) s d h k p o = absurd (cc)
fields_validate-EachOk (field (some key) t m sub rest) s d (h, hs) k (p, ps) o =
    then_check-both _ _
      (elim (Option-cases (entries_get d key)) [
        | inl e ↦ rw e (field_check-none m t (value_validate sub) (λ on. p on e))
        | inr (v, e) ↦
            let (same, fits) = EachOk-entries_get d s key v t sub o e h in
            rw e (field_check-some m t (value_validate sub) v same fits)
      ])
      (fields_validate-EachOk rest s d hs k ps o)

validate_dict-EachOk :
    (d : Entries) (s : Schema)
    → dict_keys_check s ≡ ok
    → fields_check s ≡ ok
    → Provided s d
    → EachOk d s
    → value_validate (array s) (dict d) ≡ ok
unfolding value_validate
validate_dict-EachOk d s keys fields p o =
    then_check-both _ _ (fields_validate-EachOk s s d (InSchema-self s keys fields) keys p o)
      (known_keys-EachOk d s o)

mutual
  unfolding value_validate item_validate each_item type_eq config_type type_code

  value_validate-Fits :
      (v : Config) (type : ConfigType) (sub : Subschema)
      → IsAccepted type sub
      → type_code (config_type v) ≡ type_code type
      → Fits v sub
      → value_validate sub v ≡ ok
  value_validate-Fits (bool b) type null a e f = refl
  value_validate-Fits (bool b) type (array s) a e f = refl
  value_validate-Fits (i64 b) type null a e f = refl
  value_validate-Fits (i64 b) type (array s) a e f = refl
  value_validate-Fits (u64 b) type null a e f = refl
  value_validate-Fits (u64 b) type (array s) a e f = refl
  value_validate-Fits (string b) type null a e f = refl
  value_validate-Fits (string b) type (array s) a e f = refl
  value_validate-Fits (node b) type null a e f = refl
  value_validate-Fits (node b) type (array s) a e f = refl
  value_validate-Fits (list vs) type null a e f =
      absurd ((no_null type a).0 (list_only type (sym e)))
  value_validate-Fits (list vs) type (array s) a e f =
      each_item-AllFit vs s (fields_accepted type s a) f
  value_validate-Fits (dict d) type null a e f =
      absurd ((no_null type a).1 (dict_only type (sym e)))
  value_validate-Fits (dict d) type (array s) a e (f, p) =
      let fields = fields_accepted type s a in
      validate_dict-EachOk d s (keys_accepted s (dict-IsAccepted type s a (sym e))) fields p
        (EachOk-EachFits d s fields f)

  each_item-AllFit :
      (vs : Configs) (s : Schema)
      → fields_check s ≡ ok
      → AllFit vs (array s)
      → each_item (item_validate s) vs ≡ ok
  each_item-AllFit end s h f = refl
  each_item-AllFit (item v vs) last h ((type, sub, l, same, fits), fs) = absurd (cc)
  each_item-AllFit (item v vs) (field key t m sub' rest) h ((type, sub, l, same, fits), fs) =
      let (et, es) = found_inj t type sub' sub l in
      then_check-both _ _
        (rw
          ((==_iff (type_code (config_type v)) (type_code t)).1 (same ∙ ap type_code (sym et)), es)
          (value_validate-Fits v type sub
            (rw (← et, ← es) ((field-IsAccepted key t m sub' rest h).0)) same fits))
        (each_item-AllFit vs (field key t m sub' rest) h fs)

  EachOk-EachFits :
      (d : Entries) (s : Schema) → fields_check s ≡ ok → EachFits d (array s) → EachOk d s
  EachOk-EachFits empty s h f = tt
  EachOk-EachFits (entry key v d) s h ((type, sub, l, same, fits), fs) = (
    (
      type,
      sub,
      l,
      same,
      value_validate-Fits v type sub (lookup-IsAccepted s key type sub h l) same fits,
    ),
    EachOk-EachFits d s h fs,
  )

-- For a schema that ec_config_schema_validate accepts, and where dictionaries have distinct keys,
-- ec_config_validate accepts a dictionary just
-- when each of its entries, and of those below, has a key of the schema and the type that the schema
-- gives it, the elements of lists have the type that the schema gives them, and no mandatory key is
-- missing.
pub config_validate_iff :
    (d : Entries) (s : Schema)
    → schema_validate s ≡ ok
    → IsConfig (dict d)
    → (config_validate (some (dict d)) (array s) ≡ ok) ↔ Fits (dict d) (array s)
unfolding config_validate schema_validate sub_check keys_check value_validate
config_validate_iff d s h t =
    let (keys, fields) = then_check-ok _ _ h in
    (
      Fits-value_validate (dict d) (array s) t,
      λ f. validate_dict-EachOk d s keys fields f.1 (EachOk-EachFits d s fields f.0),
    )
