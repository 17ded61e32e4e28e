-- ===== src/Configuration/Fits.antt =====
-- src/config.c: what a configuration that ec_config_validate accepts looks like.
use libecoli.Base.{
  ℕ, ◌≡◌, ◌≢◌, ◌∙◌, refl, sym, ap, Bool, true, false, Bool-cases, inl, inr, ==_iff, if◌then◌else◌,
  ◌==◌, Bytes, str_eq, str_eq_iff, Option, none, some, arith,
}
use libecoli.Config.{
  ConfigType, Config, Configs, Entries, bool, i64, u64, string, node, list, dict, end, item, empty,
  entry, config_type, Schema, Subschema, last, field, null, array, Checked, ok, ebadmsg, type_eq,
  type_code, each_item, schema_lookup, found_check, known_keys, get_value, value_validate,
  item_validate, fields_validate, found, missing, null_key, Searched, field_check, then_check,
  entries_get,
}
use libecoli.Configuration.Schemas.{then_check-ok}
use libecoli.Configuration.Keys.{some_inj, IsConfig, AreConfigs, IsDict}
use libecoli.Configuration.Copies.{Within, Within-self}

-- The entry of a schema that stands for the elements of a list, and that of a key.
abbrev pub for_items : Subschema → Searched
for_items null = missing
for_items (array last) = missing
for_items (array (field key type m sub rest)) = found type sub

abbrev pub for_key : Subschema → Bytes → Searched
for_key null key = missing
for_key (array s) key = schema_lookup s key

-- The mandatory keys of a schema are in a dictionary.
abbrev pub Provided : Schema → Entries → Type 0
Provided last d = Unit
Provided (field key type m sub rest) d = (m ≡ true → get_value d key ≢ none) × Provided rest d

abbrev pub HasMandatory : Subschema → Entries → Type 0
HasMandatory null d = Unit
HasMandatory (array s) d = Provided s d

-- Each element of a list, and each entry of a dictionary, has a type and a subschema in the schema,
-- is of that type, and fits that subschema; a dictionary has the mandatory keys.
abbrev mutual
  pub Fits : Config → Subschema → Type 0
  Fits (list vs) s = AllFit vs s
  Fits (dict d) s = EachFits d s × HasMandatory s d
  Fits _ s = Unit

  pub AllFit : Configs → Subschema → Type 0
  AllFit end s = Unit
  AllFit (item v vs) s =
      ((type : ConfigType) × (sub : Subschema) × (for_items s ≡ found type sub)
        × (type_code (config_type v) ≡ type_code type)
        × Fits v sub)
      × AllFit vs s

  pub EachFits : Entries → Subschema → Type 0
  EachFits empty s = Unit
  EachFits (entry key v d) s =
      ((type : ConfigType) × (sub : Subschema) × (for_key s key ≡ found type sub)
        × (type_code (config_type v) ≡ type_code type)
        × Fits v sub)
      × EachFits d s

if_same : (a b : ℕ) (c : Checked) → (if a == b then c else ebadmsg) ≡ ok → (a ≡ b) × (c ≡ ok)
if_same a b c h = elim (Bool-cases (a == b)) [
  | inl e ↦ ((==_iff a b).0 e, ground (arith, e, h))
  | inr e ↦ absurd (ground (arith, e, h))
]

field_check-ok :
    (m : Bool) (type : ConfigType) (check : Config → Checked) (o : Option Config) (v : Config)
    → field_check m type check o ≡ ok
    → o ≡ some v
    → (type_code (config_type v) ≡ type_code type) × (check v ≡ ok)
unfolding field_check type_eq
field_check-ok m type check none v h at = absurd (cc)
field_check-ok m type check (some u) v h at =
    let (same, fits) = if_same _ _ _ h in rw (← some_inj u v at) (sym same, fits)

pub found_inj :
    (t t' : ConfigType) (s s' : Subschema) → found t s ≡ found t' s' → (t ≡ t') × (s ≡ s')
found_inj t t' s s' e = (cc, cc)

-- The loop on the schema has checked the value of a key that the schema has.
fields_validate-lookup :
    (s : Schema) (d : Entries) (key : Bytes) (v : Config) (type : ConfigType) (sub : Subschema)
    → fields_validate s d ≡ ok
    → entries_get d key ≡ some v
    → schema_lookup s key ≡ found type sub
    → (type_code (config_type v) ≡ type_code type) × (value_validate sub v ≡ ok)
unfolding fields_validate schema_lookup get_value
fields_validate-lookup last d key v type sub h at l = absurd (cc)
fields_validate-lookup (field none t m sub' rest) d key v type sub h at l = absurd (cc)
fields_validate-lookup (field (some name) t m sub' rest) d key v type sub h at l =
    elim (Bool-cases (str_eq key name)) [
      | inl e ↦
          let (et, es) = found_inj t type sub' sub (ground (arith, e, l)) in
          rw (← et, ← es)
            (field_check-ok m t (value_validate sub') (entries_get d name) v (then_check-ok _ _ h).0
              (ap (entries_get d) (sym ((str_eq_iff key name).0 e)) ∙ at))
      | inr e ↦
          fields_validate-lookup rest d key v type sub (then_check-ok _ _ h).1 at
            (ground (arith, e, l))
    ]

found_check-ok :
    (f : Searched)
    → found_check f ≡ ok
    → (type : ConfigType) × (sub : Subschema) × (f ≡ found type sub)
unfolding found_check
found_check-ok (found type sub) h = (type, sub, refl)
found_check-ok missing h = absurd (cc)
found_check-ok null_key h = absurd (cc)

field_check-mandatory :
    (m : Bool) (type : ConfigType) (check : Config → Checked) (o : Option Config)
    → field_check m type check o ≡ ok
    → m ≡ true
    → o ≢ none
unfolding field_check
field_check-mandatory true type check none h on = absurd (cc)
field_check-mandatory false type check none h on = absurd (cc)
field_check-mandatory m type check (some v) h on = λ e. cc

Provided-fields_validate : (s : Schema) (d : Entries) → fields_validate s d ≡ ok → Provided s d
unfolding fields_validate
Provided-fields_validate last d h = tt
Provided-fields_validate (field key t m sub rest) d h = (
  field_check-mandatory m t _ _ (then_check-ok _ _ h).0,
  Provided-fields_validate rest d (then_check-ok _ _ h).1,
)

mutual
  unfolding value_validate item_validate each_item known_keys type_eq then_check

  pub Fits-value_validate :
      (v : Config) (s : Subschema) → IsConfig v → value_validate s v ≡ ok → Fits v s
  Fits-value_validate (bool b) s t h = tt
  Fits-value_validate (i64 b) s t h = tt
  Fits-value_validate (u64 b) s t h = tt
  Fits-value_validate (string b) s t h = tt
  Fits-value_validate (node b) s t h = tt
  Fits-value_validate (list end) s t h = tt
  Fits-value_validate (list (item v vs)) null t h = absurd (cc)
  Fits-value_validate (list (item v vs)) (array s) t h = AllFit-each_item (item v vs) s t h
  Fits-value_validate (dict d) null t h = absurd (cc)
  Fits-value_validate (dict d) (array s) t h =
      let (fields, keys) = then_check-ok (fields_validate s d) (known_keys s d) h in
      (
        EachFits-known_keys d d s t (Within-self d t) fields keys,
        Provided-fields_validate s d fields,
      )

  AllFit-each_item :
      (vs : Configs) (s : Schema)
      → AreConfigs vs
      → each_item (item_validate s) vs ≡ ok
      → AllFit vs (array s)
  AllFit-each_item end s t h = tt
  AllFit-each_item (item v vs) last t h = absurd (cc)
  AllFit-each_item (item v vs) (field key type m sub rest) (t, ts) h =
      let (one, more) = then_check-ok (item_validate (field key type m sub rest) v) _ h in
      let (same, fits) = if_same _ _ _ one in
      (
        (type, sub, refl, same, Fits-value_validate v sub t fits),
        AllFit-each_item vs (field key type m sub rest) ts more,
      )

  EachFits-known_keys :
      (e d : Entries) (s : Schema)
      → IsDict e
      → Within e d
      → fields_validate s d ≡ ok
      → known_keys s e ≡ ok
      → EachFits e (array s)
  EachFits-known_keys empty d s t w fields keys = tt
  EachFits-known_keys (entry key v e) d s (absent, t, ts) (at, w) fields keys =
      let (one, more) = then_check-ok (found_check (schema_lookup s key)) _ keys in
      let (type, sub, l) = found_check-ok _ one in
      let (same, fits) = fields_validate-lookup s d key v type sub fields at l in
      (
        (type, sub, l, same, Fits-value_validate v sub t fits),
        EachFits-known_keys e d s ts w fields more,
      )
