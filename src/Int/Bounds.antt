-- ===== src/Int/Bounds.antt =====
-- src/node_int.c: the node int matches the strings that strtoll reads as a value between its bounds.
use libecoli.Base.{
  ℕ, ◌^◌, ◌<◌, ◌≤◌, ◌%◌, ◌≡◌, ◌≢◌, ◌↔◌, ◌⊎◌, refl, sym, ◌∙◌, ap, inl, inr, Bool, true, false,
  Bool-cases, ◌&&◌, ◌||◌, if◌then◌else◌, ltb, Bytes, str_eq, Option, none, some, [], ◌∷◌, arith,
}
use libecoli.Base.Signed.{
  ℤ, pos, ◌≤ℤ◌, ltb_ℤ, eq_ℤ, to_signed, of_signed, IsInt64, to_signed-of_signed,
}
use libecoli.Int.{
  Errno, no_error, erange, other_error, Conversion, is_erange, is_error, is_empty, llong_max,
  llong_min, str_parse_llint, IntUint, node_int, int_config, node_set_config, int_set_config,
  store_config, int_getval, bits_of, bits_or, is_given, exceeds, parse_llint, when_some,
  int_uint_parse,
}
use libecoli.Config.{
  config_dict_set, config_dict_get, entries_set, entries_get, entries_del, entries_add,
  config_validate, value_validate, fields_validate, field_check, get_value, type_eq, type_code,
  config_type, then_check, known_keys, found_check, schema_lookup,
}
use libecoli.Strvec.{Strvec, Elt}
use libecoli.Parse.{matched, nil}

-- What strtoll(3) says of its result: with ERANGE it is the greatest or the least value, and with
-- another error it is 0.
abbrev pub IsStrtoll : (Bytes → ℕ → Conversion ℤ) → Type 0
IsStrtoll strtoll =
    (s : Bytes) (base : ℕ)
    → ((strtoll s base).err ≡ erange
        → ((strtoll s base).value ≡ llong_max) ⊎ ((strtoll s base).value ≡ llong_min))
      × ((strtoll s base).err ≡ other_error → (strtoll s base).value ≡ pos 0)

-- strtoll reads a string to its end, without an error, as a value between two bounds. Of the empty
-- string this can hold too, where strtoll gives 0 for it without an error.
abbrev pub Between : Conversion ℤ → ℤ → ℤ → ℤ → Type 0
Between c min max v = (c.err ≡ no_error) × (c.rest ≡ []) × (c.value ≡ v) × (min ≤ℤ v) × (v ≤ℤ max)

-- The bounds' tests of ec_str_parse_llint.
llint_tests : ℤ → ℤ → ℤ → Bytes → Option ℤ
unfolding is_empty
llint_tests val min max rest =
    if ltb_ℤ val min
    then none
    else if ltb_ℤ max val
    then none
    else if is_empty rest
    then some val
    else none

llint_tests-some :
    (val v min max : ℤ) (rest : Bytes)
    → llint_tests val min max rest ≡ some v
    → (rest ≡ []) × (val ≡ v) × (min ≤ℤ v) × (v ≤ℤ max)
unfolding llint_tests is_empty
llint_tests-some val v min max rest h = elim (Bool-cases (ltb_ℤ val min)) [
  | inl e ↦ absurd (ground (arith, e, h))
  | inr e ↦ elim (Bool-cases (ltb_ℤ max val)) [
    | inl f ↦ absurd (ground (arith, e, f, h))
    | inr f ↦ whole rest (ground (arith, e, f, h)) e f
  ]
]
  where
    whole :
        (rest : Bytes)
        → (if is_empty rest then some val else none) ≡ some v
        → ltb_ℤ val min ≡ false
        → ltb_ℤ max val ≡ false
        → (rest ≡ []) × (val ≡ v) × (min ≤ℤ v) × (v ≤ℤ max)
    whole [] k e f =
        let same = inj k in
        (refl, same, rw (← same) (ground (arith, e)), rw (← same) (ground (arith, f)))
      where
        inj : ◌≡◌ {A = Option ℤ} (some val) (some v) → val ≡ v
        inj k = cc
    whole (c ∷ rest) k e f = absurd (cc)

llint_tests-pass : (v min max : ℤ) → min ≤ℤ v → v ≤ℤ max → llint_tests v min max [] ≡ some v
unfolding llint_tests is_empty
llint_tests-pass v min max a b = rw (not_less _ _ a, not_less _ _ b) refl
  where
    not_less : (m n : ℕ) → n ≤ m → ltb m n ≡ false
    not_less m n le = ground arith

-- The test of errno and the value.
failed : Errno → ℤ → Bool
unfolding is_erange is_error
failed err val =
    is_erange err && (eq_ℤ val llong_max || eq_ℤ val llong_min) || is_error err && eq_ℤ val (pos 0)

failed-no_error :
    (err : Errno) (val : ℤ)
    → (err ≡ erange → (val ≡ llong_max) ⊎ (val ≡ llong_min))
    → (err ≡ other_error → val ≡ pos 0)
    → ((err ≡ no_error) × (failed err val ≡ false)) ⊎ ((err ≢ no_error) × (failed err val ≡ true))
unfolding failed is_erange is_error
failed-no_error no_error val range zero = inl (refl, refl)
failed-no_error erange val range zero = elim (range refl) [
  | inl e ↦ inr ((λ k. cc), rw e refl)
  | inr e ↦ inr ((λ k. cc), rw e refl)
]
failed-no_error other_error val range zero = inr ((λ k. cc), rw (zero refl) refl)

module _ (strtoll : Bytes → ℕ → Conversion ℤ) (strtoull : Bytes → ℕ → Conversion ℕ) where
  -- Given what is documented of strtoll, ec_str_parse_llint succeeds just for a string that is as a
  -- whole a number between the bounds, both included, and returns that number.
  pub str_parse_llint_iff :
      (str : Bytes) (base : ℕ) (min max v : ℤ)
      → IsStrtoll strtoll
      → (str_parse_llint strtoll strtoull str base min max ≡ some v)
        ↔ Between (strtoll str base) min max v
  unfolding str_parse_llint failed llint_tests
  str_parse_llint_iff str base min max v doc =
      elim (failed-no_error c.err c.value (doc str base).0 (doc str base).1) [
        | inl (e, f) ↦ (
          λ h.
              let (r, s, a, b) =
                llint_tests-some c.value v min max c.rest
                  (ap (λ x. if x then none else llint_tests c.value min max c.rest) (sym f) ∙ h) in
              (e, r, s, a, b),
          λ t. rw f (rw (t.1, t.2) (llint_tests-pass v min max t.3 t.4)),
        )
        | inr (e, f) ↦ (
          λ h. absurd (
              no_value
                (ap (λ x. if x then none else llint_tests c.value min max c.rest) (sym f) ∙ h)),
          λ t. absurd (e t.0),
        )
      ]
    where
      c : Conversion ℤ
      c = strtoll str base

      no_value : ◌≡◌ {A = Option ℤ} none (some v) → ⊥
      no_value k = cc

-- what the configuration of a node computes with
configures : Unit {0}
unfolding node_int int_config config_dict_set config_dict_get entries_set entries_get entries_del
    entries_add str_eq node_set_config config_validate value_validate fields_validate field_check
    get_value type_eq type_code config_type then_check known_keys found_check schema_lookup
    int_set_config store_config bits_of bits_or is_given exceeds
configures = tt

node_int-exceeds :
    (min max : ℤ) (base : ℕ)
    → node_int min max base ≡ (
        if ltb_ℤ (to_signed (of_signed max)) (to_signed (of_signed min))
        then none
        else some (record {
          is_signed = true;
          check_min = true;
          check_max = true;
          min = of_signed min;
          max = of_signed max;
          base = base % 2 ^ 32;
        }))
unfolding configures
node_int-exceeds min max base = refl

-- ec_node_int with a minimum above the maximum gives NULL.
node_int-none :
    (min max : ℤ) (base : ℕ)
    → IsInt64 min
    → IsInt64 max
    → ltb_ℤ max min ≡ true
    → node_int min max base ≡ none
node_int-none min max base a b h =
    node_int-exceeds min max base
    ∙ rw (to_signed-of_signed min a, to_signed-of_signed max b, h) refl

abbrev int_priv : ℤ → ℤ → ℕ → IntUint
int_priv min max base = record {
  is_signed = true;
  check_min = true;
  check_max = true;
  min = of_signed min;
  max = of_signed max;
  base = base;
}

node_int-some :
    (min max : ℤ) (base : ℕ)
    → IsInt64 min
    → IsInt64 max
    → min ≤ℤ max
    → base < 2 ^ 32
    → node_int min max base ≡ some (int_priv min max base)
node_int-some min max base a b le small =
    node_int-exceeds min max base
    ∙ rw (to_signed-of_signed min a, to_signed-of_signed max b, not_less _ _ le, fits) refl
  where
    not_less : (m n : ℕ) → n ≤ m → ltb m n ≡ false
    not_less m n le = ground arith

    fits : base % 2 ^ 32 ≡ base
    fits = omega (arith, small)

module _ (strtoll : Bytes → ℕ → Conversion ℤ) (strtoull : Bytes → ℕ → Conversion ℕ) where
  when_some_iff :
      {A : Type 0} (o : Option A)
      → (when_some strtoll strtoull o ≡ matched 1 nil) ↔ ((v : A) × (o ≡ some v))
  unfolding when_some
  when_some_iff none = (λ e. absurd (cc), λ t. absurd (cc))
  when_some_iff (some v) = (λ e. (v, refl), λ t. refl)

  parse_int_priv :
      (min max : ℤ) (base : ℕ) (str : Bytes)
      → IsInt64 min
      → IsInt64 max
      → parse_llint strtoll strtoull (int_priv min max base) str
        ≡ str_parse_llint strtoll strtoull str base min max
  unfolding parse_llint
  parse_int_priv min max base str a b =
      rw (to_signed-of_signed min a, to_signed-of_signed max b) refl

  getval_iff :
      (min max v : ℤ) (base : ℕ) (str : Bytes)
      → IsStrtoll strtoll
      → IsInt64 min
      → IsInt64 max
      → (int_getval strtoll strtoull (int_priv min max base) str ≡ some v)
        ↔ Between (strtoll str base) min max v
  unfolding int_getval
  getval_iff min max v base str doc a b =
      rw (parse_int_priv min max base str a b)
        (str_parse_llint_iff strtoll strtoull str base min max v doc)

  -- Given what is documented of strtoll, a node that ec_node_int makes of two bounds matches a string
  -- just when strtoll reads it, in the base of the node, to its end without an error as a value
  -- between them, both included, and ec_node_int_getval returns that value and succeeds for no other
  -- string. The base is below 2^32. Bounds in the wrong order are refused.
  pub node_int_iff :
      (min max : ℤ) (base : ℕ) (e : Elt) (vec : Strvec)
      → IsStrtoll strtoll
      → IsInt64 min
      → IsInt64 max
      → base < 2 ^ 32
      → ((ltb_ℤ max min ≡ true) × (node_int min max base ≡ none))
        ⊎ ((priv : IntUint) × (node_int min max base ≡ some priv)
            × ((v : ℤ)
                → (int_getval strtoll strtoull priv e.str ≡ some v)
                  ↔ Between (strtoll e.str base) min max v)
            × ((int_uint_parse strtoll strtoull priv (e ∷ vec) ≡ matched 1 nil)
                ↔ ((v : ℤ) × Between (strtoll e.str base) min max v)))
  unfolding int_uint_parse int_getval
  node_int_iff min max base e vec doc a b small = elim (Bool-cases (ltb_ℤ max min)) [
    | inl h ↦ inl (h, node_int-none min max base a b h)
    | inr h ↦ inr (
      int_priv min max base,
      node_int-some min max base a b (ground (arith, h)) small,
      (λ v. getval_iff min max v base e.str doc a b),
      (
        λ m.
            let (v, p) = (when_some_iff _).0 m in
            (v, (getval_iff min max v base e.str doc a b).0 p),
        λ t. (when_some_iff _).1 (t.0, (getval_iff min max t.0 base e.str doc a b).1 t.1),
      ),
    )
  ]
