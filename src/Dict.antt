-- ===== src/Dict.antt =====
-- src/dict.c: dictionaries, the hash tables whose keys are C strings with their NUL.
pub mod Laws
use libecoli.Base.{ℕ, Bytes, Bool, false, Option, none, some, [], ◌∷◌, ◌++◌}
use libecoli.Htable.Ops.{
  Ref, Htable, Errno, einval, htable, htable_len, htable_has_key, htable_get, htable_del,
  htable_set, htable_dup,
}

abbrev pub Dict : Type 0
Dict = Htable

-- ec_dict
abbrev pub dict : Dict
dict = htable

-- The `strlen(key) + 1` bytes of a key
unfoldable pub key_bytes : Bytes → Bytes
key_bytes key = key ++ (0 ∷ [])

-- ec_dict_len
unfoldable pub dict_len : Dict → ℕ
dict_len d = htable_len d

-- ec_dict_iter_get_key, on the reference: a C string, up to its NUL
unfoldable pub iter_get_key : Ref → Bytes
iter_get_key r = r.key

-- ec_dict_iter_get_val
unfoldable pub iter_get_val : Ref → ℕ
iter_get_val r = r.value

module _ (hash : Bytes → ℕ) where
  -- ec_dict_has_key; a key `none` is NULL
  unfoldable pub dict_has_key : Dict → Option Bytes → Bool
  dict_has_key d none = false
  dict_has_key d (some key) = htable_has_key hash d (some (key_bytes key))

  -- ec_dict_get
  unfoldable pub dict_get : Dict → Option Bytes → ℕ
  dict_get d none = 0
  dict_get d (some key) = htable_get hash d (some (key_bytes key))

  -- ec_dict_del
  unfoldable pub dict_del : Dict → Option Bytes → Dict × Option Errno
  dict_del d none = (d, some einval)
  dict_del d (some key) = htable_del hash d (some (key_bytes key))

  -- ec_dict_set
  unfoldable pub dict_set : Dict → Option Bytes → ℕ → ℕ → Dict × Option Errno
  dict_set d none addr value = (d, some einval)
  dict_set d (some key) addr value = htable_set hash d (some (key_bytes key)) addr value

  -- ec_dict_dup
  unfoldable pub dict_dup : Dict → ℕ → Option Dict
  dict_dup d addr = htable_dup hash d addr
