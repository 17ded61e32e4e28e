-- ===== src/Htable/Ops.antt =====
-- src/htable.c, src/htable_private.h: the hash table and its operations.
use libecoli.Base.{
  ℕ, zero, suc, ◌+◌, ◌-◌, ◌*◌, ◌%◌, ◌^◌, Bytes, Bool, true, false, not, ◌||◌, if◌then◌else◌, leb,
  ◌==◌, str_eq, Option, none, some, List, [], ◌∷◌, ◌++◌, length, get_elem?, set,
}
use libecoli.Htable.Bits.{band, index}

-- A reference and the element that it refers to; values are opaque words, with 0 for NULL. The
-- count of references and the callback that frees a value are left out.
pub record Ref : Type 0 where
  pub addr : ℕ
  pub key : Bytes
  pub hash : ℕ
  pub value : ℕ

-- The queue `list`, and the queues of `table`.
pub record Htable : Type 0 where
  pub len : ℕ
  pub table_size : ℕ
  pub list : List Ref
  pub table : List (List Ref)

pub data Errno : Type 0 where
  einval : Errno
  enoent : Errno

-- ec_htable
unfoldable pub htable : Htable
htable = record { len = 0; table_size = 0; list = []; table = [] }

-- TAILQ_REMOVE of the reference at an address
unfoldable pub remove : List Ref → ℕ → List Ref
remove [] addr = []
remove (r ∷ rs) addr = if r.addr == addr then rs else r ∷ remove rs addr

-- `table[i]`
unfoldable pub chain : List (List Ref) → ℕ → List Ref
chain table i = elim (get_elem? table i) [ none ↦ [] | some rs ↦ rs ]

-- TAILQ_REMOVE from `table[i]`
unfoldable pub chain_remove : List (List Ref) → ℕ → ℕ → List (List Ref)
chain_remove table i addr = set table i (remove (chain table i) addr)

-- TAILQ_INSERT_TAIL to `table[i]`
unfoldable pub chain_insert : List (List Ref) → ℕ → Ref → List (List Ref)
chain_insert table i r = set table i (chain table i ++ (r ∷ []))

-- `n` empty queues
unfoldable pub empty_chains : ℕ → List (List Ref)
empty_chains zero = []
empty_chains (suc n) = [] ∷ empty_chains n

-- The loop of ec_htable_lookup; the comparison is of the lengths and of the bytes.
unfoldable pub find_key : List Ref → Bytes → Option Ref
find_key [] key = none
find_key (r ∷ rs) key = if str_eq r.key key then some r else find_key rs key

pub data Lookup : Type 0 where
  found : Ref → Lookup
  missing : Errno → Lookup

-- The loop of ec_htable_table_resize: the old table and the new one.
unfoldable pub move_refs :
    List Ref → ℕ → ℕ → List (List Ref) → List (List Ref) → List (List Ref) × List (List Ref)
move_refs [] size new_size table new_table = (table, new_table)
move_refs (r ∷ rs) size new_size table new_table =
    move_refs rs size new_size (chain_remove table (index r.hash size) r.addr)
      (chain_insert new_table (index r.hash new_size) r)

-- ec_htable_table_resize; `none` is 0
unfoldable pub table_resize : Htable → ℕ → Htable × Option Errno
table_resize h new_size =
    if new_size == 0 || not (band 64 new_size (new_size - 1) == 0) then (h, some einval) else (
      record h {
        table = (move_refs h.list h.table_size new_size h.table (empty_chains new_size)).1;
        table_size = new_size;
      },
      none,
    )

-- `table_size << FACTOR`, or `1 << FACTOR` for a table of size 0
unfoldable pub next_size : ℕ → ℕ
next_size size = if size == 0 then 8 else (size * 8) % 2 ^ 64

-- __ec_htable_set: room for one more reference
unfoldable pub make_room : Htable → Htable × Option Errno
make_room h = if leb h.table_size h.len then table_resize h (next_size h.table_size) else (h, none)

-- __ec_htable_set: the insertion at the tail of the list and of its chain
unfoldable pub insert : Htable → Ref → Htable
insert h r = record h {
  table = chain_insert h.table (index r.hash h.table_size) r;
  list = h.list ++ (r ∷ []);
  len = h.len + 1;
}

-- ec_htable_len
unfoldable pub htable_len : Htable → ℕ
htable_len h = h.len

-- ec_htable_iter
unfoldable pub iter : Htable → Option Ref
iter h = elim h.list [ [] ↦ none | r ∷ rs ↦ some r ]

-- ec_htable_del: the removal of the reference that was found
unfoldable pub unlink : Htable → Ref → Htable
unlink h r = record h {
  list = remove h.list r.addr;
  table = chain_remove h.table (index r.hash h.table_size) r.addr;
  len = h.len - 1;
}

module _ (hash : Bytes → ℕ) where
  -- ec_htable_lookup; a key `none` is NULL
  unfoldable pub lookup : Htable → Option Bytes → Lookup
  lookup h none = missing einval
  lookup h (some key) =
      if h.table_size == 0
      then missing enoent
      else elim (find_key (chain h.table (index (hash key) h.table_size)) key) [
        | none ↦ missing enoent
        | some r ↦ found r
      ]

  -- ec_htable_has_key
  unfoldable pub htable_has_key : Htable → Option Bytes → Bool
  htable_has_key h key = elim (lookup h key) [ found r ↦ true | missing e ↦ false ]

  -- ec_htable_get
  unfoldable pub htable_get : Htable → Option Bytes → ℕ
  htable_get h key = elim (lookup h key) [ found r ↦ r.value | missing e ↦ 0 ]

  -- ec_htable_del
  unfoldable pub htable_del : Htable → Option Bytes → Htable × Option Errno
  htable_del h key = elim (lookup h key) [ found r ↦ (unlink h r, none) | missing e ↦ (h, some e) ]

  -- __ec_htable_set
  unfoldable pub set_ref : Htable → Ref → Htable × Option Errno
  set_ref h r =
      let (h', e) = make_room (htable_del h (some r.key)).0 in
      elim e [ none ↦ (insert h' r, none) | some e' ↦ (h', some e') ]

  -- ec_htable_set
  unfoldable pub htable_set : Htable → Option Bytes → ℕ → ℕ → Htable × Option Errno
  htable_set h none addr value = (h, some einval)
  htable_set h (some key) addr value =
      if length key == 0
      then (h, some einval)
      else set_ref h (record { addr = addr; key = key; hash = hash key; value = value })

  -- ec_htable_dup: the loop, with the addresses that the allocator gives from `addr` on
  unfoldable pub dup_loop : List Ref → ℕ → Htable → Option Htable
  dup_loop [] addr dup = some dup
  dup_loop (r ∷ rs) addr dup =
      let (dup', e) = set_ref dup (record r { addr = addr }) in
      elim e [ none ↦ dup_loop rs (addr + 1) dup' | some e' ↦ none ]

  -- ec_htable_dup; `none` is NULL
  unfoldable pub htable_dup : Htable → ℕ → Option Htable
  htable_dup h addr = dup_loop h.list addr htable
