-- ===== src/Htable/Keys.antt =====
-- src/htable.c: what the queues mean to a caller, a list of keys with their values in the order
-- of insertion, and the search of a key.
use libecoli.Base.{
  ℕ, ◌≡◌, refl, ◌∙◌, ap, Bytes, Bool, true, false, Bool-cases, inl, inr, if◌then◌else◌, ◌==◌,
  ==_self, str_eq, str_eq_iff, Option, none, some, List, [], ◌∷◌, ◌++◌, All, All-map, All-append,
  suc, length, arith,
}
use mathlib.Core.Path.{subst}
use libecoli.Htable.Bits.{index}
use libecoli.Htable.Ops.{Lookup, missing, found, enoent, Ref, remove, find_key}
use libecoli.Htable.Chains.{in_chain, Distinct}

-- The caller's view.
abbrev pub entries : List Ref → List (Bytes × ℕ)
entries [] = []
entries (r ∷ rs) = (r.key, r.value) ∷ entries rs

-- The first value under a key; NULL, as 0, without one.
abbrev pub get_entry : List (Bytes × ℕ) → Bytes → ℕ
get_entry [] key = 0
get_entry ((k, v) ∷ es) key = if str_eq k key then v else get_entry es key

abbrev pub has_entry : List (Bytes × ℕ) → Bytes → Bool
has_entry [] key = false
has_entry ((k, v) ∷ es) key = if str_eq k key then true else has_entry es key

abbrev pub del_entry : List (Bytes × ℕ) → Bytes → List (Bytes × ℕ)
del_entry [] key = []
del_entry ((k, v) ∷ es) key = if str_eq k key then es else (k, v) ∷ del_entry es key

pub entries-append : (rs ss : List Ref) → entries (rs ++ ss) ≡ entries rs ++ entries ss
entries-append [] ss = refl
entries-append (r ∷ rs) ss = ap (◌∷◌ (r.key, r.value)) (entries-append rs ss)

-- The chain of the key's hash is enough to find it.
pub find_key-in_chain :
    (hash : Bytes → ℕ) (size : ℕ) (rs : List Ref) (key : Bytes)
    → All (λ r. r.hash ≡ hash r.key) rs
    → find_key (in_chain size (index (hash key) size) rs) key ≡ find_key rs key
unfolding find_key
find_key-in_chain hash size [] key h = refl
find_key-in_chain hash size (r ∷ rs) key h = elim (Bool-cases (str_eq r.key key)) [
  | inl e ↦ rw (here e, e) refl
  | inr e ↦ elim (Bool-cases (index r.hash size == index (hash key) size)) [
    | inl e' ↦ rw (e', e) (find_key-in_chain hash size rs key h.1)
    | inr e' ↦ rw (e', e) (find_key-in_chain hash size rs key h.1)
  ]
]
  where
    here : str_eq r.key key ≡ true → (index r.hash size == index (hash key) size) ≡ true
    here e = rw (h.0, (str_eq_iff r.key key).0 e) (==_self (index (hash key) size))

abbrev pub value_of : Option Ref → ℕ
value_of none = 0
value_of (some r) = r.value

abbrev pub is_found : Option Ref → Bool
is_found none = false
is_found (some r) = true

abbrev pub to_lookup : Option Ref → Lookup
to_lookup none = missing enoent
to_lookup (some r) = found r

-- The search tells what the view holds.
pub get_entry-entries :
    (rs : List Ref) (key : Bytes) → value_of (find_key rs key) ≡ get_entry (entries rs) key
unfolding find_key
get_entry-entries [] key = refl
get_entry-entries (r ∷ rs) key = elim (Bool-cases (str_eq r.key key)) [
  | inl e ↦ rw e refl
  | inr e ↦ rw e (get_entry-entries rs key)
]

pub has_entry-entries :
    (rs : List Ref) (key : Bytes) → is_found (find_key rs key) ≡ has_entry (entries rs) key
unfolding find_key
has_entry-entries [] key = refl
has_entry-entries (r ∷ rs) key = elim (Bool-cases (str_eq r.key key)) [
  | inl e ↦ rw e refl
  | inr e ↦ rw e (has_entry-entries rs key)
]

pub find_key-none :
    (rs : List Ref) (key : Bytes)
    → find_key rs key ≡ none
    → (del_entry (entries rs) key ≡ entries rs) × All (λ s. str_eq s.key key ≡ false) rs
unfolding find_key
find_key-none [] key e = (refl, tt)
find_key-none (r ∷ rs) key e = elim (Bool-cases (str_eq r.key key)) [
  | inl e' ↦ ground arith
  | inr e' ↦
      let rest = find_key-none rs key (ground arith) in
      (rw e' (ap (◌∷◌ (r.key, r.value)) rest.0), (e', rest.1))
]

-- A reference that is found has what every reference has, and the key.
pub find_key-All {κ} :
    (P : Ref → Type κ) (rs : List Ref) (key : Bytes) (r : Ref)
    → find_key rs key ≡ some r
    → All P rs
    → P r × (str_eq r.key key ≡ true)
unfolding find_key
find_key-All P [] key r e h = ground arith
find_key-All P (s ∷ rs) key r e h = elim (Bool-cases (str_eq s.key key)) [
  | inl e' ↦ same e' (ground arith)
  | inr e' ↦ find_key-All P rs key r (ground arith) h.1
]
  where
    same : str_eq s.key key ≡ true → s ≡ r → P r × (str_eq r.key key ≡ true)
    same e' eq = rw (← eq) (h.0, e')

pub remove-All {κ} :
    (P : Ref → Type κ) (rs : List Ref) (addr : ℕ) → All P rs → All P (remove rs addr)
unfolding remove
remove-All P [] addr h = h
remove-All P (r ∷ rs) addr h = elim (Bool-cases (r.addr == addr)) [
  | inl e ↦ rw e h.1
  | inr e ↦ rw e (h.0, remove-All P rs addr h.1)
]

pub remove-Distinct : (rs : List Ref) (addr : ℕ) → Distinct rs → Distinct (remove rs addr)
unfolding remove
remove-Distinct [] addr h = h
remove-Distinct (r ∷ rs) addr h = elim (Bool-cases (r.addr == addr)) [
  | inl e ↦ rw e h.1
  | inr e ↦ rw e (remove-All _ rs addr h.0, remove-Distinct rs addr h.1)
]

pub str_eq_comm : (a b : Bytes) → str_eq a b ≡ false → str_eq b a ≡ false
str_eq_comm a b e = ground (arith, str_eq_iff a b, str_eq_iff b a)

pub del_entry-absent :
    (rs : List Ref) (key : Bytes)
    → All (λ s. str_eq s.key key ≡ false) rs
    → del_entry (entries rs) key ≡ entries rs
del_entry-absent [] key h = refl
del_entry-absent (r ∷ rs) key h = rw h.0 (ap (◌∷◌ (r.key, r.value)) (del_entry-absent rs key h.1))

pub append-Distinct :
    (rs : List Ref) (r : Ref)
    → Distinct rs
    → All (λ s. (s.addr == r.addr) ≡ false) rs
    → All (λ s. str_eq s.key r.key ≡ false) rs
    → Distinct (rs ++ (r ∷ []))
append-Distinct [] r h fresh absent = (tt, tt)
append-Distinct (s ∷ rs) r h fresh absent = (
  All-append _ rs (r ∷ []) h.0
      ((==_comm s.addr r.addr fresh.0, str_eq_comm s.key r.key absent.0), tt),
  append-Distinct rs r h.1 fresh.1 absent.1,
)
  where
    ==_comm : (a b : ℕ) → (a == b) ≡ false → (b == a) ≡ false
    ==_comm a b e = ground arith

-- The removal of a reference by its address removes the entry of the key.
abbrev pub IsRemoval : List Ref → Bytes → Ref → Type 0
IsRemoval rs key r =
    (entries (remove rs r.addr) ≡ del_entry (entries rs) key)
    × All (λ s. str_eq s.key key ≡ false) (remove rs r.addr)
    × (suc (length (remove rs r.addr)) ≡ length rs)
    × All (λ s. (s.addr == r.addr) ≡ true → s ≡ r) rs

IsRemoval-first :
    (r : Ref) (rs : List Ref) (key : Bytes)
    → str_eq r.key key ≡ true
    → Distinct (r ∷ rs)
    → IsRemoval (r ∷ rs) key r
unfolding remove
IsRemoval-first r rs key e h =
    rw (==_self r.addr, e)
      (refl, All-map _ _ rs without h.0, refl, ((λ eq. refl), All-map _ _ rs elsewhere h.0))
  where
    without :
        (s : Ref)
        → ((s.addr == r.addr) ≡ false) × (str_eq s.key r.key ≡ false)
        → str_eq s.key key ≡ false
    without s d = rw (← (str_eq_iff r.key key).0 e) d.1

    elsewhere :
        (s : Ref)
        → ((s.addr == r.addr) ≡ false) × (str_eq s.key r.key ≡ false)
        → (s.addr == r.addr) ≡ true
        → s ≡ r
    elsewhere s d eq = ground arith

pub find_key-remove :
    (rs : List Ref) (key : Bytes) (r : Ref)
    → find_key rs key ≡ some r
    → Distinct rs
    → IsRemoval rs key r
unfolding find_key remove
find_key-remove [] key r e h = ground arith
find_key-remove (s ∷ rs) key r e h = elim (Bool-cases (str_eq s.key key)) [
  | inl e' ↦ subst (λ x. IsRemoval (s ∷ rs) key x) (same e') (IsRemoval-first s rs key e' h)
  | inr e' ↦ behind e' (find_key-remove rs key r (later e') h.1)
]
  where
    same : str_eq s.key key ≡ true → s ≡ r
    same e' = ground arith

    later : str_eq s.key key ≡ false → find_key rs key ≡ some r
    later e' = ground arith

    apart : str_eq s.key key ≡ false → (s.addr == r.addr) ≡ false
    apart e' = ground (arith, (find_key-All _ rs key r (later e') h.0).0.0)

    not_here : str_eq s.key key ≡ false → (s.addr == r.addr) ≡ true → s ≡ r
    not_here e' eq = ground (arith, apart e')

    behind : str_eq s.key key ≡ false → IsRemoval rs key r → IsRemoval (s ∷ rs) key r
    behind e' (a, b, c, d) =
        rw (apart e', e')
          (
            ap (◌∷◌ (s.key, s.value)) a,
            (refl, b),
            ap suc c,
            ((λ eq. not_here e' (apart e' ∙ eq)), d),
          )
