-- ===== src/Complete/Items.antt =====
-- src/complete.c: completion items, their groups, and the counters of struct ec_comp.
use libecoli.Base.{
  ℕ, suc, ◌+◌, Bytes, Bool, true, false, if◌then◌else◌, Option, none, some, List, [], ◌∷◌, ◌++◌,
  length, get_elem?, set, drop,
}
use libecoli.Str.{str_startswith}
use libecoli.Parse.{Frame}

-- enum ec_comp_type
pub data CompType : Type 0 where
  unknown full partial : CompType

-- A logical or of types.
pub record Mask : Type 0 where
  pub unknown? : Bool
  pub full? : Bool
  pub partial? : Bool

-- `mask & type`
unfoldable pub selects : Mask → CompType → Bool
selects m unknown = m.unknown?
selects m full = m.full?
selects m partial = m.partial?

-- struct ec_comp_item. `none` is NULL. Items are told apart by their address, for which the number
-- of items added before stands.
pub record Item : Type 0 where
  pub addr : ℕ
  pub type : CompType
  pub current : Option Bytes
  pub str : Option Bytes
  pub completion : Option Bytes
  pub display : Option Bytes

-- struct ec_comp_group. `pstate` is the copy of the parse tree above the node, as its path.
pub record Group : Type 0 where
  pub node : ℕ
  pub items : List Item
  pub pstate : List Frame

-- struct ec_comp. The fields `cur_pstate` and `cur_group` are arguments of the functions below.
pub record Comp : Type 0 where
  pub count : ℕ
  pub count_full : ℕ
  pub count_partial : ℕ
  pub count_unknown : ℕ
  pub groups : List Group

-- ec_comp
unfoldable pub no_items : Comp
no_items = record { count = 0; count_full = 0; count_partial = 0; count_unknown = 0; groups = [] }

unfoldable pub is_unknown : CompType → Bool
is_unknown unknown = true
is_unknown _ = false

-- ec_comp_item; `none` is NULL
unfoldable pub comp_item : ℕ → CompType → Option Bytes → Option Bytes → Option Item
comp_item addr type none none =
    if is_unknown type
    then some (record {
      addr = addr;
      type = type;
      current = none;
      str = none;
      completion = none;
      display = none;
    })
    else none
comp_item addr type none (some str) = none
comp_item addr type (some current) none = none
comp_item addr type (some current) (some str) =
    if is_unknown type
    then none
    else if str_startswith str current
    then some (record {
      addr = addr;
      type = type;
      current = some current;
      str = some str;
      completion = some (drop (length current) str);
      display = some str;
    })
    else none

-- ec_comp_item_set_display; an unknown item or a NULL string is refused with EINVAL
unfoldable pub set_display : Item → Option Bytes → Option Item
set_display item none = none
set_display item (some s) =
    if is_unknown item.type then none else some (record item { display = some s })

-- ec_comp_item_set_completion
unfoldable pub set_completion : Item → Option Bytes → Option Item
set_completion item none = none
set_completion item (some s) =
    if is_unknown item.type then none else some (record item { completion = some s })

-- ec_comp_item_set_str
unfoldable pub set_str : Item → Option Bytes → Option Item
set_str item none = none
set_str item (some s) = if is_unknown item.type then none else some (record item { str = some s })

-- ec_comp_item_add: the counter of the type
unfoldable pub bump : Comp → CompType → Comp
bump comp unknown = record comp { count_unknown = comp.count_unknown + 1 }
bump comp full = record comp { count_full = comp.count_full + 1 }
bump comp partial = record comp { count_partial = comp.count_partial + 1 }

-- ec_comp_item_add: `comp->cur_group`, created where it is NULL. A group is its place in the list.
unfoldable pub group_for : List Group → List Frame → ℕ → Option ℕ → List Group × ℕ
group_for groups pstate node none =
    (groups ++ (record { node = node; items = []; pstate = pstate } ∷ []), length groups)
group_for groups pstate node (some cur_group) = (groups, cur_group)

-- ec_comp_item_add: the insertion at the tail of a group's items
unfoldable pub append_item : List Group → ℕ → Item → List Group
append_item groups i item = elim (get_elem? groups i) [
  | none ↦ groups
  | some grp ↦ set groups i (record grp { items = grp.items ++ (item ∷ []) })
]

-- ec_comp_item_add, with the new `cur_group`
unfoldable pub item_add : Comp → List Frame → ℕ → Option ℕ → Item → Comp × ℕ
item_add comp pstate node cur_group item =
    let (groups, grp) = group_for comp.groups pstate node cur_group in
    (
      record (bump comp item.type) { count = comp.count + 1; groups = append_item groups grp item },
      grp,
    )

-- ec_comp_add_item; `none` is NULL
unfoldable pub add_item :
    Comp → List Frame → ℕ → Option ℕ → CompType → Option Bytes → Option Bytes → Option (Comp × ℕ)
add_item comp pstate node cur_group type current str =
    elim (comp_item comp.count type current str) [
      | none ↦ none
      | some item ↦ some (item_add comp pstate node cur_group item)
    ]

-- ec_comp_merge
unfoldable pub comp_merge : Comp → Comp → Comp
comp_merge to from = record {
  count = to.count + from.count;
  count_full = to.count_full + from.count_full;
  count_partial = to.count_partial + from.count_partial;
  count_unknown = to.count_unknown + from.count_unknown;
  groups = to.groups ++ from.groups;
}

-- ec_comp_count
unfoldable pub comp_count : Comp → Mask → ℕ
comp_count comp mask =
    (if mask.full? then comp.count_full else 0)
    + (if mask.partial? then comp.count_partial else 0)
    + (if mask.unknown? then comp.count_unknown else 0)

-- The inner loop of __ec_comp_iter_next: the rest of a group's items, from place `i` on.
unfoldable pub next_in_group : Mask → List Item → ℕ → Option ℕ
next_in_group mask [] i = none
next_in_group mask (item ∷ items) i =
    if selects mask item.type then some i else next_in_group mask items (suc i)

-- The outer loop of __ec_comp_iter_next, from a place in the first group on: a group and an item.
unfoldable pub next_from : Mask → List Group → ℕ → ℕ → Option (ℕ × ℕ)
next_from mask [] g i = none
next_from mask (grp ∷ groups) g i = elim (next_in_group mask (drop i grp.items) i) [
  | some j ↦ some (g, j)
  | none ↦ next_from mask groups (suc g) 0
]

-- ec_comp_iter_first
unfoldable pub iter_first : Comp → Mask → Option (ℕ × ℕ)
iter_first comp mask = next_from mask comp.groups 0 0

-- ec_comp_iter_next
unfoldable pub iter_next : Comp → ℕ × ℕ → Mask → Option (ℕ × ℕ)
iter_next comp (g, i) mask = next_from mask (drop g comp.groups) g (suc i)

unfoldable pub item_at : Comp → ℕ × ℕ → Option Item
item_at comp (g, i) = elim (get_elem? comp.groups g) [
  | none ↦ none
  | some grp ↦ get_elem? grp.items i
]
