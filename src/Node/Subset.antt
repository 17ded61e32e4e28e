-- ===== src/Node/Subset.antt =====
-- src/node_subset.c: the search for the longest list of table entries that match one after
-- the other.
use libecoli.Base.{
  ℕ, zero, suc, ◌+◌, ◌-◌, if◌then◌else◌, ltb, Option, none, some, List, [], ◌∷◌, ◌++◌, length,
}
use libecoli.Strvec.{Strvec, ndup}
use libecoli.Parse.{
  Outcome, matched, nomatch, error, out_of_fuel, Parser, Frame, parse_child, Pnode, Pnodes, nil,
  link_child, get_last_child, del_last_child,
}

-- struct parse_result, with the children left under the node
pub data Found : Type 0 where
  found : (parse_len len : ℕ) → Pnodes → Found
  failed : Found
  no_fuel : Found

-- `best_result` and `best_parse`
pub record Best : Type 0 where
  pub parse_len : ℕ
  pub len : ℕ
  pub parse : Option Pnode

abbrev pub no_best : Best
no_best = record { parse_len = 0; len = 0; parse = none }

-- `result` replaces the best unless it is shorter; `last` is the last child of the node.
unfoldable pub better : Best → (parse_len len : ℕ) → Option Pnode → Best
better best parse_len len last =
    if ltb parse_len best.parse_len
    then best
    else record { parse_len = parse_len + 1; len = len; parse = last }

-- the link of `best_parse` at the end
unfoldable pub link_best : Pnodes → Option Pnode → Pnodes
link_best cs none = cs
link_best cs (some p) = link_child cs p

module _ (parse : Parser) (path : List Frame) (self : ℕ) where
  -- The loop of __ec_node_subset_parse: `before` are the entries tried, `search` the recursive
  -- call on the table without the present entry.
  unfoldable pub subset_loop :
      (Pnodes → List ℕ → Strvec → Found) → Strvec → (before rest : List ℕ) → Pnodes → Best → Found
  unfolding parse_child ndup better link_best
  subset_loop search vec before [] cs best = found best.parse_len best.len (link_best cs best.parse)
  subset_loop search vec before (n ∷ rest) cs best = elim (parse_child parse path self cs n vec) [
    | nomatch cs' ↦ subset_loop search vec (before ++ (n ∷ [])) rest cs' best
    | error ↦ failed
    | out_of_fuel ↦ no_fuel
    | matched len cs' ↦ elim (ndup vec len (length vec - len)) [
      | none ↦ failed
      | some childvec ↦ elim (search cs' (before ++ rest) childvec) [
        | failed ↦ failed
        | no_fuel ↦ no_fuel
        | found parse_len more cs'' ↦
            subset_loop search vec (before ++ (n ∷ [])) rest (del_last_child cs'')
              (better best parse_len (len + more) (get_last_child cs''))
      ]
    ]
  ]

  -- __ec_node_subset_parse on a table of the length given first
  unfoldable pub subset_search : ℕ → Pnodes → List ℕ → Strvec → Found
  unfolding subset_loop
  subset_search zero cs table vec = found 0 0 cs
  subset_search (suc table_len) cs table vec =
      subset_loop (subset_search table_len) vec [] table cs no_best

  -- ec_node_subset_parse
  unfoldable pub subset_parse : List ℕ → ℕ → Strvec → Outcome
  unfolding subset_search
  subset_parse table min vec = elim (subset_search (length table) nil table vec) [
    | found parse_len len cs ↦ if ltb parse_len min then nomatch cs else matched len cs
    | failed ↦ error
    | no_fuel ↦ out_of_fuel
  ]
