-- ===== src/Sound/Child.antt =====
-- One call of __ec_parse_child (src/parse.c): what a successful child adds to the tree.
use libecoli.Base.{ℕ, ◌≤◌, ◌≡◌, ◌∙◌, ap, refl, some, List, ◌∷◌, length, take, arith}
use libecoli.Strvec.{Strvec, ndup}
use libecoli.Parse.{
  Pnode, Pnodes, pnode, nil, get_node, get_strvec, link_child, Outcome, matched, nomatch, error,
  out_of_fuel, Parser, Frame, parse_child, settle,
}
use libecoli.Node.{Grammar}
use libecoli.Sound.Valid.{Shape, IsOnly, Valid, AllValid}

-- A parse method that builds valid trees.
abbrev pub IsSound : Grammar → Parser → Type 0
IsSound g parse =
    (path : List Frame) (n : ℕ) (vec : Strvec) (ret : ℕ) (kids : Pnodes)
    → parse path n vec ≡ matched ret kids
    → ret ≤ length vec
    → Shape g.stack (g.node n) (take ret vec) kids × AllValid g kids

-- A child that was kept: it stands last, is valid, and holds the first `ret` strings.
pub record Kept (g : Grammar) (cs : Pnodes) (child : ℕ) (vec : Strvec) (ret : ℕ) (cs' : Pnodes)
    : Type 0 where
  pub tree : Pnode
  pub linked : cs' ≡ link_child cs tree
  pub origin : get_node tree ≡ child
  pub strings : get_strvec tree ≡ some (take ret vec)
  pub valid : Valid g tree
  pub within : ret ≤ length vec

-- What a child's method returned where the child was kept.
settle-inv :
    (cs : Pnodes) (child : ℕ) (vec : Strvec) (o : Outcome) (ret : ℕ) (cs' : Pnodes)
    → settle cs child vec o ≡ matched ret cs'
    → (kids : Pnodes) × (o ≡ matched ret kids)
      × (ret ≤ length vec)
      × (cs' ≡ link_child cs (pnode child (some (take ret vec)) kids))
unfolding settle ndup
settle-inv cs child vec (matched r kids) ret cs' h =
    (kids, ground arith, ground arith, ground arith)
settle-inv cs child vec (nomatch kids) ret cs' h = cc
settle-inv cs child vec error ret cs' h = cc
settle-inv cs child vec out_of_fuel ret cs' h = cc

pub parse_child-Kept :
    (g : Grammar) (parse : Parser)
    → IsSound g parse
    → (path : List Frame) (self : ℕ) (cs : Pnodes) (child : ℕ) (vec : Strvec) (ret : ℕ)
      (cs' : Pnodes)
    → parse_child parse path self cs child vec ≡ matched ret cs'
    → Kept g cs child vec ret cs'
unfolding parse_child Valid
parse_child-Kept g parse sound path self cs child vec ret cs' h =
    let (kids, e, within, linked) =
      settle-inv cs child vec (parse (record { node = self; kids = cs } ∷ path) child vec) ret cs'
        h in
    record {
      tree = pnode child (some (take ret vec)) kids;
      linked = linked;
      origin = refl;
      strings = refl;
      valid = sound (record { node = self; kids = cs } ∷ path) child vec ret kids e within;
      within = within;
    }

-- A child that does not match leaves the children as they were.
pub parse_child-nomatch :
    (parse : Parser) (path : List Frame) (self : ℕ) (cs : Pnodes) (child : ℕ) (vec : Strvec)
    (cs' : Pnodes)
    → parse_child parse path self cs child vec ≡ nomatch cs'
    → cs' ≡ cs
unfolding parse_child settle ndup
parse_child-nomatch parse path self cs child vec cs' h = ground arith

-- A child kept under a node with no other children.
pub Kept-IsOnly :
    {g : Grammar} {child : ℕ} {vec : Strvec} {ret : ℕ} {cs kids : Pnodes}
    → cs ≡ nil
    → Kept g cs child vec ret kids
    → IsOnly child (take ret vec) kids × AllValid g kids
unfolding link_child AllValid
Kept-IsOnly fresh k =
    let alone = k.linked ∙ ap (λ c. link_child c k.tree) fresh in
    ((k.tree, alone, k.origin, k.strings), rw alone (k.valid, tt))
