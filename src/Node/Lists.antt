-- ===== src/Node/Lists.antt =====
-- The parse methods that walk over strings or nodes: src/node_seq.c, node_or.c, node_many.c.
use libecoli.Base.{
  ℕ, zero, suc, ◌+◌, ◌-◌, if◌then◌else◌, ltb, ◌==◌, ◌&&◌, ◌||◌, Option, none, some, List, [], ◌∷◌,
  length,
}
use libecoli.Strvec.{Strvec, ndup}
use libecoli.Parse.{
  Outcome, matched, nomatch, error, out_of_fuel, Parser, Frame, parse_child, Pnodes, nil,
  del_last_child,
}

-- `cs` are the children linked so far under `self`, and `len` and `off` what they consumed.
module _ (parse : Parser) (path : List Frame) (self : ℕ) (vec : Strvec) where
  -- the loop of ec_node_seq_parse over the rest of the table
  unfoldable pub seq_loop : Pnodes → ℕ → List ℕ → Outcome
  unfolding ndup parse_child
  seq_loop cs len [] = matched len cs
  seq_loop cs len (n ∷ table) = elim (ndup vec len (length vec - len)) [
    | none ↦ error
    | some childvec ↦ elim (parse_child parse path self cs n childvec) [
      | matched ret cs' ↦ seq_loop cs' (len + ret) table
      | nomatch cs' ↦ nomatch nil
      | error ↦ error
      | out_of_fuel ↦ out_of_fuel
    ]
  ]

  -- ec_node_or_parse
  unfoldable pub or_loop : Pnodes → List ℕ → Outcome
  unfolding parse_child
  or_loop cs [] = nomatch cs
  or_loop cs (n ∷ table) = elim (parse_child parse path self cs n vec) [
    | matched ret cs' ↦ matched ret cs'
    | nomatch cs' ↦ or_loop cs' table
    | error ↦ error
    | out_of_fuel ↦ out_of_fuel
  ]

  module _ (min max child : ℕ) where
    -- what follows the loop of ec_node_many_parse
    unfoldable pub many_end : Pnodes → ℕ → ℕ → Outcome
    many_end cs off count = if ltb count min then nomatch nil else matched off cs

    -- The loop, on fuel: the rounds of the `for`.
    unfoldable pub many_loop : ℕ → Pnodes → ℕ → ℕ → Outcome
    unfolding ndup parse_child many_end
    many_loop zero cs off count = out_of_fuel
    many_loop (suc rounds) cs off count =
        let body : Outcome = elim (ndup vec off (length vec - off)) [
          | none ↦ error
          | some childvec ↦ elim (parse_child parse path self cs child childvec) [
            | matched ret cs' ↦
                let next = many_loop rounds cs' (off + ret) (count + 1) in
                if ret == 0 && max == 0 then many_end (del_last_child cs') off count else next
            | nomatch cs' ↦ many_end cs' off count
            | error ↦ error
            | out_of_fuel ↦ out_of_fuel
          ]
        ] in
        if max == 0 || ltb count max then body else many_end cs off count

  -- ec_node_many_parse, with rounds enough: each consumes a string, or `max` bounds them
  unfoldable pub many_parse : ℕ → ℕ → Option ℕ → Outcome
  unfolding many_loop
  many_parse min max none = error
  many_parse min max (some child) =
      many_loop min max child (if max == 0 then length vec + 1 else max + 1) nil 0 0
