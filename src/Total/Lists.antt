-- ===== src/Total/Lists.antt =====
-- The loops of seq, or and many return where the children's methods do.
use libecoli.Base.{
  ℕ, zero, suc, ◌+◌, ◌-◌, ◌≤◌, ◌<◌, ◌≡◌, ◌≢◌, ◌⊎◌, inl, inr, refl, Option, none, some, List, [],
  ◌∷◌, length, take, drop, arith, length-drop, take-drop_rest, All,
}
use libecoli.Strvec.{Strvec, ndup}
use libecoli.Parse.{
  Pnodes, nil, Outcome, matched, nomatch, error, out_of_fuel, Parser, Frame, parse_child, settle,
}
use libecoli.Node.{seq_loop, or_loop, many_loop, many_parse, child_list}

-- The method of `n` returns, whatever the strings and the tree so far.
abbrev pub Returns : Parser → ℕ → Type 0
Returns parse n = (path : List Frame) (vec : Strvec) → parse path n vec ≢ out_of_fuel

pub settle-out_of_fuel :
    (cs : Pnodes) (child : ℕ) (vec : Strvec) (o : Outcome)
    → settle cs child vec o ≡ out_of_fuel
    → o ≡ out_of_fuel
unfolding settle ndup
settle-out_of_fuel cs child vec (matched ret kids) h = ground arith
settle-out_of_fuel cs child vec (nomatch kids) h = cc
settle-out_of_fuel cs child vec error h = cc
settle-out_of_fuel cs child vec out_of_fuel h = refl

settle-matched :
    (cs : Pnodes) (child : ℕ) (vec : Strvec) (o : Outcome) {ret : ℕ} {cs' : Pnodes}
    → settle cs child vec o ≡ matched ret cs'
    → ret ≤ length vec
unfolding settle ndup
settle-matched cs child vec (matched ret kids) h = ground arith
settle-matched cs child vec (nomatch kids) h = absurd (cc)
settle-matched cs child vec error h = absurd (cc)
settle-matched cs child vec out_of_fuel h = absurd (cc)

module _ (parse : Parser) (path : List Frame) (self : ℕ) where
  pub parse_child-ne-out_of_fuel :
      (cs : Pnodes) (child : ℕ) (vec : Strvec)
      → Returns parse child
      → parse_child parse path self cs child vec ≢ out_of_fuel
  unfolding parse_child
  parse_child-ne-out_of_fuel cs child vec total h =
      total _ vec (settle-out_of_fuel cs child vec _ h)

  parse_child-le :
      (cs : Pnodes) (child : ℕ) (vec : Strvec) {ret : ℕ} {cs' : Pnodes}
      → parse_child parse path self cs child vec ≡ matched ret cs'
      → ret ≤ length vec
  unfolding parse_child
  parse_child-le cs child vec h = settle-matched cs child vec _ h

  module _ (vec : Strvec) where
    seq_loop-inv :
        (cs : Pnodes) (len n : ℕ) (table : List ℕ)
        → seq_loop parse path self vec cs len (n ∷ table) ≡ out_of_fuel
        → (parse_child parse path self cs n (take (length vec - len) (drop len vec)) ≡ out_of_fuel)
          ⊎ ((r : ℕ) × (cs' : Pnodes) × (parse_child parse path self cs n
                  (take (length vec - len) (drop len vec))
                ≡ matched r cs')
              × (seq_loop parse path self vec cs' (len + r) table ≡ out_of_fuel))
    unfolding seq_loop ndup
    seq_loop-inv cs len n table h = ground arith

    pub seq_loop-ne-out_of_fuel :
        (cs : Pnodes) (len : ℕ) (table : List ℕ)
        → All (Returns parse) table
        → seq_loop parse path self vec cs len table ≢ out_of_fuel
    unfolding seq_loop
    seq_loop-ne-out_of_fuel cs len [] total h = cc
    seq_loop-ne-out_of_fuel cs len (n ∷ table) total h = elim (seq_loop-inv cs len n table h) [
      | inl e ↦ parse_child-ne-out_of_fuel cs n _ total.0 e
      | inr (r, cs', e, rest) ↦ seq_loop-ne-out_of_fuel cs' (len + r) table total.1 rest
    ]

    or_loop-inv :
        (cs : Pnodes) (n : ℕ) (table : List ℕ)
        → or_loop parse path self vec cs (n ∷ table) ≡ out_of_fuel
        → (parse_child parse path self cs n vec ≡ out_of_fuel)
          ⊎ ((cs' : Pnodes) × (parse_child parse path self cs n vec ≡ nomatch cs')
              × (or_loop parse path self vec cs' table ≡ out_of_fuel))
    unfolding or_loop
    or_loop-inv cs n table h = ground arith

    pub or_loop-ne-out_of_fuel :
        (cs : Pnodes) (table : List ℕ)
        → All (Returns parse) table
        → or_loop parse path self vec cs table ≢ out_of_fuel
    unfolding or_loop
    or_loop-ne-out_of_fuel cs [] total h = cc
    or_loop-ne-out_of_fuel cs (n ∷ table) total h = elim (or_loop-inv cs n table h) [
      | inl e ↦ parse_child-ne-out_of_fuel cs n vec total.0 e
      | inr (cs', e, rest) ↦ or_loop-ne-out_of_fuel cs' table total.1 rest
    ]

    module _ (min max child : ℕ) (total : Returns parse child) where
      many_loop-inv :
          (rounds : ℕ) (cs : Pnodes) (off cnt : ℕ)
          → many_loop parse path self vec min max child (suc rounds) cs off cnt ≡ out_of_fuel
          → (parse_child parse path self cs child (take (length vec - off) (drop off vec))
              ≡ out_of_fuel)
            ⊎ ((r : ℕ) × (cs' : Pnodes) × (parse_child parse path self cs child
                    (take (length vec - off) (drop off vec))
                  ≡ matched r cs')
                × (((max ≡ 0) × (0 < r)) ⊎ (cnt < max))
                × (many_loop parse path self vec min max child rounds cs' (off + r) (cnt + 1)
                    ≡ out_of_fuel))
      unfolding many_loop ndup
      many_loop-inv rounds cs off cnt h = ground arith

      -- Each round consumes a string or counts towards the bound.
      many_loop-ne-out_of_fuel :
          (rounds : ℕ) (cs : Pnodes) (off cnt : ℕ)
          → off ≤ length vec
          → ((max ≡ 0) × (length vec < rounds + off))
            ⊎ ((0 < max) × (cnt ≤ max) × (max < rounds + cnt))
          → many_loop parse path self vec min max child rounds cs off cnt ≢ out_of_fuel
      unfolding many_loop
      many_loop-ne-out_of_fuel zero cs off cnt within room h = omega arith
      many_loop-ne-out_of_fuel (suc rounds) cs off cnt within room h =
          elim (many_loop-inv rounds cs off cnt h) [
            | inl e ↦ parse_child-ne-out_of_fuel cs child _ total e
            | inr (r, cs', e, goes, rest) ↦
                let short : r ≤ length (drop off vec) =
                  parse_child-le cs child _ (rw take-drop_rest at e) in
                many_loop-ne-out_of_fuel rounds cs' (off + r) (cnt + 1)
                  (omega (arith, length-drop off vec)) (ground (arith, length-drop off vec)) rest
          ]

    pub many_parse-ne-out_of_fuel :
        (min max : ℕ) (child : Option ℕ)
        → All (Returns parse) (child_list child)
        → many_parse parse path self vec min max child ≢ out_of_fuel
    unfolding many_parse
    many_parse-ne-out_of_fuel min max none total h = cc
    many_parse-ne-out_of_fuel min max (some child) total h =
        many_loop-ne-out_of_fuel min max child total.0 _ nil 0 0 (omega arith) (ground arith) h
