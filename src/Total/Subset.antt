-- ===== src/Total/Subset.antt =====
-- The search of subset returns where the methods of the table's entries do.
use libecoli.Base.{
  ℕ, zero, suc, ◌+◌, ◌-◌, ◌≡◌, ◌≢◌, ◌⊎◌, inl, inr, List, [], ◌∷◌, ◌++◌, length, take, drop, arith,
  All, All-append,
}
use libecoli.Strvec.{Strvec, ndup}
use libecoli.Parse.{
  Pnodes, nil, get_last_child, del_last_child, matched, nomatch, out_of_fuel, Parser, Frame,
  parse_child,
}
use libecoli.Node.{
  Found, found, no_fuel, Best, no_best, better, subset_loop, subset_search, subset_parse,
}
use libecoli.Total.Lists.{Returns, parse_child-ne-out_of_fuel}

module _ (parse : Parser) (path : List Frame) (self : ℕ) where
  abbrev Ends : (Pnodes → List ℕ → Strvec → Found) → Type 0
  Ends sub_search =
      (cs : Pnodes) (table : List ℕ) (vec : Strvec)
      → All (Returns parse) table
      → sub_search cs table vec ≢ no_fuel

  subset_loop-inv :
      (sub_search : Pnodes → List ℕ → Strvec → Found) (vec : Strvec) (before : List ℕ) (n : ℕ)
      (rest : List ℕ) (cs : Pnodes) (best : Best)
      → subset_loop parse path self sub_search vec before (n ∷ rest) cs best ≡ no_fuel
      → (parse_child parse path self cs n vec ≡ out_of_fuel)
        ⊎ ((cs' : Pnodes) × (parse_child parse path self cs n vec ≡ nomatch cs')
            × (subset_loop parse path self sub_search vec (before ++ (n ∷ [])) rest cs' best
                ≡ no_fuel))
        ⊎ ((r : ℕ) × (cs' : Pnodes) × (parse_child parse path self cs n vec ≡ matched r cs')
            × (sub_search cs' (before ++ rest) (take (length vec - r) (drop r vec)) ≡ no_fuel))
        ⊎ ((r : ℕ) × (cs' : Pnodes) × (pl : ℕ) × (more : ℕ) × (cs'' : Pnodes) × (parse_child parse
                path self cs n vec
              ≡ matched r cs')
            × (sub_search cs' (before ++ rest) (take (length vec - r) (drop r vec))
                ≡ found pl more cs'')
            × (subset_loop parse path self sub_search vec
                  (before ++ (n ∷ []))
                  rest
                  (del_last_child cs'')
                  (better best pl (r + more) (get_last_child cs''))
                ≡ no_fuel))
  unfolding subset_loop ndup
  subset_loop-inv sub_search vec before n rest cs best h = ground arith

  subset_loop-ne-no_fuel :
      (sub_search : Pnodes → List ℕ → Strvec → Found)
      → Ends sub_search
      → (vec : Strvec) (before rest : List ℕ) (cs : Pnodes) (best : Best)
      → All (Returns parse) before
      → All (Returns parse) rest
      → subset_loop parse path self sub_search vec before rest cs best ≢ no_fuel
  unfolding subset_loop
  subset_loop-ne-no_fuel sub_search ends vec before [] cs best hb hr h = cc
  subset_loop-ne-no_fuel sub_search ends vec before (n ∷ rest) cs best hb hr h =
      let tried = All-append (Returns parse) before (n ∷ []) hb (hr.0, tt) in
      elim (subset_loop-inv sub_search vec before n rest cs best h) [
        | inl e ↦ parse_child-ne-out_of_fuel parse path self cs n vec hr.0 e
        | inr (inl (cs', e, k)) ↦
            subset_loop-ne-no_fuel sub_search ends vec (before ++ (n ∷ [])) rest cs' best tried hr.1
              k
        | inr (inr (inl (r, cs', e, f))) ↦
            ends cs' (before ++ rest) _ (All-append (Returns parse) before rest hb hr.1) f
        | inr (inr (inr (r, cs', pl, more, cs'', e, f, k))) ↦
            subset_loop-ne-no_fuel sub_search ends vec (before ++ (n ∷ [])) rest
              (del_last_child cs'') (better best pl (r + more) (get_last_child cs'')) tried hr.1 k
      ]

  subset_search-Ends : (k : ℕ) → Ends (subset_search parse path self k)
  unfolding subset_search
  subset_search-Ends zero cs table vec total h = cc
  subset_search-Ends (suc k) cs table vec total h =
      subset_loop-ne-no_fuel (subset_search parse path self k) (subset_search-Ends k) vec [] table
        cs no_best tt total h

  subset_parse-inv :
      (table : List ℕ) (min : ℕ) (vec : Strvec)
      → subset_parse parse path self table min vec ≡ out_of_fuel
      → subset_search parse path self (length table) nil table vec ≡ no_fuel
  unfolding subset_parse
  subset_parse-inv table min vec h = ground arith

  pub subset_parse-ne-out_of_fuel :
      (table : List ℕ) (min : ℕ) (vec : Strvec)
      → All (Returns parse) table
      → subset_parse parse path self table min vec ≢ out_of_fuel
  subset_parse-ne-out_of_fuel table min vec total h =
      subset_search-Ends (length table) nil table vec total (subset_parse-inv table min vec h)
