-- ===== src/Sound/Subset.antt =====
-- Soundness of subset: every child kept is a valid tree of an entry of the table
-- (src/node_subset.c).
use mathlib.Core.List.{Mem}
use libecoli.Base.{
  ℕ, zero, suc, ◌+◌, ◌-◌, ◌≡◌, ◌⊎◌, inl, inr, Bool-cases, Option, none, some, List, [], ◌∷◌, ◌++◌,
  length, take, drop, arith, ltb, All, All-append,
}
use libecoli.Strvec.{Strvec, ndup}
use libecoli.Parse.{
  Pnode, Pnodes, nil, cons, get_node, link_child, get_last_child, del_last_child, matched, nomatch,
  Parser, Frame, parse_child,
}
use libecoli.Node.{
  Grammar, Found, found, Best, no_best, better, link_best, subset_loop, subset_search, subset_parse,
}
use libecoli.Sound.Valid.{nodes, Valid, AllValid}
use libecoli.Sound.Child.{IsSound, parse_child-Kept, parse_child-nomatch}

-- A valid tree of an entry of the table `T`.
abbrev IsEntry : Grammar → List ℕ → Pnode → Type 0
IsEntry g T p = Valid g p × Mem (get_node p) T

Entries : Grammar → List ℕ → Pnodes → Type 0
Entries g T nil = Unit
Entries g T (cons p ps) = IsEntry g T p × Entries g T ps

abbrev BestEntry : Grammar → List ℕ → Option Pnode → Type 0
BestEntry g T none = Unit
BestEntry g T (some p) = IsEntry g T p

module _ (g : Grammar) (T : List ℕ) where
  Entries-link_child :
      (cs : Pnodes) (p : Pnode) → Entries g T cs → IsEntry g T p → Entries g T (link_child cs p)
  unfolding Entries link_child
  Entries-link_child nil p h v = (v, tt)
  Entries-link_child (cons q qs) p h v = (h.0, Entries-link_child qs p h.1 v)

  Entries-del_last_child : (cs : Pnodes) → Entries g T cs → Entries g T (del_last_child cs)
  unfolding Entries del_last_child
  Entries-del_last_child nil h = tt
  Entries-del_last_child (cons p nil) h = tt
  Entries-del_last_child (cons p (cons q qs)) h = (h.0, Entries-del_last_child (cons q qs) h.1)

  BestEntry-get_last_child : (cs : Pnodes) → Entries g T cs → BestEntry g T (get_last_child cs)
  unfolding Entries get_last_child
  BestEntry-get_last_child nil h = tt
  BestEntry-get_last_child (cons p nil) h = h.0
  BestEntry-get_last_child (cons p (cons q qs)) h = BestEntry-get_last_child (cons q qs) h.1

  Entries-link_best :
      (cs : Pnodes) (p : Option Pnode)
      → Entries g T cs
      → BestEntry g T p
      → Entries g T (link_best cs p)
  unfolding link_best
  Entries-link_best cs none h v = h
  Entries-link_best cs (some p) h v = Entries-link_child cs p h v

  BestEntry-better :
      (best : Best) (pl len : ℕ) (last : Option Pnode)
      → BestEntry g T best.parse
      → BestEntry g T last
      → BestEntry g T (better best pl len last).parse
  unfolding better
  BestEntry-better best pl len last hb hl = elim (Bool-cases (ltb pl best.parse_len)) [
    | inl e ↦ rw e hb
    | inr e ↦ rw e hl
  ]

  Entries-AllValid : (cs : Pnodes) → Entries g T cs → AllValid g cs × All (λ n. Mem n T) (nodes cs)
  unfolding Entries AllValid nodes
  Entries-AllValid nil h = (tt, tt)
  Entries-AllValid (cons p ps) h = let (v, m) = Entries-AllValid ps h.1 in ((h.0.0, v), (h.0.1, m))

  module _ (parse : Parser) (sound : IsSound g parse) (path : List Frame) (self : ℕ) where
    -- A search that keeps the children entries of `T`, on a table that is a part of `T`.
    abbrev Keeps : (Pnodes → List ℕ → Strvec → Found) → Type 0
    Keeps sub_search =
        (cs : Pnodes) (table : List ℕ) (vec : Strvec) (parse_len len : ℕ) (kids : Pnodes)
        → Entries g T cs
        → All (λ n. Mem n T) table
        → sub_search cs table vec ≡ found parse_len len kids
        → Entries g T kids

    pub subset_loop-inv :
        (sub_search : Pnodes → List ℕ → Strvec → Found) (vec : Strvec) (before : List ℕ) (n : ℕ)
        (rest : List ℕ) (cs : Pnodes) (best : Best) (parse_len len : ℕ) (kids : Pnodes)
        → subset_loop parse path self sub_search vec before (n ∷ rest) cs best
          ≡ found parse_len len kids
        → ((cs' : Pnodes) × (parse_child parse path self cs n vec ≡ nomatch cs')
            × (subset_loop parse path self sub_search vec (before ++ (n ∷ [])) rest cs' best
                ≡ found parse_len len kids))
          ⊎ ((r : ℕ) × (cs' : Pnodes) × (pl : ℕ) × (more : ℕ) × (cs'' : Pnodes) × (parse_child parse
                  path self cs n vec
                ≡ matched r cs')
              × (sub_search cs' (before ++ rest) (take (length vec - r) (drop r vec))
                  ≡ found pl more cs'')
              × (subset_loop parse path self sub_search vec
                    (before ++ (n ∷ []))
                    rest
                    (del_last_child cs'')
                    (better best pl (r + more) (get_last_child cs''))
                  ≡ found parse_len len kids))
    unfolding subset_loop ndup
    subset_loop-inv sub_search vec before n rest cs best parse_len len kids h = ground arith

    subset_loop-Entries :
        (sub_search : Pnodes → List ℕ → Strvec → Found)
        → Keeps sub_search
        → (vec : Strvec) (before rest : List ℕ) (cs : Pnodes) (best : Best) (parse_len len : ℕ)
          (kids : Pnodes)
        → All (λ n. Mem n T) before
        → All (λ n. Mem n T) rest
        → Entries g T cs
        → BestEntry g T best.parse
        → subset_loop parse path self sub_search vec before rest cs best ≡ found parse_len len kids
        → Entries g T kids
    unfolding subset_loop
    subset_loop-Entries sub_search keeps vec before [] cs best parse_len len kids hb hr he hp h =
        let same : link_best cs best.parse ≡ kids = ground arith in
        rw (← same) (Entries-link_best cs best.parse he hp)
    subset_loop-Entries sub_search keeps vec before (n ∷ rest) cs best parse_len len kids hb hr he
          hp h =
        let tried = All-append (λ n. Mem n T) before (n ∷ []) hb (hr.0, tt) in
        elim (subset_loop-inv sub_search vec before n rest cs best parse_len len kids h) [
          | inl (cs', e, k) ↦
              subset_loop-Entries sub_search keeps vec _ rest cs' best parse_len len kids tried hr.1
                (rw (parse_child-nomatch parse path self cs n vec cs' e) he) hp k
          | inr (r, cs', pl, more, cs'', e, f, k) ↦
              let kept = parse_child-Kept g parse sound path self cs n vec r cs' e in
              let linked : Entries g T cs' =
                rw (kept.linked)
                  (Entries-link_child cs kept.tree he (kept.valid, rw (kept.origin) hr.0)) in
              let sub =
                keeps cs' (before ++ rest) _ pl more cs'' linked
                  (All-append (λ n. Mem n T) before rest hb hr.1) f in
              subset_loop-Entries sub_search keeps vec _ rest (del_last_child cs'')
                (better best pl (r + more) (get_last_child cs'')) parse_len len kids tried hr.1
                (Entries-del_last_child cs'' sub)
                (BestEntry-better best pl (r + more) _ hp (BestEntry-get_last_child cs'' sub)) k
        ]

    subset_search-Keeps : (k : ℕ) → Keeps (subset_search parse path self k)
    unfolding subset_search
    subset_search-Keeps zero cs table vec parse_len len kids he ht h =
        let same : cs ≡ kids = ground arith in rw (← same) he
    subset_search-Keeps (suc k) cs table vec parse_len len kids he ht h =
        subset_loop-Entries (subset_search parse path self k) (subset_search-Keeps k) vec [] table
          cs no_best parse_len len kids tt ht he tt h

  pub subset_parse-inv :
      (parse : Parser) (path : List Frame) (self min : ℕ) (vec : Strvec) (ret : ℕ) (kids : Pnodes)
      → subset_parse parse path self T min vec ≡ matched ret kids
      → (pl : ℕ) × (subset_search parse path self (length T) nil T vec ≡ found pl ret kids)
  unfolding subset_parse
  subset_parse-inv parse path self min vec ret kids h = ground arith

  pub subset_parse-Entries :
      (parse : Parser) (path : List Frame) (self min : ℕ) (vec : Strvec) (ret : ℕ) (kids : Pnodes)
      → IsSound g parse
      → All (λ n. Mem n T) T
      → subset_parse parse path self T min vec ≡ matched ret kids
      → All (λ n. Mem n T) (nodes kids) × AllValid g kids
  unfolding subset_parse Entries
  subset_parse-Entries parse path self min vec ret kids sound all h =
      let (pl, e) = subset_parse-inv parse path self min vec ret kids h in
      let (v, m) =
        Entries-AllValid kids
          (subset_search-Keeps parse sound path self (length T) nil T vec pl ret kids tt all e) in
      (m, v)
