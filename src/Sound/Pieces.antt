-- ===== src/Sound/Pieces.antt =====
-- Soundness of subset: the strings consumed are those of trees for entries of the table, none of them
-- twice (src/node_subset.c).
use mathlib.Core.Path.{subst}
use libecoli.Base.{
  ℕ, zero, suc, ◌+◌, ◌≤◌, ◌≡◌, inl, inr, refl, sym, ◌∙◌, ap, Bool-cases, none, some, List, [], ◌∷◌,
  ◌++◌, append_assoc, length, length-drop, take, drop, take-append-take, take-drop_rest, arith, ltb,
}
use libecoli.Strvec.{Strvec}
use libecoli.Parse.{
  Pnode, Pnodes, pnode, nil, cons, get_node, get_strvec, get_last_child, del_last_child, matched,
  Parser, Frame,
}
use libecoli.Node.{
  Grammar, Found, found, Best, no_best, better, subset_loop, subset_search, subset_parse,
}
use libecoli.Sound.Valid.{nodes, concat, count, Valid, AllValid, Picks, no_more, pick}
use libecoli.Sound.Child.{IsSound, parse_child-Kept}
use libecoli.Sound.Subset.{subset_loop-inv}

concat-cons :
    (p : Pnode) (ps : Pnodes) (vec : Strvec)
    → get_strvec p ≡ some vec
    → concat (cons p ps) ≡ vec ++ concat ps
unfolding concat
concat-cons (pnode n none kids) ps vec e = absurd (cc)
concat-cons (pnode n (some v) kids) ps vec e = ap (λ x. x ++ concat ps) (same e)
  where
    same : some v ≡ some vec → v ≡ vec
    same h = cc

-- So many valid trees for entries of the table hold the first `len` strings.
abbrev pub Pieces : Grammar → List ℕ → Strvec → ℕ → ℕ → Type 0
Pieces g table vec parse_len len =
    (ts : Pnodes) × AllValid g ts
    × Picks table (nodes ts)
    × (count ts ≡ parse_len)
    × (len ≤ length vec)
    × (concat ts ≡ take len vec)

nil-Pieces : (g : Grammar) (table : List ℕ) (vec : Strvec) → Pieces g table vec 0 0
unfolding AllValid nodes count concat
nil-Pieces g table vec = (nil, tt, no_more table, refl, omega arith, refl)

module _ (g : Grammar) where
  -- A tree for an entry, and then the others for what is left of the table and of the strings.
  cons-Pieces :
      (before : List ℕ) (n : ℕ) (rest : List ℕ) (vec : Strvec) (r : ℕ) (p : Pnode) (pl more : ℕ)
      → get_node p ≡ n
      → get_strvec p ≡ some (take r vec)
      → Valid g p
      → r ≤ length vec
      → Pieces g (before ++ rest) (drop r vec) pl more
      → Pieces g (before ++ (n ∷ rest)) vec (pl + 1) (r + more)
  unfolding AllValid nodes count
  cons-Pieces before n rest vec r p pl more origin strings valid within
        (ts, all, picks, number, le, whole) =
      (
        cons p ts,
        (valid, all),
        subst (λ m. Picks (before ++ (n ∷ rest)) (m ∷ nodes ts)) (sym origin)
            (pick before n rest (nodes ts) picks),
        omega (arith, number),
        omega (arith, le, length-drop r vec, within),
        concat-cons p ts (take r vec) strings
            ∙ ap (λ x. take r vec ++ x) whole
            ∙ take-append-take r more vec,
      )

  better-Pieces :
      (table : List ℕ) (vec : Strvec) (best : Best) (pl len : ℕ) (last : _)
      → Pieces g table vec best.parse_len best.len
      → Pieces g table vec (pl + 1) len
      → Pieces g table vec (better best pl len last).parse_len (better best pl len last).len
  unfolding better
  better-Pieces table vec best pl len last h k = elim (Bool-cases (ltb pl best.parse_len)) [
    | inl e ↦ rw e h
    | inr e ↦ rw e k
  ]

  module _ (T : List ℕ) (parse : Parser) (sound : IsSound g parse) (path : List Frame)
      (self : ℕ) where
    abbrev Finds : (Pnodes → List ℕ → Strvec → Found) → Type 0
    Finds sub_search =
        (cs : Pnodes) (table : List ℕ) (vec : Strvec) (pl len : ℕ) (kids : Pnodes)
        → sub_search cs table vec ≡ found pl len kids
        → Pieces g table vec pl len

    subset_loop-Pieces :
        (sub_search : Pnodes → List ℕ → Strvec → Found)
        → Finds sub_search
        → (vec : Strvec) (before rest : List ℕ) (cs : Pnodes) (best : Best) (pl len : ℕ)
          (kids : Pnodes)
        → Pieces g (before ++ rest) vec best.parse_len best.len
        → subset_loop parse path self sub_search vec before rest cs best ≡ found pl len kids
        → Pieces g (before ++ rest) vec pl len
    unfolding subset_loop
    subset_loop-Pieces sub_search finds vec before [] cs best pl len kids hb h =
        let same_number : best.parse_len ≡ pl = ground arith in
        let same_len : best.len ≡ len = ground arith in
        subst (λ x. Pieces g (before ++ []) vec x len) same_number
          (subst (λ x. Pieces g (before ++ []) vec best.parse_len x) same_len hb)
    subset_loop-Pieces sub_search finds vec before (n ∷ rest) cs best pl len kids hb h =
        let shifted : (before ++ (n ∷ [])) ++ rest ≡ before ++ (n ∷ rest) =
          append_assoc before (n ∷ []) rest in
        elim (subset_loop-inv g T parse sound path self sub_search vec before n rest cs best pl len
          kids h) [
            | inl (cs', e, k) ↦
                subst (λ t. Pieces g t vec pl len) shifted
                  (subset_loop-Pieces sub_search finds vec (before ++ (n ∷ [])) rest cs' best pl len
                    kids (subst (λ t. Pieces g t vec best.parse_len best.len) (sym shifted) hb) k)
            | inr (r, cs', sub_pl, more, cs'', e, f, k) ↦
                let kept = parse_child-Kept g parse sound path self cs n vec r cs' e in
                let sub =
                  subst (λ v. Pieces g (before ++ rest) v sub_pl more) (take-drop_rest r vec)
                    (finds cs' (before ++ rest) _ sub_pl more cs'' f) in
                let here =
                  cons-Pieces before n rest vec r kept.tree sub_pl more kept.origin kept.strings
                    kept.valid kept.within sub in
                let next =
                  better-Pieces (before ++ (n ∷ rest)) vec best sub_pl (r + more)
                    (get_last_child cs'') hb here in
                subst (λ t. Pieces g t vec pl len) shifted
                  (subset_loop-Pieces sub_search finds vec (before ++ (n ∷ [])) rest
                    (del_last_child cs'') (better best sub_pl (r + more) (get_last_child cs'')) pl
                    len kids
                    (subst
                      (λ t.
                        Pieces g t vec
                          (better best sub_pl (r + more) (get_last_child cs'')).parse_len
                          (better best sub_pl (r + more) (get_last_child cs'')).len)
                      (sym shifted) next)
                    k)
          ]

    subset_search-Finds : (k : ℕ) → Finds (subset_search parse path self k)
    unfolding subset_search
    subset_search-Finds zero cs table vec pl len kids h =
        let same_number : 0 ≡ pl = ground arith in
        let same_len : 0 ≡ len = ground arith in
        subst (λ x. Pieces g table vec x len) same_number
          (subst (λ x. Pieces g table vec 0 x) same_len (nil-Pieces g table vec))
    subset_search-Finds (suc k) cs table vec pl len kids h =
        subset_loop-Pieces (subset_search parse path self k) (subset_search-Finds k) vec [] table cs
          no_best pl len kids (nil-Pieces g table vec) h

    subset_parse-min :
        (min : ℕ) (vec : Strvec) (ret : ℕ) (kids : Pnodes)
        → subset_parse parse path self T min vec ≡ matched ret kids
        → (pl : ℕ) × (subset_search parse path self (length T) nil T vec ≡ found pl ret kids)
          × (min ≤ pl)
    unfolding subset_parse
    subset_parse-min min vec ret kids h = ground arith

    -- What ec_node_subset_parse consumes.
    pub subset_parse-Pieces :
        (min : ℕ) (vec : Strvec) (ret : ℕ) (kids : Pnodes)
        → subset_parse parse path self T min vec ≡ matched ret kids
        → (pl : ℕ) × (min ≤ pl) × Pieces g T vec pl ret
    subset_parse-Pieces min vec ret kids h =
        let (pl, e, le) = subset_parse-min min vec ret kids h in
        (pl, le, subset_search-Finds (length T) nil T vec pl ret kids e)
