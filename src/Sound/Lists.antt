-- ===== src/Sound/Lists.antt =====
-- Soundness of seq, or and many: src/node_seq.c, node_or.c and node_many.c.
use mathlib.Core.List.{Mem, mem-cons}
use mathlib.Core.Logic.Or
use libecoli.Base.{
  ℕ, zero, suc, ◌+◌, ◌-◌, ◌≤◌, ◌<◌, ◌≡◌, ◌⊎◌, inl, inr, refl, sym, ◌∙◌, Option, none, some, List,
  [], ◌∷◌, ◌++◌, length, take, drop, arith, append_assoc, append-nil, length-drop, take-append-take,
  take-drop_rest, All, All-append,
}
use libecoli.Strvec.{Strvec, ndup}
use libecoli.Parse.{Pnodes, nil, del_last_child, matched, nomatch, Parser, Frame, parse_child}
use libecoli.Node.{Grammar, seq_loop, or_loop, many_loop, many_parse, many_end}
use libecoli.Sound.Valid.{
  concat, nodes, count, IsOnly, IsMany, AllValid, AllValid-link_child, concat-link_child,
  nodes-link_child, count-link_child, del_last_child-link_child,
}
use libecoli.Sound.Child.{IsSound, Kept, Kept-IsOnly, parse_child-Kept, parse_child-nomatch}

-- What a child read off the rest of the strings adds to children that hold the first `len`.
record Grown (g : Grammar) (cs : Pnodes) (len n : ℕ) (vec : Strvec) (r : ℕ) (cs' : Pnodes)
    : Type 0 where
  valid : AllValid g cs'
  held : concat cs' ≡ take (len + r) vec
  named : nodes cs' ≡ nodes cs ++ (n ∷ [])
  counted : count cs' ≡ count cs + 1
  within : len + r ≤ length vec

Kept-Grown :
    (g : Grammar) (cs : Pnodes) (len n : ℕ) (vec : Strvec) (r : ℕ) (cs' : Pnodes)
    → Kept g cs n (drop len vec) r cs'
    → AllValid g cs
    → concat cs ≡ take len vec
    → len ≤ length vec
    → Grown g cs len n vec r cs'
Kept-Grown g cs len n vec r cs' k valid held within = record {
  valid = rw (k.linked) (AllValid-link_child g cs k.tree valid k.valid);
  held = rw (k.linked, concat-link_child cs k.tree k.strings, held) (take-append-take len r vec);
  named = rw (k.linked, nodes-link_child, k.origin);
  counted = rw (k.linked) (count-link_child cs k.tree);
  within = omega (arith, k.within, length-drop len vec);
}

module _ (g : Grammar) (parse : Parser) (sound : IsSound g parse) (path : List Frame) (self : ℕ)
    (vec : Strvec) where
  seq_loop-inv :
      (cs : Pnodes) (len n : ℕ) (table : List ℕ) (ret : ℕ) (kids : Pnodes)
      → seq_loop parse path self vec cs len (n ∷ table) ≡ matched ret kids
      → (r : ℕ) × (cs' : Pnodes) × (parse_child parse path self cs n
            (take (length vec - len) (drop len vec))
          ≡ matched r cs')
        × (seq_loop parse path self vec cs' (len + r) table ≡ matched ret kids)
  unfolding seq_loop ndup
  seq_loop-inv cs len n table ret kids h = ground arith

  grown :
      (cs : Pnodes) (len n r : ℕ) (cs' : Pnodes)
      → AllValid g cs
      → concat cs ≡ take len vec
      → len ≤ length vec
      → parse_child parse path self cs n (take (length vec - len) (drop len vec)) ≡ matched r cs'
      → Grown g cs len n vec r cs'
  grown cs len n r cs' valid held within child =
      Kept-Grown g cs len n vec r cs'
        (parse_child-Kept g parse sound path self cs n _ r cs' (rw take-drop_rest at child)) valid
        held within

  -- The children linked so far and the rest of the table give the table; what the children hold,
  -- one after the other, is the prefix that was consumed.
  seq_loop-Shape :
      (cs : Pnodes) (len : ℕ) (table : List ℕ) (ret : ℕ) (kids : Pnodes)
      → AllValid g cs
      → concat cs ≡ take len vec
      → len ≤ length vec
      → seq_loop parse path self vec cs len table ≡ matched ret kids
      → (nodes kids ≡ nodes cs ++ table) × (concat kids ≡ take ret vec) × AllValid g kids
  unfolding seq_loop
  seq_loop-Shape cs len [] ret kids valid held within h =
      let ends : len ≡ ret = ground arith in
      let same : cs ≡ kids = ground arith in rw (← same, ← ends) (sym (append-nil _), held, valid)
  seq_loop-Shape cs len (n ∷ table) ret kids valid held within h =
      let (r, cs', child, rest) = seq_loop-inv cs len n table ret kids h in
      let k = grown cs len n r cs' valid held within child in
      let (named, spans, all) =
        seq_loop-Shape cs' (len + r) table ret kids k.valid k.held k.within rest in
      (named ∙ (rw (k.named) (append_assoc (nodes cs) (n ∷ []) table)), spans, all)

  pub seq_parse-Shape :
      (table : List ℕ) (ret : ℕ) (kids : Pnodes)
      → seq_loop parse path self vec nil 0 table ≡ matched ret kids
      → ((nodes kids ≡ table) × (concat kids ≡ take ret vec)) × AllValid g kids
  unfolding nodes concat AllValid
  seq_parse-Shape table ret kids h =
      let (named, held, all) = seq_loop-Shape nil 0 table ret kids tt refl (omega arith) h in
      ((named, held), all)

  or_loop-inv :
      (cs : Pnodes) (n : ℕ) (table : List ℕ) (ret : ℕ) (kids : Pnodes)
      → or_loop parse path self vec cs (n ∷ table) ≡ matched ret kids
      → (parse_child parse path self cs n vec ≡ matched ret kids)
        ⊎ ((cs' : Pnodes) × (parse_child parse path self cs n vec ≡ nomatch cs')
            × (or_loop parse path self vec cs' table ≡ matched ret kids))
  unfolding or_loop
  or_loop-inv cs n table ret kids h = ground arith

  pub or_loop-Shape :
      (cs : Pnodes) (table : List ℕ) (ret : ℕ) (kids : Pnodes)
      → cs ≡ nil
      → or_loop parse path self vec cs table ≡ matched ret kids
      → (child : ℕ) × Mem child table × IsOnly child (take ret vec) kids × AllValid g kids
  unfolding or_loop
  or_loop-Shape cs [] ret kids fresh h = cc
  or_loop-Shape cs (n ∷ table) ret kids fresh h = elim (or_loop-inv cs n table ret kids h) [
    | inl child ↦
        let k = parse_child-Kept g parse sound path self cs n vec ret kids child in
        let (only, all) = Kept-IsOnly fresh k in (n, mem-cons.1 (Or.inl refl), only, all)
    | inr (cs', child, rest) ↦
        let (c, m, only, all) =
          or_loop-Shape cs' table ret kids
            (parse_child-nomatch parse path self cs n vec cs' child ∙ fresh) rest in
        (c, mem-cons.1 (Or.inr m), only, all)
  ]

  module _ (min max child : ℕ) where
    many_loop-inv :
        (rounds : ℕ) (cs : Pnodes) (off cnt ret : ℕ) (kids : Pnodes)
        → many_loop parse path self vec min max child (suc rounds) cs off cnt ≡ matched ret kids
        → (many_end parse path self vec min max child cs off cnt ≡ matched ret kids)
          ⊎ ((cs' : Pnodes) × (parse_child parse path self cs child
                  (take (length vec - off) (drop off vec))
                ≡ nomatch cs')
              × (many_end parse path self vec min max child cs' off cnt ≡ matched ret kids))
          ⊎ ((r : ℕ) × (cs' : Pnodes) × (parse_child parse path self cs child
                  (take (length vec - off) (drop off vec))
                ≡ matched r cs')
              × (many_end parse path self vec min max child (del_last_child cs') off cnt
                  ≡ matched ret kids))
          ⊎ ((r : ℕ) × (cs' : Pnodes) × (parse_child parse path self cs child
                  (take (length vec - off) (drop off vec))
                ≡ matched r cs')
              × ((max ≡ 0) ⊎ (cnt < max))
              × (many_loop parse path self vec min max child rounds cs' (off + r) (cnt + 1)
                  ≡ matched ret kids))
    unfolding many_loop ndup
    many_loop-inv rounds cs off cnt ret kids h = ground arith

    -- The loop's invariant: the children hold the first `off` strings, each is of `child`, and
    -- there are `cnt` of them, no more than the bound.
    pub record Many (cs : Pnodes) (off cnt : ℕ) : Type 0 where
      valid : AllValid g cs
      held : concat cs ≡ take off vec
      within : off ≤ length vec
      named : All (λ n. n ≡ child) (nodes cs)
      counted : count cs ≡ cnt
      bounded : (max ≡ 0) ⊎ (cnt ≤ max)

    many_end-Shape :
        (cs : Pnodes) (off cnt ret : ℕ) (kids : Pnodes)
        → Many cs off cnt
        → many_end parse path self vec min max child cs off cnt ≡ matched ret kids
        → IsMany min max (some child) (take ret vec) kids × AllValid g kids
    unfolding many_end
    many_end-Shape cs off cnt ret kids m h =
        let ends : off ≡ ret = ground arith in
        let same : cs ≡ kids = ground arith in
        let enough : min ≤ cnt = ground arith in
        rw (← same, ← ends)
          ((m.held, m.named, rw (m.counted) enough, rw (m.counted) m.bounded), m.valid)

    grown-Many :
        (cs : Pnodes) (off cnt r : ℕ) (cs' : Pnodes)
        → Many cs off cnt
        → parse_child parse path self cs child (take (length vec - off) (drop off vec))
          ≡ matched r cs'
        → (max ≡ 0) ⊎ (cnt < max)
        → Many cs' (off + r) (cnt + 1)
    grown-Many cs off cnt r cs' m e room =
        let k = grown cs off child r cs' m.valid m.held m.within e in
        record {
          valid = k.valid;
          held = k.held;
          within = k.within;
          named = rw (k.named) (All-append (λ n. n ≡ child) (nodes cs) _ m.named (refl, tt));
          counted = omega (arith, k.counted, m.counted);
          bounded = omega (arith, room);
        }

    pub many_loop-Shape :
        (rounds : ℕ) (cs : Pnodes) (off cnt ret : ℕ) (kids : Pnodes)
        → Many cs off cnt
        → many_loop parse path self vec min max child rounds cs off cnt ≡ matched ret kids
        → IsMany min max (some child) (take ret vec) kids × AllValid g kids
    unfolding many_loop
    many_loop-Shape zero cs off cnt ret kids m h = cc
    many_loop-Shape (suc rounds) cs off cnt ret kids m h =
        elim (many_loop-inv rounds cs off cnt ret kids h) [
          | inl e ↦ many_end-Shape cs off cnt ret kids m e
          | inr (inl (cs', child', e)) ↦
              many_end-Shape cs off cnt ret kids m
                (rw (parse_child-nomatch parse path self cs child _ cs' child') at e)
          | inr (inr (inl (r, cs', child', e))) ↦
              let k = parse_child-Kept g parse sound path self cs child _ r cs' child' in
              many_end-Shape cs off cnt ret kids m (rw (k.linked, del_last_child-link_child) at e)
          | inr (inr (inr (r, cs', child', room, e))) ↦
              many_loop-Shape rounds cs' (off + r) (cnt + 1) ret kids
                (grown-Many cs off cnt r cs' m child' room) e
        ]

  pub many_parse-Shape :
      (min max : ℕ) (child : Option ℕ) (ret : ℕ) (kids : Pnodes)
      → many_parse parse path self vec min max child ≡ matched ret kids
      → IsMany min max child (take ret vec) kids × AllValid g kids
  unfolding many_parse concat nodes count AllValid
  many_parse-Shape min max none ret kids h = cc
  many_parse-Shape min max (some child) ret kids h =
      many_loop-Shape min max child _ nil 0 0 ret kids
        (record {
          valid = tt;
          held = refl;
          within = omega arith;
          named = tt;
          counted = refl;
          bounded = inr (omega arith);
        })
        h
