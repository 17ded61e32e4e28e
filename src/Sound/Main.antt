-- ===== src/Sound/Main.antt =====
-- Soundness of ec_parse_strvec: src/parse.c.
use mathlib.Core.List.{Mem, mem-cons}
use mathlib.Core.Logic.Or
use libecoli.Base.{
  ℕ, zero, suc, ◌≤◌, ◌≡◌, ◌⊎◌, inl, inr, refl, none, some, List, [], ◌∷◌, length, take, arith, All,
}
use libecoli.Strvec.{Strvec, ndup}
use libecoli.Parse.{
  Pnode, Pnodes, pnode, nil, get_node, get_strvec, matched, nomatch, Parser, Frame,
}
use libecoli.Node.{
  Node, Grammar, str, any, empty, space, re, ext, unsupported, seq, or, many, option, once, bypass,
  expr, subset, sh_lex, node_parse, parse, tree, parse_strvec,
}
use libecoli.Sound.Valid.{Shape, Valid, AllValid}
use libecoli.Sound.Child.{IsSound}
use libecoli.Sound.Lists.{seq_parse-Shape, or_loop-Shape, many_parse-Shape}
use libecoli.Sound.Wrap.{
  str_parse-Shape, any_parse-Shape, space_parse-Shape, re_parse-Shape, ext_parse-Shape,
  bypass_parse-Shape, expr_parse-Shape, option_parse-Shape, once_parse-Shape, sh_lex_parse-Shape,
}
use libecoli.Sound.Pieces.{subset_parse-Pieces}
use libecoli.Sound.Subset.{subset_parse-Entries}

All-weaken : (T : List ℕ) (U : List ℕ) → ((n : ℕ) → Mem n T → Mem n U) → All (λ n. Mem n U) T
All-weaken [] U h = tt
All-weaken (n ∷ T) U h =
    (h n (mem-cons.1 (Or.inl refl)), All-weaken T U (λ m k. h m (mem-cons.1 (Or.inr k))))

-- a leaf keeps no child
leaf : (g : Grammar) (S : Type 0) (kids : Pnodes) → S × (kids ≡ nil) → S × AllValid g kids
unfolding AllValid
leaf g S kids (s, e) = (s, rw e tt)

module _ (g : Grammar) (parse : Parser) (sound : IsSound g parse) (path : List Frame) (self : ℕ)
    (vec : Strvec) (ret : ℕ) (kids : Pnodes) where
  node_parse-Shape :
      (node : Node)
      → node_parse g.stack parse path self node vec ≡ matched ret kids
      → ret ≤ length vec
      → Shape g.stack node (take ret vec) kids × AllValid g kids
  unfolding node_parse
  node_parse-Shape (str string) h w = leaf g _ kids (str_parse-Shape g.stack ret kids string vec h)
  node_parse-Shape (any attr_name) h w =
      leaf g _ kids (any_parse-Shape g.stack ret kids attr_name vec h)
  node_parse-Shape empty h w =
      let zero : 0 ≡ ret = ground arith in
      let alone : kids ≡ nil = ground arith in leaf g _ kids ((rw (← zero) refl, alone), alone)
  node_parse-Shape Node.none h w = cc
  node_parse-Shape space h w = leaf g _ kids (space_parse-Shape g.stack ret kids vec h)
  node_parse-Shape (re regexec) h w = leaf g _ kids (re_parse-Shape g.stack ret kids regexec vec h)
  node_parse-Shape (ext method) h w =
      leaf g _ kids (ext_parse-Shape g.stack ret kids method vec h w)
  node_parse-Shape unsupported h w = cc
  node_parse-Shape (seq table) h w = seq_parse-Shape g parse sound path self vec table ret kids h
  node_parse-Shape (or table) h w =
      let (child, m, only, all) =
        or_loop-Shape g parse sound path self vec nil table ret kids refl h in
      ((child, m, only), all)
  node_parse-Shape (many min max child) h w =
      many_parse-Shape g parse sound path self vec min max child ret kids h
  node_parse-Shape (option child) h w =
      option_parse-Shape g parse sound path self ret kids child vec h
  node_parse-Shape (once child) h w = once_parse-Shape g parse sound path self ret kids child vec h
  node_parse-Shape (bypass child) h w =
      bypass_parse-Shape g parse sound path self ret kids child vec h
  node_parse-Shape (expr child) h w = expr_parse-Shape g parse sound path self ret kids child vec h
  node_parse-Shape (subset table min) h w =
      let (entries, all) =
        subset_parse-Entries g table parse path self min vec ret kids sound
          (All-weaken table table (λ n m. m)) h in
      let (pl, le, (ts, trees, picks, number, within, whole)) =
        subset_parse-Pieces g table parse sound path self min vec ret kids h in
      ((entries, (ts, picks, omega (arith, le, number), whole)), all)
  node_parse-Shape (sh_lex child) h w =
      sh_lex_parse-Shape g parse sound path self ret kids child vec h w

-- At any fuel, what `parse` builds is sound: induction on the fuel.
pub parse-IsSound : (g : Grammar) (fuel : ℕ) → IsSound g (parse g fuel)
unfolding parse
parse-IsSound g zero path n vec ret kids h w = cc
parse-IsSound g (suc fuel) path n vec ret kids h w =
    node_parse-Shape g (parse g fuel) (parse-IsSound g fuel) path n vec ret kids (g.node n) h w

parse_strvec-inv :
    (g : Grammar) (fuel node : ℕ) (vec : Strvec) (p : Pnode)
    → parse_strvec g fuel node vec ≡ tree p
    → ((kids : Pnodes) × (parse g fuel [] node vec ≡ nomatch kids) × (pnode node none kids ≡ p))
      ⊎ ((ret : ℕ) × (kids : Pnodes) × (parse g fuel [] node vec ≡ matched ret kids)
          × (ret ≤ length vec)
          × (pnode node (some (take ret vec)) kids ≡ p))
unfolding parse_strvec ndup
parse_strvec-inv g fuel node vec p h = ground arith

-- A tree for `node` on `vec`: without strings, or valid and for a prefix of the input.
abbrev pub IsAnswer : Grammar → ℕ → Strvec → Pnode → Type 0
IsAnswer g node vec p =
    (get_node p ≡ node)
    × ((get_strvec p ≡ none)
        ⊎ ((ret : ℕ) × (ret ≤ length vec) × (get_strvec p ≡ some (take ret vec)) × Valid g p))

pub parse_strvec-IsAnswer :
    (g : Grammar) (fuel node : ℕ) (vec : Strvec) (p : Pnode)
    → parse_strvec g fuel node vec ≡ tree p
    → IsAnswer g node vec p
unfolding Valid
parse_strvec-IsAnswer g fuel node vec p h = elim (parse_strvec-inv g fuel node vec p h) [
  | inl (kids, e, same) ↦ rw (← same) (refl, inl refl)
  | inr (ret, kids, e, within, same) ↦
      rw (← same)
        (refl, inr (ret, within, refl, parse-IsSound g fuel [] node vec ret kids e within))
]
