-- ===== src/Sound/Wrap.antt =====
-- Soundness of the leaves and of the nodes with one child.
use libecoli.Base.{
  ℕ, drop, take-drop, length-take, ◌≤◌, ◌≡◌, ◌⊎◌, inl, inr, refl, sym, ap, Bool, ◌∙◌, str_eq, Bytes,
  Option, none, some, List, [], ◌∷◌, length, take, arith, take_all, str_eq_iff, true, false,
}
use libecoli.Strvec.{Strvec, Elt}
use libecoli.Strvec.Lex.{lexed, sh_lex_str}
use libecoli.Parse.{Pnodes, nil, matched, nomatch, Parser, Frame, parse_child}
use libecoli.Node.{
  Grammar, ext, str, any, space, re, sh_lex, option, str_parse, any_parse, space_parse, re_parse,
  ext_parse, bypass_parse, expr_parse, option_parse, once_parse, sh_lex_parse, lexed_parse,
}
use libecoli.Sound.Valid.{IsOnlyOf, Shape, AllValid}
use libecoli.Sound.Child.{IsSound, Kept-IsOnly, parse_child-Kept, parse_child-nomatch}

take-one {ℓ} : {A : Type ℓ} (x : A) (xs : List A) {n : ℕ} → 1 ≡ n → take n (x ∷ xs) ≡ x ∷ []
take-one x xs e = rw (← e)

length-take_le : (n : ℕ) (vec : Strvec) → n ≤ length vec → length (take n vec) ≡ n
length-take_le n vec le = omega (arith, length-take n vec, le)

-- The leaves: one string is consumed, and it is as the node asks; no child is kept.
-- Strict lexing never reports a missing quote.
sh_lex_str-strict :
    (stack s : Bytes) (trailsp : Bool) {tokens : Strvec} {q : Option ℕ}
    → sh_lex_str stack s true trailsp ≡ lexed tokens q
    → q ≡ none
unfolding sh_lex_str
sh_lex_str-strict stack s trailsp h = ground arith

module _ (stack : Bytes) (ret : ℕ) (kids : Pnodes) where
  pub str_parse-Shape :
      (string : Option Bytes) (vec : Strvec)
      → str_parse string vec ≡ matched ret kids
      → Shape stack (str string) (take ret vec) kids × (kids ≡ nil)
  unfolding str_parse
  str_parse-Shape none vec h = cc
  str_parse-Shape (some string) [] h = cc
  str_parse-Shape (some string) (e ∷ vec) h =
      let alone : kids ≡ nil = ground arith in
      let same : str_eq e.str string ≡ true = ground arith in
      ((e, take-one e vec (ground arith), (str_eq_iff e.str string).0 same, alone), alone)

  pub any_parse-Shape :
      (attr_name : Option Bytes) (vec : Strvec)
      → any_parse attr_name vec ≡ matched ret kids
      → Shape stack (any attr_name) (take ret vec) kids × (kids ≡ nil)
  unfolding any_parse
  any_parse-Shape attr_name [] h = cc
  any_parse-Shape none (e ∷ vec) h =
      let alone : kids ≡ nil = ground arith in
      ((e, take-one e vec (ground arith), tt, alone), alone)
  any_parse-Shape (some attr_name) (e ∷ vec) h =
      let alone : kids ≡ nil = ground arith in
      ((e, take-one e vec (ground arith), (ground arith), alone), alone)

  pub space_parse-Shape :
      (vec : Strvec)
      → space_parse vec ≡ matched ret kids
      → Shape stack space (take ret vec) kids × (kids ≡ nil)
  unfolding space_parse
  space_parse-Shape [] h = cc
  space_parse-Shape (e ∷ vec) h =
      let alone : kids ≡ nil = ground arith in
      ((e, take-one e vec (ground arith), ground arith, ground arith, alone), alone)

  pub re_parse-Shape :
      (regexec : Option (Bytes → Option (ℕ × ℕ))) (vec : Strvec)
      → re_parse regexec vec ≡ matched ret kids
      → Shape stack (re regexec) (take ret vec) kids × (kids ≡ nil)
  unfolding re_parse
  re_parse-Shape none vec h = cc
  re_parse-Shape (some regexec) [] h = cc
  re_parse-Shape (some regexec) (e ∷ vec) h =
      let alone : kids ≡ nil = ground arith in
      ((e, take-one e vec (ground arith), ground arith, alone), alone)

  pub ext_parse-Shape :
      (method : Strvec → Option ℕ) (vec : Strvec)
      → ext_parse method vec ≡ matched ret kids
      → ret ≤ length vec
      → Shape stack (ext method) (take ret vec) kids × (kids ≡ nil)
  unfolding ext_parse
  ext_parse-Shape method vec h w =
      let consumed : method vec ≡ some ret = ground arith in
      let alone : kids ≡ nil = ground arith in
      (
        (
          drop ret vec,
          ap method (take-drop ret vec) ∙ consumed ∙ ap some (sym (length-take_le ret vec w)),
          alone,
        ),
        alone,
      )

-- The nodes with one child: it holds all of the strings, or those of the lexed line.
module _ (g : Grammar) (parse : Parser) (sound : IsSound g parse) (path : List Frame) (self : ℕ)
    (ret : ℕ) (kids : Pnodes) where
  pub bypass_parse-Shape :
      (child : Option ℕ) (vec : Strvec)
      → bypass_parse parse path self child vec ≡ matched ret kids
      → IsOnlyOf child (take ret vec) kids × AllValid g kids
  unfolding bypass_parse
  bypass_parse-Shape none vec h = cc
  bypass_parse-Shape (some child) vec h =
      Kept-IsOnly refl (parse_child-Kept g parse sound path self nil child vec ret kids h)

  pub expr_parse-Shape :
      (child : Option ℕ) (vec : Strvec)
      → expr_parse parse path self child vec ≡ matched ret kids
      → IsOnlyOf child (take ret vec) kids × AllValid g kids
  unfolding expr_parse
  expr_parse-Shape none vec h = cc
  expr_parse-Shape (some child) vec h =
      Kept-IsOnly refl (parse_child-Kept g parse sound path self nil child vec ret kids h)

  option_parse-inv :
      (child : ℕ) (vec : Strvec)
      → option_parse parse path self (some child) vec ≡ matched ret kids
      → (parse_child parse path self nil child vec ≡ matched ret kids)
        ⊎ ((cs : Pnodes) × (parse_child parse path self nil child vec ≡ nomatch cs)
            × (0 ≡ ret)
            × (cs ≡ kids))
  unfolding option_parse
  option_parse-inv child vec h = ground arith

  pub option_parse-Shape :
      (child : Option ℕ) (vec : Strvec)
      → option_parse parse path self child vec ≡ matched ret kids
      → Shape g.stack (option child) (take ret vec) kids × AllValid g kids
  unfolding option_parse AllValid
  option_parse-Shape none vec h = cc
  option_parse-Shape (some child) vec h = elim (option_parse-inv child vec h) [
    | inl e ↦
        let (only, all) =
          Kept-IsOnly refl (parse_child-Kept g parse sound path self nil child vec ret kids e) in
        (inr only, all)
    | inr (cs, e, none_read, same) ↦
        let bare = sym same ∙ parse_child-nomatch parse path self nil child vec cs e in
        (inl (bare, rw (← none_read)), rw bare tt)
  ]

  pub once_parse-Shape :
      (child : Option ℕ) (vec : Strvec)
      → once_parse parse path self child vec ≡ matched ret kids
      → IsOnlyOf child (take ret vec) kids × AllValid g kids
  unfolding once_parse
  once_parse-Shape none vec h = cc
  once_parse-Shape (some child) vec h =
      Kept-IsOnly refl
        (parse_child-Kept g parse sound path self nil child vec ret kids (ground arith))

  -- The child kept for a line is the one that consumed every token.
  lexed_parse-inv :
      (child : ℕ) (tokens : Strvec)
      → lexed_parse parse path self child tokens ≡ matched ret kids
      → (1 ≡ ret) × (parse_child parse path self nil child tokens ≡ matched (length tokens) kids)
  unfolding lexed_parse
  lexed_parse-inv child tokens h = (ground arith, ground arith)

  sh_lex_parse-inv :
      (child : ℕ) (e : Elt) (vec : Strvec)
      → sh_lex_parse parse path self g.stack (some child) (e ∷ vec) ≡ matched ret kids
      → (tokens : Strvec) × (q : Option ℕ) × (sh_lex_str g.stack e.str true false ≡ lexed tokens q)
        × (lexed_parse parse path self child tokens ≡ matched ret kids)
  unfolding sh_lex_parse
  sh_lex_parse-inv child e vec h = ground arith

  pub sh_lex_parse-Shape :
      (child : Option ℕ) (vec : Strvec)
      → sh_lex_parse parse path self g.stack child vec ≡ matched ret kids
      → ret ≤ length vec
      → Shape g.stack (sh_lex child) (take ret vec) kids × AllValid g kids
  unfolding sh_lex_parse
  sh_lex_parse-Shape none vec h within = cc
  sh_lex_parse-Shape (some child) [] h within =
      absurd (omega (arith, (lexed_parse-inv child [] h).0))
  sh_lex_parse-Shape (some child) (e ∷ vec) h within =
      let (tokens, q, lex, rest) = sh_lex_parse-inv child e vec h in
      let (one, kept) = lexed_parse-inv child tokens rest in
      let (only, all) =
        Kept-IsOnly refl
          (parse_child-Kept g parse sound path self nil child tokens (length tokens) kids kept) in
      (
        (
          e,
          tokens,
          take-one e vec one,
          lex ∙ ap (lexed tokens) (sh_lex_str-strict g.stack e.str false lex),
          rw take_all at only,
        ),
        all,
      )
