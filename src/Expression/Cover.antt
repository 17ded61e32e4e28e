-- ===== src/Expression/Cover.antt =====
-- src/node_expr.c: the values and operators of a valid tree are all the strings it consumed.
use mathlib.Core.Path.{subst}
use libecoli.Base.{
  ℕ, ◌≡◌, ◌⊎◌, inl, inr, refl, sym, ◌∙◌, ap, none, some, List, [], ◌∷◌, ◌++◌, append_assoc,
  append-nil, All,
}
use libecoli.Strvec.{Strvec}
use libecoli.Parse.{Pnode, Pnodes, pnode, nil, cons, get_node}
use libecoli.Node.{Grammar, seq}
use libecoli.Sound.Valid.{Valid, AllValid, Shape, IsOnly, nodes, concat}
use libecoli.Expr.{
  ExprPriv, ExprType, none_type, val, bin_op, pre_op, post_op, paren_open, paren_close,
  get_node_type,
}
use libecoli.Expression.Tree.{
  leaves, leaves_of, leaves_all, Role, value, Has, at_ref, at_var, at_or, at_pre_op, at_pre,
  at_paren, at_post_op, at_posts, at_term, at_tail, at_tails, at_next, at_expr,
}
use libecoli.Expression.Meaning.{reshape}

-- The strings of tree nodes, one after the other.
abbrev pub own : Pnode → Strvec
own (pnode n none kids) = []
own (pnode n (some vec) kids) = vec

abbrev pub strings : List Pnode → Strvec
strings [] = []
strings (p ∷ ps) = own p ++ strings ps

strings-append : (ps qs : List Pnode) → strings (ps ++ qs) ≡ strings ps ++ strings qs
strings-append [] qs = refl
strings-append (p ∷ ps) qs =
    ap (λ s. own p ++ s) (strings-append ps qs)
    ∙ sym (append_assoc (own p) (strings ps) (strings qs))

-- a type that stands for a value, an operator or a parenthesis
abbrev IsTyped : ExprType → Type 0
IsTyped none_type = ⊥
IsTyped _ = Unit

module _ (g : Grammar) (priv : ExprPriv) (ref body : ℕ)
    (ref_type : get_node_type priv ref ≡ none_type) (ref_seq : g.node ref ≡ seq (body ∷ []))
    (ref_has : Has g priv ref value body) where
  abbrev Known : ℕ → Type 0
  Known n = IsTyped (get_node_type priv n) ⊎ ((r : Role) × Has g priv ref r n)

  abbrev Covers : Pnode → Type 0
  Covers p = Known (get_node p) → Valid g p → strings (leaves priv p) ≡ own p

  abbrev IsWhole : Strvec → Pnodes → Type 0
  IsWhole vec kids = All Known (nodes kids) × (concat kids ≡ vec)

  only-IsWhole :
      (c : ℕ) (vec : Strvec) (kids : Pnodes) → Known c → IsOnly c vec kids → IsWhole vec kids
  unfolding nodes concat
  only-IsWhole c vec kids k (pnode n none cs, e, f, h) = absurd (cc)
  only-IsWhole c vec kids k (pnode n (some v) cs, e, f, h) =
      subst (IsWhole vec) (sym e) ((subst Known (sym f) k, tt), append-nil v ∙ own_eq h)
    where
      own_eq : some v ≡ some vec → v ≡ vec
      own_eq x = cc

  list-IsWhole :
      (vec : Strvec) (kids : Pnodes) (table : List ℕ)
      → All Known table
      → (nodes kids ≡ table) × (concat kids ≡ vec)
      → IsWhole vec kids
  list-IsWhole vec kids table k (e, h) = (subst (All Known) (sym e) k, h)

  all_same : (c : ℕ) (ns : List ℕ) → Known c → All (λ n. n ≡ c) ns → All Known ns
  all_same c [] k h = tt
  all_same c (n ∷ ns) k (e, h) = (subst Known (sym e) k, all_same c ns k h)

  typed : {t : ExprType} (n : ℕ) → IsTyped t → get_node_type priv n ≡ t → Known n
  typed n i e = inl (subst IsTyped (sym e) i)

  -- A tree node without a type of its own holds the strings of its children.
  parts :
      (r : Role) (n : ℕ) (vec : Strvec) (kids : Pnodes)
      → Has g priv ref r n
      → Shape g.stack (g.node n) vec kids
      → IsTyped (get_node_type priv n) ⊎ IsWhole vec kids
  parts r n vec kids at_ref h = inr (
      list-IsWhole vec kids (body ∷ []) (inr (value, ref_has), tt)
        (reshape g ref vec kids ref_seq h))
  parts r n vec kids (at_var m e t) h = inl (subst IsTyped (sym e) tt)
  parts r n vec kids (at_or m table e k l) h =
      let (c, mem, only) = reshape g m vec kids k h in
      inr (only-IsWhole c vec kids (inr (value, l c mem)) only)
  parts r n vec kids (at_pre_op m table e k l) h =
      let (c, mem, only) = reshape g m vec kids k h in
      inr (only-IsWhole c vec kids (typed c tt (l c mem).0) only)
  parts r n vec kids (at_post_op m table e k l) h =
      let (c, mem, only) = reshape g m vec kids k h in
      inr (only-IsWhole c vec kids (typed c tt (l c mem).0) only)
  parts r n vec kids (at_pre m op arg e k l a) h =
      inr (list-IsWhole vec kids _ (inr (_, l), (inr (_, a), tt)) (reshape g m vec kids k h))
  parts r n vec kids (at_paren m o arg c e k l a b) h = inr (
      list-IsWhole vec kids _ (typed o tt l, (inr (_, b), (typed c tt a, tt)))
        (reshape g m vec kids k h))
  parts r n vec kids (at_posts m op e k l) h =
      let (whole, same, least, most) = reshape g m vec kids k h in
      inr (all_same op (nodes kids) (inr (_, l)) same, whole)
  parts r n vec kids (at_term m arg os e k l a) h =
      inr (list-IsWhole vec kids _ (inr (_, l), (inr (_, a), tt)) (reshape g m vec kids k h))
  parts r n vec kids (at_tail m op arg e k l t a) h =
      inr (list-IsWhole vec kids _ (typed op tt l, (inr (_, a), tt)) (reshape g m vec kids k h))
  parts r n vec kids (at_tails m arg e k l) h =
      let (whole, same, least, most) = reshape g m vec kids k h in
      inr (all_same arg (nodes kids) (inr (_, l)) same, whole)
  parts r n vec kids (at_next m arg rest e k l a) h =
      inr (list-IsWhole vec kids _ (inr (_, l), (inr (_, a), tt)) (reshape g m vec kids k h))
  parts r n vec kids (at_expr m arg e k l) h =
      inr (only-IsWhole arg vec kids (inr (_, l)) (reshape g m vec kids k h))

  leaves-typed :
      (t : ExprType) (p : Pnode) (below : List Pnode)
      → IsTyped t
      → leaves_of priv t p below ≡ p ∷ []
  leaves-typed none_type p below i = absurd i
  leaves-typed val p below i = refl
  leaves-typed bin_op p below i = refl
  leaves-typed pre_op p below i = refl
  leaves-typed post_op p below i = refl
  leaves-typed paren_open p below i = refl
  leaves-typed paren_close p below i = refl

  -- Whether it has a type of its own or not.
  strings-of :
      (t : ExprType) (p : Pnode) (below : List Pnode)
      → IsTyped t ⊎ (strings below ≡ own p)
      → strings (leaves_of priv t p below) ≡ own p
  strings-of t p below (inl i) = ap strings (leaves-typed t p below i) ∙ append-nil (own p)
  strings-of none_type p below (inr e) = e
  strings-of val p below (inr e) = append-nil (own p)
  strings-of bin_op p below (inr e) = append-nil (own p)
  strings-of pre_op p below (inr e) = append-nil (own p)
  strings-of post_op p below (inr e) = append-nil (own p)
  strings-of paren_open p below (inr e) = append-nil (own p)
  strings-of paren_close p below (inr e) = append-nil (own p)

  whole :
      {T : Type 0} (vec : Strvec) (kids : Pnodes)
      → (All Known (nodes kids) → strings (leaves_all priv kids) ≡ concat kids)
      → T ⊎ IsWhole vec kids
      → T ⊎ (strings (leaves_all priv kids) ≡ vec)
  whole vec kids k (inl i) = inl i
  whole vec kids k (inr (known, e)) = inr (k known ∙ e)

  mutual
    unfolding Valid AllValid nodes concat

    pub leaves-strings : (p : Pnode) → Covers p
    leaves-strings (pnode n none kids) k v = absurd v
    leaves-strings (pnode n (some vec) kids) (inl i) v =
        strings-of (get_node_type priv n) (pnode n (some vec) kids) (leaves_all priv kids) (inl i)
    leaves-strings (pnode n (some vec) kids) (inr (r, h)) (shape, all) =
        strings-of (get_node_type priv n) (pnode n (some vec) kids) (leaves_all priv kids)
          (whole vec kids (λ known. kids-strings kids known all) (parts r n vec kids h shape))

    kids-strings :
        (kids : Pnodes)
        → All Known (nodes kids)
        → AllValid g kids
        → strings (leaves_all priv kids) ≡ concat kids
    kids-strings nil k v = refl
    kids-strings (cons p ps) (k, ks) (v, vs) =
        strings-append (leaves priv p) (leaves_all priv ps)
        ∙ ap (λ s. s ++ strings (leaves_all priv ps)) (leaves-strings p k v)
        ∙ ap (λ s. own p ++ s) (kids-strings ps ks vs)
        ∙ joined p
      where
        joined : (q : Pnode) → own q ++ concat ps ≡ concat (cons q ps)
        joined (pnode n none cs) = refl
        joined (pnode n (some vec) cs) = refl
