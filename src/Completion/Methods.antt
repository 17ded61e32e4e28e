-- ===== src/Completion/Methods.antt =====
-- Every complete method of src/node_*.c keeps the tree, and a property of the completions that
-- added items and closed quotes keep.
use libecoli.Base.{
  ℕ, zero, suc, ◌≡◌, inl, inr, refl, true, false, Bytes, Bool-cases, Option-cases, Option, none,
  some, List, [], ◌∷◌, ltb, ◌==◌, length, All,
}
use libecoli.Strvec.{Strvec, Elt}
use libecoli.Strvec.Lex.{Lexed, lexed, bad_msg, no_bufs, sh_lex_str}
use libecoli.Str.{str_startswith}
use libecoli.Parse.{nil, Pnodes, Parser, Frame, count_path, parse_child, out_of_fuel}
use libecoli.Total.Lists.{settle-out_of_fuel}
use libecoli.Node.{
  Node, Grammar, parse, str, any, empty, space, re, ext, unsupported, seq, or, many, option, once,
  bypass, expr, subset, sh_lex, children,
}
use libecoli.Complete.{
  Comp, Group, unknown, full, Completed, failure, Completer, add_item, added, complete_unknown,
  many_complete, str_complete, option_complete, bypass_complete, expr_complete, once_complete,
  close_quotes, sh_lex_complete, node_complete, complete, quote_groups, complete_child,
}
use libecoli.Completion.Clean.{Leaves, at_end, at_failure, at_depth, HasTails, Keeps}
use libecoli.Completion.Lists.{
  complete_child-Leaves, seq_complete-Leaves, or_complete-Leaves, subset_complete-Leaves,
  many_rounds-Leaves, HasRounds-first,
}

-- What keeps a property of completions, for strings of a kind: an item added by a leaf, and the
-- quotes that a sh_lex node adds, below which the strings are others.
pub record Steps (g : Grammar) (P : Comp → Type 0) (R : Strvec → Type 0) : Type 0 where
  pub tails : HasTails R
  pub on_unknown :
      (comp c : Comp) (path : List Frame) (self grp : ℕ)
      → P comp
      → add_item comp path self none unknown none none ≡ some (c, grp)
      → P c
  pub on_str :
      (comp c : Comp) (path : List Frame) (self grp : ℕ) (e : Elt) (string : Bytes)
      → R (e ∷ [])
      → P comp
      → add_item comp path self none full (some e.str) (some string) ≡ some (c, grp)
      → P c
  pub on_tokens : (n child : ℕ) (vec : Strvec) → g.node n ≡ sh_lex (some child) → R vec
  pub on_quotes :
      (n child : ℕ) (known : List ℕ) (quote : ℕ) (comp : Comp) (groups : List Group)
      → g.node n ≡ sh_lex (some child)
      → P comp
      → quote_groups known quote comp.groups ≡ some groups
      → P (record comp { groups = groups })

-- `Ok fuel n` says that the fuel may do for node `n`, and `D` holds where it does not.
pub record Depth (g : Grammar) (D : Type 0) (Ok : ℕ → ℕ → Type 0) : Type 0 where
  pub on_zero : (n : ℕ) → Ok zero n → D
  pub on_children : (fuel n : ℕ) → Ok (suc fuel) n → All (Ok fuel) (children (g.node n))
  pub on_parse :
      (fuel n : ℕ) (path : List Frame) (vec : Strvec)
      → Ok fuel n
      → parse g fuel path n vec ≡ out_of_fuel
      → D

module _ (g : Grammar) (P : Comp → Type 0) (D : Type 0) (R : Strvec → Type 0) (Ok : ℕ → ℕ → Type 0)
    (steps : Steps g P R) (depth : Depth g D Ok) where
  added-Leaves :
      (o : Option (Comp × ℕ))
      → ((c : Comp) (grp : ℕ) → o ≡ some (c, grp) → P c)
      → Leaves P D nil (added o)
  unfolding added
  added-Leaves none h = at_failure
  added-Leaves (some (c, grp)) h = at_end c (h c grp refl)

  complete_unknown-Keeps : (self : ℕ) → Keeps P D R steps.tails complete_unknown self
  unfolding complete_unknown
  complete_unknown-Keeps self path comp [] r p = at_end comp p
  complete_unknown-Keeps self path comp (e ∷ []) r p =
      added-Leaves _ (λ c grp. steps.on_unknown comp c _ self grp p)
  complete_unknown-Keeps self path comp (e ∷ d ∷ vec) r p = at_end comp p

  str_complete-Keeps :
      (string : Option Bytes) (self : ℕ) → Keeps P D R steps.tails (str_complete string) self
  unfolding str_complete
  str_complete-Keeps none self path comp vec r p = at_failure
  str_complete-Keeps (some string) self path comp [] r p = at_end comp p
  str_complete-Keeps (some string) self path comp (e ∷ []) r p =
      elim (Bool-cases (str_startswith string e.str)) [
        | inl b ↦
            rw (str_complete, b)
              (added-Leaves _ (λ c grp. steps.on_str comp c _ self grp e string r p))
        | inr b ↦ rw (str_complete, b) (at_end comp p)
      ]
  str_complete-Keeps (some string) self path comp (e ∷ d ∷ vec) r p = at_end comp p

  close_quotes-Leaves :
      (n child : ℕ) (known : List ℕ) (quote : Option ℕ) (o : Completed)
      → g.node n ≡ sh_lex (some child)
      → Leaves P D nil o
      → Leaves P D nil (close_quotes known quote o)
  unfolding close_quotes
  close_quotes-Leaves n child known none o e h = h
  close_quotes-Leaves n child known (some q) _ e (at_end comp p) = elim (Bool-cases (q == 0)) [
    | inl b ↦ rw (close_quotes, b) (at_end comp p)
    | inr b ↦ elim (Option-cases (quote_groups known q comp.groups)) [
      | inl k ↦ rw (close_quotes, b, k) at_failure
      | inr (groups, k) ↦
          rw (close_quotes, b, k)
            (at_end (record comp { groups = groups })
              (steps.on_quotes n child known q comp groups e p k))
    ]
  ]
  close_quotes-Leaves n child known (some q) _ e at_failure = at_failure
  close_quotes-Leaves n child known (some q) _ e (at_depth d) = at_depth d

  module _ (parse : Parser) (complete : Completer) (Does : ℕ → Type 0)
      (keeps : (n : ℕ) → Does n → Keeps P D R steps.tails complete n) (path : List Frame) (self : ℕ)
      (spent : (cs : Pnodes) (n : ℕ) (vec : Strvec)
        → Does n
        → parse_child parse path self cs n vec ≡ out_of_fuel
        → D) where
    child-Leaves :
        (child : ℕ) (comp : Comp) (vec : Strvec)
        → Does child
        → R vec
        → P comp
        → Leaves P D nil (complete_child complete path self nil comp child vec)
    child-Leaves child comp vec ok r p =
        complete_child-Leaves P D R steps.tails parse complete Does keeps path self spent nil child
          vec ok r comp p

    lexed-Leaves :
        (n child : ℕ) (comp : Comp) (known : List ℕ) (l : Lexed)
        → g.node n ≡ sh_lex (some child)
        → Does child
        → P comp
        → Leaves P D nil (elim l [
          | lexed new_vec quote ↦
              close_quotes known quote (complete_child complete path self nil comp child new_vec)
          | bad_msg quote ↦ failure nil
          | no_bufs ↦ failure nil
        ])
    lexed-Leaves n child comp known (lexed new_vec quote) e ok p =
        close_quotes-Leaves n child known quote _ e
          (child-Leaves child comp new_vec ok (steps.on_tokens n child new_vec e) p)
    lexed-Leaves n child comp known (bad_msg quote) e ok p = at_failure
    lexed-Leaves n child comp known no_bufs e ok p = at_failure

    once_complete-Leaves :
        (child : ℕ) (comp : Comp) (vec : Strvec)
        → Does child
        → R vec
        → P comp
        → Leaves P D nil (once_complete complete path self (some child) comp vec)
    unfolding once_complete
    once_complete-Leaves child comp vec ok r p =
        elim (Bool-cases (ltb 0 (count_path (record { node = self; kids = nil } ∷ path) child))) [
          | inl b ↦ rw (once_complete, b) (at_end comp p)
          | inr b ↦ rw (once_complete, b) (child-Leaves child comp vec ok r p)
        ]

    node_complete-Leaves :
        (n : ℕ) (node : Node) (comp : Comp) (vec : Strvec)
        → g.node n ≡ node
        → All Does (children node)
        → R vec
        → P comp
        → Leaves P D nil (node_complete g.stack parse complete path self node comp vec)
    unfolding node_complete children option_complete bypass_complete expr_complete many_complete
        sh_lex_complete once_complete
    node_complete-Leaves n (str string) comp vec e ok r p =
        str_complete-Keeps string self path comp vec r p
    node_complete-Leaves n (any attr_name) comp vec e ok r p =
        complete_unknown-Keeps self path comp vec r p
    node_complete-Leaves n empty comp vec e ok r p = complete_unknown-Keeps self path comp vec r p
    node_complete-Leaves n Node.none comp vec e ok r p = at_end comp p
    node_complete-Leaves n space comp vec e ok r p = complete_unknown-Keeps self path comp vec r p
    node_complete-Leaves n (re regexec) comp vec e ok r p =
        complete_unknown-Keeps self path comp vec r p
    node_complete-Leaves n (ext method) comp vec e ok r p =
        complete_unknown-Keeps self path comp vec r p
    node_complete-Leaves n unsupported comp vec e ok r p =
        complete_unknown-Keeps self path comp vec r p
    node_complete-Leaves n (seq table) comp vec e ok r p =
        seq_complete-Leaves P D R steps.tails parse complete Does keeps path self spent table ok nil
          vec r comp p
    node_complete-Leaves n (or table) comp vec e ok r p =
        or_complete-Leaves P D R steps.tails parse complete Does keeps path self spent table ok nil
          vec r comp p
    node_complete-Leaves n (many min max none) comp vec e ok r p = at_failure
    node_complete-Leaves n (many min max (some child)) comp vec e ok r p =
        many_rounds-Leaves P D R steps.tails parse complete Does keeps path self spent max child _ 0
          vec nil nil comp r p ok.0 refl (HasRounds-first max (length vec))
    node_complete-Leaves n (option none) comp vec e ok r p = at_failure
    node_complete-Leaves n (option (some child)) comp vec e ok r p =
        child-Leaves child comp vec ok.0 r p
    node_complete-Leaves n (once none) comp vec e ok r p = at_failure
    node_complete-Leaves n (once (some child)) comp vec e ok r p =
        once_complete-Leaves child comp vec ok.0 r p
    node_complete-Leaves n (bypass none) comp vec e ok r p = at_failure
    node_complete-Leaves n (bypass (some child)) comp vec e ok r p =
        child-Leaves child comp vec ok.0 r p
    node_complete-Leaves n (expr none) comp vec e ok r p = at_failure
    node_complete-Leaves n (expr (some child)) comp vec e ok r p =
        child-Leaves child comp vec ok.0 r p
    node_complete-Leaves n (subset table min) comp vec e ok r p =
        subset_complete-Leaves P D R steps.tails parse complete Does keeps path self spent
          (length table) table ok nil vec r comp p
    node_complete-Leaves n (sh_lex none) comp vec e ok r p = at_failure
    node_complete-Leaves n (sh_lex (some child)) comp [] e ok r p = at_end comp p
    node_complete-Leaves n (sh_lex (some child)) comp (s ∷ []) e ok r p =
        lexed-Leaves n child comp _ (sh_lex_str g.stack s.str false true) e ok.0 p
    node_complete-Leaves n (sh_lex (some child)) comp (s ∷ d ∷ vec) e ok r p = at_end comp p

  pub complete-Keeps : (fuel n : ℕ) → Ok fuel n → Keeps P D R steps.tails (complete g fuel) n
  unfolding complete parse_child
  complete-Keeps zero n ok path comp vec r p = at_depth (depth.on_zero n ok)
  complete-Keeps (suc fuel) n ok path comp vec r p =
      node_complete-Leaves (parse g fuel) (complete g fuel) (Ok fuel) (complete-Keeps fuel) path n
        (λ cs c v ok' e. depth.on_parse fuel c _ v ok' (settle-out_of_fuel cs c v _ e)) n (g.node n)
        comp vec refl (depth.on_children fuel n ok) r p
