-- ===== src/Sound/Valid.antt =====
-- What a parse tree has to be: the shape that its node's type asks for, at every tree node.
use mathlib.Core.List.{Mem}
use libecoli.Base.{
  ℕ, suc, ◌+◌, ◌≤◌, Bytes, true, false, ◌≡◌, ◌⊎◌, refl, sym, ap, Option, none, some, List, [], ◌∷◌,
  ◌++◌, append_assoc, append-nil, arith, length, All,
}
use libecoli.Strvec.{Strvec, Elt, has_key}
use libecoli.Strvec.Lex.{lexed, sh_lex_str}
use libecoli.Parse.{
  Pnode, Pnodes, pnode, nil, cons, get_node, get_strvec, link_child, del_last_child,
}
use libecoli.Node.{
  Node, Grammar, str, any, empty, space, re, ext, unsupported, seq, or, many, option, once, bypass,
  expr, subset, sh_lex, all_space,
}

-- the strings of the children, one after the other
unfoldable pub concat : Pnodes → Strvec
concat nil = []
concat (cons (pnode n none kids) ps) = concat ps
concat (cons (pnode n (some vec) kids) ps) = vec ++ concat ps

-- the grammar nodes of the children
unfoldable pub nodes : Pnodes → List ℕ
nodes nil = []
nodes (cons p ps) = get_node p ∷ nodes ps

unfoldable pub count : Pnodes → ℕ
count nil = 0
count (cons p ps) = suc (count ps)

-- one child, for `child`, that holds all of the strings
abbrev pub IsOnly : ℕ → Strvec → Pnodes → Type 0
IsOnly child vec kids =
    (p : Pnode) × (kids ≡ cons p nil) × (get_node p ≡ child) × (get_strvec p ≡ some vec)

abbrev pub IsOnlyOf : Option ℕ → Strvec → Pnodes → Type 0
IsOnlyOf none vec kids = ⊥
IsOnlyOf (some child) vec kids = IsOnly child vec kids

-- an element that carries the attribute
abbrev pub HasAttr : Option Bytes → Elt → Type 0
HasAttr none e = Unit
HasAttr (some name) e = (d : List (Bytes × ℕ)) × (e.attrs ≡ some d) × (has_key d name ≡ true)

abbrev pub IsMany : ℕ → ℕ → Option ℕ → Strvec → Pnodes → Type 0
IsMany min max none vec kids = ⊥
IsMany min max (some child) vec kids =
    (concat kids ≡ vec)
    × All (λ n. n ≡ child) (nodes kids)
    × (min ≤ count kids)
    × ((max ≡ 0) ⊎ (count kids ≤ max))

-- Entries of a table, one after the other, none of them twice.
pub data Picks : List ℕ → List ℕ → Type 0 where
  no_more : (table : List ℕ) → Picks table []
  pick :
      (before : List ℕ) (n : ℕ) (rest ns : List ℕ)
      → Picks (before ++ rest) ns
      → Picks (before ++ (n ∷ rest)) (n ∷ ns)

-- The strings of a subset: those of trees for `min` entries of the table at least, none of them twice.
-- The children are for entries of the table, but need not be these trees: the code leaves the trees of
-- searches that it gave up among them.
abbrev pub IsSubset : List ℕ → ℕ → Strvec → Pnodes → Type 0
IsSubset table min vec kids =
    All (λ n. Mem n table) (nodes kids)
    × ((ts : Pnodes) × Picks table (nodes ts) × (min ≤ count ts) × (concat ts ≡ vec))

-- The strings that a node consumes and the children that it keeps, for each node type. A type that the
-- application registers reports that it consumes these strings of an input that begins with them.
abbrev pub Shape : Bytes → Node → Strvec → Pnodes → Type 0
Shape stack (str none) vec kids = ⊥
Shape stack (str (some string)) vec kids =
    (e : Elt) × (vec ≡ e ∷ []) × (e.str ≡ string) × (kids ≡ nil)
Shape stack (any attr_name) vec kids =
    (e : Elt) × (vec ≡ e ∷ []) × HasAttr attr_name e × (kids ≡ nil)
Shape stack empty vec kids = (vec ≡ []) × (kids ≡ nil)
Shape stack Node.none vec kids = ⊥
Shape stack space vec kids =
    (e : Elt) × (vec ≡ e ∷ []) × (1 ≤ length e.str) × (all_space e.str ≡ true) × (kids ≡ nil)
Shape stack (re none) vec kids = ⊥
Shape stack (re (some regexec)) vec kids =
    (e : Elt) × (vec ≡ e ∷ []) × (regexec e.str ≡ some (0, length e.str)) × (kids ≡ nil)
Shape stack (ext method) vec kids =
    (rest : Strvec) × (method (vec ++ rest) ≡ some (length vec)) × (kids ≡ nil)
Shape stack unsupported vec kids = ⊥
Shape stack (seq table) vec kids = (nodes kids ≡ table) × (concat kids ≡ vec)
Shape stack (or table) vec kids = (child : ℕ) × Mem child table × IsOnly child vec kids
Shape stack (many min max child) vec kids = IsMany min max child vec kids
Shape stack (option child) vec kids = ((kids ≡ nil) × (vec ≡ [])) ⊎ IsOnlyOf child vec kids
Shape stack (once child) vec kids = IsOnlyOf child vec kids
Shape stack (bypass child) vec kids = IsOnlyOf child vec kids
Shape stack (expr child) vec kids = IsOnlyOf child vec kids
Shape stack (subset table min) vec kids = IsSubset table min vec kids
Shape stack (sh_lex child) vec kids =
    (e : Elt) × (tokens : Strvec) × (vec ≡ e ∷ [])
    × (sh_lex_str stack e.str true false ≡ lexed tokens none)
    × IsOnlyOf child tokens kids

-- Every tree node matched, and has the shape of its grammar node.
unfoldable mutual
  pub Valid : Grammar → Pnode → Type 0
  Valid g (pnode n none kids) = ⊥
  Valid g (pnode n (some vec) kids) = Shape g.stack (g.node n) vec kids × AllValid g kids

  pub AllValid : Grammar → Pnodes → Type 0
  AllValid g nil = Unit
  AllValid g (cons p ps) = Valid g p × AllValid g ps

-- What one more child adds at the tail.
pub AllValid-link_child :
    (g : Grammar) (cs : Pnodes) (p : Pnode)
    → AllValid g cs
    → Valid g p
    → AllValid g (link_child cs p)
unfolding AllValid link_child
AllValid-link_child g nil p h v = (v, tt)
AllValid-link_child g (cons q qs) p h v = (h.0, AllValid-link_child g qs p h.1 v)

pub AllValid-del_last_child :
    (g : Grammar) (cs : Pnodes) → AllValid g cs → AllValid g (del_last_child cs)
unfolding AllValid del_last_child
AllValid-del_last_child g nil h = tt
AllValid-del_last_child g (cons p nil) h = tt
AllValid-del_last_child g (cons p (cons q qs)) h = (h.0, AllValid-del_last_child g (cons q qs) h.1)

pub concat-link_child :
    (cs : Pnodes) (p : Pnode) {vec : Strvec}
    → get_strvec p ≡ some vec
    → concat (link_child cs p) ≡ concat cs ++ vec
unfolding concat link_child
concat-link_child nil (pnode n none kids) e = cc
concat-link_child nil (pnode n (some v) kids) e = rw append-nil (cc)
concat-link_child (cons (pnode n none kids) qs) p e = concat-link_child qs p e
concat-link_child (cons (pnode n (some v) kids) qs) p e =
    rw (concat-link_child qs p e) (sym (append_assoc v _ _))

pub nodes-link_child :
    (cs : Pnodes) (p : Pnode) → nodes (link_child cs p) ≡ nodes cs ++ (get_node p ∷ [])
unfolding nodes link_child
nodes-link_child nil p = refl
nodes-link_child (cons q qs) p = ap (◌∷◌ (get_node q)) (nodes-link_child qs p)

pub count-link_child : (cs : Pnodes) (p : Pnode) → count (link_child cs p) ≡ count cs + 1
unfolding count link_child
count-link_child nil p = omega arith
count-link_child (cons q qs) p = omega (arith, count-link_child qs p)

-- Removing the child that was linked last gives the children back.
pub del_last_child-link_child : (cs : Pnodes) (p : Pnode) → del_last_child (link_child cs p) ≡ cs
unfolding del_last_child link_child
del_last_child-link_child nil p = refl
del_last_child-link_child (cons q nil) p = refl
del_last_child-link_child (cons q (cons r rs)) p =
    ap (cons q) (del_last_child-link_child (cons r rs) p)
