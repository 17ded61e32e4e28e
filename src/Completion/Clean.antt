-- ===== src/Completion/Clean.antt =====
-- What the complete methods of src/node_*.c keep: under a method's tree node, the children that
-- it links for a while are unlinked again, on success and on errors; and a property of the
-- completions that every added item keeps is kept by the methods that walk over the children.
use libecoli.Base.{
  ℕ, ◌-◌, ◌≡◌, ◌⊎◌, inl, inr, refl, Bool-cases, Option-cases, some, List, length, ◌==◌,
}
use libecoli.Strvec.{Strvec, ndup}
use libecoli.Parse.{
  Pnode, Pnodes, nil, pnode, link_child, del_last_child, Outcome, matched, nomatch, error,
  out_of_fuel, Parser, Frame, parse_child, settle, keep_child,
}
use libecoli.Complete.{
  Comp, Completed, completed, failure, deeper, Completer, leave, and_then, or_remove, then_remove,
  seq_match, del_children,
}

-- The children under a method's tree node at its end are `cs`, whether it succeeds or fails, and
-- the completions of a success have the property. `D` holds where the fuel is spent.
pub data Leaves (P : Comp → Type 0) (D : Type 0) (cs : Pnodes) : Completed → Type 0 where
  at_end : (comp : Comp) → P comp → Leaves P D cs (completed comp cs)
  at_failure : Leaves P D cs (failure cs)
  at_depth : D → Leaves P D cs deeper

-- What ec_parse_child leaves under the tree node.
abbrev pub ParseCases : Pnodes → Outcome → Type 0
ParseCases cs o =
    (o ≡ error)
    ⊎ (o ≡ out_of_fuel)
    ⊎ (o ≡ nomatch cs)
    ⊎ ((ret : ℕ) × (p : Pnode) × (o ≡ matched ret (link_child cs p)))

keep_child-cases :
    (cs : Pnodes) (child : ℕ) (vec : Strvec) (ret : ℕ) (kids : Pnodes)
    → ParseCases cs (keep_child cs child vec ret kids)
unfolding keep_child
keep_child-cases cs child vec ret kids = elim (Option-cases (ndup vec 0 ret)) [
  | inl e ↦ inl (rw (keep_child, e) refl)
  | inr (v, e) ↦ inr (inr (inr (ret, pnode child (some v) kids, rw (keep_child, e) refl)))
]

settle-cases :
    (cs : Pnodes) (child : ℕ) (vec : Strvec) (o : Outcome) → ParseCases cs (settle cs child vec o)
unfolding settle
settle-cases cs child vec (matched ret kids) = keep_child-cases cs child vec ret kids
settle-cases cs child vec (nomatch kids) = inr (inr (inl refl))
settle-cases cs child vec error = inl refl
settle-cases cs child vec out_of_fuel = inr (inl refl)

pub parse_child-cases :
    (parse : Parser) (path : List Frame) (self : ℕ) (cs : Pnodes) (child : ℕ) (vec : Strvec)
    → ParseCases cs (parse_child parse path self cs child vec)
unfolding parse_child
parse_child-cases parse path self cs child vec = settle-cases cs child vec _

-- `R` is a property of the strings that their tails have too.
abbrev pub HasTails : (Strvec → Type 0) → Type 0
HasTails R = (vec v : Strvec) (i : ℕ) → R vec → ndup vec i (length vec - i) ≡ some v → R v

module _ (P : Comp → Type 0) (D : Type 0) (R : Strvec → Type 0) (tails : HasTails R) where
  -- The complete method of a node keeps the property for such strings.
  abbrev pub Keeps : Completer → ℕ → Type 0
  Keeps complete node =
      (path : List Frame) (comp : Comp) (vec : Strvec)
      → R vec
      → P comp
      → Leaves P D nil (complete path node comp vec)

  -- The same of what is left of a method, where the children are `cs`.
  abbrev pub Goes : Pnodes → (Pnodes → Comp → Completed) → Type 0
  Goes cs next = (comp : Comp) → P comp → Leaves P D cs (next cs comp)

  abbrev pub Walks : (Pnodes → Comp → Strvec → Completed) → Type 0
  Walks rest = (cs : Pnodes) (vec : Strvec) → R vec → Goes cs (λ ds comp. rest ds comp vec)

  pub leave-Leaves : (cs : Pnodes) (o : Completed) → Leaves P D nil o → Leaves P D cs (leave cs o)
  unfolding leave
  leave-Leaves cs _ (at_end comp p) = at_end comp p
  leave-Leaves cs _ at_failure = at_failure
  leave-Leaves cs _ (at_depth d) = at_depth d

  pub then_remove-Leaves :
      (cs cs' : Pnodes) (o : Completed) (next : Pnodes → Comp → Completed)
      → del_last_child cs' ≡ cs
      → Leaves P D cs' o
      → Goes cs next
      → Leaves P D cs (then_remove o next)
  unfolding then_remove
  then_remove-Leaves cs cs' _ next back (at_end comp p) k = rw back (k comp p)
  then_remove-Leaves cs cs' _ next back at_failure k = rw back at_failure
  then_remove-Leaves cs cs' _ next back (at_depth d) k = at_depth d

  pub and_then-Leaves :
      (cs : Pnodes) (o : Completed) (next : Pnodes → Comp → Completed)
      → Leaves P D cs o
      → Goes cs next
      → Leaves P D cs (and_then o next)
  unfolding and_then
  and_then-Leaves cs _ next (at_end comp p) k = k comp p
  and_then-Leaves cs _ next at_failure k = at_failure
  and_then-Leaves cs _ next (at_depth d) k = at_depth d

  pub or_remove-Leaves :
      (children : ℕ) (cs ds : Pnodes) (o : Completed) (next : Pnodes → Comp → Completed)
      → del_children children ds ≡ cs
      → Leaves P D ds o
      → ((comp : Comp) → P comp → Leaves P D cs (next ds comp))
      → Leaves P D cs (or_remove children o next)
  unfolding or_remove
  or_remove-Leaves children cs ds _ next back (at_end comp p) k = k comp p
  or_remove-Leaves children cs ds _ next back at_failure k = rw back at_failure
  or_remove-Leaves children cs ds _ next back (at_depth d) k = at_depth d

  pub seq_match-Leaves :
      (rest : Pnodes → Comp → Strvec → Completed) (vec : Strvec) (i ret : ℕ) (cs cs' : Pnodes)
      (comp : Comp) (next : Pnodes → Comp → Completed)
      → R vec
      → P comp
      → Walks rest
      → del_last_child cs' ≡ cs
      → Goes cs next
      → Leaves P D cs (seq_match rest vec i ret cs' comp next)
  unfolding seq_match
  seq_match-Leaves rest vec i ret cs cs' comp next r p h back k = elim (Bool-cases (ret == i)) [
    | inr e ↦ rw (seq_match, e, back) (k comp p)
    | inl e ↦ elim (Option-cases (ndup vec i (length vec - i))) [
      | inl e' ↦ rw (seq_match, e, e', back) at_failure
      | inr (v, e') ↦
          rw (seq_match, e, e')
            (then_remove-Leaves cs cs' _ next back (h cs' v (tails vec v i r e') comp p) k)
    ]
  ]
