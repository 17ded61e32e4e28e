-- ===== src/Completion/Lists.antt =====
-- The complete methods over lists of nodes or of strings keep the tree and the property:
-- src/node_seq.c, node_or.c, node_many.c and node_subset.c.
use libecoli.Base.{
  All, if◌then◌else◌, drop, length-take, length-drop, some, false, ◌≤◌, All-append, ◌<◌, ◌+◌, ◌⊎◌,
  arith, ℕ, suc, zero, ◌-◌, ◌≡◌, inl, inr, Bool-cases, Option-cases, List, [], ◌∷◌, ◌++◌, length,
  ◌==◌, ◌&&◌,
}
use libecoli.Strvec.{Strvec, ndup}
use libecoli.Parse.{Pnodes, link_child, parse_child, out_of_fuel, Parser, Frame}
use libecoli.Sound.Valid.{del_last_child-link_child}
use libecoli.Complete.{
  Comp, Completed, Completer, complete_child, seq_split, seq_complete, or_complete, del_children,
  many_rounds, subset_split, subset_complete,
}
use libecoli.Completion.Clean.{
  Leaves, at_end, at_failure, at_depth, parse_child-cases, HasTails, Keeps, Goes, Walks,
  leave-Leaves, then_remove-Leaves, and_then-Leaves, or_remove-Leaves, seq_match-Leaves,
}

-- The rounds of the loop of many are enough: without a bound each consumes a string.
abbrev pub HasRounds : ℕ → ℕ → ℕ → ℕ → Type 0
HasRounds max rounds children len =
    ((max ≡ 0) × (len < rounds)) ⊎ ((children < max) × (max < rounds + children))

length-ndup :
    (vec v : Strvec) (i : ℕ)
    → ndup vec i (length vec - i) ≡ some v
    → (i ≤ length vec) × (length v ≡ length vec - i)
unfolding ndup
length-ndup vec v i e = ground (arith, length-take (length vec - i) (drop i vec), length-drop i vec)

no_round : {max children len : ℕ} → HasRounds max 0 children len → ⊥
no_round (inl (z, lt)) = omega arith
no_round (inr (lt, lt')) = omega arith

HasRounds-next :
    (max rounds children len ret n : ℕ)
    → HasRounds max (suc rounds) children len
    → (suc children == max) ≡ false
    → (max == 0 && ret == 0) ≡ false
    → (ret ≤ len) × (n ≡ len - ret)
    → HasRounds max rounds (suc children) n
HasRounds-next max rounds children len ret n (inl (z, lt)) m e (le, eq) = inl (z, ground arith)
HasRounds-next max rounds children len ret n (inr (lt, lt')) m e (le, eq) =
    inr (ground arith, omega arith)

pub HasRounds-first : (max len : ℕ) → HasRounds max (if max == 0 then len + 1 else max + 1) 0 len
HasRounds-first max len = elim (Bool-cases (max == 0)) [
  | inl z ↦ rw z (inl (ground arith, omega arith))
  | inr z ↦ rw z (inr (ground arith, omega arith))
]

module _ (P : Comp → Type 0) (D : Type 0) (R : Strvec → Type 0) (tails : HasTails R)
    (parse : Parser) (complete : Completer) (Ok : ℕ → Type 0)
    (keeps : (n : ℕ) → Ok n → Keeps P D R tails complete n) (path : List Frame) (self : ℕ)
    (spent : (cs : Pnodes) (n : ℕ) (vec : Strvec)
      → Ok n
      → parse_child parse path self cs n vec ≡ out_of_fuel
      → D) where
  pub complete_child-Leaves :
      (cs : Pnodes) (child : ℕ) (vec : Strvec)
      → Ok child
      → R vec
      → Goes P D R tails cs (λ ds comp. complete_child complete path self ds comp child vec)
  unfolding complete_child
  complete_child-Leaves cs child vec ok r comp p =
      leave-Leaves P D R tails cs _ (keeps child ok _ comp vec r p)

  seq_split-Leaves :
      (rest : Pnodes → Comp → Strvec → Completed) (n : ℕ) (vec : Strvec) (left i : ℕ) (cs : Pnodes)
      → Ok n
      → R vec
      → Walks P D R tails rest
      → Goes P D R tails cs (seq_split parse complete path self rest n vec left i)
  unfolding seq_split
  seq_split-Leaves rest n vec zero i cs ok r h comp p = at_end comp p
  seq_split-Leaves rest n vec (suc left) i cs ok r h comp p = elim (Option-cases (ndup vec 0 i)) [
    | inl e ↦ rw (seq_split, e) at_failure
    | inr (childvec, e) ↦ elim (parse_child-cases parse path self cs n childvec) [
      | inl e' ↦ rw (seq_split, e, e') at_failure
      | inr (inl e') ↦ rw (seq_split, e, e') (at_depth (spent cs n childvec ok e'))
      | inr (inr (inl e')) ↦
          rw (seq_split, e, e') (seq_split-Leaves rest n vec left (suc i) cs ok r h comp p)
      | inr (inr (inr (ret, q, e'))) ↦
          rw (seq_split, e, e')
            (seq_match-Leaves P D R tails rest vec i ret cs (link_child cs q) comp
              (seq_split parse complete path self rest n vec left (suc i)) r p h
              (del_last_child-link_child cs q) (seq_split-Leaves rest n vec left (suc i) cs ok r h))
    ]
  ]

  pub seq_complete-Leaves :
      (table : List ℕ)
      → All Ok table
      → Walks P D R tails (seq_complete parse complete path self table)
  unfolding seq_complete
  seq_complete-Leaves [] ok cs vec r comp p = at_end comp p
  seq_complete-Leaves (n ∷ table) ok cs vec r comp p =
      and_then-Leaves P D R tails cs _ _ (complete_child-Leaves cs n vec ok.0 r comp p)
        (seq_split-Leaves _ n vec (length vec) 0 cs ok.0 r (seq_complete-Leaves table ok.1))

  pub or_complete-Leaves :
      (table : List ℕ)
      → All Ok table
      → Walks P D R tails (or_complete parse complete path self table)
  unfolding or_complete
  or_complete-Leaves [] ok cs vec r comp p = at_end comp p
  or_complete-Leaves (n ∷ table) ok cs vec r comp p =
      and_then-Leaves P D R tails cs _ _ (complete_child-Leaves cs n vec ok.0 r comp p)
        (or_complete-Leaves table ok.1 cs vec r)

  subset_split-Leaves :
      (search : List ℕ → Pnodes → Comp → Strvec → Completed) (vec : Strvec) (before rest : List ℕ)
      (cs : Pnodes)
      → All Ok before
      → All Ok rest
      → R vec
      → ((table : List ℕ) → All Ok table → Walks P D R tails (search table))
      → Goes P D R tails cs (subset_split parse complete path self search vec before rest)
  unfolding subset_split
  subset_split-Leaves search vec before [] cs bs ok r h comp p = at_end comp p
  subset_split-Leaves search vec before (n ∷ rest) cs bs ok r h comp p =
      elim (parse_child-cases parse path self cs n vec) [
        | inl e' ↦ rw (subset_split, e') at_failure
        | inr (inl e') ↦ rw (subset_split, e') (at_depth (spent cs n vec ok.0 e'))
        | inr (inr (inl e')) ↦
            rw (subset_split, e')
              (subset_split-Leaves search vec (before ++ (n ∷ [])) rest cs
                (All-append Ok before (n ∷ []) bs (ok.0, tt)) ok.1 r h comp p)
        | inr (inr (inr (ret, q, e'))) ↦ elim (Option-cases (ndup vec ret (length vec - ret))) [
          | inl e ↦ rw (subset_split, e', e, del_last_child-link_child cs q) at_failure
          | inr (v, e) ↦
              rw (subset_split, e', e)
                (then_remove-Leaves P D R tails cs (link_child cs q) _
                  (subset_split parse complete path self search vec (before ++ (n ∷ [])) rest)
                  (del_last_child-link_child cs q)
                  (h (before ++ rest) (All-append Ok before rest bs ok.1) (link_child cs q) v
                    (tails vec v ret r e) comp p)
                  (subset_split-Leaves search vec (before ++ (n ∷ [])) rest cs
                    (All-append Ok before (n ∷ []) bs (ok.0, tt)) ok.1 r h))
        ]
      ]

  pub subset_complete-Leaves :
      (entries : ℕ) (table : List ℕ)
      → All Ok table
      → Walks P D R tails (subset_complete parse complete path self entries table)
  unfolding subset_complete
  subset_complete-Leaves zero table ok cs vec r comp p = at_end comp p
  subset_complete-Leaves (suc entries) table ok cs vec r comp p =
      and_then-Leaves P D R tails cs _ _ (or_complete-Leaves table ok cs vec r comp p)
        (subset_split-Leaves _ vec [] table cs tt ok r (subset_complete-Leaves entries))

  pub many_rounds-Leaves :
      (max child rounds children : ℕ) (vec : Strvec) (cs ds : Pnodes) (comp : Comp)
      → R vec
      → P comp
      → Ok child
      → del_children children ds ≡ cs
      → HasRounds max rounds children (length vec)
      → Leaves P D cs (many_rounds parse complete path self max child rounds children vec ds comp)
  unfolding many_rounds del_children
  many_rounds-Leaves max child zero children vec cs ds comp r p ok back enough =
      absurd (no_round enough)
  many_rounds-Leaves max child (suc rounds) children vec cs ds comp r p ok back enough =
      or_remove-Leaves P D R tails children cs ds _ _ back
        (complete_child-Leaves ds child vec ok r comp p)
        (λ c p'. elim (Bool-cases (suc children == max)) [
          | inl m ↦ rw (m, back) (at_end c p')
          | inr m ↦ elim (parse_child-cases parse path self ds child vec) [
            | inl e ↦ rw (m, e, back) at_failure
            | inr (inl e) ↦ rw (m, e) (at_depth (spent ds child vec ok e))
            | inr (inr (inl e)) ↦ rw (m, e, back) (at_end c p')
            | inr (inr (inr (ret, q, e))) ↦ elim (Bool-cases (max == 0 && ret == 0)) [
              | inl z ↦ rw (m, e, z, del_last_child-link_child ds q, back) (at_end c p')
              | inr z ↦ elim (Option-cases (ndup vec ret (length vec - ret))) [
                | inl n ↦ rw (m, e, z, n, del_last_child-link_child ds q, back) at_failure
                | inr (v, n) ↦
                    rw (m, e, z, n)
                      (many_rounds-Leaves max child rounds (suc children) v cs (link_child ds q) c
                        (tails vec v ret r n) p' ok (rw (del_last_child-link_child ds q) back)
                        (HasRounds-next max rounds children (length vec) ret (length v) enough m z
                          (length-ndup vec v ret n)))
              ]
            ]
          ]
        ])
