-- ===== src/Completion/Safe.antt =====
-- The assert of ec_complete_child (src/complete.c) holds for every grammar and every input, and
-- what the added items keep holds of the completions.
use libecoli.Base.{ℕ, ◌<◌, ◌≡◌, ◌≢◌, ◌⊎◌, inl, inr, refl, List, [], ◌∷◌, All, arith}
use libecoli.Total.{IsRanked, All-lt, parse-Returns}
use libecoli.Strvec.{Strvec}
use libecoli.Parse.{nil}
use libecoli.Node.{Grammar, children}
use libecoli.Complete.{
  Comp, Completed, completed, failure, aborted, deeper, complete, complete_strvec, Completions,
  items, null, assert_failed, no_items,
}
use libecoli.Completion.Clean.{Leaves, at_end, at_failure, at_depth}
use libecoli.Completion.Methods.{Steps, Depth, complete-Keeps}

abbrev result : Completed → Completions
result (completed comp cs) = items comp
result (failure cs) = null
result aborted = assert_failed
result deeper = Completions.too_deep

result-ne-assert_failed :
    (P : Comp → Type 0) (D : Type 0) (o : Completed) → Leaves P D nil o → result o ≢ assert_failed
result-ne-assert_failed P D _ (at_end comp p) h = cc
result-ne-assert_failed P D _ at_failure h = cc
result-ne-assert_failed P D _ (at_depth d) h = cc

complete_strvec-result :
    (g : Grammar) (fuel node : ℕ) (vec : Strvec)
    → complete_strvec g fuel node vec ≡ result (complete g fuel [] node no_items vec)
unfolding complete_strvec
complete_strvec-result g fuel node vec = refl

no_steps : (g : Grammar) → Steps g (λ c. Unit) (λ v. Unit)
no_steps g = record {
  tails = λ v w i r e. tt;
  on_unknown = λ comp c path self grp p e. tt;
  on_str = λ comp c path self grp e string r p eq. tt;
  on_tokens = λ n child v e. tt;
  on_quotes = λ n child known quote comp groups e p k. tt;
}

any_depth : (g : Grammar) → Depth g Unit (λ fuel n. Unit)
any_depth g = record {
  on_zero = λ n ok. tt;
  on_children = λ fuel n ok. all (children (g.node n));
  on_parse = λ fuel n path vec ok e. tt;
}
  where
    all : (l : List ℕ) → All (λ n. Unit {0}) l
    all [] = tt
    all (n ∷ l) = (tt, all l)

ranked_depth : (g : Grammar) (rank : ℕ → ℕ) → IsRanked g rank → Depth g ⊥ (λ f n. rank n < f)
ranked_depth g rank ranked = record {
  on_zero = λ n lt. omega arith;
  on_children = λ f n lt. All-lt rank (rank n) f (children (g.node n)) (omega arith) (ranked n);
  on_parse = λ f n path v lt e. parse-Returns g rank ranked f n lt path v e;
}

-- ec_complete_strvec never fails the assert of ec_complete_child that the tree node of a child has
-- no children left when its method returns, whatever the grammar and the strings.
pub complete_strvec-ne-assert_failed :
    (g : Grammar) (fuel node : ℕ) (vec : Strvec) → complete_strvec g fuel node vec ≢ assert_failed
complete_strvec-ne-assert_failed g fuel node vec = rw (complete_strvec-result g fuel node vec) (
    result-ne-assert_failed (λ c. Unit) Unit _
      (complete-Keeps g (λ c. Unit) Unit (λ v. Unit) (λ f n. Unit) (no_steps g) (any_depth g) fuel
        node tt [] no_items vec tt tt))

-- NULL, or completions with a property.
abbrev pub Returned : (Comp → Type 0) → Completions → Type 0
Returned P r = (r ≡ null) ⊎ ((comp : Comp) × (r ≡ items comp) × P comp)

pub Returned-map :
    (P Q : Comp → Type 0) (r : Completions)
    → ((comp : Comp) → P comp → Q comp)
    → Returned P r
    → Returned Q r
Returned-map P Q r f (inl e) = inl e
Returned-map P Q r f (inr (comp, e, p)) = inr (comp, e, f comp p)

result-Returned : (P : Comp → Type 0) (o : Completed) → Leaves P ⊥ nil o → Returned P (result o)
result-Returned P _ (at_end comp p) = inr (comp, refl, p)
result-Returned P _ at_failure = inl refl
result-Returned P _ (at_depth d) = absurd d

-- In a grammar whose nodes refer to nodes of smaller rank, fuel above the rank of the node is
-- enough, and a property that the steps keep holds of the completions.
pub complete_strvec-Returned :
    (g : Grammar) (P : Comp → Type 0) (R : Strvec → Type 0) (rank : ℕ → ℕ) (fuel node : ℕ)
    (vec : Strvec)
    → Steps g P R
    → IsRanked g rank
    → rank node < fuel
    → R vec
    → P no_items
    → Returned P (complete_strvec g fuel node vec)
complete_strvec-Returned g P R rank fuel node vec steps ranked enough r p =
    rw (complete_strvec-result g fuel node vec) (
      result-Returned P _ (
        complete-Keeps g P ⊥ R (λ f n. rank n < f) steps (ranked_depth g rank ranked) fuel node
          enough [] no_items vec r p))
