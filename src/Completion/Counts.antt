-- ===== src/Completion/Counts.antt =====
-- The counters of struct ec_comp (src/complete.c) count the items in its groups.
use libecoli.Base.{
  ℕ, suc, ◌+◌, ◌<◌, ◌≡◌, refl, sym, ◌∙◌, ap, Bool, inl, inr, ◌⊎◌, if◌then◌else◌, Option, none, some,
  List, [], ◌∷◌, ◌++◌, length, length-append, arith, Bytes,
}
use libecoli.Strvec.{Strvec}
use libecoli.Node.{Grammar}
use libecoli.Parse.{Frame}
use libecoli.Complete.{
  CompType, unknown, full, partial, Mask, selects, Item, Group, Comp, add_item, comp_count,
  complete_strvec, set_str, set_completion, quote_item, quote_items, quote_groups, is_full,
  is_unknown, no_items,
}
use libecoli.Total.{IsRanked}
use libecoli.Completion.Methods.{Steps}
use libecoli.Completion.Safe.{Returned, Returned-map, complete_strvec-Returned}
use libecoli.Completion.Added.{all_items, selected, is_partial, Added, add_item-Added}

abbrev tally : (CompType → Bool) → List Item → ℕ
tally test [] = 0
tally test (item ∷ is) = (if test item.type then 1 else 0) + tally test is

tally-append :
    (test : CompType → Bool) (is js : List Item)
    → tally test (is ++ js) ≡ tally test is + tally test js
tally-append test [] js = omega arith
tally-append test (i ∷ is) js = omega (arith, tally-append test is js)

pub record IsCounted (comp : Comp) : Type 0 where
  all_of : comp.count ≡ length (all_items comp.groups)
  full_of : comp.count_full ≡ tally is_full (all_items comp.groups)
  partial_of : comp.count_partial ≡ tally is_partial (all_items comp.groups)
  unknown_of : comp.count_unknown ≡ tally is_unknown (all_items comp.groups)

IsCounted-step : (comp c : Comp) (item : Item) → IsCounted comp → Added comp item c → IsCounted c
IsCounted-step comp c item t (is, n, f, p, u) = record {
  all_of = rw is (omega (arith, t.all_of, n, length-append (all_items comp.groups) (item ∷ [])));
  full_of =
      rw is (omega (arith, t.full_of, f, tally-append is_full (all_items comp.groups) (item ∷ [])));
  partial_of =
      rw is (
        omega
          (arith, t.partial_of, p, tally-append is_partial (all_items comp.groups) (item ∷ [])));
  unknown_of =
      rw is (
        omega
          (arith, t.unknown_of, u, tally-append is_unknown (all_items comp.groups) (item ∷ [])));
}

quote_item-type :
    (q : ℕ) (item item' : Item) → quote_item q item ≡ some item' → item'.type ≡ item.type
unfolding quote_item set_str set_completion
quote_item-type q item item' e = ground arith

-- Closing the quotes keeps the items' types.
abbrev Same : List Item → List Item → Type 0
Same is js = (length js ≡ length is) × ((test : CompType → Bool) → tally test js ≡ tally test is)

Same-cons : (i j : Item) (is js : List Item) → j.type ≡ i.type → Same is js → Same (i ∷ is) (j ∷ js)
Same-cons i j is js e (n, t) =
    (ap suc n, λ test. rw e (ap (λ k. (if test i.type then 1 else 0) + k) (t test)))

quote_items-inv :
    (known : List ℕ) (q : ℕ) (i : Item) (is js : List Item)
    → quote_items known q (i ∷ is) ≡ some js
    → (j : Item) × (js' : List Item) × (js ≡ j ∷ js')
      × (quote_items known q is ≡ some js')
      × ((j ≡ i) ⊎ (quote_item q i ≡ some j))
unfolding quote_items
quote_items-inv known q i is js e = ground arith

quote_items-Same :
    (known : List ℕ) (q : ℕ) (is js : List Item) → quote_items known q is ≡ some js → Same is js
unfolding quote_items
quote_items-Same known q [] js e = rw (nothing e) (refl, λ test. refl)
  where
    nothing : some [] ≡ some js → js ≡ []
    nothing k = cc
quote_items-Same known q (i ∷ is) js e =
    let (j, js', eq, rest, one) = quote_items-inv known q i is js e in
    rw eq (Same-cons i j is js' (type one) (quote_items-Same known q is js' rest))
  where
    type : {j : Item} → (j ≡ i) ⊎ (quote_item q i ≡ some j) → j.type ≡ i.type
    type (inl k) = ap (λ x. x.type) k
    type (inr k) = quote_item-type q i _ k

quote_groups-inv :
    (known : List ℕ) (q : ℕ) (g : Group) (gs hs : List Group)
    → quote_groups known q (g ∷ gs) ≡ some hs
    → (h : Group) × (hs' : List Group) × (hs ≡ h ∷ hs')
      × (quote_groups known q gs ≡ some hs')
      × (quote_items known q g.items ≡ some h.items)
unfolding quote_groups
quote_groups-inv known q g gs hs e = ground arith

Same-append : (is js is' js' : List Item) → Same is js → Same is' js' → Same (is ++ is') (js ++ js')
Same-append is js is' js' (n, t) (n', t') = (
  length-append js js' ∙ rw (n, n') (sym (length-append is is')),
  λ test. tally-append test js js' ∙ rw (t test, t' test) (sym (tally-append test is is')),
)

quote_groups-Same :
    (known : List ℕ) (q : ℕ) (gs hs : List Group)
    → quote_groups known q gs ≡ some hs
    → Same (all_items gs) (all_items hs)
unfolding quote_groups
quote_groups-Same known q [] hs e = rw (nothing e) (refl, λ test. refl)
  where
    nothing : some [] ≡ some hs → hs ≡ []
    nothing k = cc
quote_groups-Same known q (g ∷ gs) hs e =
    let (h, hs', eq, rest, one) = quote_groups-inv known q g gs hs e in
    rw eq (
      Same-append g.items h.items (all_items gs) (all_items hs')
        (quote_items-Same known q g.items h.items one) (quote_groups-Same known q gs hs' rest))

count_steps : (g : Grammar) → Steps g IsCounted (λ v. Unit)
count_steps g = record {
  tails = λ v w i r e. tt;
  on_unknown = λ comp c path self grp p e. added comp c path self grp unknown none none p e;
  on_str = λ comp c path self grp e string r p eq.
      added comp c path self grp full (some e.str) (some string) p eq;
  on_tokens = λ n child v e. tt;
  on_quotes = λ n child known q comp groups e p k.
      quoted comp groups p (quote_groups-Same known q comp.groups groups k);
}
  where
    added :
        (comp c : Comp) (path : List Frame) (self grp : ℕ) (type : CompType)
        (cur str : Option Bytes)
        → IsCounted comp
        → add_item comp path self none type cur str ≡ some (c, grp)
        → IsCounted c
    added comp c path self grp type cur str p e =
        let (item, k, add) = add_item-Added comp c path self grp type cur str e in
        IsCounted-step comp c item p add

    quoted :
        (comp : Comp) (groups : List Group)
        → IsCounted comp
        → Same (all_items comp.groups) (all_items groups)
        → IsCounted (record comp { groups = groups })
    quoted comp groups p (n, t) = record {
      all_of = p.all_of ∙ sym n;
      full_of = p.full_of ∙ sym (t is_full);
      partial_of = p.partial_of ∙ sym (t is_partial);
      unknown_of = p.unknown_of ∙ sym (t is_unknown);
    }

selects_one :
    (mask : Mask) (type : CompType)
    → (if selects mask type then 1 else 0)
      ≡ (if mask.full? then (if is_full type then 1 else 0) else 0)
        + (if mask.partial? then (if is_partial type then 1 else 0) else 0)
        + (if mask.unknown? then (if is_unknown type then 1 else 0) else 0)
unfolding selects is_unknown
selects_one mask unknown = ground arith
selects_one mask full = ground arith
selects_one mask partial = ground arith

length-selected :
    (mask : Mask) (is : List Item)
    → length (selected mask is)
      ≡ (if mask.full? then tally is_full is else 0)
        + (if mask.partial? then tally is_partial is else 0)
        + (if mask.unknown? then tally is_unknown is else 0)
length-selected mask [] = ground arith
length-selected mask (i ∷ is) = ground (arith, selects_one mask i.type, length-selected mask is)

-- In a grammar without cycles, with enough fuel, ec_complete_strvec returns NULL or completions; of
-- these `count` is the number of items, and ec_comp_count the number of items of the types asked.
pub comp_count-selected :
    (g : Grammar) (rank : ℕ → ℕ) (fuel node : ℕ) (vec : Strvec) (mask : Mask)
    → IsRanked g rank
    → rank node < fuel
    → Returned
        (λ comp.
          (comp.count ≡ length (all_items comp.groups))
          × (comp_count comp mask ≡ length (selected mask (all_items comp.groups))))
        (complete_strvec g fuel node vec)
unfolding comp_count no_items
comp_count-selected g rank fuel node vec mask ranked enough =
    Returned-map _ _ _
      (λ comp t. (
        t.all_of,
        rw (t.full_of, t.partial_of, t.unknown_of)
            (sym (length-selected mask (all_items comp.groups))),
      ))
      (complete_strvec-Returned g IsCounted (λ v. Unit) rank fuel node vec (count_steps g) ranked
        enough tt start)
  where
    start : IsCounted no_items
    start = record { all_of = refl; full_of = refl; partial_of = refl; unknown_of = refl }
