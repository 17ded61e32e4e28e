-- ===== src/Completion/Words.antt =====
-- What completion proposes for the last string, in grammars without a lexer: src/complete.c,
-- src/node_str.c.
use mathlib.Core.Path.{subst}
use libecoli.Base.{
  ℕ, suc, zero, ◌-◌, ◌<◌, ◌≡◌, ◌≢◌, ◌⊎◌, inl, inr, refl, sym, ◌∙◌, ap, Bytes, true, none, some, [],
  ◌∷◌, ◌++◌, All, All-append, length, drop, take, take-drop_rest, arith,
}
use libecoli.Strvec.{Strvec, ndup}
use libecoli.Str.{str_startswith}
use libecoli.Str.Prefix.{IsText, str_startswith_iff}
use libecoli.Node.{Grammar, sh_lex}
use libecoli.Complete.{unknown, full, Item, Comp, comp_item, complete_strvec, is_unknown, no_items}
use libecoli.Total.{IsRanked}
use libecoli.Completion.Clean.{HasTails}
use libecoli.Completion.Methods.{Steps}
use libecoli.Completion.Safe.{Returned, complete_strvec-Returned}
use libecoli.Completion.Added.{all_items, add_item-Added}

-- The last string, if there is one, is `w`.
abbrev pub EndsIn : Bytes → Strvec → Type 0
EndsIn w [] = Unit
EndsIn w (e ∷ []) = e.str ≡ w
EndsIn w (e ∷ d ∷ vec) = EndsIn w (d ∷ vec)

-- An item without strings for a token that cannot be completed, or `w` with what completes it.
abbrev pub IsCompletion : Bytes → Item → Type 0
IsCompletion w item =
    ((item.type ≡ unknown) × (item.str ≡ none) × (item.completion ≡ none))
    ⊎ ((item.type ≡ full)
        × ((rest : Bytes) × (item.current ≡ some w)
            × (item.str ≡ some (w ++ rest))
            × (item.completion ≡ some rest)))

EndsIn-drop : (w : Bytes) (vec : Strvec) (i : ℕ) → EndsIn w vec → EndsIn w (drop i vec)
EndsIn-drop w vec zero h = h
EndsIn-drop w [] (suc i) h = h
EndsIn-drop w (e ∷ []) (suc zero) h = tt
EndsIn-drop w (e ∷ []) (suc (suc i)) h = tt
EndsIn-drop w (e ∷ d ∷ vec) (suc i) h = EndsIn-drop w (d ∷ vec) i h

EndsIn-HasTails : (w : Bytes) → HasTails (EndsIn w)
unfolding ndup
EndsIn-HasTails w vec v i r e = subst (EndsIn w) (same ∙ whole) (EndsIn-drop w vec i r)
  where
    same : drop i vec ≡ take (length vec - i) (drop i vec)
    same = sym (take-drop_rest i vec)

    whole : take (length vec - i) (drop i vec) ≡ v
    whole = ground (arith, e)

drop-append : (w rest : Bytes) → drop (length w) (w ++ rest) ≡ rest
drop-append [] rest = refl
drop-append (c ∷ w) rest = drop-append w rest

comp_item-unknown :
    (w : Bytes) (n : ℕ) (item : Item)
    → comp_item n unknown none none ≡ some item
    → IsCompletion w item
unfolding comp_item is_unknown
comp_item-unknown w n item e = inl (ground arith)

comp_item-inv :
    (w string : Bytes) (n : ℕ) (item : Item)
    → comp_item n full (some w) (some string) ≡ some item
    → (str_startswith string w ≡ true)
      × (item.type ≡ full)
      × (item.current ≡ some w)
      × (item.str ≡ some string)
      × (item.completion ≡ some (drop (length w) string))
unfolding comp_item is_unknown
comp_item-inv w string n item e = ground arith

comp_item-full :
    (w string : Bytes) (n : ℕ) (item : Item)
    → IsText w
    → comp_item n full (some w) (some string) ≡ some item
    → IsCompletion w item
comp_item-full w string n item text e =
    let (begins, type, current, str, completion) = comp_item-inv w string n item e in
    let (rest, eq) = (str_startswith_iff string w text).0 begins in
    inr (
      type,
      (
        rest,
        current,
        str ∙ ap some eq,
        completion ∙ ap (λ s. some (drop (length w) s)) eq ∙ ap some (drop-append w rest),
      ),
    )

word_steps :
    (g : Grammar) (w : Bytes)
    → IsText w
    → ((n child : ℕ) → g.node n ≢ sh_lex (some child))
    → Steps g (λ comp. All (IsCompletion w) (all_items comp.groups)) (EndsIn w)
word_steps g w text no_lexer = record {
  tails = EndsIn-HasTails w;
  on_unknown = λ comp c path self grp p e.
      let (item, k, add) = add_item-Added comp c path self grp unknown none none e in
      rw (add.0) (more comp item p (comp_item-unknown w comp.count item k));
  on_str = λ comp c path self grp e string r p eq.
      let (item, k, add) = add_item-Added comp c path self grp full (some e.str) (some string) eq in
      rw (add.0) (more comp item p (comp_item-full w string comp.count item text (rw r at k)));
  on_tokens = λ n child vec e. absurd (no_lexer n child e);
  on_quotes = λ n child known q comp groups e p k. absurd (no_lexer n child e);
}
  where
    more :
        (comp : Comp) (item : Item)
        → All (IsCompletion w) (all_items comp.groups)
        → IsCompletion w item
        → All (IsCompletion w) (all_items comp.groups ++ (item ∷ []))
    more comp item p q = All-append (IsCompletion w) (all_items comp.groups) (item ∷ []) p (q, tt)

-- In a grammar without cycles and without a sh_lex node, with enough fuel, ec_complete_strvec of
-- strings whose last is `w` returns NULL or items of two kinds: unknown ones without strings, and
-- full ones whose string is `w` followed by the characters that they add.
pub complete_strvec-IsCompletion :
    (g : Grammar) (rank : ℕ → ℕ) (fuel node : ℕ) (vec : Strvec) (w : Bytes)
    → IsRanked g rank
    → rank node < fuel
    → ((n child : ℕ) → g.node n ≢ sh_lex (some child))
    → IsText w
    → EndsIn w vec
    → Returned
        (λ comp. All (IsCompletion w) (all_items comp.groups))
        (complete_strvec g fuel node vec)
unfolding no_items
complete_strvec-IsCompletion g rank fuel node vec w ranked enough no_lexer text last =
    complete_strvec-Returned g _ (EndsIn w) rank fuel node vec (word_steps g w text no_lexer) ranked
      enough last nothing
  where
    nothing : All (IsCompletion w) (all_items no_items.groups)
    nothing = tt
