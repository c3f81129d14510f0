-- ===== src/Torero/Request/Splits.antt =====
-- Matches of an expression cut into what its items match.
use networking_projects.Base.{
  ℕ, ◌<◌, ◌≡◌, refl, sym, subst, ap, ◌∙◌, Bool, true, false, ◌==◌, nil_of_length, ==_of_eq, List,
  [], ◌∷◌, ◌++◌, arith, length, All,
}
use networking_projects.Torero.Request.{Item, one, literal, keep}
use networking_projects.Torero.Request.Expression.{Matches, goes_on, repeats}

abbrev pub kept : Bool → List ℕ → List ℕ → List ℕ
kept true run t = run ++ t
kept false run t = t

keep-kept : (b : Bool) (c : ℕ) (run t : List ℕ) → keep b c (kept b run t) ≡ kept b (c ∷ run) t
keep-kept true c run t = refl
keep-kept false c run t = refl

kept-one : (b : Bool) (c : ℕ) (t : List ℕ) → keep b c t ≡ kept b (c ∷ []) t
kept-one true c t = refl
kept-one false c t = refl

-- A match of an item and more: what the item matched, and the match of the rest.
pub record Split (i : Item) (items : List Item) (line group_text : List ℕ) : Type 0 where
  pub run : List ℕ
  pub rest : List ℕ
  pub rest_text : List ℕ
  pub is_line : line ≡ run ++ rest
  pub is_text : group_text ≡ kept i.captured run rest_text
  pub accepted : All (λ c. i.accepts c ≡ true) run
  pub some_run : 0 < length run
  pub once : i.repeated ≡ false → length run ≡ 1
  pub matched : Matches items rest rest_text

Split-more :
    {i : Item} {items : List Item} {line g : List ℕ} (c : ℕ)
    → i.repeated ≡ true
    → i.accepts c ≡ true
    → Split i items line g
    → Split i items (c ∷ line) (keep i.captured c g)
Split-more {i} c r a s = record {
  run = c ∷ s.run;
  rest = s.rest;
  rest_text = s.rest_text;
  is_line = ap (λ l. c ∷ l) s.is_line;
  is_text = ap (keep i.captured c) s.is_text ∙ keep-kept i.captured c s.run s.rest_text;
  accepted = (a, s.accepted);
  some_run = omega arith;
  once = λ f. absurd (cc);
  matched = s.matched;
}

pub Matches-Split :
    (i : Item) (items : List Item) (line g : List ℕ)
    → Matches (i ∷ items) line g
    → Split i items line g
Matches-Split i items line g (goes_on {c = c} {line = l} {group_text = t} a m) = record {
  run = c ∷ [];
  rest = l;
  rest_text = t;
  is_line = refl;
  is_text = kept-one i.captured c t;
  accepted = (a, tt);
  some_run = omega arith;
  once = λ f. refl;
  matched = m;
}
Matches-Split i items line g (repeats {c = c} r a m) =
    Split-more c r a (Matches-Split i items _ _ m)

pub one-Matches :
    (accepts : ℕ → Bool) (items : List Item) (line g : List ℕ)
    → Matches (one accepts ∷ items) line g
    → (c : ℕ) × (rest : List ℕ) × (line ≡ c ∷ rest) × (accepts c ≡ true) × Matches items rest g
one-Matches accepts items line g m = single (Matches-Split (one accepts) items line g m)
  where
    single :
        Split (one accepts) items line g
        → (c : ℕ) × (rest : List ℕ) × (line ≡ c ∷ rest) × (accepts c ≡ true) × Matches items rest g
    single s =
        elim s.run
            as (λ r.
              line ≡ r ++ s.rest
              → All (λ c. accepts c ≡ true) r
              → length r ≡ 1
              → (c : ℕ) × (rest : List ℕ) × (line ≡ c ∷ rest)
                × (accepts c ≡ true)
                × Matches items rest g) [
                  | [] ↦ λ e a l. absurd (omega arith)
                  | c ∷ more ↦ λ e a l. (
                    c,
                    s.rest,
                    e ∙ ap (λ x. c ∷ (x ++ s.rest)) (nil_of_length more (omega arith)),
                    a.0,
                    subst (Matches items s.rest) (sym s.is_text) s.matched,
                  )
                ]
          s.is_line s.accepted (s.once refl)

pub literal-Matches :
    (cs : List ℕ) (after : List Item) (line g : List ℕ)
    → Matches (literal cs after) line g
    → (rest : List ℕ) × (line ≡ cs ++ rest) × Matches after rest g
literal-Matches [] after line g m = (line, refl, m)
literal-Matches (c ∷ cs) after line g m =
    let (d, rest, is_line, same, m') = one-Matches (λ x. x == c) (literal cs after) line g m in
    let (rest', is_rest, m'') = literal-Matches cs after rest g m' in
    let c_same : d ≡ c = ground arith in
    (rest', is_line ∙ ap (λ x. x ∷ rest) c_same ∙ ap (λ x. c ∷ x) is_rest, m'')

-- The converses.
pub Matches-literal :
    (cs : List ℕ) (after : List Item) (rest g : List ℕ)
    → Matches after rest g
    → Matches (literal cs after) (cs ++ rest) g
Matches-literal [] after rest g m = m
Matches-literal (c ∷ cs) after rest g m =
    goes_on (==_of_eq c c refl) (Matches-literal cs after rest g m)

pub Matches-run :
    (i : Item) (items : List Item) (run rest t : List ℕ)
    → i.repeated ≡ true
    → All (λ c. i.accepts c ≡ true) run
    → 0 < length run
    → Matches items rest t
    → Matches (i ∷ items) (run ++ rest) (kept i.captured run t)
Matches-run i items [] rest t r a p m = absurd (omega arith)
Matches-run i items (c ∷ []) rest t r a p m =
    subst (Matches (i ∷ items) (c ∷ rest)) (kept-one i.captured c t) (goes_on a.0 m)
Matches-run i items (c ∷ d ∷ run) rest t r a p m =
    subst (Matches (i ∷ items) (c ∷ d ∷ (run ++ rest))) (keep-kept i.captured c (d ∷ run) t)
      (repeats r a.0 (Matches-run i items (d ∷ run) rest t r a.1 (omega arith) m))
