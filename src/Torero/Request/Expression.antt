-- ===== src/Torero/Request/Expression.antt =====
-- The meaning of a regular expression of torero-serve.cpp's kind, apart from the order in which
-- `regex_match` tries its repetitions.
use networking_projects.Base.{
  ℕ, ◌≡◌, refl, sym, subst, ap, ◌∙◌, ◌⊎◌, inl, inr, Bool, true, false, Option, none, some,
  some-injective, List, [], ◌∷◌, arith,
}
use networking_projects.Torero.Request.{Item, keep, keep?, or_else, regex_match}

-- The items match a line whole, with the text of the group.
pub data Matches : List Item → List ℕ → List ℕ → Type 0 where
  ends : Matches [] [] []
  goes_on :
      {i : Item} {items : List Item} {c : ℕ} {line group_text : List ℕ}
      → i.accepts c ≡ true
      → Matches items line group_text
      → Matches (i ∷ items) (c ∷ line) (keep i.captured c group_text)
  repeats :
      {i : Item} {items : List Item} {c : ℕ} {line group_text : List ℕ}
      → i.repeated ≡ true
      → i.accepts c ≡ true
      → Matches (i ∷ items) line group_text
      → Matches (i ∷ items) (c ∷ line) (keep i.captured c group_text)

-- What `regex_match` makes of an item and a byte, from whether the item accepts the byte, is
-- repeated and is captured.
abbrev tried : Bool → Bool → Bool → ℕ → Option (List ℕ) → Option (List ℕ) → Option (List ℕ)
tried false repeated captured c again onward = none
tried true false captured c again onward = keep? captured c onward
tried true true captured c again onward = keep? captured c (or_else again onward)

regex_match-tried :
    (i : Item) (items : List Item) (c : ℕ) (line : List ℕ)
    → regex_match (i ∷ items) (c ∷ line)
      ≡ tried
          (i.accepts c)
          i.repeated
          i.captured
          c
          (regex_match (i ∷ items) line)
          (regex_match items line)
unfolding regex_match
regex_match-tried i items c line = ground arith

tried-some :
    (accepted repeated captured : Bool) (c : ℕ) (again onward : Option (List ℕ)) (g : List ℕ)
    → tried accepted repeated captured c again onward ≡ some g
    → (accepted ≡ true)
      × (group_text : List ℕ) × (g ≡ keep captured c group_text)
      × (((repeated ≡ true) × (again ≡ some group_text)) ⊎ (onward ≡ some group_text))
tried-some false r k c again onward g e = absurd (cc)
tried-some true false k c again none g e = absurd (cc)
tried-some true false k c again (some t) g e = (refl, t, cc, inr refl)
tried-some true true k c none none g e = absurd (cc)
tried-some true true k c none (some t) g e = (refl, t, cc, inr refl)
tried-some true true k c (some t) onward g e = (refl, t, cc, inl (refl, refl))

tried-onward :
    (accepted repeated captured : Bool) (c : ℕ) (again onward : Option (List ℕ)) (g : List ℕ)
    → accepted ≡ true
    → onward ≡ some g
    → (t : List ℕ) × (tried accepted repeated captured c again onward ≡ some t)
tried-onward false r k c again onward g a e = absurd (cc)
tried-onward true false k c again onward g a e = (keep k c g, ap (keep? k c) e)
tried-onward true true k c none onward g a e = (keep k c g, ap (keep? k c) e)
tried-onward true true k c (some t) onward g a e = (keep k c t, refl)

tried-again :
    (accepted repeated captured : Bool) (c : ℕ) (again onward : Option (List ℕ)) (g : List ℕ)
    → accepted ≡ true
    → repeated ≡ true
    → again ≡ some g
    → tried accepted repeated captured c again onward ≡ some (keep captured c g)
tried-again a r k c again onward g accepted repeated e = rw (accepted, repeated, e) refl

pub regex_match-Matches :
    (items : List Item) (line group_text : List ℕ)
    → regex_match items line ≡ some group_text
    → Matches items line group_text
unfolding regex_match
regex_match-Matches [] [] g e = subst (λ t. Matches [] [] t) (some-injective e) ends
regex_match-Matches [] (c ∷ line) g e = absurd (cc)
regex_match-Matches (i ∷ items) [] g e = absurd (cc)
regex_match-Matches (i ∷ items) (c ∷ line) g e =
    let (accepted, t, is_kept, from) =
      tried-some (i.accepts c) i.repeated i.captured c (regex_match (i ∷ items) line)
        (regex_match items line) g (sym (regex_match-tried i items c line) ∙ e) in
    subst (λ x. Matches (i ∷ items) (c ∷ line) x) (sym is_kept)
      (elim from [
        | inl (again, m) ↦ repeats again accepted (regex_match-Matches (i ∷ items) line t m)
        | inr m ↦ goes_on accepted (regex_match-Matches items line t m)
      ])

-- A line that the items match is matched, though the text may be another one.
pub Matches-regex_match :
    {items : List Item} {line group_text : List ℕ}
    → Matches items line group_text
    → (found : List ℕ) × (regex_match items line ≡ some found)
unfolding regex_match
Matches-regex_match ends = ([], refl)
Matches-regex_match (goes_on {i} {items} {c} {line} accepted m) =
    let (g, e) = Matches-regex_match m in
    let (t, found) =
      tried-onward (i.accepts c) i.repeated i.captured c (regex_match (i ∷ items) line)
        (regex_match items line) g accepted e in
    (t, regex_match-tried i items c line ∙ found)
Matches-regex_match (repeats {i} {items} {c} {line} again accepted m) =
    let (g, e) = Matches-regex_match m in
    (
      keep i.captured c g,
      regex_match-tried i items c line
          ∙ tried-again (i.accepts c) i.repeated i.captured c (regex_match (i ∷ items) line)
              (regex_match items line) g accepted again e,
    )
