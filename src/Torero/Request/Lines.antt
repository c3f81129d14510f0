-- ===== src/Torero/Request/Lines.antt =====
-- The request lines that torero-serve.cpp's expression describes, and what parseRequest answers.
use networking_projects.Base.{
  ℕ, ◌<◌, ◌≡◌, refl, sym, subst, ap, ◌∙◌, inl, inr, Bool, true, false, not, ◌==◌, Option, none,
  some, Option-cases, List, [], ◌∷◌, ◌++◌, append-nil, drop, arith, length, All,
}
use networking_projects.Base.Decimal.{codes}
use networking_projects.Base.Text.{is_space, is_digit}
use networking_projects.Torero.Request.{
  is_other, one, many, group, request_line, regex_match, first_line, parse_request,
}
use networking_projects.Torero.Request.Expression.{
  Matches, ends, goes_on, regex_match-Matches, Matches-regex_match,
}
use networking_projects.Torero.Request.Splits.{
  Matches-Split, one-Matches, literal-Matches, Matches-literal, Matches-run,
}

-- A request line: "GET", white space, the target, white space, and the version.
pub record IsRequestLine (line target : List ℕ) : Type 0 where
  pub before : List ℕ
  pub after : List ℕ
  pub major : ℕ
  pub minor : ℕ
  pub is_line :
      line
      ≡ codes "GET"
        ++ (before ++ (target ++ (after ++ (codes "HTTP/" ++ (major ∷ b'.' ∷ minor ∷ [])))))
  pub before_space : All (λ c. is_space c ≡ true) before
  pub after_space : All (λ c. is_space c ≡ true) after
  pub target_solid : All (λ c. is_other c ≡ true) target
  pub digits : (is_digit major ≡ true) × (is_digit minor ≡ true)
  pub lengths : (0 < length before) × (0 < length target) × (0 < length after)

-- What follows a run of bytes starts with a byte of another kind.
abbrev Stops : (ℕ → Bool) → List ℕ → Type 0
Stops p [] = ⊥
Stops p (c ∷ line) = p c ≡ false

Stops-append :
    (p q : ℕ → Bool) (run line : List ℕ)
    → ((c : ℕ) → q c ≡ true → p c ≡ false)
    → All (λ c. q c ≡ true) run
    → 0 < length run
    → Stops p (run ++ line)
Stops-append p q [] line apart a h = absurd (omega arith)
Stops-append p q (c ∷ run) line apart a h = apart c a.0

-- A run of bytes and what follows it are told by the line.
run_unique :
    (p : ℕ → Bool) (run run' line line' : List ℕ)
    → All (λ c. p c ≡ true) run
    → All (λ c. p c ≡ true) run'
    → Stops p line
    → Stops p line'
    → run ++ line ≡ run' ++ line'
    → (run ≡ run') × (line ≡ line')
run_unique p [] [] line line' a a' s s' e = (refl, e)
run_unique p [] (c ∷ run') [] line' a a' s s' e = absurd s
run_unique p [] (c ∷ run') (d ∷ line) line' a a' s s' e = absurd (cc (a'.0))
run_unique p (c ∷ run) [] line [] a a' s s' e = absurd s'
run_unique p (c ∷ run) [] line (d ∷ line') a a' s s' e = absurd (cc (a.0))
run_unique p (c ∷ run) (d ∷ run') line line' a a' s s' e =
    let same : c ≡ d = cc in
    let rest : run ++ line ≡ run' ++ line' = cc in
    let (runs, lines) = run_unique p run run' line line' a.1 a'.1 s s' rest in (cc, lines)

false_of_not : (b : Bool) → not b ≡ true → b ≡ false
false_of_not true e = absurd (cc)
false_of_not false e = refl

IsRequestLine-unique :
    (line target other : List ℕ)
    → IsRequestLine line target
    → IsRequestLine line other
    → target ≡ other
IsRequestLine-unique line target other r s =
    let solid : (c : ℕ) → is_other c ≡ true → is_space c ≡ false = λ c. false_of_not (is_space c) in
    let blank : (c : ℕ) → is_space c ≡ true → is_other c ≡ false = λ c. ap not in
    let whole : 71
          ∷ 69
          ∷ 84
          ∷ (r.before
              ++ (target ++ (r.after ++ (codes "HTTP/" ++ (r.major ∷ b'.' ∷ r.minor ∷ [])))))
        ≡ 71
          ∷ 69
          ∷ 84
          ∷ (s.before
              ++ (other ++ (s.after ++ (codes "HTTP/" ++ (s.major ∷ b'.' ∷ s.minor ∷ []))))) =
      sym r.is_line ∙ s.is_line in
    let (same_before, from_target) =
      run_unique is_space r.before s.before _ _ r.before_space s.before_space
        (Stops-append is_space is_other target _ solid r.target_solid r.lengths.1)
        (Stops-append is_space is_other other _ solid s.target_solid s.lengths.1)
        (ap (drop 3) whole) in
    (run_unique is_other target other _ _ r.target_solid s.target_solid
      (Stops-append is_other is_space r.after _ blank r.after_space r.lengths.2)
      (Stops-append is_other is_space s.after _ blank s.after_space s.lengths.2) from_target).0

IsRequestLine-Matches :
    (line target : List ℕ) → IsRequestLine line target → Matches request_line line target
unfolding request_line
IsRequestLine-Matches line target r =
    let version : Matches (one is_digit ∷ one (λ d. d == b'.') ∷ one is_digit ∷ [])
        (r.major ∷ b'.' ∷ r.minor ∷ []) [] =
      goes_on r.digits.0 (goes_on refl (goes_on r.digits.1 ends)) in
    let http = Matches-literal (codes "HTTP/") _ _ _ version in
    let from_after =
      Matches-run (many is_space) _ r.after _ _ refl r.after_space r.lengths.2 http in
    let from_target =
      Matches-run (group is_other) _ target _ _ refl r.target_solid r.lengths.1 from_after in
    let from_before =
      Matches-run (many is_space) _ r.before _ _ refl r.before_space r.lengths.0 from_target in
    let all = Matches-literal (codes "GET") _ _ _ from_before in
    subst (λ l. Matches request_line l target) (sym r.is_line)
      (subst (Matches request_line _) (append-nil target) all)

Matches-nil : (line target : List ℕ) → Matches [] line target → (line ≡ []) × (target ≡ [])
Matches-nil line target ends = (refl, refl)

Matches-IsRequestLine :
    (line target : List ℕ) → Matches request_line line target → IsRequestLine line target
unfolding request_line
Matches-IsRequestLine line target m =
    let (l₁, is₁, m₁) = literal-Matches (codes "GET") _ line target m in
    let before = Matches-Split _ _ l₁ target m₁ in
    let text = Matches-Split _ _ before.rest before.rest_text before.matched in
    let after = Matches-Split _ _ text.rest text.rest_text text.matched in
    let (l₂, is₂, m₂) =
      literal-Matches (codes "HTTP/") _ after.rest after.rest_text after.matched in
    let (major, l₃, is₃, d, m₃) = one-Matches _ _ l₂ _ m₂ in
    let (dot, l₄, is₄, is_dot, m₄) = one-Matches _ _ l₃ _ m₃ in
    let (minor, l₅, is₅, d', m₅) = one-Matches _ _ l₄ _ m₄ in
    let (no_line, no_text) = Matches-nil l₅ _ m₅ in
    let is_target : target ≡ text.run =
      before.is_text
      ∙ text.is_text
      ∙ ap (λ x. text.run ++ x) (after.is_text ∙ no_text)
      ∙ append-nil text.run in
    let is_after : after.rest ≡ codes "HTTP/" ++ (major ∷ b'.' ∷ minor ∷ []) =
      let same_dot : dot ≡ b'.' = ground arith in
      is₂
      ∙ ap (λ x. codes "HTTP/" ++ x)
          (is₃
            ∙ ap (λ x. major ∷ x)
                (is₄
                  ∙ ap (λ x. x ∷ l₄) same_dot
                  ∙ ap (λ x. b'.' ∷ x) (is₅ ∙ ap (λ x. minor ∷ x) no_line))) in
    let from_target : before.rest
        ≡ target ++ (after.run ++ (codes "HTTP/" ++ (major ∷ b'.' ∷ minor ∷ []))) =
      text.is_line
      ∙ ap (λ x. x ++ text.rest) (sym is_target)
      ∙ ap (λ x. target ++ x) (after.is_line ∙ ap (λ x. after.run ++ x) is_after) in
    record {
      before = before.run;
      after = after.run;
      major = major;
      minor = minor;
      is_line =
          is₁ ∙ ap (λ x. codes "GET" ++ x) (before.is_line ∙ ap (λ x. before.run ++ x) from_target);
      before_space = before.accepted;
      after_space = after.accepted;
      target_solid = subst (All (λ c. is_other c ≡ true)) (sym is_target) text.accepted;
      digits = (d, d');
      lengths = (
        before.some_run,
        subst (λ x. 0 < length x) (sym is_target) text.some_run,
        after.some_run,
      );
    }

-- The text of the group, or nothing where the line is not matched.
abbrev text_of : Option (List ℕ) → List ℕ
text_of none = []
text_of (some resource) = resource

parse_request-text_of :
    (message : List ℕ)
    → parse_request message ≡ text_of (regex_match request_line (first_line message))
unfolding parse_request
parse_request-text_of message = ground arith

-- A text is the target of the line, or nothing where the line is no request line.
abbrev pub Answers : List ℕ → List ℕ → Type 0
Answers line resource =
    ((target : List ℕ)
      → 0 < length target
      → (resource ≡ target → IsRequestLine line target)
        × (IsRequestLine line target → resource ≡ target))
    × (((target : List ℕ) → ¬ IsRequestLine line target) → resource ≡ [])

none-Answers : (line : List ℕ) → regex_match request_line line ≡ none → Answers line []
none-Answers line e = (
  λ target some_text. (
    λ same. absurd (omega (arith, ap length same)),
    λ r. absurd (let (found, e') = Matches-regex_match (IsRequestLine-Matches line target r) in cc),
  ),
  λ no_line. refl,
)

some-Answers :
    (line found : List ℕ) → regex_match request_line line ≡ some found → Answers line found
some-Answers line found e =
    let r = Matches-IsRequestLine line found (regex_match-Matches request_line line found e) in
    (
      λ target some_text. (
        λ same. subst (IsRequestLine line) same r,
        λ r'. IsRequestLine-unique line found target r r',
      ),
      λ no_line. absurd (no_line found r),
    )

-- A text that is not empty is what parseRequest answers to a message exactly if the first line of the
-- message is a request line with that text as its target. To a message whose first line is no request
-- line, whatever the target, it answers with the empty text.
pub parse_request-target :
    (message : List ℕ)
    → ((target : List ℕ)
        → 0 < length target
        → (parse_request message ≡ target → IsRequestLine (first_line message) target)
          × (IsRequestLine (first_line message) target → parse_request message ≡ target))
      × (((target : List ℕ) → ¬ IsRequestLine (first_line message) target)
          → parse_request message ≡ [])
parse_request-target message = elim (Option-cases (regex_match request_line (first_line message))) [
  | inl e ↦
      subst (Answers (first_line message)) (sym (parse_request-text_of message ∙ ap text_of e))
        (none-Answers (first_line message) e)
  | inr (found, e) ↦
      subst (Answers (first_line message)) (sym (parse_request-text_of message ∙ ap text_of e))
        (some-Answers (first_line message) found e)
]
