-- ===== src/Torero/Request/Messages.antt =====
-- Requests as a client writes them, read by torero-serve.cpp's parseRequest.
use networking_projects.Base.{
  ℕ, ◌<◌, ◌≡◌, refl, sym, ap, subst, ◌∙◌, true, false, ◌==◌, List, [], ◌∷◌, ◌++◌, append_assoc,
  arith, length, All, All-append,
}
use networking_projects.Base.Zones.{All-map}
use networking_projects.Base.Decimal.{codes}
use networking_projects.Torero.Request.{is_other, first_line, parse_request}
use networking_projects.Torero.Request.Lines.{IsRequestLine, parse_request-target}

-- A request for a target, with what follows its first line.
abbrev pub request : List ℕ → List ℕ → List ℕ
request target headers = codes "GET " ++ (target ++ (codes " HTTP/1.1" ++ (13 ∷ 10 ∷ headers)))

not_return : (c : ℕ) → is_other c ≡ true → (c == 13) ≡ false
not_return c h = ground arith

first_line-append :
    (line headers : List ℕ)
    → All (λ c. (c == 13) ≡ false) line
    → first_line (line ++ (13 ∷ 10 ∷ headers)) ≡ line
unfolding first_line
first_line-append [] headers a = refl
first_line-append (c ∷ []) headers a = rw (a.0, first_line) refl
first_line-append (c ∷ d ∷ line) headers a =
    rw (a.0, first_line) (ap (λ l. c ∷ l) (first_line-append (d ∷ line) headers a.1))

-- A request for a target that is not empty and has no white space is read back: parseRequest answers
-- the target, whatever follows the first line.
pub parse_request-request :
    (target headers : List ℕ)
    → 0 < length target
    → All (λ c. is_other c ≡ true) target
    → parse_request (request target headers) ≡ target
parse_request-request target headers some_text solid =
    let line : List ℕ = codes "GET " ++ (target ++ codes " HTTP/1.1") in
    let is_first : first_line (request target headers) ≡ line =
      ap first_line (
        sym (
          ap (λ x. codes "GET " ++ x)
            (append_assoc target (codes " HTTP/1.1") (13 ∷ 10 ∷ headers))))
      ∙ first_line-append line headers (
          All-append (λ c. (c == 13) ≡ false) (codes "GET ") (target ++ codes " HTTP/1.1")
            (refl, (refl, (refl, (refl, tt))))
            (All-append (λ c. (c == 13) ≡ false) target (codes " HTTP/1.1")
              (All-map (λ c. is_other c ≡ true) (λ c. (c == 13) ≡ false) not_return target solid)
              (refl, (refl, (refl, (refl, (refl, (refl, (refl, (refl, (refl, tt))))))))))) in
    let is_line : IsRequestLine line target = record {
      before = 32 ∷ [];
      after = 32 ∷ [];
      major = b'1';
      minor = b'1';
      is_line = refl;
      before_space = (refl, tt);
      after_space = (refl, tt);
      target_solid = solid;
      digits = (refl, refl);
      lengths = (omega arith, some_text, omega arith);
    } in
    ((parse_request-target (request target headers)).0 target some_text).1
      (subst (λ l. IsRequestLine l target) (sym is_first) is_line)
