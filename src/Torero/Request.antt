-- ===== src/Torero/Request.antt =====
-- torero-serve.cpp: parseRequest, with the regular expression of its request line.
pub mod Expression
pub mod Splits
pub mod Lines
pub mod Messages
use networking_projects.Base.{
  ℕ, ◌≡◌, refl, Bool, true, false, ◌&&◌, ◌||◌, not, Option, none, some, List, [], ◌∷◌, ◌++◌, leb,
  ◌==◌,
}
use networking_projects.Base.Decimal.{codes}
use networking_projects.Base.Text.{is_space, is_digit}

-- One character of the expression, or a character class: what it accepts, whether a `+` follows it,
-- and whether it stands in the parentheses.
pub record Item : Type 0 where
  pub accepts : ℕ → Bool
  pub repeated : Bool
  pub captured : Bool

-- `[^\s]`, where `\s` is white space and `\d` below a digit, of the "C" locale
abbrev pub is_other : ℕ → Bool
is_other c = not (is_space c)

abbrev pub one : (ℕ → Bool) → Item
one accepts = record { accepts = accepts; repeated = false; captured = false }

abbrev pub many : (ℕ → Bool) → Item
many accepts = record { accepts = accepts; repeated = true; captured = false }

abbrev pub group : (ℕ → Bool) → Item
group accepts = record { accepts = accepts; repeated = true; captured = true }

abbrev pub literal : List ℕ → List Item → List Item
literal [] after = after
literal (c ∷ cs) after = one (λ d. d == c) ∷ literal cs after

-- `GET\s+([^\s]+)\s+HTTP\/\d\.\d`
unfoldable pub request_line : List Item
request_line = literal (codes "GET") (
    many is_space
    ∷ group is_other
    ∷ many is_space
    ∷ literal (codes "HTTP/") (one is_digit ∷ one (λ d. d == b'.') ∷ one is_digit ∷ []))

-- What a byte adds to the text of the group.
abbrev pub keep : Bool → ℕ → List ℕ → List ℕ
keep true c group_text = c ∷ group_text
keep false c group_text = group_text

abbrev pub keep? : Bool → ℕ → Option (List ℕ) → Option (List ℕ)
keep? captured c none = none
keep? captured c (some group_text) = some (keep captured c group_text)

-- A repetition is tried before what follows it.
abbrev pub or_else : Option (List ℕ) → Option (List ℕ) → Option (List ℕ)
or_else none second = second
or_else (some group_text) second = some group_text

-- `std::regex_match` of a whole line: the text of the group.
unfoldable pub regex_match : List Item → List ℕ → Option (List ℕ)
regex_match [] [] = some []
regex_match [] (c ∷ line) = none
regex_match (i ∷ items) [] = none
regex_match (i ∷ items) (c ∷ line) = elim (i.accepts c) [
  | false ↦ none
  | true ↦ elim i.repeated [
    | false ↦ keep? i.captured c (regex_match items line)
    | true ↦ keep? i.captured c (or_else (regex_match (i ∷ items) line) (regex_match items line))
  ]
]

-- `find("\r\n")` and `substr`: the bytes before the first "\r\n", or all of them.
unfoldable pub first_line : List ℕ → List ℕ
first_line [] = []
first_line (c ∷ []) = c ∷ []
first_line (c ∷ d ∷ message) = elim ((c == 13) && (d == 10)) [
  | true ↦ []
  | false ↦ c ∷ first_line (d ∷ message)
]

-- `results.size()` is 2 after a match, one more than the groups of the expression.
unfoldable pub parse_request : List ℕ → List ℕ
unfolding regex_match first_line request_line
parse_request http_request_message =
    elim (regex_match request_line (first_line http_request_message)) [
      | none ↦ []
      | some resource ↦ resource
    ]

test : parse_request (codes "GET /a HTTP/1.1" ++ (13 ∷ 10 ∷ codes "Host: x")) ≡ codes "/a"
unfolding parse_request
test = refl
