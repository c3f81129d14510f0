-- ===== src/Torero/ServeTests.antt =====
-- Requests to the web server on concrete inputs.
use networking_projects.Base.{
  ℕ, zero, suc, ◌≡◌, refl, true, false, Option, none, some, List, [], ◌∷◌, ◌++◌, length, arith,
  replicate, All, ◌≤◌,
}
use networking_projects.Base.Decimal.{codes, to_string}
use networking_projects.Base.Paths.{extension, filename, name_extension, from_dot, has_byte}
use networking_projects.Torero.Pages.{
  Files, page_header, send_response, respond_with_200, send_ok_header, send_file, file_messages,
  get_path_extension,
}
use networking_projects.Torero.Pages.Lengths.{concat, Page, page_of}
use networking_projects.Torero.Request.{parse_request, first_line}
use networking_projects.Torero.Request.Lines.{Answers, parse_request-target}
use networking_projects.Torero.Request.Messages.{request}
use networking_projects.Torero.Socket.{Takes, thrown}
use networking_projects.Torero.Serve.{Client, handle_client, consume_clients}
use networking_projects.Torero.Serve.Clients.{
  Served, response_to, handle_client-Served, handle_client-page, consume_clients-broken,
}

abbrev plain : List ℕ
plain = request (codes "/a.css") []

two_spaces : parse_request (codes "GET  /a b HTTP/1.1") ≡ []
unfolding parse_request
two_spaces = refl

many_spaces : parse_request (codes "GET   /a   HTTP/1.0") ≡ codes "/a"
unfolding parse_request
many_spaces = refl

parse_request-target_example : Answers (first_line plain) (parse_request plain)
parse_request-target_example = parse_request-target plain

abbrev site : Files
site = record {
  exists = λ p. some true;
  is_directory = λ p. some false;
  is_regular_file = λ p. some true;
  file_size = λ p. some 2;
  contents = λ p. some (1 ∷ 2 ∷ []);
  entries = λ p. none;
}

abbrev css_page : Page
css_page = (codes "200 OK", codes "text/css", 1 ∷ 2 ∷ [])

is_css_page : page_of site (codes "/a.css") ≡ some css_page
unfolding get_path_extension extension filename name_extension from_dot has_byte
is_css_page = refl

abbrev takers : List (Option ℕ)
takers = replicate 80 (some 100)

handle_client-Served_example :
    Served
      (response_to site plain)
      (handle_client site (record { arrived = some plain; answers = takers }))
handle_client-Served_example = handle_client-Served site plain takers

takers-Takes : All Takes takers
takers-Takes = go 80
  where
    go : (n : ℕ) → All Takes (replicate n (some 100))
    go zero = tt
    go (suc n) = (omega arith, go n)

enough_takers : length (concat (send_response site (codes "/a.css")).0) ≤ length takers
unfolding send_response respond_with_200 send_ok_header send_file file_messages get_path_extension
    page_header to_string extension filename name_extension from_dot has_byte
enough_takers = omega arith

handle_client-page_example :
    let visit = handle_client site (record { arrived = some plain; answers = takers }) in
    (visit.is_closed ≡ true)
    × (visit.wire ≡ page_header (codes "200 OK") (codes "text/css") 2 ++ (1 ∷ 2 ∷ []))
handle_client-page_example =
    handle_client-page site (codes "/a.css") [] css_page takers (omega arith)
      (refl, (refl, (refl, (refl, (refl, (refl, tt)))))) (omega arith) is_css_page takers-Takes
      enough_takers

abbrev hung_up : Client
hung_up = record { arrived = none; answers = [] }

abbrev first_client : Client
first_client = record { arrived = some plain; answers = takers }

first_client_closed : (handle_client site first_client).is_closed ≡ true
first_client_closed =
    (handle_client-page site (codes "/a.css") [] css_page takers (omega arith)
      (refl, (refl, (refl, (refl, (refl, (refl, tt)))))) (omega arith) is_css_page takers-Takes
      enough_takers).0

consume_clients-broken_example :
    consume_clients site (first_client ∷ hung_up ∷ first_client ∷ [])
    ≡ handle_client site first_client
      ∷ record { ending = thrown; wire = []; is_closed = false }
      ∷ []
consume_clients-broken_example =
    consume_clients-broken site (first_client ∷ []) hung_up (first_client ∷ [])
      (first_client_closed, tt) refl
