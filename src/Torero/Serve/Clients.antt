-- ===== src/Torero/Serve/Clients.antt =====
-- What the clients of torero-serve.cpp get, from the request to the closing of the connection.
use networking_projects.Base.{
  ℕ, ◌≤◌, ◌<◌, ◌≡◌, ◌≢◌, ◌⊎◌, inl, inr, refl, sym, ap, ◌∙◌, true, false, Option, none, some, List,
  [], ◌∷◌, ◌++◌, map, append-nil, append_assoc, arith, length, length-append, take, take_all, All,
}
use networking_projects.Torero.Pages.{
  Files, Finish, complete, throws, endless, Response, page_header, send_response,
}
use networking_projects.Torero.Pages.Lengths.{concat, Page, page_of, send_response-Sends}
use networking_projects.Torero.Request.{is_other, parse_request}
use networking_projects.Torero.Request.Messages.{request, parse_request-request}
use networking_projects.Torero.Socket.{
  Ending, returned, thrown, unfinished, send_data, Leaves, Takes, send_data-Leaves, send_data-uses,
}
use networking_projects.Torero.Serve.{
  Client, Visit, receive_data, send_messages, finish_with, send_all, go_on, close_after,
  handle_client, next_visit, consume_clients,
}

-- What was taken of some data, however the calls that send it end.
abbrev pub Takings : List ℕ → Ending × List ℕ → Type 0
Takings bytes sent = (left : List ℕ) × (sent.1 ++ left ≡ bytes) × Leaves sent.0 left

go_on-Takings :
    (bytes later : List ℕ) (sent : Ending × List ℕ) (next : List (Option ℕ) → Ending × List ℕ)
    → Takings bytes sent
    → ((rest : List (Option ℕ)) → Takings later (next rest))
    → Takings (bytes ++ later) (go_on sent next)
go_on-Takings bytes later (returned rest, wire) next (left, is_left, none_left) more =
    let (left', is_left', ends) = more rest in
    let all : wire ≡ bytes =
      sym (append-nil wire) ∙ ap (λ l. wire ++ l) (sym none_left) ∙ is_left in
    (
      left',
      append_assoc wire (next rest).1 left'
          ∙ ap (λ l. wire ++ l) is_left'
          ∙ ap (λ w. w ++ later) all,
      ends,
    )
go_on-Takings bytes later (thrown, wire) next (left, is_left, some_left) more = (
  left ++ later,
  sym (append_assoc wire left later) ∙ ap (λ w. w ++ later) is_left,
  omega (arith, length-append left later),
)
go_on-Takings bytes later (unfinished, wire) next (left, is_left, some_left) more = (
  left ++ later,
  sym (append_assoc wire left later) ∙ ap (λ w. w ++ later) is_left,
  omega (arith, length-append left later),
)

send_messages-Takings :
    (messages : List (List ℕ)) (answers : List (Option ℕ))
    → Takings (concat messages) (send_messages messages answers)
unfolding send_messages
send_messages-Takings [] answers = ([], refl, refl)
send_messages-Takings (message ∷ messages) answers =
    go_on-Takings message (concat messages) (send_data message answers) (send_messages messages)
      (send_data-Leaves message answers) (send_messages-Takings messages)

send_messages-returns :
    (messages : List (List ℕ)) (answers : List (Option ℕ))
    → All Takes answers
    → length (concat messages) ≤ length answers
    → (rest : List (Option ℕ)) × (send_messages messages answers ≡ (returned rest, concat messages))
unfolding send_messages
send_messages-returns [] answers takes enough = (answers, refl)
send_messages-returns (message ∷ messages) answers takes enough =
    let sizes = length-append message (concat messages) in
    let (rest, runs, more, used) = send_data-uses message answers takes (omega arith) in
    let (rest', runs') = send_messages-returns messages rest more (omega arith) in
    (rest', ap (λ r. go_on r (send_messages messages)) runs ∙ ap (λ r. (r.0, message ++ r.1)) runs')

-- What a visit left of the response: the connection is closed, nothing is left and the response is
-- complete; or it is not closed, and something is left or the response is not complete.
abbrev pub Served : Response → Visit → Type 0
Served response visit =
    (left : List ℕ) × (visit.wire ++ left ≡ concat response.0)
    × (((visit.is_closed ≡ true) × (left ≡ []) × (response.1 ≡ complete))
        ⊎ ((visit.is_closed ≡ false) × ((0 < length left) ⊎ (response.1 ≢ complete))))

close_after-Served :
    (messages : List (List ℕ)) (finish : Finish) (sent : Ending × List ℕ)
    → Takings (concat messages) sent
    → Served (messages, finish) (close_after (finish_with finish sent))
close_after-Served messages complete (returned rest, wire) (left, is_left, none_left) =
    (left, is_left, inl (refl, none_left, refl))
close_after-Served messages throws (returned rest, wire) (left, is_left, none_left) =
    (left, is_left, inr (refl, inr (λ e. cc)))
close_after-Served messages endless (returned rest, wire) (left, is_left, none_left) =
    (left, is_left, inr (refl, inr (λ e. cc)))
close_after-Served messages complete (thrown, wire) (left, is_left, some_left) =
    (left, is_left, inr (refl, inl some_left))
close_after-Served messages throws (thrown, wire) (left, is_left, some_left) =
    (left, is_left, inr (refl, inl some_left))
close_after-Served messages endless (thrown, wire) (left, is_left, some_left) =
    (left, is_left, inr (refl, inl some_left))
close_after-Served messages complete (unfinished, wire) (left, is_left, some_left) =
    (left, is_left, inr (refl, inl some_left))
close_after-Served messages throws (unfinished, wire) (left, is_left, some_left) =
    (left, is_left, inr (refl, inl some_left))
close_after-Served messages endless (unfinished, wire) (left, is_left, some_left) =
    (left, is_left, inr (refl, inl some_left))

close_after-next :
    (sent : Ending × List ℕ) (later : List Visit)
    → (close_after sent).is_closed ≡ true
    → next_visit (close_after sent) later ≡ close_after sent ∷ later
close_after-next (returned rest, wire) later e = refl
close_after-next (thrown, wire) later e = absurd (cc)
close_after-next (unfinished, wire) later e = absurd (cc)

module _ (files : Files) where
  -- The response that `handle_client` makes to what arrived.
  abbrev pub response_to : List ℕ → Response
  response_to received = send_response files (parse_request (take 2048 received))

  -- However the sends to a client and the calls of the file system end, its socket has taken the first
  -- bytes of the messages of the response to what arrived, in order. The connection is closed exactly
  -- if it has taken all of them and the response is complete: no call of the file system threw, and
  -- no file was to be sent that cannot be opened.
  pub handle_client-Served :
      (received : List ℕ) (answers : List (Option ℕ))
      → Served
          (response_to received)
          (handle_client files (record { arrived = some received; answers = answers }))
  unfolding handle_client receive_data send_all
  handle_client-Served received answers =
      close_after-Served (response_to received).0 (response_to received).1
        (send_messages (response_to received).0 answers)
        (send_messages-Takings (response_to received).0 answers)

  -- A client that asks for a target that is not empty and has no white space, in a request of at most
  -- 2048 bytes, gets the page that the target stands for and is then closed: the header with the
  -- length of the body, and the body. The conditions are that the target stands for a page: no call
  -- of the file system throws, a file that is to be sent can be opened and is as long as its size says,
  -- and what exists is a directory or a regular file; that each answer of the client's socket takes
  -- a byte or more; and that there are as many answers as bytes of the response.
  pub handle_client-page :
      (target headers : List ℕ) (page : Page) (answers : List (Option ℕ))
      → 0 < length target
      → All (λ c. is_other c ≡ true) target
      → length (request target headers) ≤ 2048
      → page_of files target ≡ some page
      → All Takes answers
      → length (concat (send_response files target).0) ≤ length answers
      → let visit =
          handle_client files
            (record { arrived = some (request target headers); answers = answers }) in
        let (status, content_type, body) = page in
        (visit.is_closed ≡ true)
        × (visit.wire ≡ page_header status content_type (length body) ++ body)
  unfolding handle_client receive_data send_all
  handle_client-page target headers page answers some_text solid fits is_page takes enough =
      let asked : parse_request (take 2048 (request target headers)) ≡ target =
        ap parse_request (take_all 2048 (request target headers) fits)
        ∙ parse_request-request target headers some_text solid in
      let response = send_response files target in
      let (rest, runs) = send_messages-returns response.0 answers takes enough in
      let (parts, is_response, is_body) = send_response-Sends files target page some_text is_page in
      let whole : close_after (
            send_all (send_response files (parse_request (take 2048 (request target headers))))
              answers)
          ≡ close_after (returned rest, concat response.0) =
        ap (λ r. close_after (send_all (send_response files r) answers)) asked
        ∙ ap (λ f. close_after (finish_with f (send_messages response.0 answers)))
            (ap (λ r. r.1) is_response)
        ∙ ap close_after runs in
      (
        ap (λ v. v.is_closed) whole,
        ap (λ v. v.wire) whole
            ∙ ap (λ r. concat r.0) is_response
            ∙ ap (λ b. page_header page.0 page.1 (length page.2) ++ b) is_body,
      )

  next_visit-closed :
      (client : Client) (later : List Visit)
      → (handle_client files client).is_closed ≡ true
      → next_visit (handle_client files client) later ≡ handle_client files client ∷ later
  unfolding handle_client receive_data send_all
  next_visit-closed client later closed = goes_on client.arrived closed
    where
      goes_on :
          (arrived : Option (List ℕ))
          → (handle_client files (record client { arrived = arrived })).is_closed ≡ true
          → next_visit (handle_client files (record client { arrived = arrived })) later
            ≡ handle_client files (record client { arrived = arrived }) ∷ later
      goes_on none e = absurd (cc)
      goes_on (some received) e =
          close_after-next
            (send_all (send_response files (parse_request (take 2048 received))) client.answers)
            later e

  -- A worker visits its clients in their order as long as each connection is closed at the end. When
  -- `recv` fails for a client, its visit is the last: that client gets nothing, and whatever clients
  -- come after it are not visited, since the exception ends the program.
  pub consume_clients-broken :
      (before : List Client) (broken : Client) (after : List Client)
      → All (λ c. (handle_client files c).is_closed ≡ true) before
      → broken.arrived ≡ none
      → consume_clients files (before ++ broken ∷ after)
        ≡ map (handle_client files) before
          ++ record { ending = thrown; wire = []; is_closed = false } ∷ []
  unfolding consume_clients handle_client receive_data
  consume_clients-broken [] broken after closed fails =
      ap
        (λ a.
          next_visit (handle_client files (record broken { arrived = a }))
            (consume_clients files after))
        fails
  consume_clients-broken (c ∷ before) broken after closed fails =
      next_visit-closed c (consume_clients files (before ++ broken ∷ after)) closed.0
      ∙ ap (λ l. handle_client files c ∷ l)
          (consume_clients-broken before broken after closed.1 fails)
