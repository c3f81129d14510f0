-- ===== src/Torero/Pages.antt =====
-- torero-serve.cpp: the response to a resource, as the messages handed to ClientSocket::sendData in
-- order. Messages to the terminal are left out.
pub mod Lengths
use networking_projects.Base.{
  ℕ, zero, suc, Option, none, some, Bool, true, false, ◌&&◌, ◌||◌, List, [], ◌∷◌, ◌++◌, ltb, ◌==◌,
  if◌then◌else◌, length, take, drop,
}
use networking_projects.Base.Decimal.{codes, to_string}
use networking_projects.Base.Paths.{same_bytes, extension}

-- What the file system tells of a path, `none` where the call throws: whether it exists and what it is,
-- the size of a file, and what a directory lists, with whether each name is a directory. `contents` is
-- what a stream reads of a file, `none` where the file cannot be opened.
pub record Files : Type 0 where
  pub exists : List ℕ → Option Bool
  pub is_directory : List ℕ → Option Bool
  pub is_regular_file : List ℕ → Option Bool
  pub file_size : List ℕ → Option ℕ
  pub contents : List ℕ → Option (List ℕ)
  pub entries : List ℕ → Option (List (List ℕ × Bool))

-- How a function that sends ends, if each of its sends returns: it returns, it throws, or it is in a
-- loop without end.
pub data Finish : Type 0 where
  complete throws endless : Finish

-- The messages that a function hands to `sendData`, and how it ends after them.
abbrev pub Response : Type 0
Response = List (List ℕ) × Finish

abbrev pub says : List ℕ → Response
says message = (message ∷ [], complete)

abbrev pub and_then : Response → Response → Response
and_then (messages, complete) later = (messages ++ later.0, later.1)
and_then (messages, throws) later = (messages, throws)
and_then (messages, endless) later = (messages, endless)

-- A call of the file system, which may throw, and what is done with its value.
abbrev pub told {ℓ} : {A : Type ℓ} → Option A → (A → Response) → Response
told none next = ([], throws)
told (some a) next = next a

abbrev pub newline : List ℕ
newline = 10 ∷ []

-- "\r\n"
abbrev pub line_end : List ℕ
line_end = 13 ∷ 10 ∷ []

-- A file is read at most 4096 bytes at a time.
abbrev pub buffer_size : ℕ
buffer_size = 4096

-- The loop `while (!file.eof())` of sendFile: a read that asks for more than is left sets the
-- end-of-file flag, and nothing is sent when nothing was read. The fuel bounds the number of reads.
unfoldable pub file_messages : ℕ → List ℕ → List (List ℕ)
file_messages zero contents = []
file_messages (suc fuel) contents =
    let rest = file_messages fuel (drop buffer_size contents) in
    if ltb (length contents) buffer_size
    then (if ltb 0 (length contents) then contents ∷ [] else [])
    else take buffer_size contents ∷ rest

unfoldable pub get_path_extension : List ℕ → List ℕ
unfolding extension
get_path_extension path =
    let ext = extension path in
    if same_bytes ext (codes ".html") || same_bytes ext (codes ".htm")
    then codes "text/html"
    else if same_bytes ext (codes ".css")
    then codes "text/css"
    else if same_bytes ext (codes ".js")
    then codes "application/javascript"
    else if same_bytes ext (codes ".png")
    then codes "image/png"
    else if same_bytes ext (codes ".jpg") || same_bytes ext (codes ".jpeg")
    then codes "image/jpeg"
    else if same_bytes ext (codes ".gif")
    then codes "image/gif"
    else if same_bytes ext (codes ".pdf")
    then codes "application/pdf"
    else if same_bytes ext (codes ".json")
    then codes "application/json"
    else if same_bytes ext (codes ".txt")
    then codes "text/plain"
    else codes "application/octet-stream"

unfoldable pub directory_line : List ℕ × Bool → List ℕ
directory_line (filename, is_dir) =
    let slash = if is_dir then codes "/" else [] in
    codes "<li><a href="
    ++ (34
        ∷ (filename
            ++ (slash
                ++ (34 ∷ (codes ">" ++ (filename ++ (slash ++ (codes "</a></li>" ++ newline))))))))

unfoldable pub directory_lines : List (List ℕ × Bool) → List ℕ
directory_lines [] = []
directory_lines (e ∷ es) = directory_line e ++ directory_lines es

-- The header of a page of a type and a length.
unfoldable pub page_header : List ℕ → List ℕ → ℕ → List ℕ
page_header status content_type size =
    codes "HTTP/1.0 "
    ++ (status
        ++ (line_end
            ++ (codes "Content-Type: "
                ++ (content_type
                    ++ (line_end
                        ++ (codes "Content-Length: "
                            ++ (to_string size ++ (line_end ++ line_end))))))))

-- A string literal becomes a span with its terminating zero byte.
unfoldable pub respond_with_400 : Response
respond_with_400 = says (codes "HTTP/1.0 400 BAD REQUEST" ++ (line_end ++ (line_end ++ (0 ∷ []))))

unfoldable pub not_found_html : List ℕ
not_found_html =
    codes "<html>"
    ++ (newline
        ++ (codes "<head>"
            ++ (newline
                ++ (codes "<title>Ruh-roh! Page not found!</title>"
                    ++ (newline
                        ++ (codes "</head>"
                            ++ (newline
                                ++ (codes "<body>"
                                    ++ (newline
                                        ++ (codes "404 Page Not Found! :'( :'( :'("
                                            ++ (newline
                                                ++ (codes "</body>"
                                                    ++ (newline
                                                        ++ (codes "</html>" ++ newline))))))))))))))

unfoldable pub respond_with_404 : Response
unfolding page_header not_found_html
respond_with_404 =
    and_then
      (says (page_header (codes "404 NOT FOUND") (codes "text/html") (length not_found_html)))
      (says not_found_html)

-- The page that lists a directory, by what it lists.
unfoldable pub generate_directory_html : List (List ℕ × Bool) → List ℕ → List ℕ
generate_directory_html entries resource =
    codes "<html>"
    ++ (newline
        ++ (codes "<body>"
            ++ (newline
                ++ (codes "<h1>Contents of "
                    ++ (resource
                        ++ (codes ":</h1>"
                            ++ (newline
                                ++ (codes "<ul id="
                                    ++ (34
                                        ∷ (codes "fileList"
                                            ++ (34
                                                ∷ (codes ">"
                                                    ++ (newline
                                                        ++ (directory_lines entries
                                                            ++ (codes "</ul>"
                                                            ++ (newline
                                                            ++ (codes "</body>"
                                                            ++ (newline
                                                            ++ (codes "</html>"
                                                            ++ newline)))))))))))))))))))

module _ (files : Files) where
  unfoldable pub send_ok_header : List ℕ → Response
  unfolding get_path_extension page_header
  send_ok_header file_path =
      told (files.file_size file_path)
        (λ file_size. says (page_header (codes "200 OK") (get_path_extension file_path) file_size))

  -- A stream that could not be opened never comes to the end of its file.
  unfoldable pub send_file : List ℕ → Response
  send_file file_path = elim (files.contents file_path) [
    | none ↦ ([], endless)
    | some contents ↦ (file_messages (suc (length contents)) contents, complete)
  ]

  unfoldable pub respond_with_file : List ℕ → Response
  unfolding send_ok_header send_file
  respond_with_file file_path = and_then (send_ok_header file_path) (send_file file_path)

  unfoldable pub respond_with_listing : List ℕ → List ℕ → Response
  unfolding page_header generate_directory_html
  respond_with_listing resource full_file_path = told (files.entries full_file_path) (λ entries.
      let html = generate_directory_html entries resource in
      and_then (says (page_header (codes "200 OK") (codes "text/html") (length html))) (says html))

  unfoldable pub respond_with_200 : List ℕ → List ℕ → Response
  unfolding respond_with_file respond_with_listing
  respond_with_200 resource full_file_path =
      let index = full_file_path ++ codes "/index.html" in
      told (files.is_directory full_file_path) (λ is_dir.
        if is_dir
        then told (files.exists index) (λ has_index.
          if has_index
          then respond_with_file index
          else respond_with_listing resource full_file_path)
        else told (files.is_regular_file full_file_path)
            (λ is_file. if is_file then respond_with_file full_file_path else ([], complete)))

  unfoldable pub send_response : List ℕ → Response
  unfolding respond_with_200 respond_with_400 respond_with_404
  send_response resource =
      let full_file_path = codes "WWW" ++ resource in
      if length resource == 0
      then respond_with_400
      else told (files.exists full_file_path)
          (λ found. if found then respond_with_200 resource full_file_path else respond_with_404)
