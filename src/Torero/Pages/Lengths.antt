-- ===== src/Torero/Pages/Lengths.antt =====
-- The pages that the server sends have the length that their header tells.
use networking_projects.Base.{
  ℕ, zero, suc, ◌==◌, if◌then◌else◌, ◌≡◌, ◌<◌, refl, ap, ◌∙◌, inl, inr, true, false, List, [], ◌∷◌,
  ◌++◌, append-nil, arith, ltb, length, take, drop, length-drop, take-append-drop, Bool-cases,
  le_of_ltb, Bool, Option, none, some, some-injective, subst,
}
use networking_projects.Base.Decimal.{codes}
use networking_projects.Torero.Pages.{
  Files, file_messages, buffer_size, page_header, get_path_extension, generate_directory_html,
  not_found_html, Response, complete, send_ok_header, send_file, respond_with_file,
  respond_with_listing, respond_with_200, respond_with_404, send_response,
}

abbrev pub concat : List (List ℕ) → List ℕ
concat [] = []
concat (c ∷ cs) = c ++ concat cs

concat-file_messages :
    (fuel : ℕ) (contents : List ℕ)
    → length contents < fuel
    → concat (file_messages fuel contents) ≡ contents
unfolding file_messages
concat-file_messages zero contents h = absurd (omega arith)
concat-file_messages (suc fuel) [] h = ground arith
concat-file_messages (suc fuel) (c ∷ cs) h = elim (Bool-cases (ltb (length (c ∷ cs)) buffer_size)) [
  | inl short ↦ ground (arith, append-nil (c ∷ cs))
  | inr long ↦ rw long (
      ap (λ l. take buffer_size (c ∷ cs) ++ l)
        (concat-file_messages fuel (drop buffer_size (c ∷ cs))
          (omega (arith, length-drop buffer_size (c ∷ cs), le_of_ltb _ _ long)))
      ∙ take-append-drop buffer_size (c ∷ cs))
]

-- A status, a type of contents and a body.
abbrev pub Page : Type 0
Page = List ℕ × List ℕ × List ℕ

-- The page of a file whose size is that of what is read of it.
abbrev sized_page : List ℕ → Option ℕ → Option (List ℕ) → Option Page
sized_page path none read = none
sized_page path (some size) none = none
sized_page path (some size) (some contents) =
    if size == length contents
    then some (codes "200 OK", get_path_extension path, contents)
    else none

abbrev pub file_page : Files → List ℕ → Option Page
file_page files path = sized_page path (files.file_size path) (files.contents path)

abbrev listing_page : List ℕ → Option (List (List ℕ × Bool)) → Option Page
listing_page resource none = none
listing_page resource (some entries) =
    some (codes "200 OK", codes "text/html", generate_directory_html entries resource)

-- A directory stands for its index.html, or else for its listing.
abbrev directory_page : Files → List ℕ → List ℕ → Option Bool → Option Page
directory_page files resource path none = none
directory_page files resource path (some true) = file_page files (path ++ codes "/index.html")
directory_page files resource path (some false) = listing_page resource (files.entries path)

abbrev regular_page : Files → List ℕ → Option Bool → Option Page
regular_page files path none = none
regular_page files path (some true) = file_page files path
regular_page files path (some false) = none

abbrev found_page : Files → List ℕ → List ℕ → Option Bool → Option Page
found_page files resource path none = none
found_page files resource path (some true) =
    directory_page files resource path (files.exists (path ++ codes "/index.html"))
found_page files resource path (some false) = regular_page files path (files.is_regular_file path)

abbrev existing_page : Files → List ℕ → List ℕ → Option Bool → Option Page
existing_page files resource path none = none
existing_page files resource path (some true) =
    found_page files resource path (files.is_directory path)
existing_page files resource path (some false) =
    some (codes "404 NOT FOUND", codes "text/html", not_found_html)

-- What a resource stands for: the file at its path below WWW, a directory's index.html or else its
-- listing, or the page for a path that does not exist. It stands for nothing where the path is neither,
-- where a call of the file system that it takes to find out throws, or where the file cannot be opened
-- or what is read of it is not as long as its size.
abbrev pub page_of : Files → List ℕ → Option Page
page_of files resource =
    existing_page files resource (codes "WWW" ++ resource) (files.exists (codes "WWW" ++ resource))

-- The messages are the page's header, with the length of its body, and then its body in parts; and
-- nothing is thrown and no loop is without end.
abbrev pub Sends : Page → Response → Type 0
Sends (status, content_type, body) response =
    (parts : List (List ℕ)) × (response
      ≡ (page_header status content_type (length body) ∷ parts, complete))
    × (concat parts ≡ body)

module _ (files : Files) where
  sized_page-Sends :
      (path : List ℕ) (size : Option ℕ) (read : Option (List ℕ)) (page : Page)
      → files.file_size path ≡ size
      → files.contents path ≡ read
      → sized_page path size read ≡ some page
      → Sends page (respond_with_file files path)
  unfolding respond_with_file send_ok_header send_file page_header
  sized_page-Sends path none read page s r e = absurd cc
  sized_page-Sends path (some size) none page s r e = absurd cc
  sized_page-Sends path (some size) (some contents) page s r e =
      elim (Bool-cases (size == length contents)) [
        | inl same ↦
            let fits : size ≡ length contents = ground (arith, same) in
            subst (λ p. Sends p (respond_with_file files path)) (some-injective (rw same at e))
              (
                file_messages (suc (length contents)) contents,
                rw (s, r, fits, respond_with_file, send_ok_header, send_file) refl,
                concat-file_messages (suc (length contents)) contents (omega arith),
              )
        | inr other ↦ absurd (let no : none ≡ some page = rw other at e in cc)
      ]

  file_page-Sends :
      (path : List ℕ) (page : Page)
      → file_page files path ≡ some page
      → Sends page (respond_with_file files path)
  file_page-Sends path page e =
      sized_page-Sends path (files.file_size path) (files.contents path) page refl refl e

  listing_page-Sends :
      (resource path : List ℕ) (entries : Option (List (List ℕ × Bool))) (page : Page)
      → files.entries path ≡ entries
      → listing_page resource entries ≡ some page
      → Sends page (respond_with_listing files resource path)
  unfolding respond_with_listing
  listing_page-Sends resource path none page l e = absurd cc
  listing_page-Sends resource path (some entries) page l e =
      let html = generate_directory_html entries resource in
      subst (λ p. Sends p (respond_with_listing files resource path)) (some-injective e)
        (html ∷ [], rw (l, respond_with_listing) refl, append-nil html)

  directory_page-Sends :
      (resource path : List ℕ) (has_index : Option Bool) (page : Page)
      → files.is_directory path ≡ some true
      → files.exists (path ++ codes "/index.html") ≡ has_index
      → directory_page files resource path has_index ≡ some page
      → Sends page (respond_with_200 files resource path)
  unfolding respond_with_200
  directory_page-Sends resource path none page d i e = absurd cc
  directory_page-Sends resource path (some true) page d i e =
      rw (d, i, respond_with_200) (file_page-Sends (path ++ codes "/index.html") page e)
  directory_page-Sends resource path (some false) page d i e =
      rw (d, i, respond_with_200)
        (listing_page-Sends resource path (files.entries path) page refl e)

  regular_page-Sends :
      (resource path : List ℕ) (is_file : Option Bool) (page : Page)
      → files.is_directory path ≡ some false
      → files.is_regular_file path ≡ is_file
      → regular_page files path is_file ≡ some page
      → Sends page (respond_with_200 files resource path)
  unfolding respond_with_200
  regular_page-Sends resource path none page d i e = absurd cc
  regular_page-Sends resource path (some true) page d i e =
      rw (d, i, respond_with_200) (file_page-Sends path page e)
  regular_page-Sends resource path (some false) page d i e = absurd cc

  found_page-Sends :
      (resource path : List ℕ) (is_dir : Option Bool) (page : Page)
      → files.is_directory path ≡ is_dir
      → found_page files resource path is_dir ≡ some page
      → Sends page (respond_with_200 files resource path)
  found_page-Sends resource path none page d e = absurd cc
  found_page-Sends resource path (some true) page d e =
      directory_page-Sends resource path (files.exists (path ++ codes "/index.html")) page d refl e
  found_page-Sends resource path (some false) page d e =
      regular_page-Sends resource path (files.is_regular_file path) page d refl e

  existing_page-Sends :
      (resource : List ℕ) (found : Option Bool) (page : Page)
      → 0 < length resource
      → files.exists (codes "WWW" ++ resource) ≡ found
      → existing_page files resource (codes "WWW" ++ resource) found ≡ some page
      → Sends page (send_response files resource)
  unfolding send_response respond_with_404
  existing_page-Sends resource none page h x e = absurd cc
  existing_page-Sends resource (some true) page h x e =
      let filled : (length resource == 0) ≡ false = ground (arith, h) in
      rw (filled, x, send_response)
        (found_page-Sends resource (codes "WWW" ++ resource)
          (files.is_directory (codes "WWW" ++ resource)) page refl e)
  existing_page-Sends resource (some false) page h x e =
      let filled : (length resource == 0) ≡ false = ground (arith, h) in
      subst (λ p. Sends p (send_response files resource)) (some-injective e)
        (not_found_html ∷ [], rw (filled, x, send_response) refl, append-nil not_found_html)

  -- For a resource that is not empty and stands for a page, the server sends the header of the page,
  -- with the length of its body, and then its body.
  pub send_response-Sends :
      (resource : List ℕ) (page : Page)
      → 0 < length resource
      → page_of files resource ≡ some page
      → Sends page (send_response files resource)
  send_response-Sends resource page h e =
      existing_page-Sends resource (files.exists (codes "WWW" ++ resource)) page h refl e
