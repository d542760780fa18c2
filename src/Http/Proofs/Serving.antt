-- ===== src/Http/Proofs/Serving.antt =====
-- HandlerHttpService from the bytes of a request to the bytes of its answer, for requests of files.
use linux_advance.Base.{
  ℕ, suc, ◌+◌, ◌<◌, ◌^◌, take, take-append, ◌≡◌, refl, sym, ap, ap₂, ◌∙◌, subst, Bool, true, false,
  Option, none, some, List, [], ◌∷◌, ◌++◌, ◌==◌, if◌then◌else◌, is_empty, length, drop, append-nil,
  All, arith, Bool-cases, Option-cases, inl, inr,
}
use linux_advance.Base.Monad.{Result, ok, Goes}
use linux_advance.Base.Int.{to_int-small}
use linux_advance.Base.Text.{Text, codes, text_eq}
use linux_advance.Base.Text.Decimal.{to_string}
use linux_advance.Base.Text.Find.{Lacks}
use linux_advance.Base.TextMap.{TextMap, lookup, assign, value_or}
use linux_advance.Http.Request.{
  Request, new_request, sep, parse_req_line, parse_headers, deserialize, is_exec,
}
use linux_advance.Http.Response.{
  Response, serialize, header_text, status_line, add_header as add_response_header,
}
use linux_advance.Http.Session.{Moment}
use linux_advance.Http.Service.{
  Service, Files, Entry, no_file, directory, regular, read_entry, read_size, read_file_request,
  not_found, found, serve_content, serve_file, file_branch, respond, desc_of, mime_of,
  handler_http_service,
}
use linux_advance.Http.Proofs.Lines.{block, IsLine, deserialize-block}
use linux_advance.Http.Proofs.Words.{IsWord}
use linux_advance.Http.Proofs.Asked.{
  Asks, site_path, suffix_of, parse_headers-Asks, parse_req_line-Asks,
}

abbrev known_desc : Service → ℕ → Text
known_desc s code = value_or (lookup (to_string code) s.status_desc) []

abbrev known_mime : Service → Text → Text
known_mime s suffix = value_or (lookup suffix s.mime_type) []

-- What is read from an entry.
abbrev pub content_of : Entry → Text
content_of no_file = []
content_of directory = []
content_of (regular content) = content

-- An entry that can be read, or does not open: no directory, and of a size that fits an int.
abbrev pub IsReadable : Entry → Type 0
IsReadable no_file = Unit
IsReadable directory = ⊥
IsReadable (regular content) = length content < 2 ^ 31

-- A status, a type and a content.
abbrev missing : Files → Service → ℕ × Text × Text
missing files s = (404, known_mime s (codes ".html"), content_of (files (codes "wwwroot/404.html")))

-- What is to be answered to a request for this path: the file, unless it cannot be opened or is empty.
abbrev pub file_reply : Files → Service → Text → ℕ × Text × Text
file_reply files s path =
    let content = content_of (files path) in
    if is_empty content then missing files s else (200, known_mime s (suffix_of path), content)

-- And its bytes.
unfoldable pub reply_text : (TextMap Text → List (Text × Text)) → Service → ℕ × Text × Text → Text
reply_text walk s (code, type, content) =
    status_line code (known_desc s code)
    ++ (sep
        ++ (header_text (
              walk (
                (codes "Content-Length", to_string (length content))
                ∷ ((codes "Content-Type", type) ∷ [])))
            ++ (sep ++ content)))

-- The state behind an answer: only the two maps of the configuration may have grown.
abbrev SameSite : Service → Service → Type 0
SameSite s t = (t.funcs ≡ s.funcs) × (t.sessions ≡ s.sessions) × (t.number ≡ s.number)

abbrev Walk : Type 0
Walk = TextMap Text → List (Text × Text)

-- A response that is serialised to this, by a service that stays the same.
abbrev Writes : Walk → Text → Service → Result (Response × Service) → Type 0
Writes walk out s =
    Goes
      (λ (answer : Response × Service). (serialize walk answer.0 ≡ some out) × SameSite s answer.1)

take_whole : (t : Text) → take (length t) t ≡ t
take_whole t = ap (take (length t)) (sym (append-nil t)) ∙ take-append t []

read_entry-content_of :
    (e : Entry) → IsReadable e → read_entry e 0 ≡ ok (content_of e, length (content_of e))
read_entry-content_of no_file h = refl
read_entry-content_of directory h = absurd h
read_entry-content_of (regular content) h =
    ap (λ n. read_size n content) (to_int-small (length content) h)
    ∙ ap (λ t. ok (t, length content)) (take_whole content)

module _ (walk : Walk) (files : Files) (s : Service) where
  not_found-Writes :
      IsReadable (files (codes "wwwroot/404.html"))
      → Writes walk (reply_text walk s (missing files s)) s (not_found files 0 s)
  unfolding not_found read_file_request desc_of mime_of add_response_header assign text_eq serialize
      reply_text linux_advance.Base.TextMap.index
  not_found-Writes page =
      rw (read_entry-content_of (files (codes "wwwroot/404.html")) page)
        (_, refl, (refl, (refl, refl, refl)))

  found-Writes :
      (content : Text) (req : Request)
      → Writes walk
          (reply_text walk s (200, known_mime s req.suffix, content))
          s
          (ok (found content (length content) req s))
  unfolding found desc_of mime_of add_response_header assign text_eq serialize reply_text
      linux_advance.Base.TextMap.index
  found-Writes content req = (_, refl, (refl, (refl, refl, refl)))

  serve_content-Writes :
      (content : Text) (req : Request)
      → IsReadable (files (codes "wwwroot/404.html"))
      → Writes walk
          (reply_text walk s
            (if is_empty content then missing files s else (200, known_mime s req.suffix, content)))
          s
          (serve_content files (content, length content) req s)
  unfolding serve_content
  serve_content-Writes [] req page = not_found-Writes page
  serve_content-Writes (x ∷ content) req page = found-Writes (x ∷ content) req

  serve_file-Writes :
      (path : Text) (req : Request)
      → Asks path [] req
      → IsReadable (files path)
      → IsReadable (files (codes "wwwroot/404.html"))
      → Writes walk (reply_text walk s (file_reply files s path)) s (serve_file files req s)
  unfolding serve_file read_file_request
  serve_file-Writes path req a readable page =
      let content = content_of (files path) in
      let reply = λ (suffix : Text).
        if is_empty content then missing files s else (200, known_mime s suffix, content) in
      let read : read_entry (files req.path) 0 ≡ ok (content, length content) =
        ap (λ p. read_entry (files p) 0) a.path_lem ∙ read_entry-content_of (files path) readable in
      rw read (
        subst
          (λ x.
            Writes walk (reply_text walk s (reply x)) s
              (serve_content files (content, length content) req s))
          a.suffix_lem (serve_content-Writes content req page))

  file_branch-Writes :
      (path : Text) (req : Request)
      → Asks path [] req
      → text_eq path (codes "wwwroot/redir") ≡ false
      → text_eq path (codes "wwwroot/404.html") ≡ false
      → IsReadable (files path)
      → IsReadable (files (codes "wwwroot/404.html"))
      → Writes walk (reply_text walk s (file_reply files s path)) s (file_branch files req s)
  unfolding file_branch
  file_branch-Writes path req a no_redir no_error readable page =
      let no_redir' : text_eq req.path (codes "wwwroot/redir") ≡ false =
        ap (λ p. text_eq p (codes "wwwroot/redir")) a.path_lem ∙ no_redir in
      let no_error' : text_eq req.path (codes "wwwroot/404.html") ≡ false =
        ap (λ p. text_eq p (codes "wwwroot/404.html")) a.path_lem ∙ no_error in
      rw (no_redir', no_error') (serve_file-Writes path req a readable page)

  -- On the bytes of a request line of three words, the second with no question mark in it and not
  -- leading to wwwroot/redir or wwwroot/404.html, of header lines and a blank line, no line too long or
  -- with a carriage return, where neither the path of the site that the uri names nor wwwroot/404.html
  -- is a directory or a file of 2^31 bytes or more: HandlerHttpService answers with the status line,
  -- Content-Length, Content-Type and content of the file at that path, or, if that cannot be opened or
  -- is empty, of the page of errors; handlers, sessions and their number stay.
  pub handler_http_service-serves :
      (mo : Moment) (m u v : Text) (hs : List Text)
      → IsWord m
      → IsWord u
      → IsWord v
      → Lacks 63 u
      → IsLine (m ++ (32 ∷ (u ++ (32 ∷ v))))
      → All IsLine hs
      → text_eq (site_path u) (codes "wwwroot/redir") ≡ false
      → text_eq (site_path u) (codes "wwwroot/404.html") ≡ false
      → IsReadable (files (site_path u))
      → IsReadable (files (codes "wwwroot/404.html"))
      → (t : Service) × (handler_http_service walk files mo
            ((m ++ (32 ∷ (u ++ (32 ∷ v)))) ++ (sep ++ block hs))
            s
          ≡ ok (reply_text walk s (file_reply files s (site_path u)), t))
        × (t.funcs ≡ s.funcs)
        × (t.sessions ≡ s.sessions)
        × (t.number ≡ s.number)
  unfolding handler_http_service respond is_exec
  handler_http_service-serves mo m u v hs hm hu hv plain hl hhs no_redir no_error readable page =
      let line = m ++ (32 ∷ (u ++ (32 ∷ v))) in
      let r₀ : Request = record new_request { req_line = line; req_header = hs; req_text = [] } in
      let req : Request = (parse_headers hs (parse_req_line r₀).0).0 in
      let asks : Asks (site_path u) [] req =
        parse_headers-Asks (site_path u) [] hs (parse_req_line r₀).0
          (parse_req_line-Asks m u v hs hm hu hv plain) in
      let read : deserialize (line ++ (sep ++ block hs)) ≡ some req =
        ap (λ b. deserialize (line ++ (sep ++ b))) (sym (append-nil (block hs)))
        ∙ deserialize-block line [] hs hl hhs in
      let (answer, answered, (text, same)) =
        file_branch-Writes (site_path u) req asks no_redir no_error readable page in
      (
        answer.1,
        rw (read, asks.args_lem, asks.no_text, answered, text) refl,
        same.0,
        same.1,
        same.2,
      )
