-- ===== src/PlainHttp/Service.antt =====
-- HttpService of day_01/demo_02/http/Http.hpp. The loops that load the configuration, and
-- ReadFileRequest, are those of the server with sessions.
use linux_advance.Base.{ℕ, Option, none, some, List, [], ◌∷◌, ◌++◌, if◌then◌else◌, is_empty}
use linux_advance.Base.Monad.{Result, ok, thrown, undefined, no_fuel, or_fault, ◌>>=◌}
use linux_advance.Base.Text.{Text, codes, text_eq}
use linux_advance.Base.Text.Decimal.{to_string}
use linux_advance.Base.TextMap.{TextMap, lookup, assign, index}
use linux_advance.Http.Request.{wwwroot}
use linux_advance.Http.Response.{
  Response, new_response, add_status_line, add_header, add_text, serialize,
}
use linux_advance.Http.Service.{load_mime_type, load_status_desc, Files, read_file_request}
use linux_advance.PlainHttp.Request.{Request, deserialize, is_exec}

-- The keys of `status_desc` are ints, each by its decimal print.
pub record Service : Type 0 where
  pub mime_type : TextMap Text
  pub status_desc : TextMap Text
  pub funcs : TextMap (Request → Response)

-- HttpService(), over the lines of the two files; a file that does not open leaves its map empty.
unfoldable pub new_service : Option (List Text) → Option (List Text) → Result Service
new_service mime status = do
  descs ← elim status [
    | none ↦ ok []
    | some lines ↦ do loaded ← load_status_desc lines []; ok loaded.0
  ]
  ok (record {
    mime_type = elim mime [ none ↦ [] | some lines ↦ (load_mime_type lines []).0 ];
    status_desc = descs;
    funcs = [];
  })

-- AddHandler
unfoldable pub add_handler : Text → (Request → Response) → Service → Service
add_handler name f s = record s { funcs = assign (wwwroot ++ (b'/' ∷ name)) f s.funcs }

-- A missing key of a map that is read by operator[] is inserted with the empty text.
unfoldable pub desc_of : ℕ → Service → Text × Service
desc_of code s =
    let (d, m) = index (to_string code) [] s.status_desc in (d, record s { status_desc = m })

unfoldable pub mime_of : Text → Service → Text × Service
mime_of suffix s = let (t, m) = index suffix [] s.mime_type in (t, record s { mime_type = m })

-- The branch of a request with data: where no handler was added, the call of the empty std::function
-- throws.
unfoldable pub exec_branch : Request → Service → Result (Response × Service)
exec_branch req s = do f ← or_fault thrown (lookup req.path s.funcs); ok (f req, s)

abbrev new_url : Text
new_url = codes "http://129.204.171.204:8888/Image/2.png"

unfoldable pub redirect : Request → Service → Response × Service
redirect req s =
    let (d, s₁) = desc_of 301 s in
    let (t, s₂) = mime_of req.suffix s₁ in
    (
      add_header (codes "Location") new_url
          (add_header (codes "Content-Type") t (add_status_line 301 d new_response)),
      s₂,
    )

unfoldable pub not_found : Files → ℕ → Service → Result (Response × Service)
not_found files size s = do
  let (d, s₁) = desc_of 404 s
  page ← read_file_request files (codes "wwwroot/404.html") size
  let (t, s₂) = mime_of (codes ".html") s₁
  ok (
    add_text page.0 (
        add_header (codes "Content-Type") t (
          add_header (codes "Content-Length") (to_string page.1)
            (add_status_line 404 d new_response))),
    s₂,
  )

unfoldable pub found : Text → ℕ → Request → Service → Response × Service
found content size req s =
    let (d, s₁) = desc_of 200 s in
    let (t, s₂) = mime_of req.suffix s₁ in
    (
      add_text content (
          add_header (codes "Content-Type") t (
            add_header (codes "Content-Length") (to_string size)
              (add_status_line 200 d new_response))),
      s₂,
    )

-- Empty content is taken for a page that does not exist.
unfoldable pub serve_content : Files → Text × ℕ → Request → Service → Result (Response × Service)
serve_content files (content, size) req s =
    if is_empty content then not_found files size s else ok (found content size req s)

unfoldable pub serve_file : Files → Request → Service → Result (Response × Service)
serve_file files req s = do
  read ← read_file_request files req.path 0
  serve_content files read req s

-- The branch of a request without data.
unfoldable pub file_branch : Files → Request → Service → Result (Response × Service)
file_branch files req s =
    if text_eq req.path (codes "wwwroot/redir")
    then ok (redirect req s)
    else if text_eq req.path (codes "wwwroot/404.html")
    then ok (new_response, s)
    else serve_file files req s

unfoldable pub respond : Files → Request → Service → Result (Response × Service)
respond files req s = if is_exec req then exec_branch req s else file_branch files req s

-- HandlerHttpService: the text of the response.
unfoldable pub handler_http_service :
    (TextMap Text → List (Text × Text)) → Files → Text → Service → Result (Text × Service)
handler_http_service walk files request s = do
  req ← or_fault no_fuel (deserialize request)
  answered ← respond files req s
  text ← or_fault undefined (serialize walk answered.0)
  ok (text, answered.1)
