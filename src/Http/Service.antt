-- ===== src/Http/Service.antt =====
-- HttpService of Http.hpp: the configuration, the files, the handlers and the answer to a request.
use linux_advance.Base.{
  ℕ, suc, ◌+◌, ◌-◌, ◌^◌, ltb, Bool, true, false, Option, none, some, List, [], ◌∷◌, ◌++◌, ◌==◌,
  if◌then◌else◌, is_empty, take, drop, length,
}
use linux_advance.Base.Monad.{Result, ok, fault, thrown, undefined, no_fuel, or_fault, ◌>>=◌}
use linux_advance.Base.Int.{npos, ℤ, pos, negsuc, to_int}
use linux_advance.Base.Text.{Text, codes, find, text_eq}
use linux_advance.Base.Text.Decimal.{to_string, int_to_string, stoi}
use linux_advance.Base.TextMap.{TextMap, lookup, assign, index}
use linux_advance.Http.Request.{Request, deserialize, is_exec, header_sep, wwwroot}
use linux_advance.Http.Response.{
  Response, new_response, add_status_line, add_header, add_text, serialize,
}
use linux_advance.Http.Session.{Sessions, Moment, new_session, add_session}

-- The keys of `status_desc` are ints, each by its decimal print.
pub record Service : Type 0 where
  pub mime_type : TextMap Text
  pub status_desc : TextMap Text
  pub funcs : TextMap (Request → Response)
  pub sessions : Sessions
  pub number : ℕ

-- LoadMimeType over the lines of the file: the first line without the separator ends it.
unfoldable pub load_mime_type : List Text → TextMap Text → TextMap Text × Bool
load_mime_type [] m = (m, true)
load_mime_type (line ∷ lines) m =
    let p = find header_sep line in
    if p == npos
    then (m, false)
    else load_mime_type lines (assign (take p line) (drop (p + length header_sep) line) m)

-- LoadStatusDesc: std::stoi may throw.
unfoldable pub load_status_desc : List Text → TextMap Text → Result (TextMap Text × Bool)
load_status_desc [] m = ok (m, true)
load_status_desc (line ∷ lines) m =
    let p = find header_sep line in
    let rest = (do
      code ← or_fault thrown (stoi (take p line))
      load_status_desc lines (assign (int_to_string code) (drop (p + length header_sep) line) m)) in
    if p == npos then ok (m, false) else rest

-- HttpService(), over the lines of the two files; a file that does not open leaves its map empty.
unfoldable pub new_service : Option (List Text) → Option (List Text) → Result Service
new_service mime status = do
  descs ← elim status [
    | none ↦ ok []
    | some lines ↦ do loaded ← load_status_desc lines []; ok loaded.0
  ]
  ok (record {
    mime_type = elim mime [ none ↦ [] | some lines ↦ (load_mime_type lines []).0 ];
    status_desc = descs;
    funcs = [];
    sessions = [];
    number = 0;
  })

-- AddHandler
unfoldable pub add_handler : Text → (Request → Response) → Service → Service
add_handler name f s = record s { funcs = assign (wwwroot ++ (b'/' ∷ name)) f s.funcs }

-- ProveSession
abbrev pub prove_session : Text → Text
prove_session id = id ++ (b';' ∷ [])

-- A missing key of a map that is read by operator[] is inserted with the empty text.
unfoldable pub desc_of : ℕ → Service → Text × Service
desc_of code s =
    let (d, m) = index (to_string code) [] s.status_desc in (d, record s { status_desc = m })

unfoldable pub mime_of : Text → Service → Text × Service
mime_of suffix s = let (t, m) = index suffix [] s.mime_type in (t, record s { mime_type = m })

-- The greatest int.
abbrev pub int_max : ℕ
int_max = 2 ^ 31 - 1

-- The session that is opened for a request with data and no session id. The count of users is an int,
-- whose increment overflows at the greatest one.
unfoldable pub log_in : Moment → Response → Service → Result (Response × Service)
log_in m resp s =
    let session = new_session m (codes "user-" ++ to_string s.number) (codes "logined") in
    let (id, sessions) = add_session m session s.sessions in
    if ltb s.number int_max
    then ok (
      add_header (codes "Set-Cookie") (prove_session id) resp,
      record s { number = suc s.number; sessions = sessions },
    )
    else fault undefined

-- The branch of a request with data: the handler of the path runs; where none was added, the call of
-- the empty std::function throws.
unfoldable pub exec_branch : Moment → Request → Service → Result (Response × Service)
exec_branch m req s = do
  f ← or_fault thrown (lookup req.path s.funcs)
  let resp = f req
  if is_empty req.sessionid then log_in m resp s else ok (resp, s)

abbrev new_url : Text
new_url = codes "http://129.204.171.204:8888/Image/2.png"

-- What a path leads to: no file that opens, a directory, which opens but has no size, or a file with a
-- content.
pub data Entry : Type 0 where
  no_file directory : Entry
  regular : Text → Entry

-- The file system.
abbrev pub Files : Type 0
Files = Text → Entry

-- content.resize(filesize) and in.read; resize throws for a size that is negative.
abbrev pub read_size : ℤ → Text → Result (Text × ℕ)
read_size (pos n) content = ok (take n content, n)
read_size (negsuc n) content = fault thrown

-- The reading behind is_open: tellg gives -1 for a directory, and its result is kept in an int.
abbrev pub read_entry : Entry → ℕ → Result (Text × ℕ)
read_entry no_file size = ok ([], size)
read_entry directory size = read_size (negsuc 0) []
read_entry (regular content) size = read_size (to_int (length content)) content

-- ReadFileRequest: the content and, where the file opened, its size.
unfoldable pub read_file_request : Files → Text → ℕ → Result (Text × ℕ)
read_file_request files path size = read_entry (files path) size

unfoldable pub redirect : Request → Service → Response × Service
redirect req s =
    let (d, s₁) = desc_of 302 s in
    let (t, s₂) = mime_of req.suffix s₁ in
    (
      add_header (codes "Location") new_url
          (add_header (codes "Content-Type") t (add_status_line 302 d new_response)),
      s₂,
    )

unfoldable pub not_found : Files → ℕ → Service → Result (Response × Service)
not_found files size s = do
  let (d, s₁) = desc_of 404 s
  page ← read_file_request files (codes "wwwroot/404.html") size
  let (t, s₂) = mime_of (codes ".html") s₁
  ok (
    add_text page.0 (
        add_header (codes "Content-Type") t (
          add_header (codes "Content-Length") (to_string page.1)
            (add_status_line 404 d new_response))),
    s₂,
  )

unfoldable pub found : Text → ℕ → Request → Service → Response × Service
found content size req s =
    let (d, s₁) = desc_of 200 s in
    let (t, s₂) = mime_of req.suffix s₁ in
    (
      add_text content (
          add_header (codes "Content-Type") t (
            add_header (codes "Content-Length") (to_string size)
              (add_status_line 200 d new_response))),
      s₂,
    )

-- Empty content is taken for a page that does not exist.
unfoldable pub serve_content : Files → Text × ℕ → Request → Service → Result (Response × Service)
serve_content files (content, size) req s =
    if is_empty content then not_found files size s else ok (found content size req s)

unfoldable pub serve_file : Files → Request → Service → Result (Response × Service)
serve_file files req s = do
  read ← read_file_request files req.path 0
  serve_content files read req s

-- The branch of a request without data: a redirection, the page of errors (whose response is left as
-- it was built), or a file.
unfoldable pub file_branch : Files → Request → Service → Result (Response × Service)
file_branch files req s =
    if text_eq req.path (codes "wwwroot/redir")
    then ok (redirect req s)
    else if text_eq req.path (codes "wwwroot/404.html")
    then ok (new_response, s)
    else serve_file files req s

unfoldable pub respond : Files → Moment → Request → Service → Result (Response × Service)
respond files m req s = if is_exec req then exec_branch m req s else file_branch files req s

-- HandlerHttpService: the text of the response.
unfoldable pub handler_http_service :
    (TextMap Text → List (Text × Text)) → Files → Moment → Text → Service → Result (Text × Service)
handler_http_service walk files m request s = do
  req ← or_fault no_fuel (deserialize request)
  answered ← respond files m req s
  text ← or_fault undefined (serialize walk answered.0)
  ok (text, answered.1)
