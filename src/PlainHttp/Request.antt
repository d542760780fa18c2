-- ===== src/PlainHttp/Request.antt =====
-- HttpRequest of day_01/demo_02/http/Http.hpp. GetOneLine and the loop over the header lines are those
-- of the server with sessions.
use linux_advance.Base.{
  suc, ◌+◌, Bool, true, false, ◌||◌, not, Option, none, some, List, [], ◌∷◌, ◌++◌, ◌==◌,
  if◌then◌else◌, is_empty, take, drop, length,
}
use linux_advance.Base.Int.{npos}
use linux_advance.Base.Text.{Text, codes, find, rfind}
use linux_advance.Base.TextMap.{TextMap, assign}
use linux_advance.Http.Request.{
  header_sep, wwwroot, homepage, get_one_line, header_lines, next_word, same_ignoring_case,
  ends_with_slash,
}

pub record Request : Type 0 where
  pub req_line : Text
  pub req_header : List Text
  pub req_text : Text
  pub req_method : Text
  pub uri : Text
  pub args : Text
  pub path : Text
  pub suffix : Text
  pub version : Text
  pub headers : TextMap Text

-- HttpRequest()
abbrev pub new_request : Request
new_request = record {
  req_line = [];
  req_header = [];
  req_text = [];
  req_method = [];
  uri = [];
  args = [];
  path = wwwroot;
  suffix = [];
  version = [];
  headers = [];
}

unfoldable pub read_words : Request → Request
read_words r =
    let (m, s₁) = next_word r.req_line in
    let (u, s₂) = next_word s₁ in
    let (v, s₃) = next_word s₂ in record r { req_method = m; uri = u; version = v }

-- The arguments behind '?' are split off the uri of a get request.
unfoldable pub split_args : Request → Request
split_args r =
    let p = find (codes "?") r.uri in
    if p == npos
    then record r { args = [] }
    else record r { args = drop (p + 1) r.uri; uri = take p r.uri }

-- The path: the root of the site, the uri, and the home page where that ends in '/'.
unfoldable pub set_path : Request → Request
set_path r =
    let joined = r.path ++ r.uri in
    let p = if ends_with_slash joined then joined ++ homepage else joined in record r { path = p }

-- The suffix: the path from its last dot on.
unfoldable pub set_suffix : Request → Request × Bool
set_suffix r =
    let p = rfind (codes ".") r.path in
    if p == npos then (r, false) else (record r { suffix = drop p r.path }, true)

-- ParseReqLine
unfoldable pub parse_req_line : Request → Request × Bool
parse_req_line r =
    if is_empty r.req_line
    then (r, false)
    else let q = read_words r in
      set_suffix
        (set_path (if same_ignoring_case q.req_method (codes "get") then split_args q else q))

-- ParseReqHeader: the first line without the separator ends it.
unfoldable pub parse_headers : List Text → Request → Request × Bool
parse_headers [] r = (r, true)
parse_headers (h ∷ hs) r =
    let p = find header_sep h in
    if p == npos
    then (r, false)
    else parse_headers hs
        (record r { headers = assign (take p h) (drop (p + length header_sep) h) r.headers })

-- DeSerialize
unfoldable pub deserialize : Text → Option Request
deserialize reqstr =
    let (line, rest) = get_one_line reqstr in
    elim (header_lines (suc (length rest)) [] rest) [
      | none ↦ none
      | some (lines, text) ↦
          let r = record new_request { req_line = line; req_header = lines; req_text = text } in
          some (parse_headers lines (parse_req_line r).0).0
    ]

-- IsExec
unfoldable pub is_exec : Request → Bool
is_exec r = not (is_empty r.args) || not (is_empty r.req_text)
