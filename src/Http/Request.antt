-- ===== src/Http/Request.antt =====
-- HttpRequest of Http.hpp.
use linux_advance.Base.{
  ℕ, zero, suc, ◌+◌, ◌-◌, Bool, true, false, ◌&&◌, ◌||◌, not, Option, none, some, List, [], ◌∷◌,
  ◌++◌, leb, ◌==◌, if◌then◌else◌, is_empty, take, drop, length, map, get_elem?,
}
use linux_advance.Base.Int.{npos}
use linux_advance.Base.Text.{Text, codes, find, rfind, text_eq, c_str}
use linux_advance.Base.Text.Decimal.{is_space, skip_space}
use linux_advance.Base.TextMap.{TextMap, assign}

-- SEP, "\r\n"
abbrev pub sep : Text
sep = 13 ∷ 10 ∷ []

-- REQ_HEADER_SEP and CONF_SEP
abbrev pub header_sep : Text
header_sep = codes ": "

abbrev pub wwwroot : Text
wwwroot = codes "wwwroot"

abbrev pub homepage : Text
homepage = codes "index.html"

pub record Request : Type 0 where
  pub req_line : Text
  pub req_header : List Text
  pub req_text : Text
  pub req_method : Text
  pub uri : Text
  pub args : Text
  pub path : Text
  pub suffix : Text
  pub version : Text
  pub headers : TextMap Text
  pub cookies : List Text
  pub sessionid : Text

-- HttpRequest()
abbrev pub new_request : Request
new_request = record {
  req_line = [];
  req_header = [];
  req_text = [];
  req_method = [];
  uri = [];
  args = [];
  path = wwwroot;
  suffix = [];
  version = [];
  headers = [];
  cookies = [];
  sessionid = [];
}

-- GetOneLine: the line, and what is left of the text. A blank line comes back as the separator, and
-- the empty text where there is no line.
unfoldable pub get_one_line : Text → Text × Text
get_one_line s =
    if is_empty s
    then ([], s)
    else let p = find sep s in
      if p == npos
      then ([], s)
      else let line = take p s in (if is_empty line then sep else line, drop (p + length sep) s)

-- The loop of DeSerialize over the header lines: the lines, and the text behind the blank line if one
-- was read. `none` is fuel that ran out.
unfoldable pub header_lines : ℕ → List Text → Text → Option (List Text × Text)
header_lines zero lines s = none
header_lines (suc fuel) lines s =
    let (line, rest) = get_one_line s in
    elim (is_empty line) [
      | true ↦ some (lines, [])
      | false ↦ elim (text_eq line sep) [
        | true ↦ some (lines, rest)
        | false ↦ header_lines fuel (lines ++ line ∷ []) rest
      ]
    ]

-- The characters up to the next white space, and the rest.
unfoldable pub word : Text → Text × Text
unfolding is_space
word [] = ([], [])
word (c ∷ s) = if is_space c then ([], c ∷ s) else let (w, r) = word s in (c ∷ w, r)

-- stream >> text
unfoldable pub next_word : Text → Text × Text
unfolding word skip_space
next_word s = word (skip_space s)

unfoldable pub to_lower : ℕ → ℕ
to_lower c = if leb b'A' c && leb c b'Z' then c + 32 else c

-- strcasecmp(a, b) == 0
unfoldable pub same_ignoring_case : Text → Text → Bool
unfolding to_lower text_eq c_str
same_ignoring_case a b = text_eq (map to_lower (c_str a)) (map to_lower (c_str b))

-- The arguments behind '?' are split off the uri of a get request.
unfoldable pub split_args : Request → Request
split_args r =
    let p = find (codes "?") r.uri in
    if p == npos
    then record r { args = [] }
    else record r { args = drop (p + 1) r.uri; uri = take p r.uri }

abbrev pub ends_with_slash : Text → Bool
ends_with_slash s = elim (get_elem? s (length s - 1)) [ none ↦ false | some c ↦ c == b'/' ]

-- The path: the root of the site, the uri, and the home page where that ends in '/'.
unfoldable pub set_path : Request → Request
set_path r =
    let joined = r.path ++ r.uri in
    let p = if ends_with_slash joined then joined ++ homepage else joined in record r { path = p }

-- The suffix: the path from its last dot on.
unfoldable pub set_suffix : Request → Request × Bool
set_suffix r =
    let p = rfind (codes ".") r.path in
    if p == npos then (r, false) else (record r { suffix = drop p r.path }, true)

unfoldable pub read_words : Request → Request
read_words r =
    let (m, s₁) = next_word r.req_line in
    let (u, s₂) = next_word s₁ in
    let (v, s₃) = next_word s₂ in record r { req_method = m; uri = u; version = v }

-- ParseReqLine
unfoldable pub parse_req_line : Request → Request × Bool
parse_req_line r =
    if is_empty r.req_line
    then (r, false)
    else let q = read_words r in
      set_suffix
        (set_path (if same_ignoring_case q.req_method (codes "get") then split_args q else q))

unfoldable pub add_header : Text → Text → Request → Request
add_header k v r =
    if text_eq k (codes "Cookie")
    then record r { headers = assign k v r.headers; sessionid = v; cookies = r.cookies ++ v ∷ [] }
    else record r { headers = assign k v r.headers }

-- ParseReqHeader: the first line without the separator ends it.
unfoldable pub parse_headers : List Text → Request → Request × Bool
parse_headers [] r = (r, true)
parse_headers (h ∷ hs) r =
    let p = find header_sep h in
    if p == npos
    then (r, false)
    else parse_headers hs (add_header (take p h) (drop (p + length header_sep) h) r)

-- DeSerialize
unfoldable pub deserialize : Text → Option Request
deserialize reqstr =
    let (line, rest) = get_one_line reqstr in
    elim (header_lines (suc (length rest)) [] rest) [
      | none ↦ none
      | some (lines, text) ↦
          let r = record new_request { req_line = line; req_header = lines; req_text = text } in
          some (parse_headers lines (parse_req_line r).0).0
    ]

-- IsExec
unfoldable pub is_exec : Request → Bool
is_exec r = not (is_empty r.args) || not (is_empty r.req_text)
