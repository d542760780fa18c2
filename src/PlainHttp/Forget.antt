-- ===== src/PlainHttp/Forget.antt =====
-- The requests that the server with sessions reads against those of http/Http.hpp.
use linux_advance.Base.{
  suc, ◌+◌, ◌≡◌, refl, sym, ap, ◌∙◌, Bool, true, false, some, List, [], ◌∷◌, ◌==◌, if◌then◌else◌,
  is_empty, take, drop, length, Bool-cases, Option-cases, inl, inr,
}
use mathlib.Core.Option.{map as map_option}
use linux_advance.Base.Int.{npos}
use linux_advance.Base.Text.{Text, codes, find, rfind, text_eq}
use linux_advance.Base.TextMap.{assign}
use linux_advance.Http.Request.{header_sep, same_ignoring_case, get_one_line, header_lines}
use linux_advance.Http.Request as session_request
use linux_advance.PlainHttp.Request as plain_request

-- What the server without sessions knows of a request.
abbrev pub forget : session_request.Request → plain_request.Request
forget r = record {
  req_line = r.req_line;
  req_header = r.req_header;
  req_text = r.req_text;
  req_method = r.req_method;
  uri = r.uri;
  args = r.args;
  path = r.path;
  suffix = r.suffix;
  version = r.version;
  headers = r.headers;
}

forget-split_args :
    (r : session_request.Request)
    → forget (session_request.split_args r) ≡ plain_request.split_args (forget r)
unfolding session_request.split_args plain_request.split_args
forget-split_args r = elim (Bool-cases (find (codes "?") r.uri == npos)) [
  | inl h ↦ rw h
  | inr h ↦ rw h
]

forget-set_path :
    (r : session_request.Request)
    → forget (session_request.set_path r) ≡ plain_request.set_path (forget r)
unfolding session_request.set_path plain_request.set_path
forget-set_path r = refl

forget-set_suffix :
    (r : session_request.Request)
    → forget (session_request.set_suffix r).0 ≡ (plain_request.set_suffix (forget r)).0
unfolding session_request.set_suffix plain_request.set_suffix
forget-set_suffix r = elim (Bool-cases (rfind (codes ".") r.path == npos)) [
  | inl h ↦ rw h
  | inr h ↦ rw h
]

forget-read_words :
    (r : session_request.Request)
    → forget (session_request.read_words r) ≡ plain_request.read_words (forget r)
unfolding session_request.read_words plain_request.read_words
forget-read_words r = refl

forget-split_if :
    (b : Bool) (r : session_request.Request)
    → forget (if b then session_request.split_args r else r)
      ≡ (if b then plain_request.split_args (forget r) else forget r)
forget-split_if true r = forget-split_args r
forget-split_if false r = refl

forget-parse_req_line :
    (r : session_request.Request)
    → forget (session_request.parse_req_line r).0 ≡ (plain_request.parse_req_line (forget r)).0
unfolding session_request.parse_req_line plain_request.parse_req_line plain_request.set_path
    plain_request.set_suffix session_request.set_path plain_request.read_words
    session_request.read_words
forget-parse_req_line r = elim (Bool-cases (is_empty r.req_line)) [
  | inl h ↦ rw h
  | inr h ↦
      let q = session_request.read_words r in
      let get = same_ignoring_case q.req_method (codes "get") in
      rw h (
        forget-set_suffix
          (session_request.set_path (if get then session_request.split_args q else q))
        ∙ ap (λ t. (plain_request.set_suffix (plain_request.set_path t)).0) (forget-split_if get q))
]

forget-add_header :
    (k v : Text) (r : session_request.Request)
    → forget (session_request.add_header k v r)
      ≡ record (forget r) { headers = assign k v r.headers }
unfolding session_request.add_header
forget-add_header k v r = elim (Bool-cases (text_eq k (codes "Cookie"))) [
  | inl h ↦ rw h
  | inr h ↦ rw h
]

forget-parse_headers :
    (hs : List Text) (r : session_request.Request)
    → forget (session_request.parse_headers hs r).0 ≡ (plain_request.parse_headers hs (forget r)).0
unfolding session_request.parse_headers plain_request.parse_headers
forget-parse_headers [] r = refl
forget-parse_headers (h ∷ hs) r = elim (Bool-cases (find header_sep h == npos)) [
  | inl e ↦ rw e
  | inr e ↦
      let k = take (find header_sep h) h in
      let v = drop (find header_sep h + 2) h in
      rw e (
        forget-parse_headers hs (session_request.add_header k v r)
        ∙ ap (λ t. (plain_request.parse_headers hs t).0) (forget-add_header k v r))
]

-- Both servers read the same request, but for the cookies and the session id.
pub deserialize-forget :
    (s : Text) → plain_request.deserialize s ≡ map_option forget (session_request.deserialize s)
unfolding session_request.deserialize plain_request.deserialize
deserialize-forget s =
    let (line, rest) = get_one_line s in
    elim (Option-cases (header_lines (suc (length rest)) [] rest)) [
      | inl h ↦ rw (h, session_request.deserialize, plain_request.deserialize)
      | inr ((lines, text), h) ↦
          let start = record session_request.new_request {
            req_line = line;
            req_header = lines;
            req_text = text;
          } in
          rw (h, session_request.deserialize, plain_request.deserialize)
            (ap some (
              sym (
                forget-parse_headers lines (session_request.parse_req_line start).0
                ∙ ap (λ t. (plain_request.parse_headers lines t).0) (forget-parse_req_line start))))
    ]
