-- ===== src/Http/Proofs/Asked.antt =====
-- What the parser of the requests makes of a request for a path of the site.
use linux_advance.Base.{
  ◌<◌, ◌≡◌, refl, true, false, List, [], ◌∷◌, ◌++◌, ◌==◌, if◌then◌else◌, is_empty, length, drop,
  arith, Bool-cases, inl, inr,
}
use linux_advance.Base.Int.{npos}
use linux_advance.Base.Text.{Text, codes, find, rfind, text_eq}
use linux_advance.Base.Text.Find.{Lacks, find?_lacking}
use linux_advance.Http.Request.{
  Request, new_request, header_sep, wwwroot, homepage, ends_with_slash, read_words, split_args,
  set_path, set_suffix, parse_req_line, parse_headers, add_header, same_ignoring_case,
}
use linux_advance.Http.Proofs.Words.{IsWord, read_words-line, split_args-append}

-- The file of the site that a uri names.
abbrev pub site_path : Text → Text
site_path u = let p = wwwroot ++ u in if ends_with_slash p then p ++ homepage else p

-- A path from its last dot on.
abbrev pub suffix_of : Text → Text
suffix_of path = let p = rfind (codes ".") path in if p == npos then [] else drop p path

-- What ParseReqLine and ParseReqHeader make of a request for a file.
pub record Asks (path args : Text) (req : Request) : Type 0 where
  pub path_lem : req.path ≡ path
  pub suffix_lem : req.suffix ≡ suffix_of path
  pub args_lem : req.args ≡ args
  pub no_text : req.req_text ≡ []

add_header-Asks :
    (path args k v : Text) (r : Request) → Asks path args r → Asks path args (add_header k v r)
unfolding add_header
add_header-Asks path args k v r a = elim (Bool-cases (text_eq k (codes "Cookie"))) [
  | inl e ↦ rw e (record {
    path_lem = a.path_lem;
    suffix_lem = a.suffix_lem;
    args_lem = a.args_lem;
    no_text = a.no_text;
  })
  | inr e ↦ rw e (record {
    path_lem = a.path_lem;
    suffix_lem = a.suffix_lem;
    args_lem = a.args_lem;
    no_text = a.no_text;
  })
]

pub parse_headers-Asks :
    (path args : Text) (hs : List Text) (r : Request)
    → Asks path args r
    → Asks path args (parse_headers hs r).0
unfolding parse_headers
parse_headers-Asks path args [] r a = a
parse_headers-Asks path args (h ∷ hs) r a = elim (Bool-cases (find header_sep h == npos)) [
  | inl e ↦ rw e a
  | inr e ↦ rw e (parse_headers-Asks path args hs _ (add_header-Asks path args _ _ r a))
]

split_args_lacking :
    (u : Text) (r : Request) → r.uri ≡ u → Lacks 63 u → split_args r ≡ record r { args = [] }
unfolding split_args find
split_args_lacking u r e h = rw (e, find?_lacking 63 [] u h) refl

request_line_full : (m t : Text) → is_empty (m ++ (32 ∷ t)) ≡ false
request_line_full [] t = refl
request_line_full (x ∷ m) t = refl

set_suffix-Asks :
    (r : Request) → r.suffix ≡ [] → r.req_text ≡ [] → Asks r.path r.args (set_suffix r).0
unfolding set_suffix
set_suffix-Asks r e t = elim (Bool-cases (rfind (codes ".") r.path == npos)) [
  | inl nowhere ↦
      rw nowhere
        (record { path_lem = refl; suffix_lem = rw nowhere e; args_lem = refl; no_text = t })
  | inr there ↦
      rw there
        (record { path_lem = refl; suffix_lem = rw there refl; args_lem = refl; no_text = t })
]

-- The request of three words, header lines and no text, behind ParseReqLine.
pub parse_req_line-Asks :
    (m u v : Text) (hs : List Text)
    → IsWord m
    → IsWord u
    → IsWord v
    → Lacks 63 u
    → Asks
        (site_path u)
        []
        (parse_req_line
          (record new_request { req_line = m ++ (32 ∷ (u ++ (32 ∷ v))); req_header = hs })).0
unfolding parse_req_line set_path
parse_req_line-Asks m u v hs hm hu hv plain =
    let r : Request = record new_request {
      req_line = m ++ (32 ∷ (u ++ (32 ∷ v)));
      req_header = hs;
    } in
    let q : Request = record r { req_method = m; uri = u; version = v } in
    let asks : Asks (site_path u) [] (set_suffix (set_path q)).0 =
      set_suffix-Asks (set_path q) refl refl in
    let split : split_args q ≡ q = split_args_lacking u q refl plain in
    rw (request_line_full m (u ++ (32 ∷ v)), read_words-line m u v r hm hu hv refl)
      (elim (Bool-cases (same_ignoring_case m (codes "get"))) [
        | inl get ↦ rw (get, split) asks
        | inr other ↦ rw other asks
      ])

-- The same for a get request with arguments.
pub parse_req_line-Asks_args :
    (m u a v : Text) (hs : List Text)
    → IsWord m
    → IsWord (u ++ (63 ∷ a))
    → IsWord v
    → Lacks 63 u
    → length u < npos
    → same_ignoring_case m (codes "get") ≡ true
    → Asks
        (site_path u)
        a
        (parse_req_line (record new_request {
          req_line = m ++ (32 ∷ ((u ++ (63 ∷ a)) ++ (32 ∷ v)));
          req_header = hs;
        })).0
unfolding parse_req_line set_path
parse_req_line-Asks_args m u a v hs hm hu hv plain short get =
    let uri = u ++ (63 ∷ a) in
    let r : Request = record new_request {
      req_line = m ++ (32 ∷ (uri ++ (32 ∷ v)));
      req_header = hs;
    } in
    let q : Request = record r { req_method = m; uri = uri; version = v } in
    rw
      (
        request_line_full m (uri ++ (32 ∷ v)),
        read_words-line m uri v r hm hu hv refl,
        get,
        split_args-append u a q refl plain short,
      )
      (set_suffix-Asks (set_path (record q { args = a; uri = u })) refl refl)

-- ParseReqLine leaves the session id alone.
pub sessionid-parse_req_line : (r : Request) → (parse_req_line r).0.sessionid ≡ r.sessionid
unfolding parse_req_line set_suffix set_path split_args read_words
sessionid-parse_req_line r = ground arith
