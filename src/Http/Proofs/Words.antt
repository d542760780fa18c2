-- ===== src/Http/Proofs/Words.antt =====
-- ParseReqLine on a request line, and ParseReqHeader on header lines.
use linux_advance.Base.{
  ◌+◌, ◌<◌, ◌≡◌, refl, ap, ◌∙◌, true, false, List, [], ◌∷◌, ◌++◌, arith, if◌then◌else◌, is_empty,
  length, All, append-nil, take-append, drop_append_add, ne→==,
}
use linux_advance.Base.Int.{npos}
use linux_advance.Base.Text.{Text, codes, find, text_eq}
use linux_advance.Base.Text.Decimal.{is_space, skip_space}
use linux_advance.Base.Text.Find.{Lacks, find?-append}
use linux_advance.Http.Request.{
  Request, header_sep, word, next_word, read_words, split_args, parse_headers, add_header,
}

-- A word: not empty, and with no white space in it.
abbrev pub IsWord : Text → Type 0
IsWord w = All (λ c. is_space c ≡ false) w × (is_empty w ≡ false)

word_blank : (w r : Text) → All (λ c. is_space c ≡ false) w → word (w ++ 32 ∷ r) ≡ (w, 32 ∷ r)
unfolding word
word_blank [] r h = refl
word_blank (c ∷ w) r (hc, h) = ground (arith, hc, word_blank w r h)

word_end : (w : Text) → All (λ c. is_space c ≡ false) w → word w ≡ (w, [])
unfolding word
word_end [] h = refl
word_end (c ∷ w) (hc, h) = ground (arith, hc, word_end w h)

skip_none : (w r : Text) → IsWord w → skip_space (w ++ r) ≡ w ++ r
unfolding skip_space
skip_none [] r (h, full) = cc
skip_none (c ∷ w) r ((hc, h), full) = rw hc

skip_blank : (w r : Text) → IsWord w → skip_space (32 ∷ (w ++ r)) ≡ w ++ r
unfolding skip_space
skip_blank w r h = skip_none w r h

-- A request line of three words.
abbrev request_line : Text → Text → Text → Text
request_line m u v = m ++ (32 ∷ (u ++ (32 ∷ v)))

-- The three words of a request line of three words with a blank between them are its method, its uri
-- and its version.
pub read_words-line :
    (m u v : Text) (r : Request)
    → IsWord m
    → IsWord u
    → IsWord v
    → r.req_line ≡ m ++ (32 ∷ (u ++ (32 ∷ v)))
    → read_words r ≡ record r { req_method = m; uri = u; version = v }
unfolding read_words next_word
read_words-line m u v r hm hu hv e = ground (
  arith,
  e,
  skip_none m (32 ∷ (u ++ (32 ∷ v))) hm,
  word_blank m (u ++ (32 ∷ v)) hm.0,
  skip_blank u (32 ∷ v) hu,
  word_blank u v hu.0,
  skip_blank v [] hv,
  append-nil v,
  word_end v hv.0,
)

-- A uri is split at its first question mark: what stands before it is the uri, if it is shorter than
-- 2^64 - 1, what stands behind it the arguments.
pub split_args-append :
    (u a : Text) (r : Request)
    → r.uri ≡ u ++ (63 ∷ a)
    → Lacks 63 u
    → length u < npos
    → split_args r ≡ record r { args = a; uri = u }
unfolding split_args find
split_args-append u a r e h b = ground (
  arith,
  e,
  find?-append 63 [] u a h,
  ne→== (length u) npos (omega arith),
  take-append u (63 ∷ a),
  drop_append_add u (63 ∷ a) 1 (length u + 1) refl,
)

-- A header line: key, separator, value.
abbrev pub header_line : Text → Text → Text
header_line k v = k ++ (header_sep ++ v)

pub parse_headers-line :
    (k v : Text) (hs : List Text) (r : Request)
    → Lacks 58 k
    → length k < npos
    → parse_headers (header_line k v ∷ hs) r ≡ parse_headers hs (add_header k v r)
unfolding parse_headers find
parse_headers-line k v hs r h b = ground (
  arith,
  find?-append 58 (32 ∷ []) k v h,
  ne→== (length k) npos (omega arith),
  take-append k (header_sep ++ v),
  drop_append_add k (header_sep ++ v) 2 (length k + 2) refl,
)

-- The value of the last Cookie header, if there is one.
unfoldable pub last_cookie : Text → List (Text × Text) → Text
last_cookie old [] = old
last_cookie old ((k, v) ∷ hs) = last_cookie (if text_eq k (codes "Cookie") then v else old) hs

cookie_step :
    (old k v : Text) (hs : List (Text × Text))
    → last_cookie (if text_eq k (codes "Cookie") then v else old) hs ≡ last_cookie old ((k, v) ∷ hs)
unfolding last_cookie
cookie_step old k v hs = refl

abbrev pub header_lines_of : List (Text × Text) → List Text
header_lines_of [] = []
header_lines_of ((k, v) ∷ hs) = header_line k v ∷ header_lines_of hs

abbrev pub IsKey : Text × Text → Type 0
IsKey h = Lacks 58 h.0 × (length h.0 < npos)

sessionid-add_header :
    (k v : Text) (r : Request)
    → (add_header k v r).sessionid ≡ (if text_eq k (codes "Cookie") then v else r.sessionid)
unfolding add_header
sessionid-add_header k v r = ground arith

-- ParseReqHeader over lines of keys without a colon, shorter than 2^64 - 1, and values reads all of
-- them, and the session id is the value of the last Cookie line, or stays as it was.
pub parse_headers-sessionid :
    (hs : List (Text × Text)) (r : Request)
    → All IsKey hs
    → ((parse_headers (header_lines_of hs) r).0.sessionid ≡ last_cookie r.sessionid hs)
      × ((parse_headers (header_lines_of hs) r).1 ≡ true)
parse_headers-sessionid [] r h = unfold parse_headers last_cookie in (refl, refl)
parse_headers-sessionid ((k, v) ∷ hs) r ((hk, b), h) =
    let (ih, all_read) = parse_headers-sessionid hs (add_header k v r) h in
    rw (parse_headers-line k v (header_lines_of hs) r hk b) (
      ih
          ∙ (ap (λ t. last_cookie t hs) (sessionid-add_header k v r)
              ∙ cookie_step r.sessionid k v hs),
      all_read,
    )
