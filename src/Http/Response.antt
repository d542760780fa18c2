-- ===== src/Http/Response.antt =====
-- HttpResponse of Http.hpp.
use linux_advance.Base.{ℕ, Option, none, some, List, [], ◌∷◌, ◌++◌}
use linux_advance.Base.Text.{Text, codes}
use linux_advance.Base.Text.Decimal.{to_string}
use linux_advance.Base.TextMap.{TextMap, assign}
use linux_advance.Http.Request.{sep, header_sep}

-- `status_code` is not initialised by the constructor: `none`.
pub record Response : Type 0 where
  pub status_code : Option ℕ
  pub desc : Text
  pub resp_text : Text
  pub headers : TextMap Text

-- HttpResponse()
abbrev pub new_response : Response
new_response = record { status_code = none; desc = []; resp_text = []; headers = [] }

-- ADDStatusLine
abbrev pub add_status_line : ℕ → Text → Response → Response
add_status_line code desc r = record r { status_code = some code; desc = desc }

-- ADDHeader
unfoldable pub add_header : Text → Text → Response → Response
add_header k v r = record r { headers = assign k v r.headers }

-- ADDText
abbrev pub add_text : Text → Response → Response
add_text t r = record r { resp_text = t }

-- The lines of Serialize, each with its separator.
unfoldable pub header_text : List (Text × Text) → Text
header_text [] = []
header_text ((k, v) ∷ hs) = (k ++ (header_sep ++ v)) ++ (sep ++ header_text hs)

unfoldable pub status_line : ℕ → Text → Text
status_line code desc = codes "HTTP/1.0" ++ (32 ∷ (to_string code ++ (32 ∷ desc)))

-- Serialize, with the headers in the order in which the map is walked: `none` where the status code was
-- never set, which is undefined.
unfoldable pub serialize : (TextMap Text → List (Text × Text)) → Response → Option Text
serialize walk r = elim r.status_code [
  | none ↦ none
  | some code ↦
      some
        (status_line code r.desc ++ (sep ++ (header_text (walk r.headers) ++ (sep ++ r.resp_text))))
]
