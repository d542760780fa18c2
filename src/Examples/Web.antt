-- ===== src/Examples/Web.antt =====
-- Requests and answers of the web server.
use linux_advance.Base.{suc, ◌≡◌, refl, some, List, [], ◌∷◌, ◌++◌, length, arith, if◌then◌else◌}
use linux_advance.Base.Text.{Text, codes, text_eq}
use linux_advance.Base.Text.Decimal.{to_string, digits}
use linux_advance.Http.Request.{Request, deserialize, sep, header_lines, get_one_line}
use linux_advance.Http.Response.{Response, new_response, serialize, status_line, header_text}
use linux_advance.Http.Session.{Moment}
use linux_advance.Http.Service.{Service, Files, no_file, regular}
use linux_advance.Http.Proofs.Lines.{block, deserialize_total}
use linux_advance.Http.Proofs.Words.{header_lines_of, last_cookie}
use linux_advance.Http.Proofs.Answers.{get_one_line-serialize}
use linux_advance.Base.Text.Decimal.{is_space}
use linux_advance.Base.Monad.{ok, or_fault, undefined, ◌>>=◌}
use linux_advance.Base.TextMap.{TextMap, lookup}
use linux_advance.Http.Request.{same_ignoring_case}
use linux_advance.Http.Service.{handler_http_service}
use linux_advance.Http.Proofs.Asked.{site_path}
use linux_advance.Http.Proofs.Serving.{reply_text, file_reply, handler_http_service-serves}
use linux_advance.Http.Proofs.Handling.{handled, handler_http_service-runs}

abbrev get_line : Text
get_line = codes "GET /a?b=1 HTTP/1.1"

abbrev header_keys : List (Text × Text)
header_keys = (codes "Host", codes "x") ∷ (codes "Cookie", codes "7") ∷ []

deserialize_total_example : (r : Request) × (deserialize (codes "GET") ≡ some r)
deserialize_total_example = deserialize_total (codes "GET")

abbrev empty_service : Service
empty_service = record { mime_type = []; status_desc = []; funcs = []; sessions = []; number = 0 }

abbrev noon : Moment
noon = record { rand = 2; now = 43200 }

abbrev page : Response
page = record new_response {
  status_code = some 200;
  desc = codes "OK";
  resp_text = codes "hi";
  headers = (codes "Content-Length", codes "2") ∷ [];
}

abbrev page_text : Text
page_text =
    status_line 200 (codes "OK")
    ++ (sep ++ (codes "Content-Length: 2" ++ (sep ++ (sep ++ codes "hi"))))

get_one_line-serialize_example :
    ((get_one_line page_text).0 ≡ status_line 200 (codes "OK"))
    × (header_lines (suc (length (get_one_line page_text).1)) [] (get_one_line page_text).1
        ≡ some (header_lines_of page.headers, codes "hi"))
unfolding serialize status_line to_string digits header_text
get_one_line-serialize_example =
    get_one_line-serialize (λ h. h) page 200 page_text refl (ground arith) (ground arith) refl

-- A site with one page, and a handler that answers with the arguments.
abbrev one_page : Files
one_page path = if text_eq path (codes "wwwroot/b.html") then regular (codes "hello") else no_file

abbrev headers_in_order : TextMap Text → List (Text × Text)
headers_in_order h = h

handler_http_service-serves_example :
    (t : Service) × (handler_http_service headers_in_order one_page noon
        (codes "GET /b.html HTTP/1.1" ++ (sep ++ block (header_lines_of header_keys)))
        empty_service
      ≡ ok (
        reply_text headers_in_order empty_service
            (file_reply one_page empty_service (site_path (codes "/b.html"))),
        t,
      ))
    × (t.funcs ≡ empty_service.funcs)
    × (t.sessions ≡ empty_service.sessions)
    × (t.number ≡ empty_service.number)
unfolding text_eq is_space
handler_http_service-serves_example =
    handler_http_service-serves headers_in_order one_page empty_service noon (codes "GET")
      (codes "/b.html") (codes "HTTP/1.1") (header_lines_of header_keys) (ground arith)
      (ground arith) (ground arith) (ground arith) (ground arith) (ground arith) refl refl
      (ground arith) tt

abbrev say_args : Request → Response
say_args r = record new_response { status_code = some 200; desc = codes "OK"; resp_text = r.args }

abbrev with_handler : Service
with_handler = record empty_service { funcs = (codes "wwwroot/a", say_args) ∷ [] }

handler_http_service-runs_example :
    (req : Request) × (req.path ≡ site_path (codes "/a"))
    × (req.args ≡ codes "b=1")
    × (req.sessionid ≡ last_cookie [] header_keys)
    × (handler_http_service headers_in_order one_page noon
          (get_line ++ (sep ++ block (header_lines_of header_keys)))
          with_handler
        ≡ (handled noon say_args (last_cookie [] header_keys) req with_handler >>= λ a.
            or_fault undefined (serialize headers_in_order a.0) >>= λ text. ok (text, a.1)))
unfolding same_ignoring_case text_eq lookup is_space
handler_http_service-runs_example =
    handler_http_service-runs headers_in_order one_page with_handler noon (codes "GET") (codes "/a")
      (codes "b=1") (codes "HTTP/1.1") header_keys say_args (ground arith) (ground arith)
      (ground arith) (ground arith) (omega arith) refl refl (ground arith) (ground arith)
      (ground arith) refl
