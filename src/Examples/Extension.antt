-- ===== src/Examples/Extension.antt =====
-- A request to both web servers.
use linux_advance.Base.{
  ◌≡◌, refl, true, false, some, List, [], ◌∷◌, ◌++◌, arith, inl, inr, if◌then◌else◌, is_empty,
}
use linux_advance.Base.Monad.{is_ok}
use linux_advance.Base.Text.{Text, codes, text_eq, find, find?, rfind, c_str}
use linux_advance.Base.TextMap.{TextMap}
use linux_advance.Http.Request as session_request
use linux_advance.Http.Request.{sep, new_request}
use linux_advance.Http.Session.{Moment}
use linux_advance.Http.Service.{Files, regular}
use linux_advance.Http.Service as session_service
use linux_advance.PlainHttp.Service as plain_service
use linux_advance.Http.Proofs.Lines.{deserialize-block}
use linux_advance.Http.Proofs.Answered.{is_answered, is_ok-handler_http_service}
use linux_advance.PlainHttp.Extension.{with_sessions, widen, handler-extends}

abbrev a_file : Files
a_file path = regular (codes "hi")

abbrev noon : Moment
noon = record { rand = 2; now = 43200 }

abbrev plain : plain_service.Service
plain = record { mime_type = []; status_desc = []; funcs = [] }

abbrev get_line : Text
get_line = codes "GET /a.x HTTP/1.0"

abbrev get_text : Text
get_text = get_line ++ (sep ++ (sep ++ []))

abbrev got : session_request.Request
got =
    (session_request.parse_headers []
      (session_request.parse_req_line (record new_request { req_line = get_line })).0).0

abbrev in_order : TextMap Text → List (Text × Text)
in_order m = m

got-path :
    (session_request.is_exec got ≡ false) × (text_eq got.path (codes "wwwroot/redir") ≡ false)
unfolding session_request.parse_headers session_request.parse_req_line session_request.is_exec
    session_request.set_suffix rfind linux_advance.Base.Text.rfind? session_request.set_path
    session_request.same_ignoring_case session_request.read_words session_request.next_word
    session_request.split_args find find? linux_advance.Base.Text.starts_with text_eq
got-path = (refl, refl)

handler-extends_example :
    session_service.handler_http_service in_order a_file noon get_text (with_sessions plain [] 0)
    ≡ widen [] 0 (plain_service.handler_http_service in_order a_file get_text plain)
unfolding linux_advance.Http.Proofs.Lines.block
handler-extends_example =
    handler-extends in_order a_file noon get_text got plain [] 0
      (deserialize-block get_line [] [] (ground arith) tt) (inr got-path)

is_ok-handler_http_service_example :
    is_ok (
      session_service.handler_http_service in_order a_file noon get_text (with_sessions plain [] 0))
    ≡ is_answered a_file got (with_sessions plain [] 0)
unfolding linux_advance.Http.Proofs.Lines.block
is_ok-handler_http_service_example =
    is_ok-handler_http_service in_order a_file noon get_text got (with_sessions plain [] 0)
      (deserialize-block get_line [] [] (ground arith) tt)
