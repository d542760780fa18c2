-- ===== src/Http/Login.antt =====
-- Login and main of day_01/demo_02/cookie_session/Main.cc.
use linux_advance.Base.{length, if◌then◌else◌}
use linux_advance.Base.Text.{Text, codes}
use linux_advance.Base.Text.Decimal.{to_string}
use linux_advance.Http.Request.{Request, same_ignoring_case}
use linux_advance.Http.Response.{Response, new_response, add_status_line, add_header, add_text}
use linux_advance.Http.Service.{Service, add_handler}

-- The data that a login sends: the arguments of a get request, the text of a post request.
unfoldable pub user_data : Request → Text
user_data req =
    if same_ignoring_case req.req_method (codes "get")
    then req.args
    else if same_ignoring_case req.req_method (codes "post")
    then req.req_text
    else codes ""

abbrev pub login_page : Text
login_page = codes "<html><h1>haha,no content!</h1></html>"

-- Login: the data is only logged.
unfoldable pub login : Request → Response
login req = add_text login_page (
    add_header (codes "Content-Length") (to_string (length login_page)) (
      add_header (codes "Content-Type") (codes "text/html")
        (add_status_line 200 (codes "OK") new_response)))

-- The service as main sets it up.
unfoldable pub with_login : Service → Service
with_login s = add_handler (codes "login") login s
