-- ===== src/PlainHttp/Extension.antt =====
-- The server with sessions of cookie_session/Http.hpp against the one of http/Http.hpp that it grew from.
use linux_advance.Base.{
  ℕ, ◌≡◌, refl, ap, ◌∙◌, true, false, some, List, [], ◌∷◌, if◌then◌else◌, is_empty, Bool-cases,
  Option-cases, inl, inr, ◌⊎◌,
}
use mathlib.Core.Option.{map as map_option}
use mathlib.Core.Path.{fun_ext}
use linux_advance.Base.Monad.{Result, ok, fault, undefined, or_fault, Result-cases, ◌>>=◌}
use linux_advance.Base.Text.{Text, codes, text_eq}
use linux_advance.Base.TextMap.{TextMap, lookup}
use linux_advance.Http.Request as session_request
use linux_advance.Http.Response.{Response, serialize}
use linux_advance.Http.Session.{Sessions, Moment}
use linux_advance.Http.Service.{Files, read_file_request}
use linux_advance.Http.Service as session_service
use linux_advance.PlainHttp.Request as plain_request
use linux_advance.PlainHttp.Service as plain_service
use linux_advance.PlainHttp.Forget.{forget, deserialize-forget}

-- A handler that does not look at the cookies.
abbrev lift :
    TextMap (plain_request.Request → Response) → TextMap (session_request.Request → Response)
lift [] = []
lift ((k, f) ∷ m) = (k, λ r. f (forget r)) ∷ lift m

-- A service with the configuration and the handlers of `s`, and with these sessions.
abbrev pub with_sessions : plain_service.Service → Sessions → ℕ → session_service.Service
with_sessions s sessions n = record {
  mime_type = s.mime_type;
  status_desc = s.status_desc;
  funcs = lift s.funcs;
  sessions = sessions;
  number = n;
}

lookup-lift :
    (k : Text) (m : TextMap (plain_request.Request → Response))
    → lookup k (lift m) ≡ map_option (λ f r. f (forget r)) (lookup k m)
unfolding lookup
lookup-lift k [] = refl
lookup-lift k ((j, f) ∷ m) = elim (Bool-cases (text_eq j k)) [
  | inl h ↦ rw h
  | inr h ↦ rw h (lookup-lift k m)
]

-- The answer with the sessions beside the configuration.
abbrev pub widen {ℓ} :
    {X : Type ℓ}
    → Sessions
    → ℕ
    → Result (X × plain_service.Service)
    → Result (X × session_service.Service)
widen sessions n x = x >>= λ a. ok (a.0, with_sessions a.1 sessions n)

not_found-extends :
    (files : Files) (size : ℕ) (s : plain_service.Service) (sessions : Sessions) (n : ℕ)
    → session_service.not_found files size (with_sessions s sessions n)
      ≡ widen sessions n (plain_service.not_found files size s)
unfolding session_service.not_found session_service.desc_of session_service.mime_of
    plain_service.not_found plain_service.desc_of plain_service.mime_of
not_found-extends files size s sessions n =
    elim (Result-cases (read_file_request files (codes "wwwroot/404.html") size)) [
      | inl (f, e) ↦ rw e refl
      | inr (read, e) ↦ rw e refl
    ]

serve_content-extends :
    (files : Files) (content : Text) (size : ℕ) (req : session_request.Request)
    (s : plain_service.Service) (sessions : Sessions) (n : ℕ)
    → session_service.serve_content files (content, size) req (with_sessions s sessions n)
      ≡ widen sessions n (plain_service.serve_content files (content, size) (forget req) s)
unfolding session_service.serve_content session_service.found session_service.desc_of
    session_service.mime_of plain_service.serve_content plain_service.found plain_service.desc_of
    plain_service.mime_of
serve_content-extends files [] size req s sessions n = not_found-extends files size s sessions n
serve_content-extends files (x ∷ c) size req s sessions n = refl

serve_file-extends :
    (files : Files) (req : session_request.Request) (s : plain_service.Service)
    (sessions : Sessions) (n : ℕ)
    → session_service.serve_file files req (with_sessions s sessions n)
      ≡ widen sessions n (plain_service.serve_file files (forget req) s)
unfolding session_service.serve_file plain_service.serve_file
serve_file-extends files req s sessions n =
    elim (Result-cases (read_file_request files req.path 0)) [
      | inl (f, e) ↦ rw e refl
      | inr (read, e) ↦ rw e (serve_content-extends files read.0 read.1 req s sessions n)
    ]

file_branch-extends :
    (files : Files) (req : session_request.Request) (s : plain_service.Service)
    (sessions : Sessions) (n : ℕ)
    → text_eq req.path (codes "wwwroot/redir") ≡ false
    → session_service.file_branch files req (with_sessions s sessions n)
      ≡ widen sessions n (plain_service.file_branch files (forget req) s)
unfolding session_service.file_branch plain_service.file_branch
file_branch-extends files req s sessions n h =
    elim (Bool-cases (text_eq req.path (codes "wwwroot/404.html"))) [
      | inl e ↦ rw (h, e) refl
      | inr e ↦ rw (h, e) (serve_file-extends files req s sessions n)
    ]

-- A new session for data without a session id.
abbrev greet :
    Moment
    → session_request.Request
    → Response
    → session_service.Service
    → Result (Response × session_service.Service)
greet m req r s = if is_empty req.sessionid then session_service.log_in m r s else ok (r, s)

-- What the server with sessions adds to an answer.
abbrev pub track :
    Moment
    → session_request.Request
    → Response
    → session_service.Service
    → Result (Response × session_service.Service)
track m req r s = if session_request.is_exec req then greet m req r s else ok (r, s)

exec_branch-extends :
    (m : Moment) (req : session_request.Request) (s : plain_service.Service) (sessions : Sessions)
    (n : ℕ)
    → session_service.exec_branch m req (with_sessions s sessions n) ≡ (
        plain_service.exec_branch (forget req) s >>= λ a.
        greet m req a.0 (with_sessions a.1 sessions n))
unfolding session_service.exec_branch plain_service.exec_branch
exec_branch-extends m req s sessions n = elim (Option-cases (lookup req.path s.funcs)) [
  | inl e ↦ rw (lookup-lift req.path s.funcs, e)
  | inr (f, e) ↦ elim (Bool-cases (is_empty req.sessionid)) [
    | inl b ↦ rw (lookup-lift req.path s.funcs, e, b)
    | inr b ↦ rw (lookup-lift req.path s.funcs, e, b)
  ]
]

-- Unless the request has no data and asks for wwwroot/redir, the server with sessions, with the
-- configuration and the handlers of the server without, gives the same response or the same fault, but
-- for data without a session id, where it adds a new session and its Set-Cookie header or, where the count
-- of users is the greatest int, ends in undefined behaviour.
pub respond-extends :
    (files : Files) (m : Moment) (req : session_request.Request) (s : plain_service.Service)
    (sessions : Sessions) (n : ℕ)
    → (session_request.is_exec req ≡ true) ⊎ (text_eq req.path (codes "wwwroot/redir") ≡ false)
    → session_service.respond files m req (with_sessions s sessions n) ≡ (
        plain_service.respond files (forget req) s >>= λ a.
        track m req a.0 (with_sessions a.1 sessions n))
unfolding session_service.respond plain_service.respond session_request.is_exec
    plain_request.is_exec
respond-extends files m req s sessions n h = elim (Bool-cases (session_request.is_exec req)) [
  | inl x ↦ rw x (exec_branch-extends m req s sessions n)
  | inr x ↦ rw x (file_branch-extends files req s sessions n (other_path x h))
]
  where
    other_path :
        session_request.is_exec req ≡ false
        → (session_request.is_exec req ≡ true) ⊎ (text_eq req.path (codes "wwwroot/redir") ≡ false)
        → text_eq req.path (codes "wwwroot/redir") ≡ false
    other_path x (inl y) = absurd (cc)
    other_path x (inr y) = y

-- A request whose answer opens no session and is no redirection.
abbrev pub IsTrackless : session_request.Request → Type 0
IsTrackless req =
    ((session_request.is_exec req ≡ true) × (is_empty req.sessionid ≡ false))
    ⊎ ((session_request.is_exec req ≡ false) × (text_eq req.path (codes "wwwroot/redir") ≡ false))

respond-trackless :
    (files : Files) (m : Moment) (req : session_request.Request) (s : plain_service.Service)
    (sessions : Sessions) (n : ℕ)
    → IsTrackless req
    → session_service.respond files m req (with_sessions s sessions n)
      ≡ widen sessions n (plain_service.respond files (forget req) s)
respond-trackless files m req s sessions n (inl (x, e)) =
    respond-extends files m req s sessions n (inl x)
    ∙ ap (λ k. plain_service.respond files (forget req) s >>= λ a. k a) (fun_ext (λ a. rw (x, e)))
respond-trackless files m req s sessions n (inr (x, e)) =
    respond-extends files m req s sessions n (inr e)
    ∙ ap (λ k. plain_service.respond files (forget req) s >>= λ a. k a) (fun_ext (λ a. rw x))

abbrev write {ℓ} :
    {S : Type ℓ} → (TextMap Text → List (Text × Text)) → Response × S → Result (Text × S)
write walk a = do text ← or_fault undefined (serialize walk a.0); ok (text, a.1)

-- Both servers write their answer in the same way.
write-extends :
    (walk : TextMap Text → List (Text × Text)) (x : Result (Response × plain_service.Service))
    (sessions : Sessions) (n : ℕ)
    → (widen sessions n x >>= write walk) ≡ widen sessions n (x >>= write walk)
write-extends walk (fault f) sessions n = refl
write-extends walk (ok (r, t)) sessions n = elim (Option-cases (serialize walk r)) [
  | inl e ↦ rw e
  | inr (out, e) ↦ rw e
]

-- For a request that has data and a session id, or no data and another path than wwwroot/redir, the
-- server with sessions, with the configuration and the handlers of the server without, gives the same
-- text or the same fault, and ends with the same configuration and handlers and with the sessions that
-- it had.
pub handler-extends :
    (walk : TextMap Text → List (Text × Text)) (files : Files) (m : Moment) (text : Text)
    (req : session_request.Request) (s : plain_service.Service) (sessions : Sessions) (n : ℕ)
    → session_request.deserialize text ≡ some req
    → IsTrackless req
    → session_service.handler_http_service walk files m text (with_sessions s sessions n)
      ≡ widen sessions n (plain_service.handler_http_service walk files text s)
unfolding session_service.handler_http_service plain_service.handler_http_service
handler-extends walk files m text req s sessions n e h =
    rw (e, deserialize-forget text, e, respond-trackless files m req s sessions n h)
      (write-extends walk (plain_service.respond files (forget req) s) sessions n)
