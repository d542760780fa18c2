-- ===== src/Http/Proofs/Handling.antt =====
-- HandlerHttpService from the bytes of a request with arguments to what its handler answers.
use linux_advance.Base.{
  ◌<◌, ◌≡◌, refl, sym, ap, ◌∙◌, true, false, some, List, [], ◌∷◌, ◌++◌, if◌then◌else◌, is_empty,
  length, append-nil, All, Bool-cases, inl, inr,
}
use linux_advance.Base.Monad.{Result, ok, or_fault, undefined, ◌>>=◌}
use linux_advance.Base.Int.{npos}
use linux_advance.Base.Text.{Text, codes}
use linux_advance.Base.Text.Find.{Lacks}
use linux_advance.Base.TextMap.{TextMap, lookup}
use linux_advance.Http.Request.{
  Request, new_request, sep, parse_req_line, parse_headers, same_ignoring_case, deserialize,
  is_exec,
}
use linux_advance.Http.Response.{Response, serialize}
use linux_advance.Http.Session.{Moment}
use linux_advance.Http.Service.{Service, Files, respond, handler_http_service}
use linux_advance.Http.Proofs.Lines.{block, IsLine, deserialize-block}
use linux_advance.Http.Proofs.Words.{IsWord}
use linux_advance.Http.Service.{log_in, exec_branch}
use linux_advance.Http.Proofs.Words.{IsKey, header_lines_of, last_cookie, parse_headers-sessionid}
use linux_advance.Http.Proofs.Asked.{
  Asks, site_path, parse_headers-Asks, parse_req_line-Asks_args, sessionid-parse_req_line,
}

-- The response of the handler, with a new session where the request has none.
abbrev pub handled :
    Moment → (Request → Response) → Text → Request → Service → Result (Response × Service)
handled mo f cookie req s = if is_empty cookie then log_in mo (f req) s else ok (f req, s)

module _ (walk : TextMap Text → List (Text × Text)) (files : Files) (s : Service) where
  respond-handled :
      (mo : Moment) (f : Request → Response) (req : Request)
      → is_empty req.args ≡ false
      → lookup req.path s.funcs ≡ some f
      → respond files mo req s ≡ handled mo f req.sessionid req s
  unfolding respond is_exec exec_branch
  respond-handled mo f req some_args known =
      rw (some_args, known)
        (elim (Bool-cases (is_empty req.sessionid)) [
          | inl new ↦ rw new refl
          | inr old ↦ rw old refl
        ])

  pub handler_http_service-runs :
      (mo : Moment) (m u a v : Text) (hs : List (Text × Text)) (f : Request → Response)
      → IsWord m
      → IsWord (u ++ (63 ∷ a))
      → IsWord v
      → Lacks 63 u
      → length u < npos
      → is_empty a ≡ false
      → same_ignoring_case m (codes "get") ≡ true
      → IsLine (m ++ (32 ∷ ((u ++ (63 ∷ a)) ++ (32 ∷ v))))
      → All IsLine (header_lines_of hs)
      → All IsKey hs
      → lookup (site_path u) s.funcs ≡ some f
      → (req : Request) × (req.path ≡ site_path u)
        × (req.args ≡ a)
        × (req.sessionid ≡ last_cookie [] hs)
        × (handler_http_service walk files mo
              ((m ++ (32 ∷ ((u ++ (63 ∷ a)) ++ (32 ∷ v)))) ++ (sep ++ block (header_lines_of hs)))
              s
            ≡ (handled mo f (last_cookie [] hs) req s >>= λ a.
                or_fault undefined (serialize walk a.0) >>= λ text. ok (text, a.1)))
  unfolding handler_http_service
  handler_http_service-runs mo m u a v hs f hm hu hv plain short some_args get hl hhs keys known =
      let line = m ++ (32 ∷ ((u ++ (63 ∷ a)) ++ (32 ∷ v))) in
      let lines = header_lines_of hs in
      let r₀ : Request = record new_request {
        req_line = line;
        req_header = lines;
        req_text = [];
      } in
      let req : Request = (parse_headers lines (parse_req_line r₀).0).0 in
      let asks : Asks (site_path u) a req =
        parse_headers-Asks (site_path u) a lines (parse_req_line r₀).0
          (parse_req_line-Asks_args m u a v lines hm hu hv plain short get) in
      let cookie : req.sessionid ≡ last_cookie [] hs =
        (parse_headers-sessionid hs (parse_req_line r₀).0 keys).0
        ∙ ap (λ c. last_cookie c hs) (sessionid-parse_req_line r₀) in
      let read : deserialize (line ++ (sep ++ block lines)) ≡ some req =
        ap (λ b. deserialize (line ++ (sep ++ b))) (sym (append-nil (block lines)))
        ∙ deserialize-block line [] lines hl hhs in
      let answer : respond files mo req s ≡ handled mo f (last_cookie [] hs) req s =
        respond-handled mo f req (ap is_empty asks.args_lem ∙ some_args)
          (ap (λ p. lookup p s.funcs) asks.path_lem ∙ known)
        ∙ ap (λ c. handled mo f c req s) cookie in
      (req, asks.path_lem, asks.args_lem, cookie, rw (read, answer) refl)
