-- ===== src/Http/Proofs/Answers.antt =====
-- Sessions that are added, handlers that are missing, and responses that are read back.
use linux_advance.Base.{
  ℕ, suc, ◌≡◌, refl, sym, ap, ◌∙◌, true, none, some, List, [], ◌∷◌, ◌++◌, if◌then◌else◌, length,
  append_assoc, All,
}
use mathlib.Core.Option.{some-injective}
use linux_advance.Base.Monad.{fault, thrown}
use linux_advance.Base.Text.{Text, text_eq}
use linux_advance.Base.TextMap.{TextMap, lookup, lookup-insert, value_or}
use linux_advance.Http.Request.{Request, is_exec, get_one_line, header_lines, sep, header_sep}
use linux_advance.Http.Response.{Response, serialize, header_text, status_line}
use linux_advance.Http.Session.{Session, Moment, session_id, add_session, get_session, Sessions}
use linux_advance.Http.Service.{Service, Files, exec_branch, respond}
use linux_advance.Http.Proofs.Lines.{
  block, IsLine, get_one_line-append, header_lines-block, length-block,
}
use linux_advance.Http.Proofs.Words.{header_lines_of}

-- After AddSession every id finds what it found before, except the id that was drawn: that finds the
-- session that had this id already, or else the new one.
get_session-add_session :
    (m : Moment) (new : Session) (sessions : Sessions) (id : Text)
    → get_session id (add_session m new sessions).1 ≡ (
        if text_eq (session_id m) id
        then some (value_or (get_session id sessions) new)
        else get_session id sessions)
unfolding get_session add_session
get_session-add_session m new sessions id = lookup-insert (session_id m) id new sessions

-- A request with arguments or a text, whose path has no handler, throws std::bad_function_call.
pub respond_unknown_handler :
    (files : Files) (m : Moment) (req : Request) (s : Service)
    → is_exec req ≡ true
    → lookup req.path s.funcs ≡ none
    → respond files m req s ≡ fault thrown
unfolding respond exec_branch
respond_unknown_handler files m req s h e = rw h (rw e)

-- Serialize writes the status line, the header lines in the order in which the map is walked, a blank
-- line and the text: `block` of Http.Proofs.Lines, which the code of the requests reads back.
header_text-block :
    (hs : List (Text × Text)) (t : Text)
    → header_text hs ++ (sep ++ t) ≡ block (header_lines_of hs) ++ t
unfolding header_text block
header_text-block [] t = refl
header_text-block ((k, v) ∷ hs) t =
    simp append_assoc (ap (λ r. k ++ (header_sep ++ (v ++ (sep ++ r)))) (header_text-block hs t))

-- From a serialized response whose lines hold no carriage return, are not empty and are shorter than
-- 2^64 - 1, the lexer of the requests reads back the status line, the header lines in the order in
-- which the map was walked, and the text, whatever the text holds.
pub get_one_line-serialize :
    (walk : TextMap Text → List (Text × Text)) (r : Response) (code : ℕ) (out : Text)
    → r.status_code ≡ some code
    → IsLine (status_line code r.desc)
    → All IsLine (header_lines_of (walk r.headers))
    → serialize walk r ≡ some out
    → let (line, rest) = get_one_line out in
      (line ≡ status_line code r.desc)
      × (header_lines (suc (length rest)) [] rest
          ≡ some (header_lines_of (walk r.headers), r.resp_text))
unfolding serialize
get_one_line-serialize walk r code out e (h, full, b) hs so =
    let lines = header_lines_of (walk r.headers) in
    let out_lem : status_line code r.desc ++ (sep ++ (block lines ++ r.resp_text)) ≡ out =
      some-injective _ _ (
        ap (λ t. some (status_line code r.desc ++ (sep ++ t)))
          (sym (header_text-block (walk r.headers) r.resp_text))
        ∙ (rw (e, serialize) at so)) in
    let split = get_one_line-append (status_line code r.desc) (block lines ++ r.resp_text) h b in
    rw (← out_lem, split, full)
      (refl, header_lines-block lines [] r.resp_text _ hs (length-block lines r.resp_text))
