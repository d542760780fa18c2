-- ===== src/Http/Proofs/Answered.antt =====
-- Which requests HandlerHttpService answers.
use linux_advance.Base.{
  ℕ, [], ◌∷◌, ◌≡◌, refl, sym, ◌∙◌, Bool, true, false, not, ◌&&◌, ◌||◌, ltb, length, take, Option,
  none, some, List, if◌then◌else◌, is_empty, Bool-cases, Option-cases, inl, inr, ◌⊎◌,
}
use linux_advance.Base.Monad.{Result, ok, fault, thrown, undefined, or_fault, is_ok, ◌>>=◌}
use linux_advance.Base.Int.{ℤ, pos, negsuc, pos_part, to_int}
use linux_advance.Base.Map.{is_some}
use linux_advance.Base.Text.{Text, codes, text_eq}
use linux_advance.Base.TextMap.{TextMap, lookup}
use linux_advance.Http.Request.{Request, deserialize, is_exec}
use linux_advance.Http.Response.{Response, new_response, serialize, add_header}
use linux_advance.Http.Session.{Moment}
use linux_advance.Http.Service.{
  Service, Files, Entry, no_file, directory, regular, int_max, read_entry, read_size,
  handler_http_service, respond, exec_branch, file_branch, log_in, redirect, serve_file,
  serve_content, found, not_found, desc_of, mime_of, read_file_request,
}

-- A handler that sets a status code.
abbrev pub has_answer : Option (Request → Response) → Request → Bool
has_answer none req = false
has_answer (some f) req = is_some (f req).status_code

abbrev pub is_negative : ℤ → Bool
is_negative (pos n) = false
is_negative (negsuc n) = true

-- A directory cannot be read, nor a file whose size is a negative int.
abbrev pub can_read : Entry → Bool
can_read no_file = true
can_read directory = false
can_read (regular content) = not (is_negative (to_int (length content)))

-- No content is found: no file opens, or the size, as an int, is 0.
abbrev pub finds_nothing : Entry → Bool
finds_nothing no_file = true
finds_nothing directory = false
finds_nothing (regular content) = is_empty (take (pos_part (to_int (length content))) content)

-- A path that is answered with its file, or with the page of errors.
abbrev pub can_serve : Files → Text → Bool
can_serve files path =
    can_read (files path)
    && (not (finds_nothing (files path)) || can_read (files (codes "wwwroot/404.html")))

-- A new session can be counted.
abbrev pub can_track : Request → Service → Bool
can_track req s = not (is_empty req.sessionid) || ltb s.number int_max

-- The requests that are answered.
abbrev pub is_answered : Files → Request → Service → Bool
is_answered files req s =
    if is_exec req
    then has_answer (lookup req.path s.funcs) req && can_track req s
    else (text_eq req.path (codes "wwwroot/redir")
        || (not (text_eq req.path (codes "wwwroot/404.html")) && can_serve files req.path))

abbrev written : (TextMap Text → List (Text × Text)) → Response × Service → Result (Text × Service)
written walk a = do text ← or_fault undefined (serialize walk a.0); ok (text, a.1)

is_ok-written :
    (walk : TextMap Text → List (Text × Text)) (r : Response) (s : Service)
    → is_ok (written walk (r, s)) ≡ is_some r.status_code
unfolding serialize
is_ok-written walk r s = on_code r.status_code
  where
    on_code :
        (code : Option ℕ) → is_ok (written walk (record r { status_code = code }, s)) ≡ is_some code
    on_code none = refl
    on_code (some c) = refl

and_true : (b : Bool) → (b && true) ≡ b
and_true true = refl
and_true false = refl

and_false : (b : Bool) → (b && false) ≡ false
and_false true = refl
and_false false = refl

exec_branch-answered :
    (walk : TextMap Text → List (Text × Text)) (m : Moment) (req : Request) (s : Service)
    → is_ok (exec_branch m req s >>= written walk)
      ≡ (has_answer (lookup req.path s.funcs) req && can_track req s)
unfolding exec_branch log_in add_header
exec_branch-answered walk m req s = elim (Option-cases (lookup req.path s.funcs)) [
  | inl e ↦ rw e refl
  | inr (f, e) ↦ elim (Bool-cases (is_empty req.sessionid)) [
    | inl new ↦ elim (Bool-cases (ltb s.number int_max)) [
      | inl more ↦
          rw (e, new, more)
            (is_ok-written walk (add_header (codes "Set-Cookie") _ (f req)) _
              ∙ sym (and_true (is_some (f req).status_code)))
      | inr last ↦ rw (e, new, last) (sym (and_false (is_some (f req).status_code)))
    ]
    | inr known ↦
        rw (e, known) (is_ok-written walk (f req) s ∙ sym (and_true (is_some (f req).status_code)))
  ]
]

-- How an entry is read.
abbrev Read : Bool → Bool → Result (Text × ℕ) → Type 0
Read can nothing r =
    ((can ≡ false) × (r ≡ fault thrown))
    ⊎ ((can ≡ true) × (c : Text) × (n : ℕ) × (r ≡ ok (c, n)) × (is_empty c ≡ nothing))

read_size_cases :
    (z : ℤ) (content : Text)
    → Read (not (is_negative z)) (is_empty (take (pos_part z) content)) (read_size z content)
read_size_cases (pos n) content = inr (refl, take n content, n, refl, refl)
read_size_cases (negsuc n) content = inl (refl, refl)

read_entry_cases : (e : Entry) (n : ℕ) → Read (can_read e) (finds_nothing e) (read_entry e n)
read_entry_cases no_file n = inr (refl, [], n, refl, refl)
read_entry_cases directory n = inl (refl, refl)
read_entry_cases (regular content) n = read_size_cases (to_int (length content)) content

not_found-answered :
    (walk : TextMap Text → List (Text × Text)) (files : Files) (n : ℕ) (s : Service)
    → is_ok (not_found files n s >>= written walk) ≡ can_read (files (codes "wwwroot/404.html"))
unfolding not_found read_file_request desc_of mime_of add_header
not_found-answered walk files n s = elim (read_entry_cases (files (codes "wwwroot/404.html")) n) [
  | inl (bad, e) ↦ rw (e, bad) refl
  | inr (good, c, m, e, nothing) ↦ rw (e, good) (is_ok-written walk _ _)
]

serve_content-answered :
    (walk : TextMap Text → List (Text × Text)) (files : Files) (content : Text) (n : ℕ)
    (req : Request) (s : Service)
    → is_ok (serve_content files (content, n) req s >>= written walk)
      ≡ (not (is_empty content) || can_read (files (codes "wwwroot/404.html")))
unfolding serve_content found desc_of mime_of add_header
serve_content-answered walk files [] n req s = not_found-answered walk files n s
serve_content-answered walk files (x ∷ c) n req s = is_ok-written walk _ _

serve_file-answered :
    (walk : TextMap Text → List (Text × Text)) (files : Files) (req : Request) (s : Service)
    → is_ok (serve_file files req s >>= written walk) ≡ can_serve files req.path
unfolding serve_file read_file_request
serve_file-answered walk files req s = elim (read_entry_cases (files req.path) 0) [
  | inl (bad, e) ↦ rw (e, bad) refl
  | inr (good, c, n, e, nothing) ↦
      rw (e, good, ← nothing) (serve_content-answered walk files c n req s)
]

file_branch-answered :
    (walk : TextMap Text → List (Text × Text)) (files : Files) (req : Request) (s : Service)
    → is_ok (file_branch files req s >>= written walk) ≡ (
        text_eq req.path (codes "wwwroot/redir")
        || (not (text_eq req.path (codes "wwwroot/404.html")) && can_serve files req.path))
unfolding file_branch redirect desc_of mime_of add_header
file_branch-answered walk files req s =
    elim (Bool-cases (text_eq req.path (codes "wwwroot/redir"))) [
      | inl redir ↦ rw redir (is_ok-written walk _ _)
      | inr h ↦ elim (Bool-cases (text_eq req.path (codes "wwwroot/404.html"))) [
        | inl e ↦ rw (h, e) (is_ok-written walk new_response s)
        | inr e ↦ rw (h, e) (serve_file-answered walk files req s)
      ]
    ]

pub is_ok-handler_http_service :
    (walk : TextMap Text → List (Text × Text)) (files : Files) (m : Moment) (text : Text)
    (req : Request) (s : Service)
    → deserialize text ≡ some req
    → is_ok (handler_http_service walk files m text s) ≡ is_answered files req s
unfolding handler_http_service respond
is_ok-handler_http_service walk files m text req s e = elim (Bool-cases (is_exec req)) [
  | inl x ↦ rw (e, x) (exec_branch-answered walk m req s)
  | inr x ↦ rw (e, x) (file_branch-answered walk files req s)
]
