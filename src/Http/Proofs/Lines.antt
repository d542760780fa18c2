-- ===== src/Http/Proofs/Lines.antt =====
-- GetOneLine and the loops that call it.
use linux_advance.Base.{
  ℕ, zero, suc, ◌+◌, ◌<◌, ◌≡◌, refl, sym, ap, ◌∙◌, false, some, List, [], ◌∷◌, ◌++◌, arith,
  if◌then◌else◌, is_empty, length, All, append_assoc, append-nil, take-append, drop_append_add,
  length-append, Bool-cases, Option-cases, inl, inr, ne→==, length-drop,
}
use linux_advance.Base.Int.{npos}
use linux_advance.Base.Text.{Text, find, find?, text_eq}
use linux_advance.Base.Text.Find.{Lacks, find?-append}
use linux_advance.Http.Request.{
  Request, new_request, sep, get_one_line, header_lines, deserialize, parse_req_line, parse_headers,
}

-- A line that a request can hold: not blank, and with no carriage return in it.
abbrev pub IsLine : Text → Type 0
IsLine l = Lacks 13 l × (is_empty l ≡ false) × (length l < npos)

-- Lines, each with its separator, and the blank line.
unfoldable pub block : List Text → Text
block [] = sep
block (l ∷ ls) = l ++ (sep ++ block ls)

is_empty-append : (l r : Text) → is_empty (l ++ (sep ++ r)) ≡ false
is_empty-append [] r = refl
is_empty-append (x ∷ l) r = refl

-- GetOneLine takes the text before the first separator off, and the separator with it.
pub get_one_line-append :
    (l r : Text)
    → Lacks 13 l
    → length l < npos
    → get_one_line (l ++ (sep ++ r)) ≡ (if is_empty l then sep else l, r)
unfolding get_one_line find
get_one_line-append l r h b =
    rw (is_empty-append l r, find?-append 13 (10 ∷ []) l r h, ne→== (length l) npos (omega arith))
      (ground (arith, take-append l (sep ++ r), drop_append_add l (sep ++ r) 2 (length l + 2) refl))

line-ne-sep : (l : Text) → Lacks 13 l → text_eq l sep ≡ false
unfolding text_eq
line-ne-sep [] h = refl
line-ne-sep (x ∷ l) h = ground arith

header_step :
    (fuel : ℕ) (acc : List Text) (l r : Text)
    → IsLine l
    → header_lines (suc fuel) acc (l ++ (sep ++ r)) ≡ header_lines fuel (acc ++ l ∷ []) r
unfolding header_lines
header_step fuel acc l r (h, full, b) =
    ground (arith, get_one_line-append l r h b, full, line-ne-sep l h)

header_stop :
    (fuel : ℕ) (acc : List Text) (r : Text) → header_lines (suc fuel) acc (sep ++ r) ≡ some (acc, r)
unfolding header_lines text_eq
header_stop fuel acc r = ground (arith, get_one_line-append [] r tt (omega arith))

-- The loop of DeSerialize reads the lines before the blank one, and leaves the text behind it.
pub header_lines-block :
    (ls acc : List Text) (body : Text) (fuel : ℕ)
    → All IsLine ls
    → length ls < fuel
    → header_lines fuel acc (block ls ++ body) ≡ some (acc ++ ls, body)
unfolding block
header_lines-block ls acc body zero h f = absurd (omega arith)
header_lines-block [] acc body (suc fuel) h f =
    header_stop fuel acc body ∙ ap (λ (a : List Text). some (a, body)) (sym (append-nil acc))
header_lines-block (l ∷ ls) acc body (suc fuel) (hl, h) f =
    rw (append_assoc l (sep ++ block ls) body) (
      header_step fuel acc l (block ls ++ body) hl
      ∙ (header_lines-block ls (acc ++ l ∷ []) body fuel h (omega arith)
          ∙ ap (λ (a : List Text). some (a, body)) (append_assoc acc (l ∷ []) ls)))

pub length-block : (ls : List Text) (body : Text) → length ls < suc (length (block ls ++ body))
unfolding block
length-block [] body = omega arith
length-block (l ∷ ls) body = omega (
  arith,
  length-block ls body,
  length-append (l ++ (sep ++ block ls)) body,
  length-append l (sep ++ block ls),
  length-append (block ls) body,
)

-- DeSerialize of a request line, header lines, a blank line and a text, where no line is empty, holds a
-- carriage return or is as long as 2^64 - 1, hands exactly these lines and this text to ParseReqLine
-- and ParseReqHeader.
pub deserialize-block :
    (l body : Text) (ls : List Text)
    → IsLine l
    → All IsLine ls
    → deserialize (l ++ (sep ++ (block ls ++ body)))
      ≡ some (
          (parse_headers ls
            (parse_req_line
              (record new_request { req_line = l; req_header = ls; req_text = body })).0).0)
unfolding deserialize
deserialize-block l body ls (h, full, b) hs = ground (
  arith,
  get_one_line-append l (block ls ++ body) h b,
  full,
  header_lines-block ls [] body (suc (length (block ls ++ body))) hs (length-block ls body),
)

-- A line that is not empty is taken off the text.
get_one_line_shrinks :
    (s : Text) → is_empty (get_one_line s).0 ≡ false → length (get_one_line s).1 < length s
unfolding get_one_line find
get_one_line_shrinks s h = elim (Option-cases (find? sep s)) [
  | inl nowhere ↦ ground (arith, nowhere)
  | inr (n, there) ↦ ground (arith, there, length-drop (n + 2) s)
]

-- The loop of DeSerialize ends: every round takes a line off the text.
header_lines_total :
    (fuel : ℕ) (acc : List Text) (s : Text)
    → length s < fuel
    → (r : List Text × Text) × (header_lines fuel acc s ≡ some r)
unfolding header_lines
header_lines_total zero acc s h = absurd (omega arith)
header_lines_total (suc fuel) acc s h = elim (Bool-cases (is_empty (get_one_line s).0)) [
  | inl done ↦ ((acc, []), ground (arith, done))
  | inr more ↦ elim (Bool-cases (text_eq (get_one_line s).0 sep)) [
    | inl blank ↦ ((acc, (get_one_line s).1), ground (arith, more, blank))
    | inr line ↦
        let (r, e) =
          header_lines_total fuel (acc ++ (get_one_line s).0 ∷ []) (get_one_line s).1
            (omega (arith, get_one_line_shrinks s more)) in
        (r, ground (arith, more, line, e))
  ]
]

-- DeSerialize of a request ends on every text, with a request.
pub deserialize_total : (s : Text) → (r : Request) × (deserialize s ≡ some r)
unfolding deserialize
deserialize_total s =
    let (r, e) =
      header_lines_total (suc (length (get_one_line s).1)) [] (get_one_line s).1 (omega arith) in
    (
      (parse_headers r.0
          (parse_req_line (record new_request {
            req_line = (get_one_line s).0;
            req_header = r.0;
            req_text = r.1;
          })).0).0,
      rw (e, deserialize),
    )
