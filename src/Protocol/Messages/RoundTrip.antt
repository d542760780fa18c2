-- ===== src/Protocol/Messages/RoundTrip.antt =====
-- Serialize and DeSerialize of Protocol.hpp with SELF, one after the other.
use linux_advance.Base.{
  ℕ, suc, ◌+◌, ◌-◌, ◌<◌, ◌≡◌, ◌≢◌, refl, sym, ◌∙◌, true, false, some, [], ◌∷◌, ◌++◌, arith,
  is_empty, get_elem?, length, length-append, append_assoc, drop_append_add, ne→==,
}
use linux_advance.Base.Int.{ℤ, pos, negsuc, npos, fits_int, ◌-ℤ◌}
use linux_advance.Base.Text.{Text, starts_with, find, find?, find_from, rfind, substr}
use linux_advance.Base.Text.Find.{
  Lacks, find?-append, All-Lacks, rfind?-append, substr_head, substr_tail,
}
use linux_advance.Base.Text.Decimal.{
  stoi, digits, to_string, int_to_string, IsDigit, to_string-All, length-to_string_pos,
  stoi-int_to_string,
}
use linux_advance.Protocol.Messages.{
  Request, Response, serialize_request, deserialize_request, serialize_response,
  deserialize_response, char_value, cal_sep,
}

int_to_string-Lacks : (a : ℤ) → Lacks 32 (int_to_string a)
unfolding int_to_string
int_to_string-Lacks (pos n) =
    All-Lacks 32 IsDigit (to_string n) (λ c h. omega arith) (to_string-All n)
int_to_string-Lacks (negsuc n) = (
  omega arith,
  All-Lacks 32 IsDigit (to_string (suc n)) (λ c h. omega arith) (to_string-All (suc n)),
)

length-int_to_string_pos : (a : ℤ) → 0 < length (int_to_string a)
unfolding int_to_string
length-int_to_string_pos (pos n) = length-to_string_pos n
length-int_to_string_pos (negsuc n) = omega arith

is_empty_of_pos : (s : Text) → 0 < length s → is_empty s ≡ false
is_empty_of_pos [] h = absurd (omega arith)
is_empty_of_pos (x ∷ s) h = refl

int_to_string-not-empty : (a : ℤ) → is_empty (int_to_string a) ≡ false
int_to_string-not-empty a = is_empty_of_pos (int_to_string a) (length-int_to_string_pos a)

get_elem?-append : (s t : Text) (c : ℕ) (n : ℕ) → n ≡ length s → get_elem? (s ++ c ∷ t) n ≡ some c
get_elem?-append [] t c n h = rw h
get_elem?-append (x ∷ s) t c n h = rw h (get_elem?-append s t c (length s) refl)

two_blanks : (s t : Text) (c : ℕ) → s ++ (32 ∷ (c ∷ (32 ∷ t))) ≡ (s ++ (32 ∷ (c ∷ []))) ++ (32 ∷ t)
two_blanks s t c = simp append_assoc

one_blank : (s t : Text) → s ++ (32 ∷ t) ≡ (s ++ (32 ∷ [])) ++ t
one_blank s t = simp append_assoc

-- The parts of a text with a blank, one byte and a blank in it.
module _ (s t : Text) (c : ℕ) where
  abbrev line : Text
  line = s ++ (32 ∷ (c ∷ (32 ∷ t)))

  line-length : length line ≡ length s + length t + 3
  line-length = omega (arith, length-append s (32 ∷ (c ∷ (32 ∷ t))))

  line-find : Lacks 32 s → find cal_sep line ≡ length s
  unfolding find
  line-find h = rw (find?-append 32 [] s (c ∷ (32 ∷ t)) h)

  line-rfind : Lacks 32 t → rfind cal_sep line ≡ length s + 2
  unfolding rfind
  line-rfind h =
      rw (two_blanks s t c, rfind?-append 32 (s ++ (32 ∷ (c ∷ []))) t h)
        (length-append s (32 ∷ (c ∷ [])))

  line_head : substr line 0 (length s) ≡ some s
  line_head = substr_head s (32 ∷ (c ∷ (32 ∷ t)))

  three_blanks : line ≡ (s ++ (32 ∷ (c ∷ (32 ∷ [])))) ++ t
  three_blanks = simp append_assoc

  line_tail : length s + length t + 3 < npos → substr line (length s + 2 + 1) npos ≡ some t
  line_tail h = rw three_blanks (
      substr_tail (s ++ (32 ∷ (c ∷ (32 ∷ [])))) t (length s + 2 + 1) npos
        (omega (arith, length-append s (32 ∷ (c ∷ (32 ∷ []))))) (omega arith))

  line_oper : get_elem? line (length s + 2 - 1) ≡ some c
  line_oper = rw (one_blank s (c ∷ (32 ∷ t))) (
      get_elem?-append (s ++ (32 ∷ [])) (32 ∷ t) c (length s + 2 - 1)
        (omega (arith, length-append s (32 ∷ []))))

-- The tests pass and the parts come out, for any two numerals without a blank.
deserialize_request_parts :
    (s t : Text) (x y : ℤ) (c : ℕ)
    → Lacks 32 s
    → Lacks 32 t
    → is_empty s ≡ false
    → is_empty t ≡ false
    → length s + length t + 3 < npos
    → stoi s ≡ some x
    → stoi t ≡ some y
    → deserialize_request (line s t c) ≡ some (some (record { x = x; y = y; oper = c }))
unfolding deserialize_request
deserialize_request_parts s t x y c ls lt hs ht h ex ey =
    rw
      (
        line-find s t c ls,
        line-rfind s t c lt,
        line_head s t c,
        line_tail s t c h,
        ne→== (length s) npos (omega arith),
        ne→== (length s + 2) npos (omega arith),
        hs,
        ht,
        ex,
        ey,
        line_oper s t c,
      )
      (ground arith)

-- A request of two ints is read back from what Serialize writes with SELF, whatever byte its operator
-- is, if the text is shorter than 2^64 - 1.
pub deserialize-serialize_request :
    (r : Request)
    → fits_int r.x ≡ true
    → fits_int r.y ≡ true
    → length (serialize_request r) < npos
    → deserialize_request (serialize_request r) ≡ some (some r)
unfolding serialize_request
deserialize-serialize_request r hx hy h =
    deserialize_request_parts (int_to_string r.x) (int_to_string r.y) r.x r.y r.oper
      (int_to_string-Lacks r.x) (int_to_string-Lacks r.y) (int_to_string-not-empty r.x)
      (int_to_string-not-empty r.y)
      (omega (arith, line-length (int_to_string r.x) (int_to_string r.y) r.oper))
      (stoi-int_to_string r.x hx) (stoi-int_to_string r.y hy)

line_second :
    (s t : Text) (c : ℕ) → c ≢ 32 → find_from cal_sep (line s t c) (length s + 1) ≡ length s + 2
unfolding find_from find? starts_with
line_second s t c h =
    rw (drop_append_add s (32 ∷ (c ∷ (32 ∷ t))) 1 (length s + 1) refl, find_from) (ground arith)

deserialize_response_parts :
    (s t : Text) (x : ℤ) (c : ℕ)
    → Lacks 32 s
    → c ≢ 32
    → is_empty s ≡ false
    → is_empty t ≡ false
    → length s + length t + 3 < npos
    → stoi s ≡ some x
    → deserialize_response (line s t c)
      ≡ some (some (record { result = x; flag = char_value c -ℤ pos 48; equation = t }))
unfolding deserialize_response
deserialize_response_parts s t x c ls lc hs ht h ex =
    rw
      (
        line-find s t c ls,
        line_second s t c lc,
        line_head s t c,
        line_tail s t c h,
        ne→== (length s) npos (omega arith),
        ne→== (length s + 2) npos (omega arith),
        hs,
        ht,
        ex,
        line_oper s t c,
      )
      (ground arith)

flag_digit : (f : ℕ) → f < 10 → int_to_string (pos f) ≡ (48 + f) ∷ []
unfolding int_to_string to_string digits
flag_digit f h = ground arith

flag_value : (f : ℕ) → f < 10 → char_value (48 + f) -ℤ pos 48 ≡ pos f
unfolding char_value
flag_value f h = ground arith

line_of_flag :
    (r : Response) (f : ℕ)
    → r.flag ≡ pos f
    → f < 10
    → serialize_response r ≡ line (int_to_string r.result) r.equation (48 + f)
unfolding serialize_response
line_of_flag r f e h = rw (e, flag_digit f h)

-- A response with an int result, a flag of one digit and an equation that is not empty is read back
-- from what Serialize writes with SELF, whatever blanks its equation holds, if the text is shorter than
-- 2^64 - 1.
pub deserialize-serialize_response :
    (r : Response) (f : ℕ)
    → fits_int r.result ≡ true
    → r.flag ≡ pos f
    → f < 10
    → is_empty r.equation ≡ false
    → length (int_to_string r.result) + length r.equation + 3 < npos
    → deserialize_response (serialize_response r) ≡ some (some r)
deserialize-serialize_response r f hx e hf he h = rw (line_of_flag r f e hf) (
    deserialize_response_parts (int_to_string r.result) r.equation r.result (48 + f)
      (int_to_string-Lacks r.result) (omega arith) (int_to_string-not-empty r.result) he h
      (stoi-int_to_string r.result hx)
    ∙ rw (flag_value f hf, sym e))
