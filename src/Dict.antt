-- ===== src/Dict.antt =====
-- Dict.hpp of the server that translates words.
use linux_advance.Base.{
  ◌+◌, ◌≡◌, refl, sym, ap, ◌∙◌, Bool, true, false, Option, none, some, List, [], ◌∷◌, ◌++◌,
  if◌then◌else◌, map, length, arith, All, append_assoc, length-append, ◌<◌,
}
use mathlib.Core.Option.{some-injective}
use linux_advance.Base.Monad.Maybe.{◌>>=◌}
use linux_advance.Base.Int.{npos}
use linux_advance.Base.Text.{Text, codes, find?, substr, text_eq}
use linux_advance.Base.Text.Find.{Lacks, find?-append, substr_head, substr_tail}
use linux_advance.Base.TextMap.{TextMap, lookup, assign, lookup-assign}

abbrev sep : Text
sep = codes ": "

-- The loop of Load for one line; `none` is an exception of substr.
unfoldable pub load_line : Text → TextMap Text → Option (TextMap Text)
load_line line dict = elim (find? sep line) [
  | none ↦ some dict
  | some at ↦ do
    english ← substr line 0 at
    chinese ← substr line (at + length sep) npos
    some (assign english chinese dict)
]

unfoldable pub load_lines : List Text → TextMap Text → Option (TextMap Text)
load_lines [] dict = some dict
load_lines (line ∷ lines) dict = do dict' ← load_line line dict; load_lines lines dict'

-- Load: the result, and the dictionary. A file that does not open is `none`.
unfoldable pub load : Option (List Text) → TextMap Text → Option (Bool × TextMap Text)
load none dict = some (false, dict)
load (some lines) dict = do dict' ← load_lines lines dict; some (true, dict')

-- Translate: the word is looked for among the entries; `ok` is the flag.
unfoldable pub translate : Text → TextMap Text → Text × Bool
translate str [] = (230 ∷ 156 ∷ 170 ∷ 230 ∷ 137 ∷ 190 ∷ 229 ∷ 136 ∷ 176 ∷ [], false)
translate str ((first, second) ∷ es) =
    if text_eq first str then (second, true) else translate str es

-- A line of the file for an entry, and the words that a line can hold.
abbrev pub line_of : Text × Text → Text
line_of (k, v) = k ++ (sep ++ v)

abbrev pub IsEntry : Text × Text → Type 0
IsEntry (k, v) = Lacks b':' k × (length v < npos)

load_line-line_of :
    (k v : Text) (dict : TextMap Text)
    → IsEntry (k, v)
    → load_line (line_of (k, v)) dict ≡ some (assign k v dict)
unfolding load_line
load_line-line_of k v dict (lacks, short) =
    rw
      (
        find?-append b':' (b' ' ∷ []) k v lacks,
        load_line,
        substr_head k (sep ++ v),
        sym (append_assoc k sep v),
        substr_tail (k ++ sep) v (length k + 2) npos (sym (length-append k sep)) (ground arith),
      )
      refl

-- The value of the last entry for a word, or `d` where there is none.
abbrev pub latest : Text → List (Text × Text) → Option Text → Option Text
latest i [] d = d
latest i ((k, v) ∷ es) d = latest i es (if text_eq k i then some v else d)

-- What Translate answers for a word that is or is not there.
abbrev pub translation : Option Text → Text × Bool
translation none = (230 ∷ 156 ∷ 170 ∷ 230 ∷ 137 ∷ 190 ∷ 229 ∷ 136 ∷ 176 ∷ [], false)
translation (some v) = (v, true)

translate-lookup : (i : Text) (dict : TextMap Text) → translate i dict ≡ translation (lookup i dict)
unfolding translate lookup
translate-lookup i [] = refl
translate-lookup i ((k, v) ∷ es) = ground (arith, translate-lookup i es)

load_from :
    (es : List (Text × Text)) (i : Text) (dict : TextMap Text)
    → All IsEntry es
    → (load_lines (map line_of es) dict >>= λ d. some (lookup i d))
      ≡ some (latest i es (lookup i dict))
unfolding load_lines
load_from [] i dict h = refl
load_from ((k, v) ∷ es) i dict (e, h) =
    rw (load_line-line_of k v dict e) (
      load_from es i (assign k v dict) h
      ∙ ap (λ d. some (latest i es d)) (lookup-assign k i v dict))

translate_of :
    (i : Text) (o : Option (TextMap Text)) (r : Option Text)
    → (o >>= λ d. some (lookup i d)) ≡ some r
    → (o >>= λ d. some (translate i d)) ≡ some (translation r)
translate_of i none r h = cc
translate_of i (some d) r h =
    ap (λ t. some t) (translate-lookup i d ∙ ap translation (some-injective _ _ h))

-- From a file with one line for each entry, whose words hold no colon and whose values are shorter than
-- 2^64 - 1, every word is translated as the last entry for it says, and as not found where there is
-- none.
pub translate-load_lines :
    (es : List (Text × Text)) (i : Text)
    → All IsEntry es
    → (load_lines (map line_of es) [] >>= λ dict. some (translate i dict))
      ≡ some (translation (latest i es none))
unfolding lookup
translate-load_lines es i h =
    translate_of i (load_lines (map line_of es) []) (latest i es none) (load_from es i [] h)
