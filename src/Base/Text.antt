-- ===== src/Base/Text.antt =====
-- Text is the list of its bytes. The operations of std::string that the program uses, the search
-- result `npos` included, and std::to_string and std::stoi.
pub mod Find
pub mod Decimal
use Prim.Native.Char.{code}
use Prim.Native.String.{String}
use linux_advance.Base.{
  ℕ, zero, suc, ◌+◌, ◌-◌, ◌<◌, ◌≤◌, ◌≡◌, refl, Bool, true, false, ◌&&◌, Option, none, some, List,
  [], ◌∷◌, ◌++◌, arith, ltb, ◌==◌, if◌then◌else◌, take, drop, length,
}
use linux_advance.Base.Int.{npos}

abbrev pub Text : Type 0
Text = List ℕ

-- The code points of a literal: its bytes, if it is ASCII.
abbrev pub codes : String → Text
codes String.[] = []
codes (String.◌∷◌ c s) = code c ∷ codes s

unfoldable pub text_eq : Text → Text → Bool
text_eq [] [] = true
text_eq (x ∷ xs) (y ∷ ys) = x == y && text_eq xs ys
text_eq _ _ = false

unfoldable pub starts_with : Text → Text → Bool
starts_with [] s = true
starts_with (p ∷ ps) [] = false
starts_with (p ∷ ps) (x ∷ xs) = p == x && starts_with ps xs

abbrev pub or_npos : Option ℕ → ℕ
or_npos none = npos
or_npos (some n) = n

abbrev pub add_one : Option ℕ → Option ℕ
add_one none = none
add_one (some n) = some (suc n)

-- The first position at which `p` stands.
unfoldable pub find? : Text → Text → Option ℕ
find? p [] = if starts_with p [] then some 0 else none
find? p (x ∷ xs) = if starts_with p (x ∷ xs) then some 0 else add_one (find? p xs)

-- s.find(p)
unfoldable pub find : Text → Text → ℕ
find p s = or_npos (find? p s)

-- s.find(p, from)
unfoldable pub find_from : Text → Text → ℕ → ℕ
find_from p s from = elim (find? p (drop from s)) [ none ↦ npos | some n ↦ from + n ]

abbrev pub or_here : Option ℕ → Bool → Option ℕ
or_here (some n) here = some (suc n)
or_here none true = some 0
or_here none false = none

-- The last position at which `p` stands.
unfoldable pub rfind? : Text → Text → Option ℕ
rfind? p [] = if starts_with p [] then some 0 else none
rfind? p (x ∷ xs) = or_here (rfind? p xs) (starts_with p (x ∷ xs))

-- s.rfind(p)
unfoldable pub rfind : Text → Text → ℕ
rfind p s = or_npos (rfind? p s)

-- s.substr(start, count): past the end it throws std::out_of_range.
unfoldable pub substr : Text → ℕ → ℕ → Option Text
substr s start count = if ltb (length s) start then none else some (take count (drop start s))

-- s.erase(0, count)
abbrev pub erase : Text → ℕ → Text
erase s count = drop count s

-- A char array read as a C string ends before the first zero byte.
unfoldable pub c_str : Text → Text
c_str [] = []
c_str (x ∷ xs) = if x == 0 then [] else x ∷ c_str xs
