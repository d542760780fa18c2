-- ===== src/Examples/ToyJson.antt =====
-- A stand-in for JsonCpp: an object is written as its keys, each followed by one byte or by a text.
use linux_advance.Base.{ℕ, ◌+◌, Option, none, some, List, [], ◌∷◌, ◌++◌, length, drop}
use linux_advance.Base.Int.{ℤ, pos, negsuc}
use linux_advance.Base.Text.{Text, find?}
use linux_advance.Protocol.Json.{Json, Member, int_member, text_member}

abbrev bytes_of : Member → Text
bytes_of (int_member (pos n)) = n ∷ []
bytes_of (int_member (negsuc n)) = []
bytes_of (text_member t) = t

abbrev flat : List (Text × Member) → Text
flat [] = []
flat ((key, m) ∷ ms) = key ++ (bytes_of m ++ flat ms)

abbrev behind : Text → Text → Option ℕ → Option Text
behind key v none = none
behind key v (some n) = some (drop (n + length key) v)

abbrev first_byte : Option Text → Option ℤ
first_byte none = none
first_byte (some []) = none
first_byte (some (b ∷ t)) = some (pos b)

abbrev pub toy_json : Json
toy_json = record {
  Value = Text;
  object = flat;
  write = λ v. v;
  read = λ s. some s;
  int_at = λ v key. first_byte (behind key v (find? key v));
  text_at = λ v key. behind key v (find? key v);
}
