-- ===== src/Protocol/Messages.antt =====
-- Request and Response of Protocol.hpp: the two forms in which they travel. The form with SELF
-- defined is the program's own; the default one goes through JsonCpp, which is a parameter.
pub mod RoundTrip
use linux_advance.Base.{
  ℕ, suc, ◌+◌, ◌-◌, ◌%◌, ◌^◌, ◌≡◌, refl, Bool, true, false, not, Option, none, some, List, [], ◌∷◌,
  ◌++◌, ltb, ◌==◌, if◌then◌else◌, is_empty, get_elem?, length,
}
use linux_advance.Base.Monad.Maybe.{◌>>=◌}
use linux_advance.Base.Int.{ℤ, pos, negsuc, neg_of, ◌-ℤ◌, npos}
use linux_advance.Base.Text.{Text, codes, find, find_from, rfind, substr}
use linux_advance.Base.Text.Decimal.{stoi, int_to_string}

-- `_oper` is a char: its byte.
pub record Request : Type 0 where
  pub x : ℤ
  pub y : ℤ
  pub oper : ℕ

pub record Response : Type 0 where
  pub result : ℤ
  pub flag : ℤ
  pub equation : Text

-- "操作符不符合要求", in UTF-8
abbrev pub default_equation : Text
default_equation =
    230 ∷ 147 ∷ 141 ∷ 228 ∷ 189 ∷ 156 ∷ 231 ∷ 172 ∷ 166 ∷ 228 ∷ 184 ∷ 141 ∷ 231 ∷ 172 ∷ 166 ∷ 229
    ∷ 144 ∷ 136 ∷ 232 ∷ 166 ∷ 129 ∷ 230 ∷ 177 ∷ 130 ∷ []

abbrev pub default_response : Response
default_response = record { result = pos 0; flag = pos 0; equation = default_equation }

-- " "
abbrev pub cal_sep : Text
cal_sep = 32 ∷ []

-- Request::Serialize with SELF.
unfoldable pub serialize_request : Request → Text
unfolding int_to_string
serialize_request r = int_to_string r.x ++ (32 ∷ (r.oper ∷ (32 ∷ int_to_string r.y)))

-- The last steps of Request::DeSerialize with SELF, behind its tests.
abbrev read_request : Text → Text → Text → ℕ → Option (Option Request)
read_request s x_str y_str right = do
  x ← stoi x_str
  y ← stoi y_str
  oper ← get_elem? s (right - 1)
  some (some (record { x = x; y = y; oper = oper }))

-- Request::DeSerialize with SELF. `some none` is the result false, which leaves the request as it
-- was; `none` is an exception of std::stoi or std::string::substr.
unfoldable pub deserialize_request : Text → Option (Option Request)
deserialize_request s =
    let left = find cal_sep s in
    if left == npos then some none else do
      x_str ← substr s 0 left
      if is_empty x_str then some none else do
        let right = rfind cal_sep s
        if right == npos then some none else do
          y_str ← substr s (right + 1) npos
          if is_empty y_str
              then some none
              else if not (left + 1 + length cal_sep == right)
              then some none
              else read_request s x_str y_str right

-- Response::Serialize with SELF.
unfoldable pub serialize_response : Response → Text
unfolding int_to_string
serialize_response r = int_to_string r.result ++ (32 ∷ (int_to_string r.flag ++ (32 ∷ r.equation)))

-- A char is signed: its byte from 128 on stands for a negative number.
unfoldable pub char_value : ℕ → ℤ
char_value c = if ltb c 128 then pos c else neg_of (256 - c)

abbrev read_response : Text → Text → Text → ℕ → Option (Option Response)
read_response s res_str equation second = do
  result ← stoi res_str
  flag ← get_elem? s (second - 1)
  some (some (record { result = result; flag = char_value flag -ℤ pos 48; equation = equation }))

-- Response::DeSerialize with SELF.
unfoldable pub deserialize_response : Text → Option (Option Response)
deserialize_response s =
    let left = find cal_sep s in
    if left == npos then some none else do
      res_str ← substr s 0 left
      if is_empty res_str then some none else do
        let second = find_from cal_sep s (left + 1)
        if second == npos then some none else do
          equation ← substr s (second + 1) npos
          if is_empty equation
              then some none
              else if not (left + 1 + length cal_sep == second)
              then some none
              else read_response s res_str equation second
