-- ===== src/Calculate.antt =====
-- Calculate.hpp: the arithmetic that the calculator server and the reactor offer.
pub mod Division
use linux_advance.Base.{
  ℕ, ◌≡◌, refl, Bool, Option, none, some, List, [], ◌∷◌, ◌++◌, ◌==◌, if◌then◌else◌,
}
use linux_advance.Base.Monad.Maybe.{◌>>=◌}
use linux_advance.Base.Int.{ℤ, pos, negsuc, ◌+ℤ◌, ◌-ℤ◌, ◌*ℤ◌, tdiv, tmod, checked, is_zero}
use linux_advance.Base.Text.{Text, codes}
use linux_advance.Base.Text.Decimal.{int_to_string}
use linux_advance.Protocol.Messages.{Request, Response, default_response}

-- "除0错误", in UTF-8
abbrev pub div_zero_text : Text
div_zero_text = 233 ∷ 153 ∷ 164 ∷ 48 ∷ 233 ∷ 148 ∷ 153 ∷ 232 ∷ 175 ∷ 175 ∷ []

-- "模0错误", in UTF-8
abbrev pub mod_zero_text : Text
mod_zero_text = 230 ∷ 168 ∷ 161 ∷ 48 ∷ 233 ∷ 148 ∷ 153 ∷ 232 ∷ 175 ∷ 175 ∷ []

-- std::to_string(x) + " " + oper + " " + std::to_string(y) + " = " + std::to_string(result)
abbrev pub equation_of : Request → ℤ → Text
equation_of req r =
    int_to_string req.x
    ++ (32 ∷ (req.oper ∷ (32 ∷ (int_to_string req.y ++ (codes " = " ++ int_to_string r)))))

abbrev answer : Request → ℤ → Option Response
answer req r = do
  result ← checked r
  some (record default_response { result = result; equation = equation_of req result })

-- `none` is undefined behaviour: a signed overflow, or a quotient that no int holds.
unfoldable pub execute : Request → Option Response
execute req =
    if req.oper == b'+'
    then answer req (req.x +ℤ req.y)
    else if req.oper == b'-'
    then answer req (req.x -ℤ req.y)
    else if req.oper == b'*'
    then answer req (req.x *ℤ req.y)
    else if req.oper == b'/'
    then (if is_zero req.y
        then some (record default_response { flag = pos 1; equation = div_zero_text })
        else answer req (tdiv req.x req.y))
    else if req.oper == b'%'
    then (if is_zero req.y
        then some (record default_response { flag = pos 2; equation = mod_zero_text })
        else do quotient ← checked (tdiv req.x req.y); answer req (tmod req.x req.y))
    else some (record default_response { flag = pos 3 })
