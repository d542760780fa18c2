-- ===== src/Protocol/Json.antt =====
-- JsonCpp, which the repository links and does not contain: a parameter, with the behaviour that the
-- program relies on as laws. The serialisation of requests and responses through it.
use linux_advance.Base.{ℕ, ◌-◌, ◌%◌, ◌≡◌, Bool, true, false, Option, none, some, List, [], ◌∷◌}
use linux_advance.Base.Monad.Maybe.{◌>>=◌}
use linux_advance.Base.Int.{ℤ, pos, negsuc, fits_int}
use linux_advance.Base.Text.{Text, codes}
use linux_advance.Protocol.Messages.{Request, Response, char_value}

pub data Member : Type 0 where
  int_member : ℤ → Member
  text_member : Text → Member

-- `int_at` is root[key].asInt() and `text_at` is root[key].asString(); `none` is Json::LogicError.
pub record Json : Type 1 where
  pub Value : Type 0
  pub object : List (Text × Member) → Value
  pub write : Value → Text
  pub read : Text → Option Value
  pub int_at : Value → Text → Option ℤ
  pub text_at : Value → Text → Option Text

-- The object that Request::Serialize builds.
abbrev pub request_members : Request → List (Text × Member)
request_members r =
    (codes "x", int_member r.x)
    ∷ ((codes "y", int_member r.y) ∷ ((codes "oper", int_member (char_value r.oper)) ∷ []))

abbrev pub response_members : Response → List (Text × Member)
response_members r =
    (codes "result", int_member r.result)
    ∷ ((codes "flag", int_member r.flag) ∷ ((codes "equation", text_member r.equation) ∷ []))

-- An int that is stored in a char keeps its low 8 bits.
unfoldable pub char_of : ℤ → ℕ
char_of (pos n) = n % 256
char_of (negsuc n) = 255 - n % 256

module _ (j : Json) where
  -- Request::Serialize
  unfoldable pub serialize_request : Request → Text
  serialize_request r = j.write (j.object (request_members r))

  -- The members that Request::DeSerialize reads.
  unfoldable pub request_of : j.Value → Option Request
  request_of root = do
    x ← j.int_at root (codes "x")
    y ← j.int_at root (codes "y")
    oper ← j.int_at root (codes "oper")
    some (record { x = x; y = y; oper = char_of oper })

  -- Request::DeSerialize: the request that it leaves behind and its result. Text that is no JSON leaves
  -- the request as it was.
  unfoldable pub deserialize_request : Request → Text → Option (Request × Bool)
  unfolding request_of
  deserialize_request old s = elim (j.read s) [
    | none ↦ some (old, false)
    | some root ↦ do r ← request_of root; some (r, true)
  ]

  -- Response::Serialize
  unfoldable pub serialize_response : Response → Text
  serialize_response r = j.write (j.object (response_members r))

  -- Response::DeSerialize
  unfoldable pub deserialize_response : Response → Text → Option (Response × Bool)
  deserialize_response old s = elim (j.read s) [
    | none ↦ some (old, false)
    | some root ↦ do
      result ← j.int_at root (codes "result")
      flag ← j.int_at root (codes "flag")
      equation ← j.text_at root (codes "equation")
      some (record { result = result; flag = flag; equation = equation }, true)
  ]

  -- A reader gets back the three numbers of a request that a writer wrote, each within an int.
  abbrev pub ReadsRequests : Type 0
  ReadsRequests =
      (r : Request)
      → fits_int r.x ≡ true
      → fits_int r.y ≡ true
      → (j.read (serialize_request r) ≡ some (j.object (request_members r)))
        × (j.int_at (j.object (request_members r)) (codes "x") ≡ some r.x)
        × (j.int_at (j.object (request_members r)) (codes "y") ≡ some r.y)
        × (j.int_at (j.object (request_members r)) (codes "oper") ≡ some (char_value r.oper))
