-- ===== src/Protocol/Frame.antt =====
-- Encode and Decode of day_02/demo_01/reactor/Protocol.hpp.
pub mod Partial
use linux_advance.Base.{
  ℕ, ◌+◌, ◌%◌, ◌^◌, ◌≡◌, refl, Option, some, List, [], ◌∷◌, ◌++◌, arith, ltb, ◌==◌, if◌then◌else◌,
  length, is_empty,
}
use linux_advance.Base.Monad.Maybe.{◌>>=◌}
use linux_advance.Base.Int.{ℤ, to_int, to_size, npos}
use linux_advance.Base.Text.{Text, find, find?, starts_with, substr, erase}
use linux_advance.Base.Text.Decimal.{stoi, int_to_string}

-- "\r\n"
abbrev pub sep : Text
sep = 13 ∷ 10 ∷ []

-- "len\r\n{payload}\r\n"
unfoldable pub encode : Text → Text
unfolding int_to_string to_int
encode inbuff = int_to_string (to_int (length inbuff)) ++ (sep ++ (inbuff ++ sep))

-- The steps from `pos` on. The buffer is an in-out argument: the message comes with what is left of it.
-- `none` is an exception of std::stoi or std::string::substr.
unfoldable pub decode_at : Text → ℤ → Option (Text × Text)
decode_at outbuff p = do
  len_str ← substr outbuff 0 (to_size p)
  if is_empty len_str then some ([], outbuff) else do
    data_len ← stoi len_str
    let total_len = to_int ((to_size p + length sep + length sep + to_size data_len) % 2 ^ 64)
    if ltb (length outbuff) (to_size total_len) then some ([], outbuff) else do
      message ← substr outbuff ((to_size p + length sep) % 2 ^ 64) (to_size data_len)
      some (message, erase outbuff (to_size total_len))

-- The empty message says that no whole frame is there yet.
unfoldable pub decode : Text → Option (Text × Text)
unfolding decode_at
decode outbuff =
    let p = to_int (find sep outbuff) in
    if to_size p == npos then some ([], outbuff) else decode_at outbuff p
