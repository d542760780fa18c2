-- ===== src/Protocol/Factory.antt =====
-- CalFactory of Protocol.hpp: the requests that the client of the calculator makes up.
pub mod Answers
use Prim.Native.Nat.{bit_and}
use linux_advance.Base.{ℕ, ◌+◌, ◌%◌, Option, none, some, List, get_elem?, length}
use linux_advance.Base.Int.{pos}
use linux_advance.Base.Text.{Text, codes}
use linux_advance.Protocol.Messages.{Request}

abbrev pub opers : Text
opers = codes "+-*/%&^"

abbrev pub char_at : Text → ℕ → ℕ
char_at s i = elim (get_elem? s i) [ none ↦ 0 | some c ↦ c ]

-- Product, over what its three calls of rand() give. `rand() & 5 + 1` is rand() & 6.
unfoldable pub product : ℕ → ℕ → ℕ → Request → Request
product first second third req = record req {
  x = pos (bit_and first (5 + 1));
  y = pos (second % 10 + 5);
  oper = char_at opers (third % length opers);
}
