-- ===== src/Multiplex/Echo.antt =====
-- What the three servers share: what the kernel answers, what they send, and their log of calls.
use linux_advance.Base.{ℕ, Option, List, ◌++◌}
use linux_advance.Base.Text.{Text, codes, c_str}

-- ::recv gives bytes, 0 at the end of the stream, or -1.
pub data Received : Type 0 where
  bytes : Text → Received
  at_end : Received
  failed : Received

-- What is done to descriptors, the newest first. That a descriptor came to be, by ::socket or ::accept, is
-- logged where a watch on it has to follow.
pub data Call : Type 0 where
  opened ctl_add ctl_del close : ℕ → Call
  sent : ℕ → Text → Call

-- "Server Echo# " and the bytes as a C string.
unfoldable pub echo_of : Text → Text
unfolding c_str
echo_of b = codes "Server Echo# " ++ c_str b

-- What the kernel answers while the ready descriptors are served: the result of each ::accept (none
-- where it fails) and of each ::recv.
pub record Kernel : Type 0 where
  pub accepts : List (Option ℕ)
  pub recvs : List Received
