-- ===== src/Reactor/Connection.antt =====
-- Connection.hpp. The callbacks that the program registers come in two sets: those of the listening
-- socket (Listener::Accepter, no sender, no excepter) and those of a client (the handlers of
-- IOService).
use linux_advance.Base.{ℕ, Bool, true, false, [], ◌++◌}
use linux_advance.Base.Text.{Text, erase}

-- The bits of a uint32_t event mask that the program uses.
pub record Events : Type 0 where
  pub readable : Bool
  pub writable : Bool
  pub edge : Bool
  pub hung : Bool
  pub error : Bool

pub data Callbacks : Type 0 where
  listener_callbacks io_callbacks : Callbacks

pub record Connection : Type 0 where
  pub sockfd : ℕ
  pub inbuffer : Text
  pub outbuffer : Text
  pub events : Events
  pub callbacks : Callbacks

-- Connection(sockfd), SetEvent and Register
abbrev pub new_connection : ℕ → Events → Callbacks → Connection
new_connection fd ev cb = record {
  sockfd = fd;
  inbuffer = [];
  outbuffer = [];
  events = ev;
  callbacks = cb;
}

abbrev pub append_inbuff : Connection → Text → Connection
append_inbuff c buff = record c { inbuffer = c.inbuffer ++ buff }

abbrev pub append_outbuff : Connection → Text → Connection
append_outbuff c buff = record c { outbuffer = c.outbuffer ++ buff }

abbrev pub out_buffer_remove : Connection → ℕ → Connection
out_buffer_remove c n = record c { outbuffer = erase c.outbuffer n }

-- `_sender != nullptr`
abbrev pub has_sender : Callbacks → Bool
has_sender listener_callbacks = false
has_sender io_callbacks = true

-- EPOLLIN | EPOLLET
abbrev pub read_edge : Events
read_edge = record { readable = true; writable = false; edge = true; hung = false; error = false }
