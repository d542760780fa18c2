-- ===== src/Chat.antt =====
-- UdpServer.hpp of the chat room: who is online, and what is sent to them by the threads of the pool.
pub mod Users
use linux_advance.Base.{
  ℕ, ◌+◌, ◌<◌, ◌≤◌, ◌≡◌, ◌≢◌, refl, sym, ap, Bool, true, false, ◌&&◌, List, [], ◌∷◌, ◌++◌,
  if◌then◌else◌, map, length, arith, ltb, ◌==◌, is_empty, Bool-cases, inl, inr, ==-refl, ==→eq,
  subst,
}
use linux_advance.Base.Monad.{Result, ok, fault, undefined, ◌>>=◌}
use linux_advance.Base.Text.{Text, codes, text_eq, c_str}
use linux_advance.Base.Text.Decimal.{to_string}
use linux_advance.Base.Text.Find.{text_eq_refl, text_eq→eq}
use linux_advance.Threadpool.{Pool, enqueue}
use linux_advance.Threadpool.Users.{IsSound, enqueue-IsSound}

pub record InetAddr : Type 0 where
  pub ip : Text
  pub port : ℕ

-- InetAddr::operator==
unfoldable pub same_addr : InetAddr → InetAddr → Bool
same_addr a b = text_eq a.ip b.ip && a.port == b.port

-- The online users, and the pool, whose tasks are the messages to route.
pub record UdpServer : Type 0 where
  pub online_user : List InetAddr
  pub pool : Pool Text

unfoldable pub is_online : InetAddr → List InetAddr → Bool
is_online user [] = false
is_online user (e ∷ es) = if same_addr e user then true else is_online user es

-- AddOnlineUser
unfoldable pub add_online_user : InetAddr → List InetAddr → List InetAddr
unfolding is_online
add_online_user user es = if is_online user es then es else es ++ user ∷ []

-- DelOnlineUser: `erase` invalidates the iterator, which is incremented next.
unfoldable pub del_online_user : InetAddr → List InetAddr → Result (List InetAddr)
del_online_user user [] = ok []
del_online_user user (e ∷ es) =
    if same_addr e user then fault undefined else (do rest ← del_online_user user es; ok (e ∷ rest))

-- Route: who is sent what.
unfoldable pub route : Text → List InetAddr → List (InetAddr × Text)
route message es = map (λ user. (user, message)) es

-- "[ip:port] text"
unfoldable pub message_of : InetAddr → Text → Text
unfolding c_str to_string
message_of addr buff =
    codes "[" ++ (addr.ip ++ (codes ":" ++ (to_string addr.port ++ (codes "] " ++ c_str buff))))

-- sizeof(buff)
abbrev pub buff_size : ℕ
buff_size = 1024

abbrev pub after_add : InetAddr → Text → ℕ → UdpServer → Result UdpServer
after_add addr buff k s =
    if text_eq (c_str buff) (codes "QUIT")
    then (do es ← del_online_user addr s.online_user; ok (record s { online_user = es }))
    else ok (record s { pool = (enqueue (message_of addr buff) k s.pool).1 })

-- One round of Start for what ::recvfrom gave: the bytes, at most as many as the buffer has, and their
-- sender. `buff[n] = 0` behind a full buffer is out of bounds. The number chooses the thread that
-- Enqueue wakes.
unfoldable pub on_datagram : InetAddr → Text → ℕ → UdpServer → Result UdpServer
unfolding enqueue
on_datagram addr buff k s =
    if is_empty buff
    then ok s
    else (if ltb (length buff) buff_size
        then after_add addr buff k (record s { online_user = add_online_user addr s.online_user })
        else fault undefined)
