-- ===== src/Chat/Users.antt =====
-- Who is online, and what a datagram does.
use linux_advance.Base.{
  ℕ, ◌<◌, ◌≡◌, refl, sym, ap₂, true, false, List, [], ◌∷◌, ◌++◌, if◌then◌else◌, length, arith, ltb,
  ◌==◌, is_empty, Bool-cases, inl, inr, ==-refl, ==→eq, subst,
}
use linux_advance.Base.Monad.{ok, fault, undefined}
use linux_advance.Base.Text.{Text, codes, text_eq, c_str}
use linux_advance.Base.Text.Find.{text_eq_refl, text_eq→eq}
use linux_advance.Threadpool.{Pool, enqueue}
use linux_advance.Threadpool.Users.{IsSound, enqueue-IsSound}
use linux_advance.Chat.{
  InetAddr, same_addr, UdpServer, is_online, add_online_user, del_online_user, message_of,
  after_add, buff_size, on_datagram,
}

-- No user is listed twice.
abbrev pub IsDistinct : List InetAddr → Type 0
IsDistinct [] = Unit
IsDistinct (e ∷ es) = (is_online e es ≡ false) × IsDistinct es

same_addr_refl : (a : InetAddr) → same_addr a a ≡ true
unfolding same_addr
same_addr_refl a = rw (text_eq_refl a.ip, ==-refl a.port) refl

abbrev addr_of : Text → ℕ → InetAddr
addr_of i p = record { ip = i; port = p }

same_addr→eq : (a b : InetAddr) → same_addr a b ≡ true → a ≡ b
unfolding same_addr
same_addr→eq a b h =
    let ips : text_eq a.ip b.ip ≡ true = ground arith in
    let ports : (a.port == b.port) ≡ true = ground arith in
    ap₂ addr_of (text_eq→eq a.ip b.ip ips) (==→eq a.port b.port ports)

same_addr_comm : (a b : InetAddr) → same_addr a b ≡ false → same_addr b a ≡ false
same_addr_comm a b h = elim (Bool-cases (same_addr b a)) [
  | inl same ↦
      absurd
        (cc (subst (λ u. same_addr u b ≡ false) (sym (same_addr→eq b a same)) h, same_addr_refl b))
  | inr other ↦ other
]

is_online-append :
    (a u : InetAddr) (es : List InetAddr)
    → is_online a (es ++ u ∷ []) ≡ (if is_online a es then true else same_addr u a)
unfolding is_online
is_online-append a u [] = ground arith
is_online-append a u (e ∷ es) = ground (arith, is_online-append a u es)

add_online_user-is_online :
    (user : InetAddr) (es : List InetAddr) → is_online user (add_online_user user es) ≡ true
unfolding add_online_user
add_online_user-is_online user es =
    ground (arith, is_online-append user user es, same_addr_refl user)

append-IsDistinct :
    (u : InetAddr) (es : List InetAddr)
    → is_online u es ≡ false
    → IsDistinct es
    → IsDistinct (es ++ u ∷ [])
unfolding is_online
append-IsDistinct u [] h d = (refl, tt)
append-IsDistinct u (e ∷ es) h (n, d) = elim (Bool-cases (same_addr e u)) [
  | inl same ↦ absurd (ground arith)
  | inr other ↦ (
    ground (arith, is_online-append e u es, same_addr_comm e u other),
    append-IsDistinct u es (ground arith) d,
  )
]

del_online :
    (user : InetAddr) (es : List InetAddr)
    → is_online user es ≡ true
    → del_online_user user es ≡ fault undefined
unfolding is_online del_online_user
del_online user [] h = cc
del_online user (e ∷ es) h = elim (Bool-cases (same_addr e user)) [
  | inl same ↦ rw same refl
  | inr other ↦ rw (other, del_online user es (ground arith)) refl
]

del_offline :
    (user : InetAddr) (es : List InetAddr)
    → is_online user es ≡ false
    → del_online_user user es ≡ ok es
unfolding is_online del_online_user
del_offline user [] h = refl
del_offline user (e ∷ es) h = elim (Bool-cases (same_addr e user)) [
  | inl same ↦ absurd (ground (arith, same))
  | inr other ↦ rw (other, del_offline user es (ground (arith, other))) refl
]

-- DelOnlineUser is undefined behaviour for every user who is online, and changes nothing for any other.
pub del_online_user_lem :
    (user : InetAddr) (es : List InetAddr)
    → del_online_user user es ≡ (if is_online user es then fault undefined else ok es)
del_online_user_lem user es = elim (Bool-cases (is_online user es)) [
  | inl here ↦ rw here (del_online user es here)
  | inr away ↦ rw away (del_offline user es away)
]

quit_after_add :
    (addr : InetAddr) (buff : Text) (k : ℕ) (s : UdpServer)
    → text_eq (c_str buff) (codes "QUIT") ≡ true
    → is_online addr s.online_user ≡ true
    → after_add addr buff k s ≡ fault undefined
quit_after_add addr buff k s e h = rw (e, del_online addr s.online_user h) refl

-- A datagram whose text is "QUIT" is undefined behaviour, whoever sends it and whoever is online.
pub on_datagram_quit :
    (addr : InetAddr) (buff : Text) (k : ℕ) (s : UdpServer)
    → is_empty buff ≡ false
    → text_eq (c_str buff) (codes "QUIT") ≡ true
    → on_datagram addr buff k s ≡ fault undefined
unfolding on_datagram
on_datagram_quit addr buff k s h e = elim (Bool-cases (ltb (length buff) buff_size)) [
  | inl fits ↦
      rw (h, fits)
        (quit_after_add addr buff k (record s { online_user = add_online_user addr s.online_user })
          e (add_online_user-is_online addr s.online_user))
  | inr full ↦ rw (h, full) refl
]

add_online_user-IsDistinct :
    (user : InetAddr) (es : List InetAddr) → IsDistinct es → IsDistinct (add_online_user user es)
unfolding add_online_user
add_online_user-IsDistinct user es d = elim (Bool-cases (is_online user es)) [
  | inl here ↦ rw here d
  | inr away ↦ rw away (append-IsDistinct user es away d)
]

enqueue-accepted :
    (t : Text) (k : ℕ) (p : Pool Text)
    → p.isrunning ≡ true
    → (enqueue t k p).1.accepted ≡ p.accepted ++ t ∷ []
unfolding enqueue
enqueue-accepted t k p r = ground (arith, r)

-- A datagram that is not empty, leaves room for the final 0 and is not "QUIT", to a running sound pool
-- and a list without duplicates: its sender is online behind it, no user is listed twice, and the
-- message is the next task of a pool that stays sound.
pub on_datagram_text :
    (addr : InetAddr) (buff : Text) (k : ℕ) (s : UdpServer)
    → is_empty buff ≡ false
    → length buff < buff_size
    → text_eq (c_str buff) (codes "QUIT") ≡ false
    → s.pool.isrunning ≡ true
    → IsDistinct s.online_user
    → IsSound s.pool
    → (s' : UdpServer) × (on_datagram addr buff k s ≡ ok s')
      × (is_online addr s'.online_user ≡ true)
      × IsDistinct s'.online_user
      × (s'.pool.accepted ≡ s.pool.accepted ++ message_of addr buff ∷ [])
      × IsSound s'.pool
unfolding on_datagram
on_datagram_text addr buff k s n l q r d p =
    let fits : ltb (length buff) buff_size ≡ true = ground arith in
    (
      record s {
        online_user = add_online_user addr s.online_user;
        pool = (enqueue (message_of addr buff) k s.pool).1;
      },
      rw (n, fits, q) refl,
      add_online_user-is_online addr s.online_user,
      add_online_user-IsDistinct addr s.online_user d,
      enqueue-accepted (message_of addr buff) k s.pool r,
      enqueue-IsSound (message_of addr buff) k s.pool p,
    )
