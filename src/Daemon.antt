-- ===== src/Daemon.antt =====
-- Daemon.hpp of day_01/demo_02/daemon: a process that leaves its terminal. What fork and open give are
-- arguments.
use linux_advance.Base.{
  ℕ, ◌≡◌, refl, Bool, true, false, Option, none, some, List, ◌∷◌, ◌==◌, if◌then◌else◌, ltb, arith,
  ◌∙◌,
}
use linux_advance.Base.Map.{Map, lookup, insert, remove, lookup-insert, lookup-remove}
use linux_advance.Base.Text.{Text, codes}

-- What a descriptor refers to: /dev/null, opened with O_RDONLY, or another file.
pub data File : Type 0 where
  null_read_only : File
  other : ℕ → File

pub record Process : Type 0 where
  pub ignored : List ℕ
  pub session_leader : Bool
  pub working_directory : Text
  pub descriptors : Map File

-- fork() gives the child's id to the parent, 0 to the child, or fails.
pub data Forked : Type 0 where
  in_parent in_child fork_failed : Forked

pub data Outcome : Type 0 where
  exits : Outcome
  continues : Process → Outcome

abbrev pub sigpipe : ℕ
sigpipe = 13

abbrev pub sigchld : ℕ
sigchld = 17

-- ::close and ::dup2 of open descriptors; of others they do nothing.
abbrev close : ℕ → Map File → Map File
close fd m = remove fd m

abbrev put : Option File → ℕ → Map File → Map File
put none fd m = m
put (some f) fd m = insert fd f (remove fd m)

unfoldable pub dup2 : ℕ → ℕ → Map File → Map File
dup2 old new m = put (lookup old m) new m

-- The descriptors 0, 1 and 2: closed, or made copies of the one that ::open gives for /dev/null.
unfoldable pub redirect : Option ℕ → Map File → Map File
unfolding dup2
redirect none m = m
redirect (some fd) m =
    let opened = insert fd null_read_only m in dup2 fd 2 (dup2 fd 1 (dup2 fd 0 opened))

unfoldable pub standard : Bool → Option ℕ → Map File → Map File
unfolding redirect
standard true opened m = close 2 (close 1 (close 0 m))
standard false opened m = redirect opened m

-- Behind fork, in the process that goes on. setsid works unless the process leads its group.
unfoldable pub detach : Bool → Bool → Bool → Option ℕ → Process → Process
unfolding standard
detach setsid_works ischdir isclose opened p = record p {
  ignored = sigpipe ∷ (sigchld ∷ p.ignored);
  session_leader = if setsid_works then true else p.session_leader;
  working_directory = if ischdir then codes "/" else p.working_directory;
  descriptors = standard isclose opened p.descriptors;
}

-- Daemon
unfoldable pub daemon : Forked → Bool → Bool → Bool → Option ℕ → Process → Outcome
unfolding detach
daemon in_parent setsid_works ischdir isclose opened p = exits
daemon in_child setsid_works ischdir isclose opened p =
    continues (detach setsid_works ischdir isclose opened p)
daemon fork_failed setsid_works ischdir isclose opened p =
    continues (detach setsid_works ischdir isclose opened p)

-- The kernel gives a descriptor that is free.
abbrev pub IsFree : Option ℕ → Map File → Type 0
IsFree none m = Unit
IsFree (some fd) m = lookup fd m ≡ none

-- What a descriptor refers to behind Daemon.
abbrev pub behind : Bool → Option ℕ → ℕ → Option File → Option File
behind true opened i old = if ltb i 3 then none else old
behind false none i old = old
behind false (some fd) i old =
    if ltb i 3 then some null_read_only else if fd == i then some null_read_only else old

lookup-dup2 :
    (old new i : ℕ) (f : File) (m : Map File)
    → lookup old m ≡ some f
    → lookup i (dup2 old new m) ≡ (if new == i then some f else lookup i m)
unfolding dup2
lookup-dup2 old new i f m h = rw h (
    ground
      (arith, lookup-insert new i f (remove new m), lookup-remove new i m, lookup-remove new new m))

-- A copy of /dev/null; the descriptor that was opened stays one.
null_copied :
    (fd new : ℕ) (m : Map File)
    → lookup fd m ≡ some null_read_only
    → lookup fd (dup2 fd new m) ≡ some null_read_only
null_copied fd new m h = lookup-dup2 fd new fd null_read_only m h ∙ ground (arith, h)

lookup-standard :
    (isclose : Bool) (opened : Option ℕ) (m : Map File) (i : ℕ)
    → IsFree opened m
    → lookup i (standard isclose opened m) ≡ behind isclose opened i (lookup i m)
unfolding standard
lookup-standard true opened m i free = ground (
  arith,
  lookup-remove 2 i (remove 1 (remove 0 m)),
  lookup-remove 1 i (remove 0 m),
  lookup-remove 0 i m,
)
lookup-standard false none m i free = refl
lookup-standard false (some fd) m i free =
    let m₀ = insert fd null_read_only m in
    let h₀ : lookup fd m₀ ≡ some null_read_only =
      ground (arith, free, lookup-insert fd fd null_read_only m) in
    let h₁ = null_copied fd 0 m₀ h₀ in
    let h₂ = null_copied fd 1 (dup2 fd 0 m₀) h₁ in
    ground (
      arith,
      free,
      lookup-dup2 fd 2 i null_read_only (dup2 fd 1 (dup2 fd 0 m₀)) h₂,
      lookup-dup2 fd 1 i null_read_only (dup2 fd 0 m₀) h₁,
      lookup-dup2 fd 0 i null_read_only m₀ h₀,
      lookup-insert fd i null_read_only m,
    )

-- Where fork works and setsid succeeds, and open gives a free descriptor or fails, Daemon goes on in
-- the child as a session leader, in the root directory if ischdir and else in the old one, with SIGPIPE
-- and SIGCHLD ignored besides the signals that were; with isclose the descriptors 0, 1 and 2 are closed
-- and every other refers to what it did; without it 0, 1, 2 and the one that was opened refer to
-- /dev/null, open for reading only, and every other to what it did, and where open fails every
-- descriptor refers to what it did.
pub daemon-in_child :
    (isclose ischdir : Bool) (opened : Option ℕ) (p : Process) (i : ℕ)
    → IsFree opened p.descriptors
    → (q : Process) × (daemon in_child true ischdir isclose opened p ≡ continues q)
      × (q.session_leader ≡ true)
      × (q.working_directory ≡ (if ischdir then codes "/" else p.working_directory))
      × (q.ignored ≡ sigpipe ∷ (sigchld ∷ p.ignored))
      × (lookup i q.descriptors ≡ behind isclose opened i (lookup i p.descriptors))
unfolding daemon
daemon-in_child isclose ischdir opened p i free = (
  detach true ischdir isclose opened p,
  refl,
  refl,
  refl,
  refl,
  lookup-standard isclose opened p.descriptors i free,
)
