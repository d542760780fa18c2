-- ===== src/Threadpool/Counts.antt =====
-- How many of the threads are asleep, woken or gone, and how the steps change these numbers.
use linux_advance.Base.{
  ℕ, zero, suc, ◌+◌, ◌-◌, ◌<◌, ◌≤◌, ◌⊎◌, ◌≡◌, refl, ap, Bool, true, false, some, List, [], ◌∷◌,
  arith, ◌==◌, set, get_elem?, length, length-set, replicate, Bool-cases, inl, inr,
}
use linux_advance.Threadpool.{
  Worker, idle, asleep, woken, quit, busy, is_asleep, one, count, signal, broadcast,
}

module _ {A : Type 0} where
  abbrev pub is_woken : Worker A → Bool
  is_woken woken = true
  is_woken asleep = false
  is_woken idle = false
  is_woken quit = false
  is_woken (busy t) = false

  abbrev pub is_quit : Worker A → Bool
  is_quit quit = true
  is_quit asleep = false
  is_quit idle = false
  is_quit woken = false
  is_quit (busy t) = false

  count-set :
      (f : Worker A → Bool) (ws : List (Worker A)) (i : ℕ) (w v : Worker A)
      → get_elem? ws i ≡ some w
      → count f (set ws i v) + one (f w) ≡ count f ws + one (f v)
  unfolding count
  count-set f [] i w v h = cc
  count-set f (x ∷ ws) zero w v h = ground arith
  count-set f (x ∷ ws) (suc i) w v h = ground (arith, count-set f ws i w v h)

  pub length-signal : (k : ℕ) (ws : List (Worker A)) → length (signal k ws) ≡ length ws
  unfolding signal
  length-signal k [] = refl
  length-signal k (w ∷ ws) = ground (arith, length-signal k ws, length-signal (k - 1) ws)

  pub length-broadcast : (ws : List (Worker A)) → length (broadcast ws) ≡ length ws
  unfolding broadcast
  length-broadcast [] = refl
  length-broadcast (w ∷ ws) = ap suc (length-broadcast ws)

  abbrev pub OneWoken : List (Worker A) → List (Worker A) → Type 0
  OneWoken ws vs =
      (suc (count is_asleep vs) ≡ count is_asleep ws)
      × (count is_woken vs ≡ suc (count is_woken ws))
      × (count is_quit vs ≡ count is_quit ws)

  signal_lem : (k : ℕ) (ws : List (Worker A)) → 0 < count is_asleep ws → OneWoken ws (signal k ws)
  unfolding signal count
  signal_lem k [] h = absurd (omega arith)
  signal_lem k (asleep ∷ ws) h = elim (Bool-cases (k == 0)) [
    | inl e ↦ rw e (ground arith)
    | inr e ↦ elim (Bool-cases (count is_asleep ws == 0)) [
      | inl none_left ↦ rw (e, none_left) (ground arith)
      | inr some_left ↦
          let ih = signal_lem (k - 1) ws (ground arith) in rw (e, some_left) (ground (arith, ih))
    ]
  ]
  signal_lem k (idle ∷ ws) h = ground (arith, signal_lem k ws)
  signal_lem k (woken ∷ ws) h = ground (arith, signal_lem k ws)
  signal_lem k (quit ∷ ws) h = ground (arith, signal_lem k ws)
  signal_lem k (busy t ∷ ws) h = ground (arith, signal_lem k ws)

  pub broadcast_lem :
      (ws : List (Worker A))
      → (count is_asleep (broadcast ws) ≡ 0)
        × (count is_woken (broadcast ws) ≡ count is_asleep ws + count is_woken ws)
        × (count is_quit (broadcast ws) ≡ count is_quit ws)
  unfolding broadcast count
  broadcast_lem [] = (refl, refl, refl)
  broadcast_lem (asleep ∷ ws) = ground (arith, broadcast_lem ws)
  broadcast_lem (idle ∷ ws) = ground (arith, broadcast_lem ws)
  broadcast_lem (woken ∷ ws) = ground (arith, broadcast_lem ws)
  broadcast_lem (quit ∷ ws) = ground (arith, broadcast_lem ws)
  broadcast_lem (busy t ∷ ws) = ground (arith, broadcast_lem ws)

  pub asleep_quit_le : (ws : List (Worker A)) → count is_asleep ws + count is_quit ws ≤ length ws
  unfolding count
  asleep_quit_le [] = omega arith
  asleep_quit_le (asleep ∷ ws) = ground (arith, asleep_quit_le ws)
  asleep_quit_le (idle ∷ ws) = ground (arith, asleep_quit_le ws)
  asleep_quit_le (woken ∷ ws) = ground (arith, asleep_quit_le ws)
  asleep_quit_le (quit ∷ ws) = ground (arith, asleep_quit_le ws)
  asleep_quit_le (busy t ∷ ws) = ground (arith, asleep_quit_le ws)

  signal_nobody : (k : ℕ) (ws : List (Worker A)) → count is_asleep ws ≡ 0 → signal k ws ≡ ws
  unfolding signal count
  signal_nobody k [] h = refl
  signal_nobody k (asleep ∷ ws) h = absurd (ground arith)
  signal_nobody k (idle ∷ ws) h = ap (λ vs. idle ∷ vs) (signal_nobody k ws (ground arith))
  signal_nobody k (woken ∷ ws) h = ap (λ vs. woken ∷ vs) (signal_nobody k ws (ground arith))
  signal_nobody k (quit ∷ ws) h = ap (λ vs. quit ∷ vs) (signal_nobody k ws (ground arith))
  signal_nobody k (busy t ∷ ws) h = ap (λ vs. busy t ∷ vs) (signal_nobody k ws (ground arith))

  abbrev pub Signalled : List (Worker A) → List (Worker A) → Type 0
  Signalled ws vs =
      (length vs ≡ length ws) × (OneWoken ws vs ⊎ ((vs ≡ ws) × (count is_asleep ws ≡ 0)))

  pub signal-Signalled : (k : ℕ) (ws : List (Worker A)) → Signalled ws (signal k ws)
  signal-Signalled k ws = elim (Bool-cases (count is_asleep ws == 0)) [
    | inl z ↦ (length-signal k ws, inr (signal_nobody k ws (ground arith), ground arith))
    | inr z ↦ (length-signal k ws, inl (signal_lem k ws (ground arith)))
  ]

  -- Putting a worker that is as far from sleep as it was.
  pub put_counts :
      (ws : List (Worker A)) (i : ℕ) (w v : Worker A)
      → get_elem? ws i ≡ some w
      → (count is_asleep (set ws i v) + one (is_asleep w) ≡ count is_asleep ws + one (is_asleep v))
        × (count is_woken (set ws i v) + one (is_woken w) ≡ count is_woken ws + one (is_woken v))
        × (count is_quit (set ws i v) + one (is_quit w) ≡ count is_quit ws + one (is_quit v))
        × (length (set ws i v) ≡ length ws)
  put_counts ws i w v h = (
    count-set is_asleep ws i w v h,
    count-set is_woken ws i w v h,
    count-set is_quit ws i w v h,
    length-set ws i v,
  )

  pub new_workers :
      (w : Worker A) (n : ℕ)
      → (is_asleep w ≡ false) × (is_woken w ≡ false) × (is_quit w ≡ false)
      → (count is_asleep (replicate n w) ≡ 0)
        × (count is_woken (replicate n w) ≡ 0)
        × (count is_quit (replicate n w) ≡ 0)
        × (length (replicate n w) ≡ n)
  unfolding count
  new_workers w zero h = ground arith
  new_workers w (suc n) (a, b, c) = ground (arith, a, b, c, new_workers w n (a, b, c))
