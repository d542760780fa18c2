-- ===== src/CalServer/Sends.antt =====
-- What AddService of the calculator server sends, beside the loop of Parse of the reactor.
use linux_advance.Base.{
  ℕ, zero, suc, ◌≡◌, refl, sym, ap, ◌∙◌, false, Option, none, some, List, [], ◌∷◌, ◌++◌, is_empty,
  length, arith, All, append_assoc, append-nil, Bool-cases, Option-cases, inl, inr,
}
use linux_advance.Base.Monad.{Result, ok, fault, ◌>>=◌}
use linux_advance.Base.Text.{Text}
use linux_advance.Base.Text.Find.{Lacks, c_str_lacking}
use linux_advance.Protocol.Messages.{Request}
use linux_advance.Protocol.Frame.{decode}
use linux_advance.Protocol.Json.{Json}
use linux_advance.PackageParse.{answer_package, parse_loop}
use linux_advance.PackageParse.Stream.{parse_step}
use linux_advance.PackageParse.Chunks.{concat, feed}
use linux_advance.CalServer.{serve_packages, add_service}

concat_snoc : (ts : List Text) (t : Text) → concat (ts ++ t ∷ []) ≡ concat ts ++ t
unfolding concat
concat_snoc [] t = append-nil t
concat_snoc (s ∷ ts) t = ap (◌++◌ s) (concat_snoc ts t) ∙ sym (append_assoc s (concat ts) t)

-- What ::recv gives: the chunks, then the end of the stream.
abbrev pub stream_of : List Text → List (Option Text)
stream_of [] = none ∷ []
stream_of (c ∷ cs) = some c ∷ stream_of cs

bind_same {ℓ} :
    {A B C : Type ℓ} (m : Result A) (f : A → Result B) (g : A → Result C) (h : B → C)
    → ((a : A) → (f a >>= λ b. ok (h b)) ≡ g a)
    → (m >>= f >>= λ b. ok (h b)) ≡ (m >>= g)
bind_same (ok a) f g h e = e a
bind_same (fault x) f g h e = refl

bind_assoc {ℓ} :
    {A B C : Type ℓ} (m : Result A) (h : A → B) (g : B → Result C)
    → ((m >>= λ a. ok (h a)) >>= g) ≡ (m >>= λ a. g (h a))
bind_assoc (ok a) h g = refl
bind_assoc (fault x) h g = refl

bind_twice {ℓ} :
    {A B C : Type ℓ} (m : Result A) (f : A → Result B) (h : B → C)
    → (m >>= λ a. (f a >>= λ b. ok (h b))) ≡ (m >>= f >>= λ b. ok (h b))
bind_twice (ok a) f h = refl
bind_twice (fault x) f h = refl

module _ (j : Json) where
  abbrev joined : Text × List Text → Text × Text
  joined (rest, sent) = (rest, concat sent)

  serve_step :
      (req : Request) (b m rest : Text) (sent : List Text) (fuel : ℕ)
      → decode b ≡ some (m, rest)
      → is_empty m ≡ false
      → serve_packages j (suc fuel) req b sent
        ≡ (answer_package j req m >>= λ a. serve_packages j fuel a.0 rest (sent ++ a.1 ∷ []))
  unfolding serve_packages
  serve_step req b m rest sent fuel e full = ground (arith, e, full)

  serve_packages-parse_loop :
      (fuel : ℕ) (req : Request) (b : Text) (sent : List Text)
      → (serve_packages j fuel req b sent >>= λ r. ok (joined r))
        ≡ parse_loop j fuel req b (concat sent)
  unfolding serve_packages parse_loop
  serve_packages-parse_loop zero req b sent = refl
  serve_packages-parse_loop (suc fuel) req b sent = elim (Option-cases (decode b)) [
    | inl e ↦ ground (arith, e)
    | inr ((m, rest), e) ↦ elim (Bool-cases (is_empty m)) [
      | inl nothing ↦ ground (arith, e, nothing)
      | inr full ↦
          ap (λ s. s >>= λ r. ok (joined r)) (serve_step req b m rest sent fuel e full)
          ∙ (bind_same (answer_package j req m)
                (λ a. serve_packages j fuel a.0 rest (sent ++ a.1 ∷ []))
                (λ a. parse_loop j fuel a.0 rest (concat sent ++ a.1)) joined
                (λ a.
                  serve_packages-parse_loop fuel a.0 rest (sent ++ a.1 ∷ [])
                  ∙ ap (parse_loop j fuel a.0 rest) (concat_snoc sent a.1))
              ∙ sym (parse_step j req b (concat sent) m rest fuel e full))
    ]
  ]

  -- Over chunks without zero bytes and then the end of the stream, AddService of the calculator server
  -- sends in all exactly the bytes that the loop of Parse of the reactor appends to the output buffer,
  -- faults included.
  pub add_service-feed :
      (cs : List Text) (garbage : Request) (b : Text) (sent : List Text)
      → All (Lacks 0) cs
      → (add_service j garbage (stream_of cs) b sent >>= λ s. ok (concat s))
        ≡ (feed j garbage b (concat sent) cs >>= λ r. ok r.1)
  unfolding add_service feed
  add_service-feed [] garbage b sent h = refl
  add_service-feed (c ∷ cs) garbage b sent (lacks, h) =
      let fuel = suc (length (b ++ c)) in
      ap
        (λ t.
          serve_packages j (suc (length (b ++ t))) garbage (b ++ t) sent
          >>= (λ r. add_service j garbage (stream_of cs) r.0 r.1)
          >>= λ s. ok (concat s))
        (c_str_lacking c lacks)
      ∙ (bind_same (serve_packages j fuel garbage (b ++ c) sent)
            (λ r. add_service j garbage (stream_of cs) r.0 r.1)
            (λ r. feed j garbage r.0 (concat r.1) cs >>= λ r. ok r.1) concat
            (λ r. add_service-feed cs garbage r.0 r.1 h)
          ∙ (sym (
                bind_assoc (serve_packages j fuel garbage (b ++ c) sent) joined
                  (λ p. feed j garbage p.0 p.1 cs >>= λ r. ok r.1))
              ∙ (ap (λ m. m >>= λ p. feed j garbage p.0 p.1 cs >>= λ r. ok r.1)
                    (serve_packages-parse_loop fuel garbage (b ++ c) sent)
                  ∙ bind_twice (parse_loop j fuel garbage (b ++ c) (concat sent))
                      (λ p. feed j garbage p.0 p.1 cs) (λ r. r.1))))
