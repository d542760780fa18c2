-- ===== src/PackageParse/Chunks.antt =====
-- The loop of Parse of PackageParse.hpp over the chunks of a stream.
use linux_advance.Base.{
  suc, ◌<◌, ◌≤◌, ◌≡◌, refl, sym, ap, ◌∙◌, subst, some, List, [], ◌∷◌, ◌++◌, length, arith, All,
  append_assoc, append-nil, length-append,
}
use linux_advance.Base.Monad.{Result, ok, ◌>>=◌}
use linux_advance.Base.Text.{Text}
use linux_advance.Protocol.Messages.{Request}
use linux_advance.Protocol.Frame.{encode, decode}
use linux_advance.Protocol.Frame.Partial.{length-encode, decode-encode}
use linux_advance.Protocol.Json.{Json}
use linux_advance.PackageParse.{answer_package, parse_loop}
use linux_advance.PackageParse.Stream.{
  frames, IsPayload, answer_all, parse_loop-frames, Cut, frames-Cut, decode-nil,
}

unfoldable pub concat : List Text → Text
concat [] = []
concat (c ∷ cs) = c ++ concat cs

pub frames_append : (ps qs : List Text) → frames (ps ++ qs) ≡ frames ps ++ frames qs
unfolding frames
frames_append [] qs = refl
frames_append (p ∷ ps) qs = rw (frames_append ps qs, append_assoc)

length-frames : (ps : List Text) → All IsPayload ps → length ps ≤ length (frames ps)
unfolding frames
length-frames [] h = omega arith
length-frames (p ∷ ps) ((fits, full), h) =
    omega (arith, length-frames ps h, length-append (encode p) (frames ps), length-encode p fits)

pub All-append_left :
    (P : Text → Type 0) (ps qs : List Text) → All P (ps ++ qs) → All P ps × All P qs
All-append_left P [] qs h = (tt, h)
All-append_left P (p ∷ ps) qs (hp, h) = let (a, b) = All-append_left P ps qs h in ((hp, a), b)

module _ (j : Json) where
  -- One read after the other: its bytes go behind what is left of the input buffer, and the loop of
  -- Parse runs, with a request object of its own.
  unfoldable pub feed : Request → Text → Text → List Text → Result (Text × Text)
  feed req inbuff outbuff [] = ok (inbuff, outbuff)
  feed req inbuff outbuff (c ∷ cs) = do
    parsed ← parse_loop j (suc (length (inbuff ++ c))) req (inbuff ++ c) outbuff
    feed req parsed.0 parsed.1 cs

module _ (j : Json) (reply : Text → Text) where
  -- The payload is answered by `reply`, whatever request the object held before.
  abbrev pub IsAnswered : Text → Type 0
  IsAnswered p = (r : Request) → (r' : Request) × (answer_package j r p ≡ ok (r', reply p))

  unfoldable pub replies : List Text → Text
  replies [] = []
  replies (p ∷ ps) = reply p ++ replies ps

  pub replies_append : (ps qs : List Text) → replies (ps ++ qs) ≡ replies ps ++ replies qs
  unfolding replies
  replies_append [] qs = refl
  replies_append (p ∷ ps) qs = rw (replies_append ps qs, append_assoc)

  answer_all-replies :
      (ps : List Text) (r : Request) → All IsAnswered ps → answer_all j r ps ≡ ok (replies ps)
  unfolding answer_all replies
  answer_all-replies [] r h = refl
  answer_all-replies (p ∷ ps) r (hp, h) =
      let (r', e) = hp r in ground (arith, e, answer_all-replies ps r' h)

  pub only_empty_waits :
      (ps : List Text) (tail : Text)
      → All IsPayload ps
      → tail ≡ frames ps
      → decode tail ≡ some ([], tail)
      → (ps ≡ []) × (tail ≡ [])
  unfolding frames
  only_empty_waits [] tail h e w = (refl, e)
  only_empty_waits (p ∷ ps) tail ((fits, full), h) e w =
      absurd (cc (full, sym (decode-encode p (frames ps) fits) ∙ (ap decode (sym e) ∙ w)))

  enough_fuel :
      (ps : List Text) (tail b : Text)
      → All IsPayload ps
      → b ≡ frames ps ++ tail
      → length ps < suc (length b)
  enough_fuel ps tail b h e =
      omega (arith, ap length e, length-append (frames ps) tail, length-frames ps h)

  pub feed_round :
      (ps : List Text) (req : Request) (b out r : Text) (u : Cut ps b r)
      → All IsPayload ps
      → All IsAnswered ps
      → parse_loop j (suc (length b)) req b out ≡ ok (u.tail, out ++ replies u.whole)
  feed_round ps req b out r u h a =
      let hs = All-append_left IsPayload u.whole u.rest (subst (All IsPayload) u.payloads h) in
      let as' = All-append_left IsAnswered u.whole u.rest (subst (All IsAnswered) u.payloads a) in
      ap (λ x. parse_loop j (suc (length b)) req x out) u.arrived
      ∙ (parse_loop-frames j u.whole u.tail out req (suc (length b)) hs.0 u.waits
            (enough_fuel u.whole u.tail b hs.0 u.arrived)
          ∙ rw (answer_all-replies u.whole req as'.0))

  feed_lem :
      (cs ps : List Text) (req : Request) (inb out : Text)
      → All IsPayload ps
      → All IsAnswered ps
      → decode inb ≡ some ([], inb)
      → inb ++ concat cs ≡ frames ps
      → feed j req inb out cs ≡ ok ([], out ++ replies ps)
  unfolding feed concat replies
  feed_lem [] ps req inb out h a w e =
      let (no_ps, no_inb) = only_empty_waits ps inb h (sym (append-nil inb) ∙ e) w in
      rw (no_ps, no_inb) (ap (λ (t : Text). ok ([], t)) (sym (append-nil out)))
  feed_lem (c ∷ cs) ps req inb out h a w e =
      let u = frames-Cut ps (inb ++ c) (concat cs) h (append_assoc inb c (concat cs) ∙ e) in
      rw (feed_round ps req (inb ++ c) out (concat cs) u h a) (
        feed_lem cs u.rest req u.tail (out ++ replies u.whole)
          (All-append_left IsPayload u.whole u.rest (subst (All IsPayload) u.payloads h)).1
          (All-append_left IsAnswered u.whole u.rest (subst (All IsAnswered) u.payloads a)).1
          u.waits u.left
        ∙ ap (λ (t : Text). ok ([], t))
            (append_assoc out (replies u.whole) (replies u.rest)
              ∙ ap (◌++◌ out) (sym (ap replies u.payloads ∙ replies_append u.whole u.rest))))

  -- A stream of frames whose payloads are each answered, whatever request the request object held, is
  -- answered in full and in order, and the input buffer ends empty, into whatever chunks the reads cut
  -- it.
  pub feed-frames :
      (cs ps : List Text) (req : Request) (out : Text)
      → All IsPayload ps
      → All IsAnswered ps
      → concat cs ≡ frames ps
      → feed j req [] out cs ≡ ok ([], out ++ replies ps)
  feed-frames cs ps req out h a e = feed_lem cs ps req [] out h a decode-nil e
