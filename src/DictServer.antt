-- ===== src/DictServer.antt =====
-- Start of UdpServer.hpp of the server that translates words.
use linux_advance.Base.{
  ◌≡◌, refl, ap, Bool, true, false, Option, none, some, List, [], ◌∷◌, ◌++◌, ◌<◌, if◌then◌else◌,
  map, length, leb, is_empty, arith, All,
}
use mathlib.Core.Option.{some-injective}
use linux_advance.Base.Monad.Maybe.{◌>>=◌ as ◌>>=?◌}
use linux_advance.Base.Monad.{Result, ok, fault, thrown, undefined, or_fault, ◌>>=◌}
use linux_advance.Base.Text.{Text, c_str}
use linux_advance.Base.TextMap.{TextMap}
use linux_advance.EchoServer.{buff_size}
use linux_advance.Dict.{
  load, load_lines, translate, line_of, IsEntry, latest, translation, translate-load_lines,
}

-- "单词没找到", in UTF-8
abbrev pub not_there : Text
not_there =
    229 ∷ 141 ∷ 149 ∷ 232 ∷ 175 ∷ 141 ∷ 230 ∷ 178 ∷ 161 ∷ 230 ∷ 137 ∷ 190 ∷ 229 ∷ 136 ∷ 176 ∷ []

-- What is sent for a translation.
abbrev pub response_of : Text × Bool → Text
response_of (text, true) = text
response_of (text, false) = not_there

-- What ::recvfrom gives: a datagram and its sender, or an error; and what the file of words holds by
-- then, or none where it does not open.
pub record Arrival {ℓ} (Peer : Type ℓ) : Type ℓ where
  pub datagram : Option (Peer × Text)
  pub file : Option (List Text)

-- The words are loaded again for every datagram.
unfoldable pub answer_word : Option (List Text) → Text → Result Text
answer_word file message = do
  loaded ← or_fault thrown (load file [])
  ok (response_of (translate message loaded.1))

module _ {ℓ} {Peer : Type ℓ} where
  -- A round for a datagram: what is sent. An empty one is not answered; one that fills the buffer makes
  -- the round write the byte behind it.
  unfoldable pub on_datagram : Option (List Text) → Peer × Text → Result (List (Peer × Text))
  on_datagram file (peer, b) =
      if is_empty b
      then ok []
      else if leb buff_size (length b)
      then fault undefined
      else (do response ← answer_word file (c_str b); ok ((peer, response) ∷ []))

  unfoldable pub on_arrival :
      Option (List Text) → Option (Peer × Text) → Result (List (Peer × Text))
  on_arrival file none = ok []
  on_arrival file (some d) = on_datagram file d

  -- The loop of Start: what is sent, in order.
  unfoldable pub start : List (Arrival Peer) → Result (List (Peer × Text))
  start [] = ok []
  start (a ∷ rest) = do sent ← on_arrival a.file a.datagram; later ← start rest; ok (sent ++ later)

-- The answer for a word whose last entry in the file is this one.
abbrev pub word_or_not : Option Text → Text
word_or_not none = not_there
word_or_not (some v) = v

abbrev opened : TextMap Text → Option (Bool × TextMap Text)
opened dict = some (true, dict)

translated :
    (i : Text) (loading : Option (TextMap Text)) (o : Option Text)
    → (loading >>=? λ dict. some (translate i dict)) ≡ some (translation o)
    → (or_fault thrown (loading >>=? opened) >>= λ loaded. ok (response_of (translate i loaded.1)))
      ≡ ok (word_or_not o)
translated i none o h = cc
translated i (some d) none h = ap (λ t. ok (response_of t)) (some-injective _ _ h)
translated i (some d) (some v) h = ap (λ t. ok (response_of t)) (some-injective _ _ h)

answer_word-lines :
    (es : List (Text × Text)) (i : Text)
    → All IsEntry es
    → answer_word (some (map line_of es)) i ≡ ok (word_or_not (latest i es none))
unfolding answer_word load
answer_word-lines es i h =
    translated i (load_lines (map line_of es) []) (latest i es none) (translate-load_lines es i h)

-- A datagram, with the entries of the file.
pub record Question {ℓ} (Peer : Type ℓ) : Type ℓ where
  pub peer : Peer
  pub word : Text
  pub entries : List (Text × Text)

module _ {ℓ} {Peer : Type ℓ} where
  abbrev pub arrival_of : Question Peer → Arrival Peer
  arrival_of q = record { datagram = some (q.peer, q.word); file = some (map line_of q.entries) }

  -- The datagram is not empty and leaves room for the zero byte; the file has one line for each entry.
  abbrev pub IsQuestion : Question Peer → Type 0
  IsQuestion q = (is_empty q.word ≡ false) × (length q.word < buff_size) × All IsEntry q.entries

  abbrev pub answer_of : Question Peer → Peer × Text
  answer_of q = (q.peer, word_or_not (latest (c_str q.word) q.entries none))

  on_datagram-question :
      (q : Question Peer)
      → IsQuestion q
      → on_datagram (some (map line_of q.entries)) (q.peer, q.word) ≡ ok (answer_of q ∷ [])
  unfolding on_datagram
  on_datagram-question q (full, short, entries) =
      ground (arith, full, short, answer_word-lines q.entries (c_str q.word) entries)

  -- Datagrams that are not empty and leave room for the final 0, with files of one line for each entry,
  -- whose words hold no colon and whose values are shorter than 2^64 - 1, are each answered to their
  -- sender, in order, with what the last entry for the word says by then, or with the text for a word
  -- that is not there.
  pub start-questions :
      (qs : List (Question Peer))
      → All IsQuestion qs
      → start (map arrival_of qs) ≡ ok (map answer_of qs)
  unfolding start on_arrival
  start-questions [] h = refl
  start-questions (q ∷ qs) (h, hs) = rw (on_datagram-question q h, start-questions qs hs) refl
