-- ===== src/Socket/Tests.antt =====
-- The theorems on messages at concrete calls of the kernel.
use porkg.Base.{
  ℕ, ◌≡◌, ◌∷◌, [], ◌++◌, refl, List, true, Bytes, none, some, Result, ok, err, All, All-replicate,
  replicate, arith,
}
use porkg.Socket.{Packet, Codec, send_all, send_message, recv_loop, recv_exact, recv_message}
use porkg.Socket.Send.{bytes_of}
use porkg.Socket.Receive.{Answers, IsReady, recv_exact-eof}
use porkg.Socket.Messages.{IsRoundTrip, Delivers, recv_message-send_message}

abbrev text : Bytes
text = 1 ∷ 2 ∷ 3 ∷ []

-- The kernel takes two bytes, then the rest.
abbrev calls : List (Result ℕ ℕ)
calls = ok 2 ∷ ok 5 ∷ ok 5 ∷ []

abbrev packets : List Packet
packets = (1 ∷ 2 ∷ [], 4 ∷ []) ∷ (3 ∷ [], []) ∷ []

sends : send_all calls text (4 ∷ []) ≡ some (ok tt, packets)
unfolding send_all
sends = refl

abbrev answers : Answers ℕ
answers = ok (2, 4 ∷ []) ∷ ok (9, []) ∷ ok (1, []) ∷ []

answers-IsReady : All (IsReady {E = ℕ}) answers
answers-IsReady = (omega arith, (omega arith, (omega arith, tt)))

reads :
    recv_loop answers 3 (1 ∷ 2 ∷ 3 ∷ 4 ∷ []) [] []
    ≡ some (ok (text, 4 ∷ []), record { stream = 4 ∷ []; answers = ok (1, []) ∷ [] })
unfolding recv_loop
reads = refl

recv_exact-eof_example :
    recv_exact {E = ℕ} 8 [] (record { stream = []; answers = replicate 5 (ok (0, [])) }) ≡ none
recv_exact-eof_example = recv_exact-eof {E = ℕ} 5 8 [] [] (omega arith)

-- A codec of one byte.
abbrev first : Bytes → Result ℕ ℕ
first [] = err 0
first (m ∷ _) = ok m

abbrev byte_codec : Codec ℕ ℕ
byte_codec = record { serialize = λ m. ok (m ∷ []); deserialize = first }

byte_codec-IsRoundTrip : IsRoundTrip byte_codec
byte_codec-IsRoundTrip m body h = let same : m ∷ [] ≡ body = cc in rw (← same) (refl, omega arith)

abbrev ready : Answers ℕ
ready = replicate 10 (ok (3, []))

ready-IsReady : All (IsReady {E = ℕ}) ready
ready-IsReady = All-replicate (IsReady {E = ℕ}) 10 (ok (3, [])) (omega arith)

abbrev sent_packets : List Packet
sent_packets = (1 ∷ 0 ∷ 0 ∷ 0 ∷ 0 ∷ 0 ∷ [], 4 ∷ []) ∷ (0 ∷ 0 ∷ 7 ∷ [], []) ∷ []

abbrev two_calls : List (Result ℕ ℕ)
two_calls = ok 6 ∷ ok 3 ∷ []

sends_message :
    send_message {E = ℕ} true byte_codec two_calls 7 (4 ∷ []) ≡ some (ok tt, sent_packets)
unfolding send_message
sends_message = refl

recv_message-send_message_example : Delivers 7 (8 ∷ []) ready 9 (
    recv_message true byte_codec []
      (record { stream = bytes_of sent_packets ++ 8 ∷ []; answers = ready }))
recv_message-send_message_example =
    recv_message-send_message true byte_codec byte_codec-IsRoundTrip two_calls 7 (4 ∷ [])
      sent_packets sends_message (8 ∷ []) ready ready-IsReady (omega arith)
