-- ===== src/Socket/Messages.antt =====
-- `recv_message` reads what `send_message` writes.
use porkg.Base.{
  ℕ, ◌+◌, ◌≤◌, ◌<◌, ◌^◌, ◌≡◌, refl, sym, ap, ◌∙◌, subst, Bool, List, [], ◌++◌, append_assoc, Option,
  none, some, Bytes, Result, ok, err, All, length, length-append, drop, take-length-append,
  drop-length-append, arith,
}
use porkg.Socket.{
  SocketMessageError, Fd, Packet, Incoming, Codec, frame, header_size, send_message, send_packed,
  sent_all, recv_exact, recv_message, with_header, with_body, decoded, to_ne_bytes, from_ne_bytes,
}
use porkg.Socket.Send.{bytes_of, send_all-bytes}
use porkg.Socket.Receive.{Answers, IsReady, recv_loop_total}
use porkg.Socket.Words.{from_ne_bytes-to_ne_bytes, length-to_ne_bytes}

module _ {E : Type 0} where
  -- A read of exactly the text in front.
  abbrev pub Fetches :
      Bytes → Bytes → Answers E → Option (Result (Bytes × List Fd) E × Incoming E) → Type 0
  Fetches s rest answers r =
      (fds : List Fd) × ((answers' : Answers E) × (r
          ≡ some (ok (s, fds), record { stream = rest; answers = answers' }))
        × All IsReady answers'
        × (length answers ≤ length answers' + length s))

  pub recv_exact-front :
      (s rest : Bytes) (fds : List Fd) (answers : Answers E)
      → All IsReady answers
      → length s ≤ length answers
      → Fetches s rest answers
          (recv_exact (length s) fds (record { stream = s ++ rest; answers = answers }))
  unfolding recv_exact
  recv_exact-front s rest fds answers ready many =
      let (fds', (left, run, ready', count)) =
        recv_loop_total answers (length s) (s ++ rest) [] fds ready
          (omega (arith, length-append s rest)) many in
      (
        fds',
        (
          left,
          run
              ∙ ap
                  (λ t.
                    some (
                      ok (t, fds'),
                      record { stream = drop (length s) (s ++ rest); answers = left },
                    ))
                  (take-length-append s rest)
              ∙ ap (λ t. some (ok (s, fds'), record { stream = t; answers = left }))
                  (drop-length-append s rest),
          ready',
          count,
        ),
      )

-- `bincode` reads what it wrote, and a text in memory is shorter than 2 ^ 64 bytes.
abbrev pub IsRoundTrip : {T S : Type 0} → Codec T S → Type 0
IsRoundTrip {T} codec =
    (m : T) (body : Bytes)
    → codec.serialize m ≡ ok body
    → (codec.deserialize body ≡ ok m) × (length body < 2 ^ 64)

-- A received message, with what is left: the stream after it, and answers of the kernel as ready as
-- before, at most so many fewer.
abbrev pub Delivers :
    {T E S : Type 0}
    → T
    → Bytes
    → Answers E
    → ℕ
    → Option (Result (T × List Fd) (SocketMessageError E S) × Incoming E)
    → Type 0
Delivers message rest answers size r =
    (fds : List Fd) × ((answers' : List _) × (r
        ≡ some (ok (message, fds), record { stream = rest; answers = answers' }))
      × All IsReady answers'
      × (length answers ≤ length answers' + size))

module _ {T E S : Type 0} (little : Bool) (codec : Codec T S) where
  recv_message-steps :
      (message : T) (header body : Bytes) (fds fds1 fds2 : List Fd) (i i1 i2 : Incoming E)
      → recv_exact header_size fds i ≡ some (ok (header, fds1), i1)
      → recv_exact (from_ne_bytes little header) fds1 i1 ≡ some (ok (body, fds2), i2)
      → codec.deserialize body ≡ ok message
      → recv_message little codec fds i ≡ some (ok (message, fds2), i2)
  unfolding recv_message
  recv_message-steps message header body fds fds1 fds2 i i1 i2 head tail valid =
      ap (with_header little codec) head
      ∙ ap (with_body little codec) tail
      ∙ ap (decoded little codec fds2 i2) valid

  -- A framed message in front of the stream is read in full, in at most as many calls as it has
  -- bytes, and what follows it stays for the next read, if the body decodes, its length fits in 64 bits, and the kernel gives something at each of
  -- at least as many calls as the frame has bytes.
  pub recv_message-frame :
      (message : T) (body rest : Bytes) (fds : List Fd) (answers : Answers E)
      → codec.deserialize body ≡ ok message
      → length body < 2 ^ 64
      → All IsReady answers
      → header_size + length body ≤ length answers
      → Delivers message rest answers (header_size + length body) (
          recv_message little codec fds
            (record { stream = frame little body ++ rest; answers = answers }))
  unfolding frame
  recv_message-frame message body rest fds answers valid small ready many =
      let header = to_ne_bytes little (length body) in
      let size : length header ≡ header_size = length-to_ne_bytes little (length body) in
      let (fds1, (left1, run1, ready1, count1)) =
        recv_exact-front header (body ++ rest) fds answers ready (omega arith) in
      let (fds2, (left2, run2, ready2, count2)) =
        recv_exact-front body rest fds1 left1 ready1 (omega arith) in
      (
        fds2,
        (
          left2,
          recv_message-steps message header body fds fds1 fds2 _ _ _
              (subst
                (λ n.
                  recv_exact n fds (record { stream = (header ++ body) ++ rest; answers = answers })
                  ≡ some (ok (header, fds1), record { stream = body ++ rest; answers = left1 }))
                size (rw append_assoc run1))
              (rw (from_ne_bytes-to_ne_bytes little (length body) small) run2) valid,
          ready2,
          omega arith,
        ),
      )

  sent_all-ok :
      (o : Option (Result (Unit {0}) E × List Packet)) {ps : List Packet}
      → sent_all little codec o ≡ some (ok tt, ps)
      → o ≡ some (ok tt, ps)
  sent_all-ok none h = cc
  sent_all-ok (some (ok _, qs)) h = cc
  sent_all-ok (some (err e, qs)) h = cc

  send_packed-bytes :
      (calls : List (Result ℕ E)) (fds : List Fd) (r : Result Bytes S) (ps : List Packet)
      → send_packed little codec calls fds r ≡ some (ok tt, ps)
      → (body : Bytes) × (r ≡ ok body) × (bytes_of ps ≡ frame little body)
  unfolding send_packed
  send_packed-bytes calls fds (err x) ps h = cc
  send_packed-bytes calls fds (ok body) ps h =
      (body, refl, send_all-bytes calls (frame little body) fds ps (sent_all-ok _ h))

  -- If `send_message` succeeds, then `recv_message` at the other end gives the message back, in at
  -- most as many calls as bytes were sent, and leaves the bytes after it in place. The codec reads what it wrote, and the receiving kernel
  -- gives something at each of at least as many calls as bytes were sent.
  pub recv_message-send_message :
      IsRoundTrip codec
      → (calls : List (Result ℕ E)) (message : T) (fds : List Fd) (ps : List Packet)
      → send_message little codec calls message fds ≡ some (ok tt, ps)
      → (rest : Bytes) (answers : Answers E) → All IsReady answers
      → length (bytes_of ps) ≤ length answers
      → Delivers message rest answers (length (bytes_of ps)) (
          recv_message little codec [] (record { stream = bytes_of ps ++ rest; answers = answers }))
  unfolding send_message frame
  recv_message-send_message laws calls message fds ps sent rest answers ready many =
      let (body, packed, text) = send_packed-bytes calls fds (codec.serialize message) ps sent in
      let (valid, small) = laws message body packed in
      let size : length (bytes_of ps) ≡ header_size + length body =
        ap length text
        ∙ length-append (to_ne_bytes little (length body)) body
        ∙ ap (λ n. n + length body) (length-to_ne_bytes little (length body)) in
      let (fds', (answers', run, ready', count)) =
        recv_message-frame message body rest [] answers valid small ready (omega arith) in
      (
        fds',
        (
          answers',
          subst
              (λ t.
                recv_message little codec [] (record { stream = t ++ rest; answers = answers })
                ≡ some (ok (message, fds'), record { stream = rest; answers = answers' }))
              (sym text) run,
          ready',
          omega arith,
        ),
      )
