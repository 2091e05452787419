-- ===== src/Socket/Receive.antt =====
-- What `recv_exact` reads.
use porkg.Base.{
  ℕ, zero, suc, ◌+◌, ◌-◌, ◌≡◌, ◌≤◌, ◌<◌, min, refl, ap, sym, ◌∙◌, List, [], ◌∷◌, ◌++◌, append_assoc,
  append-nil, Option, none, some, Bytes, Result, ok, err, All, length, length-drop, length-take,
  length-append, take, drop, drop-drop, take-take, take-append-drop, replicate, subst, arith,
}
use porkg.Socket.{Fd, Incoming, recv_loop, recv_exact, read_buffer_size}

abbrev pub Answers : Type 0 → Type 0
Answers E = List (Result (ℕ × List Fd) E)

abbrev chunk : ℕ → ℕ → Bytes → ℕ
chunk count room stream = min count (min (min read_buffer_size room) (length stream))

module _ {E : Type 0} where
  -- The kernel gives something each time, and does not fail.
  abbrev pub IsReady : Result (ℕ × List Fd) E → Type 0
  IsReady (ok (n, fds)) = 0 < n
  IsReady (err e) = ⊥

  -- A read that succeeds has taken exactly the bytes asked for from the front of the stream, and
  -- leaves the rest.
  pub recv_loop-exact :
      (answers : Answers E) (room : ℕ) (stream read : Bytes) (fds : List Fd) (b : Bytes)
      (fds' : List Fd) (i : Incoming E)
      → recv_loop answers room stream read fds ≡ some (ok (b, fds'), i)
      → (b ++ i.stream ≡ read ++ stream) × (length b ≡ length read + room)
  unfolding recv_loop
  recv_loop-exact answers zero stream read fds b fds' i h =
      let same : read ≡ b = cc in (cc, rw (← same) (omega arith))
  recv_loop-exact [] (suc room) stream read fds b fds' i h = cc
  recv_loop-exact (err e ∷ answers) (suc room) stream read fds b fds' i h = cc
  recv_loop-exact (ok (count, new) ∷ answers) (suc room) stream read fds b fds' i h =
      let size = chunk count (suc room) stream in
      let (joined, total) =
        recv_loop-exact answers (suc room - size) (drop size stream) (read ++ take size stream)
          (fds ++ new) b fds' i h in
      (
        joined ∙ append_assoc read _ _ ∙ ap (◌++◌ read) (take-append-drop size stream),
        omega (arith, total, length-append read (take size stream), length-take size stream),
      )

  -- What a read that cannot fail leaves behind.
  abbrev pub Reads :
      ℕ → Answers E → Bytes → Bytes → Option (Result (Bytes × List Fd) E × Incoming E) → Type 0
  Reads room answers stream read r =
      (fds : List Fd) × ((answers' : Answers E) × (r
          ≡ some (
            ok (read ++ take room stream, fds),
            record { stream = drop room stream; answers = answers' },
          ))
        × All IsReady answers'
        × (length answers ≤ length answers' + room))

  -- If enough bytes are on their way, and the kernel does not fail and gives something each
  -- time, the read succeeds in at most as many calls as bytes are asked for, with the bytes from
  -- the front of the stream.
  pub recv_loop_total :
      (answers : Answers E) (room : ℕ) (stream read : Bytes) (fds : List Fd)
      → All IsReady answers
      → room ≤ length stream
      → room ≤ length answers
      → Reads room answers stream read (recv_loop answers room stream read fds)
  unfolding recv_loop
  recv_loop_total answers zero stream read fds h le le' =
      (fds, (answers, rw append-nil, h, omega arith))
  recv_loop_total [] (suc room) stream read fds h le le' = absurd (omega arith)
  recv_loop_total (err e ∷ answers) (suc room) stream read fds (h, _) le le' = absurd h
  recv_loop_total (ok (count, new) ∷ answers) (suc room) stream read fds (pos, h) le le' =
      let size = chunk count (suc room) stream in
      let (fds', (answers', run, ready, many)) =
        recv_loop_total answers (suc room - size) (drop size stream) (read ++ take size stream)
          (fds ++ new) h (omega (arith, length-drop size stream)) (omega arith) in
      let whole : size + (suc room - size) ≡ suc room = omega arith in
      let text : (read ++ take size stream) ++ take (suc room - size) (drop size stream)
          ≡ read ++ take (suc room) stream =
        append_assoc read _ _
        ∙ ap (◌++◌ read)
            (take-take size (suc room - size) stream ∙ ap (λ n. take n stream) whole) in
      let left : drop (suc room - size) (drop size stream) ≡ drop (suc room) stream =
        sym (drop-drop (suc room - size) size stream) ∙ ap (λ n. drop n stream) whole in
      (fds', (answers', run ∙ rw (text, left), ready, omega arith))

  recv_loop-eof :
      (k room : ℕ) (stream read : Bytes) (fds : List Fd)
      → 0 < room
      → recv_loop {E = E} (replicate k (ok (0, []))) room stream read fds ≡ none
  unfolding recv_loop
  recv_loop-eof k zero stream read fds h = absurd (omega arith)
  recv_loop-eof zero (suc room) stream read fds h = refl
  recv_loop-eof (suc k) (suc room) stream read fds h =
      let nothing : chunk 0 (suc room) stream ≡ 0 = omega arith in
      subst
        (λ n.
          recv_loop {E = E} (replicate k (ok (0, []))) (suc room - n) (drop n stream)
            (read ++ take n stream) (fds ++ [])
          ≡ none)
        (sym nothing) (recv_loop-eof k (suc room - 0) stream (read ++ []) (fds ++ []) (omega arith))

  -- If the kernel answers with 0 bytes, as it does once the peer has closed, a read of at least
  -- one byte has not ended after any number of answers.
  pub recv_exact-eof :
      (k room : ℕ) (fds : List Fd) (stream : Bytes)
      → 0 < room
      → recv_exact {E = E} room fds (record { stream = stream; answers = replicate k (ok (0, [])) })
        ≡ none
  unfolding recv_exact
  recv_exact-eof k room fds stream h = recv_loop-eof k room stream [] fds h
