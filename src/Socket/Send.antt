-- ===== src/Socket/Send.antt =====
-- What `send_all` hands to the kernel.
use porkg.Base.{
  ℕ, ◌≡◌, ◌≤◌, ◌<◌, ◌≢◌, refl, List, [], ◌∷◌, ◌++◌, Option, none, some, Bytes, Result, ok, err, All,
  length, length-drop, take, drop, take-append-drop, arith,
}
use porkg.Socket.{Fd, Packet, sent_first, send_all}

abbrev pub bytes_of : List Packet → Bytes
bytes_of [] = []
bytes_of ((b, f) ∷ ps) = b ++ bytes_of ps

abbrev pub fds_of : List Packet → List Fd
fds_of [] = []
fds_of ((b, f) ∷ ps) = f ++ fds_of ps

module _ {E : Type 0} where
  -- The kernel takes something each time, and does not fail.
  abbrev pub IsProgress : Result ℕ E → Type 0
  IsProgress (ok n) = 0 < n
  IsProgress (err e) = ⊥

  sent_first-eq-ok :
      (p : Packet) (o : Option (Result (Unit {0}) E × List Packet)) (ps : List Packet)
      → sent_first p o ≡ some (ok tt, ps)
      → (qs : List Packet) × (o ≡ some (ok tt, qs)) × (ps ≡ p ∷ qs)
  sent_first-eq-ok p none ps h = cc
  sent_first-eq-ok p (some (ok _, qs)) ps h = (qs, refl, cc)
  sent_first-eq-ok p (some (err e, qs)) ps h = cc

  -- A send that succeeds has handed over all the bytes, in order, whatever the kernel takes at a
  -- time.
  pub send_all-bytes :
      (answers : List (Result ℕ E)) (s : Bytes) (fds : List Fd) (ps : List Packet)
      → send_all answers s fds ≡ some (ok tt, ps)
      → bytes_of ps ≡ s
  unfolding send_all
  send_all-bytes answers [] fds ps h = let none_left : [] ≡ ps = cc in rw (← none_left)
  send_all-bytes [] (c ∷ s) fds ps h = cc
  send_all-bytes (err e ∷ answers) (c ∷ s) fds ps h = cc
  send_all-bytes (ok n ∷ answers) (c ∷ s) fds ps h =
      let (qs, rest, shape) = sent_first-eq-ok _ _ ps h in
      rw (shape, send_all-bytes answers (drop n (c ∷ s)) [] qs rest) (take-append-drop n (c ∷ s))

  send_all-no_fds :
      (answers : List (Result ℕ E)) (s : Bytes) (ps : List Packet)
      → send_all answers s [] ≡ some (ok tt, ps)
      → fds_of ps ≡ []
  unfolding send_all
  send_all-no_fds answers [] ps h = let none_left : [] ≡ ps = cc in rw (← none_left)
  send_all-no_fds [] (c ∷ s) ps h = cc
  send_all-no_fds (err e ∷ answers) (c ∷ s) ps h = cc
  send_all-no_fds (ok n ∷ answers) (c ∷ s) ps h =
      let (qs, rest, shape) = sent_first-eq-ok _ _ ps h in
      rw shape (send_all-no_fds answers (drop n (c ∷ s)) qs rest)

  -- If there is anything to send, a send that succeeds has handed over the descriptors exactly
  -- once, with its first packet.
  pub send_all-fds :
      (answers : List (Result ℕ E)) (s : Bytes) (fds : List Fd) (ps : List Packet)
      → s ≢ []
      → send_all answers s fds ≡ some (ok tt, ps)
      → (b : Bytes) × ((qs : List Packet) × (ps ≡ (b, fds) ∷ qs) × (fds_of qs ≡ []))
  unfolding send_all
  send_all-fds answers [] fds ps ne h = absurd (ne refl)
  send_all-fds [] (c ∷ s) fds ps ne h = cc
  send_all-fds (err e ∷ answers) (c ∷ s) fds ps ne h = cc
  send_all-fds (ok n ∷ answers) (c ∷ s) fds ps ne h =
      let (qs, rest, shape) = sent_first-eq-ok _ _ ps h in
      (take n (c ∷ s), (qs, shape, send_all-no_fds answers (drop n (c ∷ s)) qs rest))

  -- A kernel that does not fail and takes at least a byte each time lets the send succeed in at
  -- most as many calls as there are bytes.
  pub send_all_total :
      (answers : List (Result ℕ E)) (s : Bytes) (fds : List Fd)
      → All IsProgress answers
      → length s ≤ length answers
      → (ps : List Packet) × (send_all answers s fds ≡ some (ok tt, ps))
  unfolding send_all
  send_all_total answers [] fds h le = ([], refl)
  send_all_total [] (c ∷ s) fds h le = absurd (omega arith)
  send_all_total (err e ∷ answers) (c ∷ s) fds (h, _) le = absurd h
  send_all_total (ok n ∷ answers) (c ∷ s) fds (pos, h) le =
      let (ps, rest) =
        send_all_total answers (drop n (c ∷ s)) [] h (omega (arith, length-drop n (c ∷ s))) in
      ((take n (c ∷ s), fds) ∷ ps, rw rest)
