-- ===== src/Serve/Binding.antt =====
-- The daemon's socket is bound where there is none.
use porkg.Base.{
  ℕ, ◌≡◌, ◌⊎◌, inl, inr, refl, Bool, true, false, Option, Result, ok, err, if◌then◌else◌,
}
use porkg.Serve.{
  BindConfig, Host, make_parent, clean_up, lookup, bind_all, resume, and_then, done, listeners,
}

module _ (host : Host) (settings : BindConfig) where
  open host use {World, Failure, try_exists, remove_file, bind_unix, parent}

  -- In some world the socket's path was not there, or it was and was removed; in the world after
  -- that the listener was bound to it.
  abbrev pub Fresh : Result (ℕ × Option ℕ) Failure × World → Type 0
  Fresh (err e, w) = Unit {0}
  Fresh (ok (unix, tcp), w) =
      (w1 : World) × ((w2 : World) × ((w3 : World) × ((try_exists settings.socket w1
              ≡ (ok false, w2))
            ⊎ ((wm : World) × (try_exists settings.socket w1 ≡ (ok true, wm))
                × (remove_file settings.socket wm ≡ (ok tt, w2))))
          × (bind_unix settings.socket w2 ≡ (ok unix, w3))))

  bound-Fresh :
      (w1 w2 : World) (r : Result ℕ Failure × World)
      → ((try_exists settings.socket w1 ≡ (ok false, w2))
          ⊎ ((wm : World) × (try_exists settings.socket w1 ≡ (ok true, wm))
              × (remove_file settings.socket wm ≡ (ok tt, w2))))
      → bind_unix settings.socket w2 ≡ r
      → Fresh (
          resume host r (λ unix.
            and_then host
              (and_then host (lookup host settings.tcp) (bind_all host))
              λ tcp. done host (unix, tcp)))
  bound-Fresh w1 w2 (err e, w3) gone bound = tt
  bound-Fresh w1 w2 (ok unix, w3) gone bound =
      settled (and_then host (lookup host settings.tcp) (bind_all host) w3)
    where
      settled :
          (o : Result (Option ℕ) Failure × World)
          → Fresh (resume host o (λ tcp. done host (unix, tcp)))
      settled (err e, w) = tt
      settled (ok tcp, w) = (w1, (w2, (w3, gone, bound)))

  abbrev bind_rest : Unit {0} → World → Result (ℕ × Option ℕ) Failure × World
  bind_rest _ = and_then host (bind_unix settings.socket) λ unix.
      and_then host (and_then host (lookup host settings.tcp) (bind_all host))
        λ tcp. done host (unix, tcp)

  removed-Fresh :
      (w1 wm : World) (r : Result (Unit {0}) Failure × World)
      → try_exists settings.socket w1 ≡ (ok true, wm)
      → remove_file settings.socket wm ≡ r
      → Fresh (resume host r bind_rest)
  removed-Fresh w1 wm (err e, w2) there removed = tt
  removed-Fresh w1 wm (ok _, w2) there removed =
      bound-Fresh w1 w2 (bind_unix settings.socket w2) (inr (wm, there, removed)) refl

  looked_up-Fresh :
      (w1 : World) (r : Result Bool Failure × World)
      → try_exists settings.socket w1 ≡ r
      → Fresh (
          resume host
            (resume host r (λ there. if there then remove_file settings.socket else done host tt))
            bind_rest)
  looked_up-Fresh w1 (err e, w2) h = tt
  looked_up-Fresh w1 (ok true, wm) h = removed-Fresh w1 wm (remove_file settings.socket wm) h refl
  looked_up-Fresh w1 (ok false, w2) h =
      bound-Fresh w1 w2 (bind_unix settings.socket w2) (inl h) refl

  prepared-Fresh :
      (r : Result (Unit {0}) Failure × World)
      → Fresh (resume host r (λ _. and_then host (clean_up host settings.socket) bind_rest))
  prepared-Fresh (err e, w) = tt
  prepared-Fresh (ok _, w) = looked_up-Fresh w (try_exists settings.socket w) refl

  -- If the listeners are there, then the local one was bound to the socket's path in a world in
  -- which, right before, there was found to be nothing at that path, or what there was had been
  -- removed.
  pub listeners-Fresh : (w : World) → Fresh (listeners host settings w)
  unfolding listeners
  listeners-Fresh w = prepared-Fresh (make_parent host (parent settings.socket) w)
