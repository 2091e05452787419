-- ===== src/Serve/Tests.antt =====
-- A daemon with a local listener on a host that has an old socket, and a few rounds of its loop.
use porkg.Base.{ℕ, ◌≡◌, refl, Bool, true, false, List, [], ◌∷◌, some, none, codes, ok, err}
use porkg.Serve.{
  pending, ready, connection_reset, unix_client, tcp_client, PollRound, BindConfig, Host,
  serve_loop, listeners, serve, served,
}
use porkg.Serve.Accepting.{Served, serve_loop-Served}
use porkg.Serve.Binding.{Fresh, listeners-Fresh}

abbrev rounds : List PollRound
rounds =
    record { first = 1; unix = ready (ok 5); tcp = ready (ok 6); cancelled = false }
    ∷ record { first = 0; unix = ready (err connection_reset); tcp = pending; cancelled = true }
    ∷ record { first = 2; unix = ready (ok 7); tcp = pending; cancelled = true }
    ∷ []

with_tcp : serve_loop true rounds ≡ (some (ok tt), tcp_client 6 ∷ [])
unfolding serve_loop
with_tcp = refl

serve_loop-Served_example : Served true rounds (serve_loop true rounds)
serve_loop-Served_example = serve_loop-Served true rounds

-- The world says whether the socket is there.
abbrev host : Host
host = record {
  World = Bool;
  Failure = ℕ;
  Address = ℕ;
  parent = λ path. none;
  try_exists = λ path w. (ok w, w);
  create_dir_all = λ path w. (ok tt, w);
  remove_file = λ path w. (ok tt, false);
  bind_unix = λ path w. (ok 3, true);
  to_socket_addrs = λ name w. (ok [], w);
  bind_tcp = λ addrs w. (ok 4, w);
}

abbrev settings : BindConfig
settings = record { socket = codes "/run/porkg.sock"; tcp = [] }

serves : (serve host settings rounds true).0 ≡ served (some (ok tt), unix_client 5 ∷ [])
unfolding serve
serves = refl

listeners-Fresh_example : Fresh host settings (listeners host settings true)
listeners-Fresh_example = listeners-Fresh host settings true
