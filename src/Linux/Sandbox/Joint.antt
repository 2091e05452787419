-- ===== src/Linux/Sandbox/Joint.antt =====
-- The zygote of crates/porkg-linux/src/sandbox.rs, once it has cloned a worker, and that worker: two
-- processes whose calls come in any order, but that a read of the worker waits for a write.
mod Tests
use porkg.Base.{
  ℕ, zero, suc, ◌+◌, ◌<◌, ◌≡◌, ◌≢◌, ◌⊎◌, inl, inr, refl, sym, ap, subst, ◌∙◌, List, [], ◌∷◌, ◌++◌,
  append_assoc, Result, ok, err, All, some, take, arith,
}
use porkg.Linux.{
  Kernel, Call, Errno, Fd, read_exact, write_all, Run, done, resume, wrapped, mapping_err,
  system_call, ignore,
}
use porkg.Linux.Clone.{Limits}
use porkg.Linux.Mappings.{
  Process, IdMappingTools, WriteMappingsError, write_mappings, current_user_to_root,
  current_group_to_root,
}
use porkg.Linux.Sandbox.{SandboxOptions}
use porkg.Linux.Sandbox.Worker.{
  SandboxTask, WorkerError, task_error, StartWorkerError, mappings, proceed, start_byte,
  worker_main, release,
}
use porkg.Linux.Sandbox.Order.{
  Joint, lefts, rights, IsWrite, Writes, LacksWrites, lefts-append, rights-append, only, cancel,
  Writes-append, lacks-prefix, whole-prefix, first_right,
}
use porkg.Linux.Sandbox.Released.{entry, Worked, worker_main-Worked}

module _ (kernel : Kernel) {T : Type 0} (sandbox : SandboxTask kernel T) where
  open sandbox use {ExecuteError, execute}

  wrapped-run :
      {A E F : Type 0} (f : E → F) (p : Result A E × Run kernel) → (wrapped kernel f p).1 ≡ p.1
  wrapped-run f (ok a, s) = refl
  wrapped-run f (err e, s) = refl

  -- A worker's calls start with its wait, and all but a failed wait has more calls behind it only
  -- once the wait has succeeded.
  abbrev Waited : SandboxOptions → Fd → kernel.World → List Call → Type 0
  Waited options child w cs =
      (rest : List Call) × (cs ≡ read_exact child 1 ∷ rest)
      × ((rest ≡ [])
          ⊎ ((n : ℕ) × ((w1 : kernel.World) × (kernel.perform (read_exact child 1) w
                  ≡ (ok n, w1)))))

  module _ (task : T) (fds : List Fd) (options : SandboxOptions) (child : Fd) (v : Run kernel)
      (goes_on : (s : Run kernel)
        → (more : List Call) × ((execute task fds s).1.1 ≡ s.1 ++ more)) where
    Worked-Waited :
        (r : Result (Unit {0}) (WorkerError ExecuteError)) (s : Run kernel) (cs : List Call)
        → Worked kernel sandbox task fds options child v (r, s)
        → s.1 ≡ v.1 ++ cs
        → Waited options child v.0 cs
    Worked-Waited r s cs (inl (zero, (e, (w, less, ran, failed, made)))) all =
        ([], cancel v.1 cs _ (sym all ∙ made), inl refl)
    Worked-Waited r s cs (inl (suc k, (e, (w, less, (n, (w1, h, ran)), failed, made)))) all =
        let one_more : suc k + 1 ≡ suc (k + 1) = omega arith in
        (
          _,
          cancel v.1 cs _ (sym all ∙ made) ∙ ap (λ m. take m (entry options child)) one_more,
          inr (n, (w1, h)),
        )
    Worked-Waited r s cs (inr (s1, (n, (w1, h, ran)), made, rest)) all =
        let (more, added) = goes_on s1 in
        let log : s.1 ≡ v.1 ++ (entry options child ++ more) =
          ap (λ p. p.1.1) rest
          ∙ ap (λ s. s.1) (wrapped-run task_error (execute task fds s1))
          ∙ added
          ∙ ap (λ cs. cs ++ more) made
          ∙ append_assoc v.1 (entry options child) more in
        (_, cancel v.1 cs _ (sym all ∙ log), inr (n, (w1, h)))

    worker_main-Waited :
        (cs : List Call)
        → (worker_main kernel sandbox task fds options child v).1.1 ≡ v.1 ++ cs
        → Waited options child v.0 cs
    worker_main-Waited cs all =
        let r = worker_main kernel sandbox task fds options child v in
        Worked-Waited r.0 r.1 cs (worker_main-Worked kernel sandbox task fds options child v) all

  module _ (process : Process) (tools : IdMappingTools) (host : Fd) (pid : ℕ) (z : Run kernel) where
    -- What `write_mappings` answers, and what it leaves.
    abbrev pub mapped : Result (Unit {0}) WriteMappingsError × Run kernel
    mapped =
        write_mappings kernel process (some pid) (current_user_to_root process ∷ [])
          (current_group_to_root process ∷ []) tools z

    abbrev pub byte : Call
    byte = write_all host (start_byte ∷ [])

    told-run :
        (p : Result ℕ Errno × Run kernel)
        → (resume kernel (wrapped kernel proceed p) (λ _. done kernel tt)).1 ≡ p.1
    told-run (ok n, s) = refl
    told-run (err e, s) = refl

    -- The zygote's calls are those of the mappings, and the byte's only if they were successful.
    released-calls :
        (p : Result (Unit {0}) WriteMappingsError × Run kernel) (added cs : List Call)
        → p.1.1 ≡ z.1 ++ added
        → (resume kernel
            (wrapped kernel mappings p)
            (λ _. ignore kernel (mapping_err kernel proceed (system_call kernel byte)))).1.1
          ≡ z.1 ++ cs
        → (cs ≡ added) ⊎ ((p.0 ≡ ok tt) × (cs ≡ added ++ byte ∷ []))
    released-calls (err e, s) added cs made all = inl (cancel z.1 cs added (sym all ∙ made))
    released-calls (ok _, s) added cs made all = inr (
      refl,
      cancel z.1 cs _ (
          sym all
          ∙ ap (λ s. s.1) (told-run (system_call kernel byte s))
          ∙ ap (λ cs. cs ++ byte ∷ []) made
          ∙ append_assoc z.1 added (byte ∷ [])),
    )

    released-whole :
        (limits : Limits) (added before after : List Call)
        → mapped.1.1 ≡ z.1 ++ added
        → (release kernel sandbox limits process tools host pid z).1.1 ≡ z.1 ++ (before ++ after)
        → Writes host before
        → LacksWrites host added
        → (mapped.0 ≡ ok tt) × (before ≡ added ++ byte ∷ [])
    unfolding release
    released-whole limits added before after made all written lacks =
        elim (released-calls mapped added (before ++ after) made all) [
          | inl none_told ↦ absurd (lacks-prefix host before after added none_told written lacks)
          | inr (success, told) ↦
              (success, whole-prefix host before after added byte told written lacks)
        ]

  -- In every order in which the zygote, from the clone on, and the worker may make their calls: by the
  -- time of any call of the worker other than its wait, so of the calls that set its ids and of those of
  -- its task, the zygote has written the mappings with success and then the byte. The socket between
  -- them answers a read with success only after a write to its other end, the mappings are written
  -- to other descriptors, and what a task does adds to the calls made.
  pub released_first :
      (limits : Limits) (process : Process) (tools : IdMappingTools) (host child : Fd) (pid : ℕ)
      (z v : Run kernel) (task : T) (fds : List Fd) (options : SandboxOptions)
      (before after : Joint) (c : Call) (added : List Call)
      → ((s : Run kernel) → (more : List Call) × ((execute task fds s).1.1 ≡ s.1 ++ more))
      → ((n : ℕ) (w : kernel.World) (b b' : Joint)
          → kernel.perform (read_exact child 1) v.0 ≡ (ok n, w)
          → before ++ inr c ∷ after ≡ b ++ inr (read_exact child 1) ∷ b'
          → Writes host (lefts b))
      → (mapped process tools host pid z).1.1 ≡ z.1 ++ added
      → LacksWrites host added
      → (release kernel sandbox limits process tools host pid z).1.1
        ≡ z.1 ++ lefts (before ++ inr c ∷ after)
      → (worker_main kernel sandbox task fds options child v).1.1
        ≡ v.1 ++ rights (before ++ inr c ∷ after)
      → c ≢ read_exact child 1
      → ((mapped process tools host pid z).0 ≡ ok tt)
        × (lefts before ≡ added ++ write_all host (start_byte ∷ []) ∷ [])
  released_first limits process tools host child pid z v task fds options before after c added
        goes_on stream made lacks zygote_made worker_made other =
      let (rest, waits, success) =
        worker_main-Waited task fds options child v goes_on _ worker_made in
      let (b, (b', split)) = first_right (read_exact child 1) c rest before after waits other in
      elim success [
        | inl alone ↦ absurd (
            other (
              only (rights before) (rights after) _ c (
                sym (rights-append before (inr c ∷ after))
                ∙ waits
                ∙ ap (◌∷◌ (read_exact child 1)) alone)))
        | inr (n, (w, h)) ↦
            let written = stream n w b (b' ++ inr c ∷ after) h (
              ap (λ i. i ++ inr c ∷ after) split
              ∙ append_assoc b (inr (read_exact child 1) ∷ b') (inr c ∷ after)) in
            let halves : lefts b ++ lefts b' ≡ lefts before =
              sym (ap lefts split ∙ lefts-append b (inr (read_exact child 1) ∷ b')) in
            released-whole process tools host pid z limits added (lefts before) (lefts after) made
              (zygote_made ∙ ap (◌++◌ z.1) (lefts-append before (inr c ∷ after)))
              (subst (Writes host) halves (Writes-append host (lefts b) (lefts b') written)) lacks
      ]
