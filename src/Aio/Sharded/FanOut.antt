-- ===== src/Aio/Sharded/FanOut.antt =====
-- `_fan_out` of fq/aio/sharded.py: one task for each shard puts the events of the shard into a queue,
-- and the caller takes them out. The tasks take turns in any order, so the calls are steps.
--
-- The state is that of the threads of fq/sync/sharded.py; `stopped` says that `finally` has cancelled the
-- tasks. A task has no test of a flag behind a `put`, and it may put more until its cancellation ends it.
use fq_client_py.Prelude.{
  ◌≡◌, refl, ap, sym, inl, inr, Bool-cases, subst, ◌∙◌, ℕ, zero, suc, true, false, List, [], ◌∷◌,
  ◌++◌, some, get_elem?, set, get_elem?-set_self, if◌then◌else◌,
}
use fq_client_py.Errors.{Exn}
use fq_client_py.Sync.Sharded.FanOut.{
  Put, event, error, Worker, running, checking, returned, FanOut, put_by, check_by, take_by, puts,
  checks, takes, shuts, Run, rests, steps,
}
use fq_client_py.Sync.Sharded.Elements.{get_elem?-lt}

set-set : {A : Type 0} (xs : List A) (i : ℕ) (a b : A) → set (set xs i a) i b ≡ set xs i b
set-set [] i a b = refl
set-set (x ∷ xs) zero a b = refl
set-set (x ∷ xs) (suc i) a b = ap (λ ys. x ∷ ys) (set-set xs i a b)

module _ {T : Type 0} where
  -- `await events.put((event, None))`
  abbrev pub put_event : ℕ → T → List (Put T) → FanOut T → FanOut T
  put_event i e rest s = record s {
    workers = set s.workers i (record { pending = rest; phase = running });
    queue = s.queue ++ (i, event e) ∷ [];
  }

  -- A step of a task or of the caller, who may also close the generator.
  pub data TaskStep : FanOut T → FanOut T → Type 0 where
    puts_event :
        {s : FanOut T} (i : ℕ) (e : T) (rest : List (Put T))
        → get_elem? s.workers i ≡ some (record { pending = event e ∷ rest; phase = running })
        → TaskStep s (put_event i e rest s)
    puts_error :
        {s : FanOut T} (i : ℕ) (x : Exn) (rest : List (Put T))
        → get_elem? s.workers i ≡ some (record { pending = error x ∷ rest; phase = running })
        → TaskStep s (put_by i (error x) rest s)
    gets :
        {s : FanOut T} (head : ℕ × Put T) (rest : List (ℕ × Put T))
        → s.queue ≡ head ∷ rest
        → s.stopped ≡ false
        → TaskStep s (take_by head rest s)
    cancels : {s : FanOut T} → s.stopped ≡ false → TaskStep s (record s { stopped = true })

  pub data TaskRun : FanOut T → FanOut T → Type 0 where
    idles : {s : FanOut T} → TaskRun s s
    turns : {s t u : FanOut T} → TaskStep s t → TaskRun t u → TaskRun s u

  check_by-put_by :
      (i : ℕ) (e : T) (rest : List (Put T)) (s : FanOut T)
      → s.stopped ≡ false
      → check_by i rest (put_by i (event e) rest s) ≡ put_event i e rest s
  check_by-put_by i e rest s going =
      let at : List (Worker T) → FanOut T =
        (λ ws. record s { workers = ws; queue = s.queue ++ (i, event e) ∷ [] }) in
      ap at (
        set-set s.workers i (record { pending = rest; phase = checking })
          (record { pending = rest; phase = if s.stopped then returned else running })
        ∙ ap
            (λ b.
              set s.workers i (record { pending = rest; phase = if b then returned else running }))
            going)

  Run-append : {s t u : FanOut T} → Run s t → Run t u → Run s u
  Run-append rests later = later
  Run-append (steps step run) later = steps step (Run-append run later)

  -- While the caller has not left its loop, each step is one or two steps of the threads.
  TaskStep-Run : {s t : FanOut T} → s.stopped ≡ false → TaskStep s t → Run s t
  TaskStep-Run {s} going (puts_event i e rest at) =
      subst (λ u. Run s u) (check_by-put_by i e rest s going)
        (steps (puts i (event e) rest at) (
          steps
            (checks i rest (
              get_elem?-set_self s.workers i (record { pending = rest; phase = checking })
                (get_elem?-lt s.workers i at)))
            rests))
  TaskStep-Run going (puts_error i x rest at) = steps (puts i (error x) rest at) rests
  TaskStep-Run going (gets head rest at _) = steps (takes head rest at going) rests
  TaskStep-Run going (cancels _) = steps (shuts going) rests

  -- Two states that the caller cannot tell apart: what it has taken, and whether it has left its loop.
  abbrev pub Same : FanOut T → FanOut T → Type 0
  Same s t = (s.taken ≡ t.taken) × (s.stopped ≡ t.stopped)

  stopped-Same : {s t : FanOut T} → s.stopped ≡ true → TaskStep s t → Same s t
  stopped-Same h (puts_event i e rest at) = (refl, refl)
  stopped-Same h (puts_error i x rest at) = (refl, refl)
  stopped-Same h (gets head rest at going) = absurd (cc (h, going))
  stopped-Same h (cancels going) = absurd (cc (h, going))

  stopped_run-Same : {s t : FanOut T} → s.stopped ≡ true → TaskRun s t → Same s t
  stopped_run-Same h idles = (refl, refl)
  stopped_run-Same h (turns step run) =
      let (taken, stopped) = stopped-Same h step in
      let (taken', stopped') = stopped_run-Same (sym stopped ∙ h) run in
      (taken ∙ taken', stopped ∙ stopped')

  -- In whatever order the tasks and the caller take turns, also while the tasks are being cancelled and
  -- put more: the threads of the synchronous client and their caller can reach, from the same state, a
  -- state in which the caller has taken the same entries, and has left its loop if it has here.
  pub TaskRun-Run : {s t : FanOut T} → TaskRun s t → (u : FanOut T) × Run s u × Same u t
  TaskRun-Run {s} idles = (s, rests, (refl, refl))
  TaskRun-Run {s} (turns step run) = elim (Bool-cases s.stopped) [
    | inl h ↦ (s, rests, stopped_run-Same h (turns step run))
    | inr going ↦
        let (u, later, same) = TaskRun-Run run in
        (u, Run-append (TaskStep-Run going step) later, same)
  ]
