-- ===== src/Server/Supervisor/Watched.antt =====
-- The daemon over the life of the server: one start, one stop, and anything that happens between.
use usbover_ip.Base.Exec.Triple.{
  Triple, Keeps, Outcome, Triple-bind, Triple-pure, Triple-if, Triple-weaken, Triple-attempt,
  Triple-gets,
}
use mathlib.Core.Bool.{false≢true}
use usbover_ip.Base.{
  ℕ, ◌≡◌, refl, ◌∙◌, sym, ap, true, false, Option, none, some, eqb, if◌then◌else◌, Bool-cases, inl,
  inr, eqb_refl, subst,
}
use usbover_ip.Base.Exec.{ok, err, Result}
use usbover_ip.Server.Supervisor.{
  Task, missing, ready, sleeping, ended, Supervisor, is_running, spawn, start, restarted, wake,
  begin, resume, terminate, stop, dead,
}
use usbover_ip.Server.Supervisor.Daemon.{
  Single, Quiet, Quiet-Single, Single-Quiet, modify-Triple, resume-Keeps, dead-Single, dead-Quiet,
  start-Triple, from,
}

-- What can happen once the server runs: the task goes on, a process exits, the server stops.
pub data Step : Supervisor → Supervisor → Type 0 where
  resumes : (answer : Option ℕ) (s : Supervisor) → Step s (resume s.task answer s).1
  exits : (pid : ℕ) (s : Supervisor) → Step s (dead pid s)
  stops : (s : Supervisor) → Step s (stop s).1

pub data Steps (s : Supervisor) : Supervisor → Type 0 where
  here : Steps s s
  next : {t u : Supervisor} → Steps s t → Step t u → Steps s u

-- No daemon runs, and the server has stopped.
abbrev Stopped : Supervisor → Type 0
Stopped s = Quiet s × (s.stopping ≡ true)

terminate-Triple :
    (proc : Option ℕ)
    → Triple
        (λ s. (Single s × (s.stopping ≡ true)) × (proc ≡ s.proc))
        (terminate proc)
        (λ _. Stopped)
        (λ _ _. ⊥)
unfolding terminate is_running
terminate-Triple none =
    Triple-pure {P = λ s. (Single s × (s.stopping ≡ true)) × (none ≡ s.proc)} tt λ s h. (
      Single-Quiet s h.0.0
          (ap (λ (o : Option ℕ). elim o [ none ↦ false | some p ↦ s.alive p ]) (sym h.1)),
      h.0.1,
    )
terminate-Triple (some pid) = modify-Triple _ (λ s h. (dead-Quiet pid s h.0.0 h.1, h.0.1))

stop-Triple : Triple Single stop (λ _. Stopped) (λ _ _. ⊥)
unfolding stop
stop-Triple =
    Triple-bind (modify-Triple {Q = λ _ s. Single s × (s.stopping ≡ true)} _ (λ s h. (h, refl)))
      λ _. Triple-bind (Triple-gets is_running) λ running.
        Triple-bind (Triple-gets (λ s. s.proc)) λ proc.
          Triple-if running
            (λ _.
              Triple-weaken (terminate-Triple proc) (λ s h. (h.0.0, h.1)) (λ u s h. h) (λ e s h. h))
            (λ off. Triple-pure tt (λ s h. (Single-Quiet s h.0.0.0 (sym h.0.1 ∙ off), h.0.0.1)))

stop-Stopped : (s : Supervisor) → Single s → Stopped (stop s).1
stop-Stopped s h = from s h (Triple-weaken stop-Triple (λ t g. g) (λ u t g. g) (λ e t g. absurd g))

Step-Single : {s t : Supervisor} → Step s t → Single s → Single t
Step-Single (resumes answer s) h = from s h (resume-Keeps s.task answer)
Step-Single (exits pid s) h = dead-Single pid s h
Step-Single (stops s) h = Quiet-Single (stop s).1 (stop-Stopped s h).0

-- There is never more than one daemon: after a start from a state in which none runs, and any steps
-- of the task, exits of processes and stops, every process that runs is the one on record.
pub Steps-Single :
    (answer : Option ℕ) (s : Supervisor) {t : Supervisor}
    → Quiet s
    → Steps (start answer s).1 t
    → Single t
Steps-Single answer s quiet steps = go steps
  where
    go : {t : Supervisor} → Steps (start answer s).1 t → Single t
    go here = from s quiet (start-Triple answer)
    go (next steps step) = Step-Single step (go steps)

resume-Stopped : (task : Task) (answer : Option ℕ) → Keeps Stopped (resume task answer)
unfolding resume wake begin
resume-Stopped missing answer = Triple-pure tt (λ s h. h)
resume-Stopped ready answer = modify-Triple _ (λ s h. h)
resume-Stopped sleeping answer = Triple-bind (Triple-gets (λ s. s.stopping)) λ stopping.
    Triple-bind (Triple-gets is_running) λ running.
      Triple-if stopping (λ _. modify-Triple _ (λ s h. h.0.0))
        λ on. record { at = λ s h. absurd (false≢true (sym on ∙ h.0.1 ∙ h.0.0.1)) }
resume-Stopped ended answer = Triple-pure tt (λ s h. h)

dead-Stopped : (pid : ℕ) (s : Supervisor) → Stopped s → Stopped (dead pid s)
dead-Stopped dying s h = (
  λ pid. elim (Bool-cases (eqb pid dying)) [
    | inl same ↦ ap (λ b. if b then false else s.alive pid) same
    | inr other ↦ ap (λ b. if b then false else s.alive pid) other ∙ h.0 pid
  ],
  h.1,
)

-- After `stop`, no daemon runs any more and none is started again, whatever the task does and
-- whatever processes the system would give it.
pub Steps-Quiet : (s : Supervisor) {t : Supervisor} → Single s → Steps (stop s).1 t → Quiet t
Steps-Quiet s single steps = (go steps).0
  where
    step_on : {t u : Supervisor} → Step t u → Stopped t → Stopped u
    step_on (resumes answer t) h = from t h (resume-Stopped t.task answer)
    step_on (exits pid t) h = dead-Stopped pid t h
    step_on (stops t) h = stop-Stopped t (Quiet-Single t h.0)

    go : {t : Supervisor} → Steps (stop s).1 t → Stopped t
    go here = stop-Stopped s single
    go (next steps step) = step_on step (go steps)

abbrev pub Restarted : Supervisor → Type 0
Restarted s = (is_running s ≡ true) × (s.task ≡ sleeping)

wake-Restarted :
    (pid : ℕ)
    → Triple
        (λ s. (s.task ≡ sleeping) × (s.stopping ≡ false))
        (wake (some pid))
        (λ _. Restarted)
        (λ _ _. ⊥)
unfolding wake spawn restarted is_running
wake-Restarted pid = Triple-bind (Triple-gets (λ s. s.stopping)) λ stopping.
    Triple-bind (Triple-gets is_running) λ running.
      Triple-if stopping
        (λ off. record { at = λ s h. absurd (false≢true (sym h.0.0.1 ∙ sym h.0.1 ∙ off)) })
        λ _.
          Triple-if running (λ on. Triple-pure tt (λ s h. (sym h.1 ∙ on, h.0.0.0)))
            λ _.
              Triple-bind
                (Triple-attempt {E' = λ _ _. ⊥} (
                  modify-Triple {Q = λ _. Restarted} {E = λ _ _. ⊥} _
                    (λ s h. (ap (λ b. if b then true else s.alive pid) (eqb_refl pid), h.0.0.0))))
                λ r. back r
  where
    back :
        (r : Result (Unit {0}))
        → Triple (Outcome (λ _. Restarted) (λ _ _. ⊥) r) (restarted r) (λ _. Restarted) (λ _ _. ⊥)
    back (ok u) = Triple-pure tt (λ s h. h)
    back (err e) = record { at = λ s h. absurd h }

-- A daemon that has exited is back after the next turn of the task, if the system gives it a
-- process and the server has not stopped; and the task goes on.
pub resume-Restarted :
    (pid : ℕ) (s : Supervisor)
    → s.task ≡ sleeping
    → s.stopping ≡ false
    → Restarted (resume s.task (some pid) s).1
unfolding resume
resume-Restarted pid s sleeps on =
    subst (λ k. Restarted (resume k (some pid) s).1) (sym sleeps)
      (from s (sleeps, on)
        (Triple-weaken (wake-Restarted pid) (λ t g. g) (λ u t g. g) (λ e t g. absurd g)))
