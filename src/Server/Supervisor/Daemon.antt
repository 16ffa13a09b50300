-- ===== src/Server/Supervisor/Daemon.antt =====
-- What the steps of the supervisor do to the processes that run.
use mathlib.Core.Option.{some-injective}
use usbover_ip.Base.Exec.Triple.{
  Triple, Keeps, Outcome, Triple-bind, Triple-pure, Triple-if, Triple-weaken, Triple-attempt,
  Triple-gets,
}
use mathlib.Core.Bool.{false≢true}
use usbover_ip.Base.{
  ℕ, ◌≡◌, refl, ◌∙◌, sym, ap, true, false, Option, none, some, eqb, if◌then◌else◌, eqb-true,
  Bool-cases, inl, inr, eqb_refl, subst,
}
use usbover_ip.Base.Exec.{ok, err, ◌>>=◌, Exc, Result, modify}
use usbover_ip.Server.Supervisor.{
  Task, missing, ready, sleeping, ended, Supervisor, is_running, spawn, start, restarted, wake,
  begin, resume, dead, Supervised,
}

-- No process runs but the one that is on record.
abbrev pub Single : Supervisor → Type 0
Single s = (pid : ℕ) → s.alive pid ≡ true → s.proc ≡ some pid

abbrev pub Quiet : Supervisor → Type 0
Quiet s = (pid : ℕ) → s.alive pid ≡ false

pub Single-Quiet : (s : Supervisor) → Single s → is_running s ≡ false → Quiet s
unfolding is_running
Single-Quiet s h stopped pid = elim (Bool-cases (s.alive pid)) [
  | inl lives ↦ absurd (
      false≢true (
        sym stopped ∙ ap (λ o. elim o [ none ↦ false | some p ↦ s.alive p ]) (h pid lives) ∙ lives))
  | inr gone ↦ gone
]

pub Quiet-Single : (s : Supervisor) → Quiet s → Single s
Quiet-Single s h pid lives = absurd (false≢true (sym (h pid) ∙ lives))

-- A process that is made where none runs is the only one.
spawn-Single : (answer : Option ℕ) (s : Supervisor) → Quiet s → Single (spawn answer s).1
unfolding spawn ◌>>=◌
spawn-Single none s h = Quiet-Single s h
spawn-Single (some new) s h = λ pid lives. elim (Bool-cases (eqb pid new)) [
  | inl same ↦ ap some (sym (eqb-true pid new same))
  | inr other ↦
      absurd
        (false≢true (sym (h pid) ∙ ap (λ b. if b then true else s.alive pid) (sym other) ∙ lives))
]

-- What `restarted` changes is the task alone.
module _ {P : Supervisor → Type 0} {Q : Unit → Supervisor → Type 0}
    {E : Exc → Supervisor → Type 0} where
  pub modify-Triple :
      (f : Supervisor → Supervisor)
      → ((s : Supervisor) → P s → Q tt (f s))
      → Triple P (modify f) Q E
  unfolding ◌>>=◌
  modify-Triple f h = record { at = h }

spawn-Triple : (answer : Option ℕ) → Triple Quiet (spawn answer) (λ _. Single) (λ _. Single)
spawn-Triple answer = record {
  at = λ s h. either (spawn answer s).0 (spawn answer s).1 (spawn-Single answer s h);
}
  where
    either : (r : Result Unit) (t : Supervisor) → Single t → Outcome (λ _. Single) (λ _. Single) r t
    either (ok u) t h = h
    either (err e) t h = h

restarted-Triple :
    (r : Result (Unit {0}))
    → Triple (Outcome (λ _. Single) (λ _. Single) r) (restarted r) (λ _. Single) (λ _. Single)
unfolding restarted
restarted-Triple (ok u) = Triple-pure tt (λ s h. h)
restarted-Triple (err e) = modify-Triple _ (λ s h. h)

wake-Keeps : (answer : Option ℕ) → Keeps Single (wake answer)
unfolding wake
wake-Keeps answer = Triple-bind (Triple-gets (λ s. s.stopping)) λ stopping.
    Triple-bind (Triple-gets is_running) λ running.
      Triple-if stopping (λ _. modify-Triple _ (λ s h. h.0.0))
        λ _.
          Triple-if running (λ _. Triple-pure tt (λ s h. h.0.0))
            λ off.
              Triple-weaken
                (Triple-bind (Triple-attempt {E' = λ _. Single} (spawn-Triple answer))
                  restarted-Triple)
                (λ s h. Single-Quiet s h.0.0 (sym h.1 ∙ off)) (λ u s h. h) (λ e s h. h)

pub resume-Keeps : (task : Task) (answer : Option ℕ) → Keeps Single (resume task answer)
unfolding resume begin
resume-Keeps missing answer = Triple-pure tt (λ s h. h)
resume-Keeps ready answer = modify-Triple _ (λ s h. h)
resume-Keeps sleeping answer = wake-Keeps answer
resume-Keeps ended answer = Triple-pure tt (λ s h. h)

pub dead-Single : (pid : ℕ) (s : Supervisor) → Single s → Single (dead pid s)
dead-Single dying s h = λ pid lives. elim (Bool-cases (eqb pid dying)) [
  | inl same ↦ absurd (false≢true (ap (λ b. if b then false else s.alive pid) (sym same) ∙ lives))
  | inr other ↦ h pid (ap (λ b. if b then false else s.alive pid) (sym other) ∙ lives)
]

pub dead-Quiet : (pid : ℕ) (s : Supervisor) → Single s → some pid ≡ s.proc → Quiet (dead pid s)
dead-Quiet p s h recorded = λ pid. elim (Bool-cases (eqb pid p)) [
  | inl same ↦ ap (λ b. if b then false else s.alive pid) same
  | inr other ↦ elim (Bool-cases (s.alive pid)) [
    | inl lives ↦ absurd (differs pid other (some-injective _ _ (recorded ∙ h pid lives)))
    | inr gone ↦ ap (λ b. if b then false else s.alive pid) other ∙ gone
  ]
]
  where
    differs : (pid : ℕ) → eqb pid p ≡ false → p ≡ pid → ⊥
    differs pid other same = false≢true (sym other ∙ ap (λ q. eqb pid q) same ∙ eqb_refl pid)

pub start-Triple : (answer : Option ℕ) → Triple Quiet (start answer) (λ _. Single) (λ _. Single)
unfolding start
start-Triple answer =
    Triple-bind (modify-Triple {Q = λ _. Quiet} _ (λ s h. h))
      λ _. Triple-bind (spawn-Triple answer) (λ _. modify-Triple _ (λ s h. h))

-- What holds on every way out holds after the call.
after :
    (P : Supervisor → Type 0) {m : Supervised Unit} (s : Supervisor)
    → Triple (λ t. t ≡ s) m (λ _. P) (λ _. P)
    → P (m s).1
after P {m} s t = go (m s).0 (t.at s refl)
  where
    go : (r : Result Unit) → Outcome (λ _. P) (λ _. P) r (m s).1 → P (m s).1
    go (ok u) h = h
    go (err e) h = h

pub from :
    {P Q : Supervisor → Type 0} {m : Supervised Unit} (s : Supervisor)
    → P s
    → Triple P m (λ _. Q) (λ _. Q)
    → Q (m s).1
from {P} {Q} s h t =
    after Q s (Triple-weaken t (λ u e. subst P (sym e) h) (λ a u g. g) (λ e u g. g))
