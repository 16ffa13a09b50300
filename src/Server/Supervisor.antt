-- ===== src/Server/Supervisor.antt =====
-- server/app/usbipd_supervisor.py: the daemon as a child process, and the task that restarts it. The
-- processes that run are part of the state; which number a new process gets is unknown.
pub mod Daemon
pub mod Watched
use usbover_ip.Base.{ℕ, Bool, true, false, not, Option, none, some, eqb, if◌then◌else◌}
use usbover_ip.Base.Exec.{
  Exec, Result, ok, err, file_not_found, pure, raise, gets, modify, attempt, ◌>>=◌, ◌>>◌,
}

-- Where the task of `_watch` stands: there is none, it has not looked at the flag yet, it sleeps,
-- or it has returned, was cancelled or has raised.
pub data Task : Type 0 where
  missing ready sleeping ended : Task

-- `_proc`, `_task` and `_stopping`, and the processes named usbipd that run.
pub record Supervisor : Type 0 where
  pub proc : Option ℕ
  pub task : Task
  pub stopping : Bool
  pub alive : ℕ → Bool

abbrev pub Supervised : Type 0 → Type 0
Supervised = Exec Supervisor

unfoldable pub is_running : Supervisor → Bool
is_running s = elim s.proc [ none ↦ false | some pid ↦ s.alive pid ]

abbrev pub living : ℕ → Supervisor → Supervisor
living pid s = record s { alive = λ q. if eqb q pid then true else s.alive q }

abbrev pub dead : ℕ → Supervisor → Supervisor
dead pid s = record s { alive = λ q. if eqb q pid then false else s.alive q }

-- `subprocess.Popen` makes a process with this number, or raises.
unfoldable pub spawn : Option ℕ → Supervised Unit
spawn none = raise (file_not_found "usbipd")
spawn (some pid) = modify (λ s. record (living pid s) { proc = some pid })

unfoldable pub start : Option ℕ → Supervised Unit
start answer = do
  modify (λ s. record s { stopping = false })
  spawn answer
  modify (λ s. record s { task = ready })

-- `_watch` goes on after its sleep; an exception of `_spawn` ends the task.
unfoldable pub restarted : Result (Unit {0}) → Supervised Unit
restarted (ok u) = pure tt
restarted (err e) = modify (λ s. record s { task = ended })

unfoldable pub wake : Option ℕ → Supervised Unit
unfolding restarted
wake answer = do
  stopping ← gets (λ s. s.stopping)
  running ← gets is_running
  if stopping
      then modify (λ s. record s { task = ended })
      else if running
      then pure tt
      else (do r ← attempt (spawn answer); restarted r)

unfoldable pub begin : Supervised Unit
begin = modify (λ s. record s { task = if s.stopping then ended else sleeping })

-- One step of the task, from one await to the next.
unfoldable pub resume : Task → Option ℕ → Supervised Unit
resume missing answer = pure tt
resume ready answer = begin
resume sleeping answer = wake answer
resume ended answer = pure tt

-- A task that is there is cancelled.
abbrev cancelled : Task → Task
cancelled missing = missing
cancelled _ = ended

-- The process is gone at the end, also where it has to be killed.
unfoldable pub terminate : Option ℕ → Supervised Unit
terminate none = pure tt
terminate (some pid) = modify (dead pid)

unfoldable pub stop : Supervised Unit
unfolding terminate
stop = do
  modify (λ s. record s { stopping = true; task = cancelled s.task })
  running ← gets is_running
  proc ← gets (λ s. s.proc)
  if running then terminate proc else pure tt
