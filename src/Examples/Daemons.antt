-- ===== src/Examples/Daemons.antt =====
-- A server whose daemon exits once and is restarted, and which is stopped then.
use usbover_ip.Base.{◌≡◌, refl, false, none, some}
use usbover_ip.Base.Exec.{◌>>=◌}
use usbover_ip.Server.Supervisor.{
  Supervisor, missing, sleeping, start, resume, stop, spawn, begin, dead,
}
use usbover_ip.Server.Supervisor.Daemon.{Single, Quiet}
use usbover_ip.Server.Supervisor.Watched.{
  here, next, resumes, exits, stops, Steps-Single, Steps-Quiet, Restarted, resume-Restarted,
}

abbrev idle : Supervisor
idle = record { proc = none; task = missing; stopping = false; alive = λ pid. false }

abbrev started : Supervisor
started = (start (some 41) idle).1

abbrev exited : Supervisor
exited = dead 41 (resume started.task none started).1

abbrev back : Supervisor
back = (resume exited.task (some 42) exited).1

Steps-Single_example : Single (stop back).1
Steps-Single_example =
    Steps-Single (some 41) idle (λ pid. refl)
      (next
        (next
          (next (next here (resumes none started)) (exits 41 (resume started.task none started).1))
          (resumes (some 42) exited))
        (stops back))

Steps-Quiet_example : Quiet (resume (stop started).1.task (some 43) (stop started).1).1
Steps-Quiet_example =
    Steps-Quiet started (Steps-Single (some 41) idle (λ pid. refl) here)
      (next here (resumes (some 43) (stop started).1))

asleep : exited.task ≡ sleeping
unfolding start spawn resume begin ◌>>=◌
asleep = refl

still_on : exited.stopping ≡ false
unfolding start spawn resume begin ◌>>=◌
still_on = refl

resume-Restarted_example : Restarted (resume exited.task (some 42) exited).1
resume-Restarted_example = resume-Restarted 42 exited asleep still_on
