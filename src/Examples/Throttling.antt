-- ===== src/Examples/Throttling.antt =====
-- A history of logins.
use usbover_ip.Base.{◌≡◌, [], ◌∷◌, arith, List}
use usbover_ip.Base.Exec.{err, http_error}
use usbover_ip.Web.Throttle.{check}
use usbover_ip.Web.Throttle.Window.{
  Step, checked, failed, succeeded, run, empty, recent, failures, check-run,
}

-- two failures after a login, the older one just out of the window
abbrev history : List Step
history =
    failed "ann" 350 ∷ checked "ann" 350 ∷ failed "ann" 100 ∷ succeeded "ann" ∷ failed "ann" 90 ∷ []

check-run_example :
    (check "ann" 400 (run (empty 1 300) history)).0
    ≡ err (http_error 429 "Too many login attempts, try again later")
unfolding recent failures
check-run_example = check-run 1 300 400 "ann" history (omega arith, tt)
