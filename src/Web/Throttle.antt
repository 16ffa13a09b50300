-- ===== src/Web/Throttle.antt =====
-- `LoginThrottle` of common/webauth.py. Times are whole ticks of the clock, and so is the window.
pub mod Window
use usbover_ip.Base.{
  ℕ, ◌+◌, String, Bool, Option, none, some, List, [], ◌∷◌, ◌++◌, length, ltb, leb, if◌then◌else◌,
  or_default,
}
use usbover_ip.Base.Dict.{Dict, lookup, insert, erase}
use usbover_ip.Base.Exec.{Result, ok, err, http_error}

pub record Throttle : Type 0 where
  pub max_attempts : ℕ
  pub window : ℕ
  pub attempts : Dict (List ℕ)

-- `self._attempts[key]` of a `defaultdict(list)`
abbrev pub attempts_of : String → Throttle → List ℕ
attempts_of key t = or_default (lookup key t.attempts) []

-- `[t for t in attempts if now - t < window]`. The clock may go back, and then a time lies ahead.
unfoldable pub within_window : ℕ → ℕ → List ℕ → List ℕ
within_window window now [] = []
within_window window now (t ∷ ts) =
    let rest = within_window window now ts in if ltb now (t + window) then t ∷ rest else rest

unfoldable pub check : String → ℕ → Throttle → Result (Unit {0}) × Throttle
unfolding within_window
check key now t =
    let recent = within_window t.window now (attempts_of key t) in
    let t' = record t { attempts = insert key recent t.attempts } in
    if leb t.max_attempts (length recent)
    then (err (http_error 429 "Too many login attempts, try again later"), t')
    else (ok tt, t')

unfoldable pub record_failure : String → ℕ → Throttle → Throttle
record_failure key now t = record t {
  attempts = insert key (attempts_of key t ++ (now ∷ [])) t.attempts;
}

unfoldable pub reset : String → Throttle → Throttle
reset key t = record t { attempts = erase key t.attempts }
