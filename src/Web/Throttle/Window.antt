-- ===== src/Web/Throttle/Window.antt =====
-- What the throttle promises, told by the history of logins alone.
use usbover_ip.Base.{
  ℕ, suc, ◌+◌, ◌≤◌, String, ◌≡◌, refl, ap, ◌∙◌, inl, inr, List, [], ◌∷◌, ◌++◌, arith, length, ltb,
  leb, if◌then◌else◌, ◌==◌, eq_iff, Bool-cases,
}
use usbover_ip.Base.Dict.{lookup, lookup-insert, lookup-erase}
use usbover_ip.Base.Exec.{ok, err, http_error}
use usbover_ip.Web.Throttle.{Throttle, attempts_of, within_window, check, record_failure, reset}

-- What happened at the throttle, each at a time of the clock.
pub data Step : Type 0 where
  checked failed : String → ℕ → Step
  succeeded : String → Step

unfoldable pub apply : Throttle → Step → Throttle
apply t (checked key now) = (check key now t).1
apply t (failed key now) = record_failure key now t
apply t (succeeded key) = reset key t

-- The latest step stands first.
unfoldable pub run : Throttle → List Step → Throttle
unfolding apply
run t [] = t
run t (step ∷ steps) = apply (run t steps) step

-- The failures of a key since it was last reset, the latest first.
unfoldable pub failures : String → List Step → List ℕ
failures key [] = []
failures key (checked k now ∷ steps) = failures key steps
failures key (failed k now ∷ steps) =
    let rest = failures key steps in if k == key then now ∷ rest else rest
failures key (succeeded k ∷ steps) = let rest = failures key steps in if k == key then [] else rest

-- How many of some times lie in the window that ends now.
unfoldable pub recent : ℕ → ℕ → List ℕ → ℕ
recent window now [] = 0
recent window now (t ∷ ts) =
    let rest = recent window now ts in if ltb now (t + window) then suc rest else rest

-- No check was made later than `now`.
abbrev pub Before : ℕ → List Step → Type 0
Before now [] = Unit
Before now (checked k t ∷ steps) = (t ≤ now) × Before now steps
Before now (failed k t ∷ steps) = Before now steps
Before now (succeeded k ∷ steps) = Before now steps

length-within_window :
    (window now : ℕ) (ts : List ℕ) → length (within_window window now ts) ≡ recent window now ts
unfolding within_window recent
length-within_window window now [] = refl
length-within_window window now (t ∷ ts) = ground (arith, length-within_window window now ts)

recent-within_window :
    (window now later : ℕ) (ts : List ℕ)
    → now ≤ later
    → recent window later (within_window window now ts) ≡ recent window later ts
unfolding within_window recent
recent-within_window window now later [] h = refl
recent-within_window window now later (t ∷ ts) h =
    ground (arith, recent-within_window window now later ts)

recent-append :
    (window now t : ℕ) (ts : List ℕ)
    → recent window now (ts ++ (t ∷ [])) ≡ recent window now (t ∷ ts)
unfolding recent
recent-append window now t [] = refl
recent-append window now t (u ∷ ts) = ground (arith, recent-append window now t ts)

unfoldable pub empty : ℕ → ℕ → Throttle
empty max_attempts window = record { max_attempts = max_attempts; window = window; attempts = [] }

same_limits :
    (m w : ℕ) (steps : List Step)
    → ((run (empty m w) steps).max_attempts ≡ m) × ((run (empty m w) steps).window ≡ w)
unfolding run empty check record_failure reset
same_limits m w [] = (refl, refl)
same_limits m w (checked k t ∷ steps) = ground (arith, same_limits m w steps)
same_limits m w (failed k t ∷ steps) = same_limits m w steps
same_limits m w (succeeded k ∷ steps) = same_limits m w steps

attempts_of-check :
    (k key : String) (now : ℕ) (t : Throttle)
    → attempts_of key (check k now t).1
      ≡ (if k == key then within_window t.window now (attempts_of k t) else attempts_of key t)
unfolding check
attempts_of-check k key now t =
    ground (arith, lookup-insert k key (within_window t.window now (attempts_of k t)) t.attempts)

attempts_of-record_failure :
    (k key : String) (now : ℕ) (t : Throttle)
    → attempts_of key (record_failure k now t)
      ≡ (if k == key then attempts_of k t ++ (now ∷ []) else attempts_of key t)
unfolding record_failure
attempts_of-record_failure k key now t =
    ground (arith, lookup-insert k key (attempts_of k t ++ (now ∷ [])) t.attempts)

attempts_of-reset :
    (k key : String) (t : Throttle)
    → attempts_of key (reset k t) ≡ (if k == key then [] else attempts_of key t)
unfolding reset
attempts_of-reset k key t = ground (arith, lookup-erase k key t.attempts)

recent-cons :
    (w now t : ℕ) (xs ys : List ℕ)
    → recent w now xs ≡ recent w now ys
    → recent w now (t ∷ xs) ≡ recent w now (t ∷ ys)
unfolding recent
recent-cons w now t xs ys e = ground arith

-- The list that is kept counts the same failures as the history.
recent-attempts_of :
    (m w now : ℕ) (key : String) (steps : List Step)
    → Before now steps
    → recent w now (attempts_of key (run (empty m w) steps)) ≡ recent w now (failures key steps)
unfolding failures run
recent-attempts_of m w now key [] h = unfold run empty lookup recent in refl
recent-attempts_of m w now key (checked k t ∷ steps) h =
    let old : Throttle = run (empty m w) steps in
    ap (recent w now) (attempts_of-check k key t old) ∙ elim (Bool-cases (k == key)) [
      | inl same ↦
          rw (same, (same_limits m w steps).1, (eq_iff k key).0 same)
            (recent-within_window w t now (attempts_of key old) h.0
              ∙ recent-attempts_of m w now key steps h.1)
      | inr other ↦ rw other (recent-attempts_of m w now key steps h.1)
    ]
recent-attempts_of m w now key (failed k t ∷ steps) h =
    let old : Throttle = run (empty m w) steps in
    ap (recent w now) (attempts_of-record_failure k key t old) ∙ elim (Bool-cases (k == key)) [
      | inl same ↦
          rw (same, (eq_iff k key).0 same)
            (recent-append w now t (attempts_of key old)
              ∙ recent-cons w now t (attempts_of key old) (failures key steps)
                  (recent-attempts_of m w now key steps h))
      | inr other ↦ rw other (recent-attempts_of m w now key steps h)
    ]
recent-attempts_of m w now key (succeeded k ∷ steps) h =
    let old : Throttle = run (empty m w) steps in
    ap (recent w now) (attempts_of-reset k key old) ∙ elim (Bool-cases (k == key)) [
      | inl same ↦ rw same
      | inr other ↦ rw other (recent-attempts_of m w now key steps h)
    ]

-- After any history from an empty throttle in which no check was later than `now`, a check at `now`
-- refuses with the status 429 exactly when the key has `m` failures or more in the window since its
-- last reset, and otherwise lets the login pass.
pub check-run :
    (m w now : ℕ) (key : String) (steps : List Step)
    → Before now steps
    → (check key now (run (empty m w) steps)).0 ≡ (
        if leb m (recent w now (failures key steps))
        then err (http_error 429 "Too many login attempts, try again later")
        else ok tt)
check-run m w now key steps h =
    unfold check in
    rw
      (
        (same_limits m w steps).0,
        (same_limits m w steps).1,
        length-within_window,
        recent-attempts_of m w now key steps h,
      )
      (ground arith)
