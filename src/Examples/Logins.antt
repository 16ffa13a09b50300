-- ===== src/Examples/Logins.antt =====
-- Logins of a browser, with a hash that puts a letter before the password.
use text.Mathlib.TextLemmas.{cons-ne-nil}
use usbover_ip.Base.{
  ℕ, suc, String, ◌==◌, ◌≡◌, ◌≢◌, refl, ap, not, true, false, none, some, List, [], ◌∷◌, eq_refl,
  eq_iff, Bool-cases, inl, inr, leb,
}
use usbover_ip.Base.Dict.{lookup, insert}
use usbover_ip.Base.Exec.{ok, err, http_error, ◌>>=◌}
use usbover_ip.Web.Throttle.{check, within_window}
use usbover_ip.Web.Throttle.Window.{Step, failed, run, empty, failures, recent}
use usbover_ip.Web.Login.{
  Secrets, redirect, Form, Site, now, hash_password, verify_password, has_admin, field,
  save_password, set_password, setup_begun, setup_awaited, setup_submit, throttle_check, accept,
  login_submit,
}
use usbover_ip.Web.Login.Safe.{Accepts, answer, login_submit_sound, login_submit-locked}
use usbover_ip.Web.Login.Setup.{
  Bcrypt, setup_submit-login, Program, waiting_after, setup_begins, logs_in, Visits, start, next,
  Visits-password,
}

instance abbrev Letters : Secrets
Letters = record {
  World = ℕ;
  time = λ n. (n, suc n);
  strip = λ s. s;
  len = λ s. 12;
  encoded_len = λ s. 12;
  hashpw = λ p n. (String.◌∷◌ "h" p, n);
  checkpw = λ p h. some (h == String.◌∷◌ "h" p);
  sha256 = λ s. s;
  compare_digest = λ s t. s == t;
}

letters : Bcrypt
letters = record {
  checkpw_hashpw = λ p n short. ap some (eq_refl (String.◌∷◌ "h" p));
  hashpw_nonempty = λ p n. nonempty p;
}
  where
    nonempty : (p : String) → not (String.◌∷◌ "h" p == "") ≡ true
    nonempty p = elim (Bool-cases (String.◌∷◌ "h" p == "")) [
      | inl same ↦ absurd (cons-ne-nil "h" p ((eq_iff (String.◌∷◌ "h" p) "").0 same))
      | inr differ ↦ ap not differ
    ]

abbrev right : Form
right = record { password = some "longpassword"; confirm = some "longpassword" }

abbrev wrong : Form
wrong = record { password = some "guess"; confirm = none }

abbrev fresh : Site
fresh = record {
  admin_password_hash = none;
  throttle = record { max_attempts = 5; window = 300; attempts = [] };
  user = none;
  events = [];
  world = 7;
}

set_up_done : (setup_submit right fresh).0 ≡ ok (redirect "/" 303)
unfolding setup_submit setup_begun setup_awaited has_admin set_password hash_password save_password
    ◌>>=◌ field
set_up_done = refl

abbrev guarded : Site
guarded = record fresh { admin_password_hash = some "hlongpassword" }

guarded_kept : guarded.admin_password_hash ≡ (setup_submit right fresh).1.admin_password_hash
unfolding setup_submit setup_begun setup_awaited has_admin set_password hash_password save_password
    ◌>>=◌ field
guarded_kept = refl

passes : answer "10.0.0.9" guarded ≡ ok tt
unfolding check within_window insert lookup
passes = refl

setup_submit-login_example :
    ((login_submit true "10.0.0.9" right guarded).0 ≡ ok (redirect "/" 303))
    × ((login_submit true "10.0.0.9" right guarded).1.user ≡ some "admin")
setup_submit-login_example =
    setup_submit-login letters true "10.0.0.9" right right fresh guarded set_up_done guarded_kept
      refl passes

changed : (login_submit true "10.0.0.9" right guarded).1.user ≢ guarded.user
unfolding login_submit throttle_check now accept ◌>>=◌ check within_window insert lookup
    verify_password field
changed e = cc

login_submit_sound_example :
    (answer "10.0.0.9" guarded ≡ ok tt)
    × Accepts (field right.password) (some "hlongpassword")
    × ((login_submit true "10.0.0.9" right guarded).1.user ≡ some "admin")
login_submit_sound_example = login_submit_sound true "10.0.0.9" right guarded changed

abbrev guesses : List Step
guesses =
    failed "10.0.0.9" 6
    ∷ failed "10.0.0.9" 5
    ∷ failed "10.0.0.9" 4
    ∷ failed "10.0.0.9" 3
    ∷ failed "10.0.0.9" 2
    ∷ []

abbrev attacked : Site
attacked = record guarded { throttle = run (empty 5 300) guesses }

full : leb 5 (recent 300 7 (failures "10.0.0.9" guesses)) ≡ true
unfolding recent failures
full = refl

login_submit-locked_example :
    ((login_submit true "10.0.0.9" right attacked).0
      ≡ err (http_error 429 "Too many login attempts, try again later"))
    × ((login_submit true "10.0.0.9" right attacked).1.user ≡ none)
    × ((login_submit true "10.0.0.9" right attacked).1.admin_password_hash ≡ some "hlongpassword")
    × ((login_submit true "10.0.0.9" right attacked).1.events ≡ [])
login_submit-locked_example =
    login_submit-locked 5 300 guesses true "10.0.0.9" right attacked refl tt full

abbrev idle : Program
idle = record { waiting = 0; site = guarded }

-- a second set-up comes, and then a guess
abbrev refused : Program
refused = record {
  waiting = waiting_after 0 (setup_begun guarded).0;
  site = (setup_begun guarded).1;
}

abbrev guessed : Program
guessed = record {
  waiting = refused.waiting;
  site = (login_submit false "10.0.0.9" wrong refused.site).1;
}

abbrev visits : Visits idle guessed
visits =
    next (next start (setup_begins 0 guarded))
      (logs_in false "10.0.0.9" wrong refused.waiting refused.site)

guarded_admin : has_admin guarded ≡ true
unfolding has_admin
guarded_admin = refl

Visits-password_example :
    (guessed.waiting ≡ 0) × (guessed.site.admin_password_hash ≡ some "hlongpassword")
Visits-password_example = Visits-password guarded_admin refl visits
