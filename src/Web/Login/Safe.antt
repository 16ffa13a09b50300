-- ===== src/Web/Login/Safe.antt =====
-- What a login and the set-up of the password need.
use usbover_ip.Web.Throttle.Window.{Step, run, empty, Before, recent, failures, check-run}
use usbover_ip.Base.{
  ℕ, String, ◌≡◌, ◌≢◌, refl, ◌∙◌, ap, Bool, true, false, Bool-cases, inl, inr, Option, none, some,
  or_default, truthy_text, List, leb, if◌then◌else◌,
}
use mathlib.Core.Bool.{false≢true}
use usbover_ip.Base.Exec.{Result, ok, err, ◌>>=◌, http_error}
use usbover_ip.Web.Throttle.{check}
use usbover_ip.Web.Login.{
  Secrets, Form, Site, now, verify_password, field, throttle_check, accept, reject, login_submit,
}

module _ ⦃secrets : Secrets⦄ where
  abbrev pub password_is : Form → Site → Bool
  password_is form s = verify_password (field form.password) (or_default s.admin_password_hash "")

  -- What the throttle answers to a login from an address.
  abbrev pub answer : String → Site → Result (Unit {0})
  answer client_ip s = (check client_ip (secrets.time s.world).0 s.throttle).0

  -- What is on record accepts the password: there is a hash, and `bcrypt` takes the password for it.
  pub record Accepts (password : String) (admin_password_hash : Option String) : Type 0 where
    pub password_hash : String
    pub on_record : admin_password_hash ≡ some password_hash
    pub nonempty : truthy_text password_hash ≡ true
    pub checked : secrets.checkpw password password_hash ≡ some true

  checkpw-Accepts :
      (password password_hash : String) (verdict : Option Bool)
      → secrets.checkpw password password_hash ≡ verdict
      → truthy_text password_hash ≡ true
      → or_default verdict false ≡ true
      → Accepts password (some password_hash)
  checkpw-Accepts password password_hash none e filled h = absurd (false≢true h)
  checkpw-Accepts password password_hash (some false) e filled h = absurd (false≢true h)
  checkpw-Accepts password password_hash (some true) e filled h = record {
    password_hash = password_hash;
    on_record = refl;
    nonempty = filled;
    checked = e;
  }

  verify_password-Accepts :
      (password : String) (o : Option String)
      → verify_password password (or_default o "") ≡ true
      → Accepts password o
  unfolding verify_password
  verify_password-Accepts password none h = absurd (false≢true h)
  verify_password-Accepts password (some password_hash) h =
      elim (Bool-cases (truthy_text password_hash)) [
        | inl filled ↦
            checkpw-Accepts password password_hash (secrets.checkpw password password_hash) refl
              filled (rw filled at h)
        | inr empty ↦ absurd (false≢true (rw empty at h))
      ]

  -- The session of a browser changes its user by a login only if the throttle lets the address
  -- through, and `bcrypt.checkpw` accepts the password of the form for a nonempty hash that is on
  -- record; and then the user is the admin.
  pub login_submit_sound :
      (logged : Bool) (client_ip : String) (form : Form) (s : Site)
      → (login_submit logged client_ip form s).1.user ≢ s.user
      → (answer client_ip s ≡ ok tt)
        × Accepts (field form.password) s.admin_password_hash
        × ((login_submit logged client_ip form s).1.user ≡ some "admin")
  unfolding login_submit throttle_check now accept reject ◌>>=◌
  login_submit_sound logged client_ip form s changes =
      go (answer client_ip s) refl (password_is form s) refl
    where
      go :
          (r : Result Unit)
          → answer client_ip s ≡ r
          → (b : Bool) → password_is form s ≡ b
          → (answer client_ip s ≡ ok tt)
            × Accepts (field form.password) s.admin_password_hash
            × ((login_submit logged client_ip form s).1.user ≡ some "admin")
      go (ok u) e true h =
          (e, verify_password-Accepts (field form.password) s.admin_password_hash h, rw (e, h))
      go (ok u) e false h = absurd (changes (rw (e, h)))
      go (err x) e b h = absurd (changes (rw e))

  -- An address with `m` failures or more in the window, since its last success, is refused with the
  -- status 429 before the password is looked at: whatever the form holds, the session, the password
  -- and the log stay as they are. The history is that of the throttle, with no check in the future.
  pub login_submit-locked :
      (m w : ℕ) (steps : List Step) (logged : Bool) (client_ip : String) (form : Form) (s : Site)
      → s.throttle ≡ run (empty m w) steps
      → Before (secrets.time s.world).0 steps
      → leb m (recent w (secrets.time s.world).0 (failures client_ip steps)) ≡ true
      → ((login_submit logged client_ip form s).0
          ≡ err (http_error 429 "Too many login attempts, try again later"))
        × ((login_submit logged client_ip form s).1.user ≡ s.user)
        × ((login_submit logged client_ip form s).1.admin_password_hash ≡ s.admin_password_hash)
        × ((login_submit logged client_ip form s).1.events ≡ s.events)
  unfolding login_submit throttle_check now accept reject ◌>>=◌
  login_submit-locked m w steps logged client_ip form s history before full =
      let t : ℕ = (secrets.time s.world).0 in
      let refused : answer client_ip s
          ≡ err (http_error 429 "Too many login attempts, try again later") =
        ap (λ x. (check client_ip t x).0) history
        ∙ check-run m w t client_ip steps before
        ∙ ap
            (λ b.
              if b then err (http_error 429 "Too many login attempts, try again later") else ok tt)
            full in
      rw refused (refl, refl, refl, refl)
