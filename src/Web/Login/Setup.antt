-- ===== src/Web/Login/Setup.antt =====
-- The set-up of the password: it is that of later logins, and stays.
use usbover_ip.Web.Login.Safe.{password_is, answer}
use mathlib.Core.Bool.{false≢true}
use usbover_ip.Base.{
  ℕ, suc, String, ◌≡◌, refl, ◌∙◌, ap, Bool, true, false, Option, none, some, arith, truthy,
  truthy_text, ltb, eqb, ◌==◌,
}
use usbover_ip.Base.Exec.{Result, ok, err, ◌>>=◌}
use usbover_ip.Web.Login.{
  Secrets, Page, redirect, Form, Site, now, hash_password, verify_password, has_admin, field,
  save_password, set_password, setup_begun, setup_awaited, setup_submit, throttle_check, accept,
  reject, login_submit, logout, max_password_bytes,
}

module _ ⦃secrets : Secrets⦄ where
  -- `bcrypt` accepts the password that it has hashed, and its hash is no empty text.
  pub record Bcrypt : Type 0 where
    pub checkpw_hashpw :
        (p : String) (w : secrets.World)
        → ltb max_password_bytes (secrets.encoded_len p) ≡ false
        → secrets.checkpw p (secrets.hashpw p w).0 ≡ some true
    pub hashpw_nonempty :
        (p : String) (w : secrets.World) → truthy_text (secrets.hashpw p w).0 ≡ true

  -- The status of a form that was accepted.
  abbrev is_accepted : Result Page → Bool
  is_accepted (ok (redirect to code)) = eqb code 303
  is_accepted _ = false

  -- What a set-up that sends the browser on has done.
  set_up :
      (form : Form) (s : Site)
      → is_accepted (setup_submit form s).0 ≡ true
      → ((setup_submit form s).1.admin_password_hash
          ≡ some (secrets.hashpw (field form.password) s.world).0)
        × (ltb max_password_bytes (secrets.encoded_len (field form.password)) ≡ false)
  unfolding setup_submit setup_begun setup_awaited set_password hash_password save_password ◌>>=◌
  set_up form s returns =
      go (has_admin s) refl (ltb (secrets.len (field form.password)) 10) refl
        (field form.password == field form.confirm) refl
        (ltb max_password_bytes (secrets.encoded_len (field form.password))) refl
    where
      go :
          (a : Bool)
          → has_admin s ≡ a
          → (b : Bool) → ltb (secrets.len (field form.password)) 10 ≡ b
          → (c : Bool) → (field form.password == field form.confirm) ≡ c
          → (d : Bool) → ltb max_password_bytes (secrets.encoded_len (field form.password)) ≡ d
          → ((setup_submit form s).1.admin_password_hash
              ≡ some (secrets.hashpw (field form.password) s.world).0)
            × (ltb max_password_bytes (secrets.encoded_len (field form.password)) ≡ false)
      go true ea b eb c ec d ed = absurd (false≢true (rw ea at returns))
      go false ea true eb c ec d ed = absurd (false≢true (rw (ea, eb) at returns))
      go false ea false eb false ec d ed = absurd (false≢true (rw (ea, eb, ec) at returns))
      go false ea false eb true ec true ed = absurd (false≢true (rw (ea, eb, ec, ed) at returns))
      go false ea false eb true ec false ed = (rw (ea, eb, ec, ed), ed)

  -- A password that the set-up has accepted, by sending the browser on, is the password of every
  -- later login as long as it is on record: where the throttle lets the address through, the login
  -- is accepted and the user of the session is the admin.
  pub setup_submit-login :
      (bcrypt : Bcrypt) (logged : Bool) (client_ip : String) (form again : Form) (s later : Site)
      → (setup_submit form s).0 ≡ ok (redirect "/" 303)
      → later.admin_password_hash ≡ (setup_submit form s).1.admin_password_hash
      → field again.password ≡ field form.password
      → answer client_ip later ≡ ok tt
      → ((login_submit logged client_ip again later).0 ≡ ok (redirect "/" 303))
        × ((login_submit logged client_ip again later).1.user ≡ some "admin")
  unfolding login_submit throttle_check now accept reject ◌>>=◌
  setup_submit-login bcrypt logged client_ip form again s later returns kept same passes =
      let done = set_up form s (ap is_accepted returns) in
      let verified : password_is again later ≡ true =
        unfold verify_password in
        rw (
          same,
          kept ∙ done.0,
          bcrypt.hashpw_nonempty (field form.password) s.world,
          bcrypt.checkpw_hashpw (field form.password) s.world done.1,
        ) in
      rw (passes, verified) (refl, refl)

  -- The program with the set-ups that wait for their form.
  pub record Program : Type 0 where
    pub waiting : ℕ
    pub site : Site

  -- A set-up that has asked whether there is a password waits for its form, or has its answer.
  abbrev pub waiting_after : ℕ → Result (Option Page) → ℕ
  waiting_after n (ok none) = suc n
  waiting_after n _ = n

  -- What runs between two awaits of the handlers; `comes` is the next request, of any browser.
  pub data Visit : Program → Program → Type 0 where
    setup_begins :
        (n : ℕ) (s : Site)
        → Visit
            (record { waiting = n; site = s })
            (record { waiting = waiting_after n (setup_begun s).0; site = (setup_begun s).1 })
    setup_ends :
        (form : Form) (n : ℕ) (s : Site)
        → Visit
            (record { waiting = suc n; site = s })
            (record { waiting = n; site = (setup_awaited form none s).1 })
    setup_is_dropped :
        (n : ℕ) (s : Site)
        → Visit (record { waiting = suc n; site = s }) (record { waiting = n; site = s })
    logs_in :
        (logged : Bool) (client_ip : String) (form : Form) (n : ℕ) (s : Site)
        → Visit
            (record { waiting = n; site = s })
            (record { waiting = n; site = (login_submit logged client_ip form s).1 })
    logs_out :
        (n : ℕ) (s : Site)
        → Visit (record { waiting = n; site = s }) (record { waiting = n; site = (logout s).1 })
    comes :
        (user : Option String) (n : ℕ) (s : Site)
        → Visit
            (record { waiting = n; site = s })
            (record { waiting = n; site = record s { user = user } })

  pub data Visits (p : Program) : Program → Type 0 where
    start : Visits p p
    next : {q r : Program} → Visits p q → Visit q r → Visits p r

  login_submit-password :
      (logged : Bool) (client_ip : String) (form : Form) (s : Site)
      → (login_submit logged client_ip form s).1.admin_password_hash ≡ s.admin_password_hash
  unfolding login_submit throttle_check now accept reject ◌>>=◌
  login_submit-password logged client_ip form s =
      go (answer client_ip s) refl (password_is form s) refl
    where
      go :
          (r : Result Unit)
          → answer client_ip s ≡ r
          → (b : Bool) → password_is form s ≡ b
          → (login_submit logged client_ip form s).1.admin_password_hash ≡ s.admin_password_hash
      go (ok u) e true h = rw (e, h)
      go (ok u) e false h = rw (e, h)
      go (err x) e b h = rw e

  -- No set-up waits, and the password is that one.
  abbrev HasPassword : Option String → Program → Type 0
  HasPassword hash p = (p.waiting ≡ 0) × (p.site.admin_password_hash ≡ hash)

  -- Where there is a password, a set-up begins with its answer.
  setup_begun-HasPassword :
      {hash : Option String} (n : ℕ) (s : Site)
      → truthy hash ≡ true
      → HasPassword hash (record { waiting = n; site = s })
      → HasPassword hash
          (record { waiting = waiting_after n (setup_begun s).0; site = (setup_begun s).1 })
  unfolding setup_begun has_admin ◌>>=◌
  setup_begun-HasPassword n s set h =
      let admin : has_admin s ≡ true = ap truthy h.1 ∙ set in rw admin h

  Visit-HasPassword :
      {hash : Option String} {p q : Program}
      → truthy hash ≡ true
      → Visit p q
      → HasPassword hash p
      → HasPassword hash q
  unfolding logout ◌>>=◌
  Visit-HasPassword set (setup_begins n s) h = setup_begun-HasPassword n s set h
  Visit-HasPassword set (setup_ends form n s) h = absurd (omega (arith, h.0))
  Visit-HasPassword set (setup_is_dropped n s) h = absurd (omega (arith, h.0))
  Visit-HasPassword set (logs_in logged client_ip form n s) h =
      (h.0, login_submit-password logged client_ip form s ∙ h.1)
  Visit-HasPassword set (logs_out n s) h = h
  Visit-HasPassword set (comes user n s) h = h

  -- Once there is a password, and no set-up that began before waits for its form, no sequence of
  -- requests, set-ups among them, changes the password or has a set-up wait for its form.
  pub Visits-password :
      {p q : Program}
      → has_admin p.site ≡ true
      → p.waiting ≡ 0
      → Visits p q
      → (q.waiting ≡ 0) × (q.site.admin_password_hash ≡ p.site.admin_password_hash)
  unfolding has_admin
  Visits-password {p} set idle visits = go visits
    where
      go : {q : Program} → Visits p q → HasPassword p.site.admin_password_hash q
      go start = (idle, refl)
      go (next visits visit) = Visit-HasPassword set visit (go visits)
