-- ===== src/Web/Login.antt =====
-- The forms of the two programs for the admin's password, and common/security.py. What a browser
-- is sent is the name of a page, or an address that it is sent to.
pub mod Safe
pub mod Setup
use usbover_ip.Base.{
  ℕ, ◌+◌, String, ◌<>◌, Bool, true, false, ◌==◌, not, Option, none, some, List, [], ◌∷◌, ltb,
  if◌then◌else◌, or_default, truthy, truthy_text,
}
use usbover_ip.Base.Exec.{Exec, Result, ok, err, pure, raise, lift, gets, modify, ◌>>=◌, ◌>>◌}
use usbover_ip.Web.Throttle.{Throttle, check, record_failure, reset}

-- `bcrypt`, `hashlib` and `hmac`, the text methods and the clock.
pub record Secrets : Type 1 where
  pub World : Type 0
  pub time : World → ℕ × World
  pub strip : String → String
  -- `len(s)`, and `len(s.encode("utf-8"))`
  pub len : String → ℕ
  pub encoded_len : String → ℕ
  -- `bcrypt.hashpw` with a new salt
  pub hashpw : String → World → String × World
  -- `none` if it raises a ValueError or a TypeError
  pub checkpw : String → String → Option Bool
  -- `hashlib.sha256(s).hexdigest()`, and `hmac.compare_digest`
  pub sha256 : String → String
  pub compare_digest : String → String → Bool

abbrev pub max_password_bytes : ℕ
max_password_bytes = 72

pub data Page : Type 0 where
  redirect : String → ℕ → Page
  template : String → Option String → Page

-- The fields of the form.
pub record Form : Type 0 where
  pub password : Option String
  pub confirm : Option String

module _ ⦃secrets : Secrets⦄ where
  -- The part of the program that the forms read and change. `user` is that of the session of the
  -- browser that sends the request.
  pub record Site : Type 0 where
    pub admin_password_hash : Option String
    pub throttle : Throttle
    pub user : Option String
    pub events : List String
    pub world : secrets.World

  abbrev pub Handler : Type 0 → Type 0
  Handler = Exec Site

  unfoldable pub now : Handler ℕ
  now s = (ok (secrets.time s.world).0, record s { world = (secrets.time s.world).1 })

  -- `none` is a PasswordTooLongError
  unfoldable pub hash_password : String → Handler (Option String)
  hash_password password s =
      if ltb max_password_bytes (secrets.encoded_len password) then (ok none, s) else (
        ok (some (secrets.hashpw password s.world).0),
        record s { world = (secrets.hashpw password s.world).1 },
      )

  unfoldable pub verify_password : String → String → Bool
  verify_password password password_hash =
      if truthy_text password_hash
      then or_default (secrets.checkpw password password_hash) false
      else false

  unfoldable pub hash_token : String → String → String
  hash_token token salt = secrets.sha256 (salt <> token)

  unfoldable pub verify_token : String → String → String → Bool
  unfolding hash_token
  verify_token token salt token_hash =
      if truthy_text token
      then if truthy_text token_hash
        then secrets.compare_digest (hash_token token salt) token_hash
        else false
      else false

  unfoldable pub has_admin : Site → Bool
  has_admin s = truthy s.admin_password_hash

  -- `(form.get(name) or "").strip()`
  unfoldable pub field : Option String → String
  field value = secrets.strip (or_default value "")

  unfoldable pub index : Handler Page
  index = do
    admin ← gets has_admin
    user ← gets (λ s. s.user)
    if not admin
        then pure (redirect "/setup" 307)
        else if truthy user
        then pure (template "dashboard.html" none)
        else pure (redirect "/login" 307)

  unfoldable pub setup_form : Handler Page
  setup_form = do
    admin ← gets has_admin
    if admin then pure (redirect "/login" 307) else pure (template "setup.html" none)

  unfoldable pub save_password : Option String → Handler Page
  save_password none = pure (template "setup.html" (some "password must be at most 72 bytes"))
  save_password (some password_hash) = do
    modify (λ s. record s { admin_password_hash = some password_hash; user = some "admin" })
    pure (redirect "/" 303)

  -- After the form has been awaited.
  unfoldable pub set_password : Form → Handler Page
  set_password form =
      let password = field form.password in
      let confirm = field form.confirm in
      if ltb (secrets.len password) 10
      then pure (template "setup.html" (some "Password must be at least 10 characters."))
      else if not (password == confirm)
      then pure (template "setup.html" (some "Passwords do not match."))
      else hash_password password >>= save_password

  -- `setup_submit` up to the await of the form: the answer, or `none` where it waits for the form.
  unfoldable pub setup_begun : Handler (Option Page)
  setup_begun = do
    admin ← gets has_admin
    if admin then pure (some (redirect "/login" 307)) else pure none

  unfoldable pub setup_awaited : Form → Option Page → Handler Page
  setup_awaited form none = set_password form
  setup_awaited form (some page) = pure page

  unfoldable pub setup_submit : Form → Handler Page
  setup_submit form = setup_begun >>= setup_awaited form

  unfoldable pub login_form : Handler Page
  login_form = do
    admin ← gets has_admin
    if admin then pure (template "login.html" none) else pure (redirect "/setup" 307)

  unfoldable pub throttle_check : String → Handler Unit
  throttle_check client_ip = do
    t ← now
    r ← λ s. (
      ok (check client_ip t s.throttle).0,
      record s { throttle = (check client_ip t s.throttle).1 },
    )
    lift r

  unfoldable pub accept : String → Handler Page
  accept client_ip = do
    modify (λ s. record s { throttle = reset client_ip s.throttle; user = some "admin" })
    pure (redirect "/" 303)

  -- The server notes the address in its log, too; the client does not.
  unfoldable pub reject : Bool → String → Handler Page
  reject logged client_ip = do
    t ← now
    modify (λ s. record s { throttle = record_failure client_ip t s.throttle })
    modify (λ s. record s {
      events = if logged then ("failed login attempt from " <> client_ip) ∷ s.events else s.events;
    })
    pure (template "login.html" (some "Invalid password."))

  -- `logged` for the server
  unfoldable pub login_submit : Bool → String → Form → Handler Page
  login_submit logged client_ip form = do
    throttle_check client_ip
    password_hash ← gets (λ s. or_default s.admin_password_hash "")
    if verify_password (field form.password) password_hash
        then accept client_ip
        else reject logged client_ip

  unfoldable pub logout : Handler Page
  logout = do modify (λ s. record s { user = none }); pure (redirect "/login" 303)
