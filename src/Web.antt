-- ===== src/Web.antt =====
-- common/webauth.py: what a handler asks of a request.
pub mod Throttle
pub mod Login
use Prim.Native.Char.{code}
use usbover_ip.Base.{
  String, Bool, true, false, ◌&&◌, ◌==◌, Option, none, some, leb, if◌then◌else◌, truthy_text,
}
use usbover_ip.Base.Exec.{Result, ok, err, http_error, other}

-- The user of the session, the X-Requested-With header and the Authorization header.
pub record Request : Type 0 where
  pub user : Option String
  pub requested_with : Option String
  pub authorization : String

unfoldable pub require_session_user : Request → Result String
require_session_user request = elim request.user [
  | none ↦ err (http_error 401 "Not authenticated")
  | some user ↦ if truthy_text user then ok user else err (http_error 401 "Not authenticated")
]

unfoldable pub require_safe_ajax : Request → Result (Unit {0})
require_safe_ajax request = elim request.requested_with [
  | none ↦ err (http_error 403 "Missing required header")
  | some value ↦
      if value == "usbip-web" then ok tt else err (http_error 403 "Missing required header")
]

unfoldable pub is_ascii : String → Bool
is_ascii String.[] = true
is_ascii (String.◌∷◌ c s) = leb (code c) 127 && is_ascii s

-- `hmac.compare_digest` of two texts, which raises a TypeError unless both are ASCII.
unfoldable pub compare_digest : String → String → Result Bool
compare_digest a b =
    if is_ascii a && is_ascii b
    then ok (a == b)
    else err (other "comparing strings with non-ASCII characters is not supported")

-- One turn of the search for a token: the name it is for, or what the later turns find.
unfoldable pub matched : String → Result Bool → Result (Option String) → Result (Option String)
matched name (ok true) later = ok (some name)
matched name (ok false) later = later
matched name (err e) later = err e
