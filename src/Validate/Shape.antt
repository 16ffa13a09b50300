-- ===== src/Validate/Shape.antt =====
-- What the texts that the validators accept look like.
use usbover_ip.Base.{
  ℕ, zero, suc, ◌≤◌, String, ◌≡◌, refl, true, ◌&&◌, ◌||◌, Bool, List, [], ◌∷◌, arith, eqb, length,
  Bool-cases, inl, inr, sym,
}
use usbover_ip.Base.Exec.{ok, ok-injective}
use usbover_ip.Validate.{
  codes, is_alnum, line_feed, at_end, up_to, name_like, host_char, service_char, validate_hostname,
  validate_service_name,
}

-- Each character of a text is in a class or is a line feed.
unfoldable pub each_in : (ℕ → Bool) → List ℕ → Bool
each_in member [] = true
each_in member (c ∷ s) = (member c || eqb c line_feed) && each_in member s

at_end-each_in :
    (member : ℕ → Bool) (s : List ℕ) → at_end s ≡ true → (each_in member s ≡ true) × (length s ≤ 1)
unfolding at_end each_in
at_end-each_in member [] h = (refl, omega arith)
at_end-each_in member (c ∷ []) h = (ground (arith, h), omega arith)
at_end-each_in member (c ∷ d ∷ s) h = cc

up_to-each_in :
    (member : ℕ → Bool) (n : ℕ) (s : List ℕ)
    → up_to member n s ≡ true
    → (each_in member s ≡ true) × (length s ≤ suc n)
unfolding up_to each_in
up_to-each_in member zero s h = at_end-each_in member s h
up_to-each_in member (suc n) [] h = (refl, omega arith)
up_to-each_in member (suc n) (c ∷ s) h = elim (Bool-cases (member c)) [
  | inl is ↦
      let r = up_to-each_in member n s (rw is at h) in (rw (is, r.0) refl, omega (arith, r.1))
  | inr not_is ↦ let r = at_end-each_in member (c ∷ s) (rw not_is at h) in (r.0, omega (arith, r.1))
]

-- A text that begins with a letter or a digit of ASCII, has `n` characters at most, and else only
-- characters of a class and line feeds.
pub record Named (member : ℕ → Bool) (n : ℕ) (s : List ℕ) : Type 0 where
  pub first : ℕ
  pub rest : List ℕ
  pub parts : s ≡ first ∷ rest
  pub starts : is_alnum first ≡ true
  pub members : each_in member rest ≡ true
  pub bounded : length s ≤ n

name_like-Named :
    (member : ℕ → Bool) (n : ℕ) (s : List ℕ)
    → name_like member n s ≡ true
    → Named member (suc (suc n)) s
unfolding name_like
name_like-Named member n [] h = cc
name_like-Named member n (c ∷ s) h =
    let r = up_to-each_in member n s (ground (arith, h)) in
    record {
      first = c;
      rest = s;
      parts = refl;
      starts = ground (arith, h);
      members = r.0;
      bounded = omega (arith, r.1);
    }

-- An accepted host name is the text itself. It begins with a letter or a digit of ASCII, it has 255
-- characters at most, and after the first only letters and digits of ASCII, dots, dashes and line
-- feeds.
pub validate_hostname-Named :
    (host h : String)
    → validate_hostname host ≡ ok h
    → (h ≡ host) × Named host_char 255 (codes host)
unfolding validate_hostname
validate_hostname-Named host h e = elim (Bool-cases (name_like host_char 253 (codes host))) [
  | inl fits ↦ (sym (ok-injective (rw fits at e)), name_like-Named host_char 253 (codes host) fits)
  | inr differs ↦ absurd (ground (arith, e, differs))
]

-- An accepted name of a systemd service is the text itself. It begins with a letter or a digit of
-- ASCII, it has 129 characters at most, and after the first only letters and digits of ASCII, dots,
-- dashes, underscores, at signs and line feeds.
pub validate_service_name-Named :
    (name n : String)
    → validate_service_name name ≡ ok n
    → (n ≡ name) × Named service_char 129 (codes name)
unfolding validate_service_name
validate_service_name-Named name n e = elim (Bool-cases (name_like service_char 127 (codes name))) [
  | inl fits ↦
      (sym (ok-injective (rw fits at e)), name_like-Named service_char 127 (codes name) fits)
  | inr differs ↦ absurd (ground (arith, e, differs))
]
