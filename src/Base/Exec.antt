-- ===== src/Base/Exec.antt =====
-- Code that changes a state and may raise. What was written before a raise stays written.
pub mod Triple
use mathlib.Core.Path.{◌≡◌, ap}
use mathlib.Core.Bool.{Bool, true, false}
use mathlib.Core.List.{List, [], ◌∷◌}
use usbover_ip.Base.Tests.{if◌then◌else◌}
use Prim.Native.Nat.{ℕ}
use Prim.Native.String.{String}

-- The exceptions that the program tells apart. `other` stands for all that it nowhere names, such
-- as `subprocess.TimeoutExpired`.
pub data Exc : Type 0 where
  group_error usbip_error remote_error validation_error wireguard_error : String → Exc
  runtime_error proxmox_error firewall_error : String → Exc
  http_error : ℕ → String → Exc
  -- kinds of `OSError`
  file_not_found permission_error os_error : String → Exc
  other : String → Exc

-- `str(e)`
abbrev pub message : Exc → String
message (group_error m) = m
message (usbip_error m) = m
message (remote_error m) = m
message (validation_error m) = m
message (wireguard_error m) = m
message (runtime_error m) = m
message (proxmox_error m) = m
message (firewall_error m) = m
message (http_error n m) = m
message (file_not_found m) = m
message (permission_error m) = m
message (os_error m) = m
message (other m) = m

pub data Result {ℓ} (A : Type ℓ) : Type ℓ where
  ok : A → Result A
  err : Exc → Result A

pub ok-injective {ℓ} : {A : Type ℓ} {a b : A} → ok a ≡ ok b → a ≡ b
ok-injective {a} e = ap (λ r. elim r [ ok x ↦ x | err x ↦ a ]) e

abbrev pub Exec : Type 0 → Type 0 → Type 0
Exec S A = S → Result A × S

module _ {S A : Type 0} where
  pub pure : A → Exec S A
  pure a s = (ok a, s)

  pub raise : Exc → Exec S A
  raise e s = (err e, s)

  pub lift : Result A → Exec S A
  lift r s = (r, s)

  pub gets : (S → A) → Exec S A
  gets f s = (ok (f s), s)

  -- `try: m`: the outcome as a value, for the handler to look at.
  pub attempt : Exec S A → Exec S (Result A)
  attempt m s = (ok (m s).0, (m s).1)

module _ {S : Type 0} where
  pub modify : (S → S) → Exec S Unit
  modify f s = (ok tt, f s)

module _ {S A B : Type 0} where
  abbrev pub continue : Result A → (A → Exec S B) → Exec S B
  continue (ok a) f s = f a s
  continue (err e) f s = (err e, s)

  infixl 5 ◌>>=◌ ◌>>◌
  -- Opening this opens the actions above too.
  unfoldable pub ◌>>=◌ : Exec S A → (A → Exec S B) → Exec S B
  unfolding pure raise lift gets attempt modify
  ◌>>=◌ m f s = continue (m s).0 f (m s).1

  abbrev pub ◌>>◌ : Exec S A → Exec S B → Exec S B
  m >> n = m >>= λ _. n

-- `for x in xs: body`
unfoldable pub for_each : {S A : Type 0} → List A → (A → Exec S Unit) → Exec S Unit
unfolding ◌>>=◌
for_each [] body = pure tt
for_each (x ∷ xs) body = body x >>= λ _. for_each xs body

module _ {S A : Type 0} where
  abbrev pub handled : (Exc → Bool) → (Exc → Exec S A) → Result A → Exec S A
  handled named handler (ok a) = pure a
  handled named handler (err e) = if named e then handler e else raise e

  -- `try: m`, with a handler for the exceptions that are named.
  unfoldable pub try_except : Exec S A → (Exc → Bool) → (Exc → Exec S A) → Exec S A
  unfolding ◌>>=◌
  try_except m named handler = attempt m >>= handled named handler

abbrev pub is_os_error : Exc → Bool
is_os_error (file_not_found m) = true
is_os_error (permission_error m) = true
is_os_error (os_error m) = true
is_os_error _ = false

abbrev pub is_permission_error : Exc → Bool
is_permission_error (permission_error m) = true
is_permission_error _ = false
