-- ===== src/Base/Exec/Triple.antt =====
-- Hoare triples for `Exec`: what holds after a block, whether it returns or raises. There is one
-- rule for each way to build a block.
use mathlib.Core.Path.{◌≡◌, refl, subst}
use mathlib.Core.Bool.{Bool, true, false}
use mathlib.Core.List.{List, [], ◌∷◌}
use usbover_ip.Base.Tests.{if◌then◌else◌}
use usbover_ip.Base.Exec.{
  ok-injective, Exc, Result, ok, err, Exec, pure, raise, lift, gets, attempt, ◌>>=◌, for_each,
  continue, try_except, handled,
}

module _ {S A : Type 0} where
  abbrev pub Outcome : (A → S → Type 0) → (Exc → S → Type 0) → Result A → S → Type 0
  Outcome Q E (ok a) s = Q a s
  Outcome Q E (err e) s = E e s

  -- From a state with `P`, `m` returns `a` in a state with `Q a`, or raises `e` in one with `E e`.
  pub record Triple (P : S → Type 0) (m : Exec S A) (Q : A → S → Type 0) (E : Exc → S → Type 0)
      : Type 0 where
    pub at : (s : S) → P s → Outcome Q E (m s).0 (m s).1

  pub Outcome-ok :
      (Q : A → S → Type 0) (E : Exc → S → Type 0) (r : Result A) {s : S} {a : A}
      → Outcome Q E r s
      → r ≡ ok a
      → Q a s
  Outcome-ok Q E (ok b) {s} h e = subst (λ x. Q x s) (ok-injective e) h
  Outcome-ok Q E (err x) h e = cc

  -- `P` holds after the block whatever its outcome, if it holds before.
  abbrev pub Keeps : (S → Type 0) → Exec S A → Type 0
  Keeps P m = Triple P m (λ _. P) (λ _. P)

module _ {S A : Type 0} {P : S → Type 0} {Q : A → S → Type 0} {E : Exc → S → Type 0} where
  pub Triple-pure : (a : A) → ((s : S) → P s → Q a s) → Triple P (pure a) Q E
  unfolding ◌>>=◌
  Triple-pure a h = record { at = h }

  pub Triple-raise : (e : Exc) → ((s : S) → P s → E e s) → Triple P (raise e) Q E
  unfolding ◌>>=◌
  Triple-raise e h = record { at = h }

  pub Triple-if :
      (b : Bool) {m n : Exec S A}
      → (b ≡ true → Triple P m Q E)
      → (b ≡ false → Triple P n Q E)
      → Triple P (if b then m else n) Q E
  Triple-if true hm hn = hm refl
  Triple-if false hm hn = hn refl

  -- A stronger precondition, and weaker postconditions.
  pub Triple-weaken :
      {P' : S → Type 0} {Q' : A → S → Type 0} {E' : Exc → S → Type 0} {m : Exec S A}
      → Triple P' m Q' E'
      → ((s : S) → P s → P' s)
      → ((a : A) (s : S) → Q' a s → Q a s)
      → ((e : Exc) (s : S) → E' e s → E e s)
      → Triple P m Q E
  Triple-weaken {Q'} {E'} {m} t p q e = record { at = λ s h. go (m s).0 (m s).1 (t.at s (p s h)) }
    where
      go : (r : Result A) (s : S) → Outcome Q' E' r s → Outcome Q E r s
      go (ok a) s h = q a s h
      go (err x) s h = e x s h

module _ {S A B : Type 0} {P : S → Type 0} {Q : A → S → Type 0} {R : B → S → Type 0} where
  pub Triple-bind :
      {E : Exc → S → Type 0} {m : Exec S A} {f : A → Exec S B}
      → Triple P m Q E
      → ((a : A) → Triple (Q a) (f a) R E)
      → Triple P (m >>= f) R E
  unfolding ◌>>=◌
  Triple-bind {E} {m} {f} tm tf = record { at = λ s h. go (m s).0 (m s).1 (tm.at s h) }
    where
      go :
          (r : Result A) (s : S)
          → Outcome Q E r s
          → Outcome R E (continue r f s).0 (continue r f s).1
      go (ok a) s h = (tf a).at s h
      go (err e) s h = h

module _ {S A : Type 0} {P : S → Type 0} where
  -- Under `try`, the handler starts from the outcome.
  pub Triple-attempt :
      {Q : A → S → Type 0} {E E' : Exc → S → Type 0} {m : Exec S A}
      → Triple P m Q E
      → Triple P (attempt m) (Outcome Q E) E'
  unfolding ◌>>=◌
  Triple-attempt t = record { at = t.at }

  pub Triple-gets :
      {E : Exc → S → Type 0} (f : S → A) → Triple P (gets f) (λ a s. P s × (a ≡ f s)) E
  unfolding ◌>>=◌
  Triple-gets f = record { at = λ s h. (h, refl) }

  pub Triple-lift : (r : Result A) → Keeps P (lift r)
  unfolding ◌>>=◌
  Triple-lift (ok a) = record { at = λ s h. h }
  Triple-lift (err e) = record { at = λ s h. h }

module _ {S A : Type 0} {P : S → Type 0} {E : Exc → S → Type 0} where
  pub Triple-for_each :
      (xs : List A) {body : A → Exec S Unit}
      → ((x : A) → Triple P (body x) (λ _. P) E)
      → Triple P (for_each xs body) (λ _. P) E
  unfolding for_each
  Triple-for_each [] h = record { at = λ s p. p }
  Triple-for_each (x ∷ xs) h = Triple-bind (h x) (λ _. Triple-for_each xs h)

module _ {S A : Type 0} {P P' : S → Type 0} {Q Q' : A → S → Type 0} {E E' : Exc → S → Type 0} where
  pub Triple-both :
      {m : Exec S A}
      → Triple P m Q E
      → Triple P' m Q' E'
      → Triple (λ s. P s × P' s) m (λ a s. Q a s × Q' a s) (λ e s. E e s × E' e s)
  Triple-both {m} t t' = record { at = λ s h. go (m s).0 (m s).1 (t.at s h.0) (t'.at s h.1) }
    where
      go :
          (r : Result A) (s : S)
          → Outcome Q E r s
          → Outcome Q' E' r s
          → Outcome (λ a s. Q a s × Q' a s) (λ e s. E e s × E' e s) r s
      go (ok a) s h h' = (h, h')
      go (err e) s h h' = (h, h')

module _ {S A : Type 0} {P : S → Type 0} {Q : A → S → Type 0} {E E' : Exc → S → Type 0} where
  pub Triple-try_except :
      {m : Exec S A} (named : Exc → Bool) {handler : Exc → Exec S A}
      → Triple P m Q E'
      → ((e : Exc) → named e ≡ true → Triple (E' e) (handler e) Q E)
      → ((e : Exc) → named e ≡ false → (s : S) → E' e s → E e s)
      → Triple P (try_except m named handler) Q E
  unfolding try_except
  Triple-try_except {m} named {handler} t caught passed =
      Triple-bind (Triple-attempt {E = λ e s. E' e s} {E' = E} t) (λ r. handle r)
    where
      handle : (r : Result A) → Triple (Outcome Q E' r) (handled named handler r) Q E
      handle (ok a) = Triple-pure a (λ s h. h)
      handle (err e) =
          Triple-if (named e) (λ y. caught e y) (λ n. Triple-raise e (λ s h. passed e n s h))
