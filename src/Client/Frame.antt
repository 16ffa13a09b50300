-- ===== src/Client/Frame.antt =====
-- Code that leaves the configuration alone and raises no `GroupError`, with a rule for each way to
-- build it. Handlers elsewhere tell a `GroupError` apart from all that such code raises.
pub mod Calls
pub mod Nodes
use usbover_ip.Base.{
  ℕ, String, ◌≡◌, refl, ◌∙◌, sym, subst, Bool, true, false, List, [], ◌∷◌, arith, if◌then◌else◌,
}
use usbover_ip.Base.Exec.{
  Exc, group_error, Result, ok, err, Exec, pure, raise, lift, gets, attempt, modify, ◌>>=◌,
  continue, for_each,
}
use usbover_ip.Base.Exec.Triple.{Triple, Outcome}
use usbover_ip.Outside.{Env, Call, returned, raised}
use usbover_ip.Client.State.{App, Client, Config, outcome, outside, outside_try, read, log_event}

abbrev pub is_group_error : Exc → Bool
is_group_error (group_error m) = true
is_group_error _ = false

abbrev pub Foreign : Exc → Type 0
Foreign e = is_group_error e ≡ false

abbrev pub ForeignResult : {A : Type 0} → Result A → Type 0
ForeignResult (ok a) = Unit
ForeignResult (err e) = Foreign e

module _ ⦃env : Env⦄ where
  pub record Frame {A : Type 0} (m : App A) : Type 0 where
    pub same : (s : Client env.World) → (m s).1.cfg ≡ s.cfg
    pub foreign : (s : Client env.World) → ForeignResult (m s).0

  pub Frame-pure : {A : Type 0} (a : A) → Frame (pure a)
  unfolding ◌>>=◌
  Frame-pure a = record { same = λ s. refl; foreign = λ s. tt }

  pub Frame-raise : {A : Type 0} (e : Exc) → Foreign e → Frame (raise {A = A} e)
  unfolding ◌>>=◌
  Frame-raise e h = record { same = λ s. refl; foreign = λ s. h }

  pub Frame-lift : {A : Type 0} (r : Result A) → ForeignResult r → Frame (lift r)
  unfolding ◌>>=◌
  Frame-lift r h = record { same = λ s. refl; foreign = λ s. h }

  pub Frame-gets : {A : Type 0} (f : Client env.World → A) → Frame (gets f)
  unfolding ◌>>=◌
  Frame-gets f = record { same = λ s. refl; foreign = λ s. tt }

  pub Frame-outside : {A : Type 0} (f : env.World → A × env.World) → Frame (outside f)
  unfolding outside
  Frame-outside f = record { same = λ s. refl; foreign = λ s. tt }

  pub outcome-foreign : {A : Type 0} (c : Call A) → ForeignResult (outcome c)
  outcome-foreign (returned a) = tt
  outcome-foreign (raised m) = refl

  pub Frame-outside_try : {A : Type 0} (f : env.World → Call A × env.World) → Frame (outside_try f)
  unfolding outside_try
  Frame-outside_try f = record { same = λ s. refl; foreign = λ s. outcome-foreign (f s.world).0 }

  pub Frame-if :
      {A : Type 0} (b : Bool) {m n : App A} → Frame m → Frame n → Frame (if b then m else n)
  Frame-if true hm hn = hm
  Frame-if false hm hn = hn

  module _ {A B : Type 0} where
    Frame-continue_same :
        (r : Result A) (f : A → App B) (s : Client env.World)
        → ((a : A) → Frame (f a))
        → (continue r f s).1.cfg ≡ s.cfg
    Frame-continue_same (ok a) f s h = (h a).same s
    Frame-continue_same (err e) f s h = refl

    Frame-continue_foreign :
        (r : Result A) (f : A → App B) (s : Client env.World)
        → ForeignResult r
        → ((a : A) → Frame (f a))
        → ForeignResult (continue r f s).0
    Frame-continue_foreign (ok a) f s k h = (h a).foreign s
    Frame-continue_foreign (err e) f s k h = k

    pub Frame-bind :
        {m : App A} {f : A → App B} → Frame m → ((a : A) → Frame (f a)) → Frame (m >>= f)
    unfolding ◌>>=◌
    Frame-bind {m} {f} hm hf = record {
      same = λ s. Frame-continue_same (m s).0 f (m s).1 hf ∙ hm.same s;
      foreign = λ s. Frame-continue_foreign (m s).0 f (m s).1 (hm.foreign s) hf;
    }

    -- `try: m` with the handler `f`
    pub Frame-try :
        {m : App A} {f : Result A → App B}
        → Frame m
        → ((r : Result A) → ForeignResult r → Frame (f r))
        → Frame (attempt m >>= f)
    unfolding ◌>>=◌
    Frame-try {m} {f} hm hf = record {
      same = λ s. (hf (m s).0 (hm.foreign s)).same (m s).1 ∙ hm.same s;
      foreign = λ s. (hf (m s).0 (hm.foreign s)).foreign (m s).1;
    }

  pub Frame-for_each :
      {A : Type 0} (xs : List A) {body : A → App Unit}
      → ((x : A) → Frame (body x))
      → Frame (for_each xs body)
  unfolding for_each
  Frame-for_each [] h = Frame-pure tt
  Frame-for_each (x ∷ xs) h = Frame-bind (h x) (λ _. Frame-for_each xs h)

  pub Frame-read : Frame read
  unfolding read
  Frame-read = Frame-gets (λ s. s.cfg)

  pub Frame-record :
      (f : Client env.World → Client env.World)
      → ((s : Client env.World) → (f s).cfg ≡ s.cfg)
      → Frame (modify f)
  unfolding ◌>>=◌
  Frame-record f h = record { same = h; foreign = λ s. tt }

  pub Frame-log_event : (text : String) → Frame (log_event text)
  unfolding log_event
  Frame-log_event text = Frame-bind (Frame-outside env.utcnow) (λ now. Frame-record _ (λ s. refl))

  -- What such code keeps of the configuration, as a triple.
  pub Frame→Triple :
      {A : Type 0} {m : App A} (C : Config → Type 0)
      → Frame m
      → Triple (λ s. C s.cfg) m (λ _ s. C s.cfg) (λ e s. C s.cfg × Foreign e)
  Frame→Triple {A} {m} C h = record {
    at = λ s c. go (m s).0 (m s).1 (h.foreign s) (subst C (sym (h.same s)) c);
  }
    where
      go :
          (r : Result A) (s : Client env.World)
          → ForeignResult r
          → C s.cfg
          → Outcome (λ _ s. C s.cfg) (λ e s. C s.cfg × Foreign e) r s
      go (ok a) s k c = c
      go (err e) s k c = (c, k)

  pub ruleset frame_rules = (
    Frame-pure, Frame-lift, Frame-gets, Frame-outside, Frame-outside_try, Frame-if, Frame-bind,
    Frame-for_each, Frame-read, Frame-log_event,
  )

  -- Under `try` such code raises nothing at all.
  pub attempt-Triple :
      {A : Type 0} {m : App A} {E : Exc → Client env.World → Type 0} (C : Config → Type 0)
      → Frame m
      → Triple (λ s. C s.cfg) (attempt m) (λ _ s. C s.cfg) E
  unfolding ◌>>=◌
  attempt-Triple C h = record { at = λ s c. subst C (sym (h.same s)) c }
