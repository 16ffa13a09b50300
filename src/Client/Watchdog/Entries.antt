-- ===== src/Client/Watchdog/Entries.antt =====
-- The entries of a tick of the watchdog, one after the other.
use usbover_ip.Base.{
  String, ◌≡◌, ◌≢◌, false, Option, none, some, [], ◌∷◌, arith, eq_iff, truthy, if◌then◌else◌,
}
use usbover_ip.Base.Dict.{Dict, DistinctKeys, lookup}
use usbover_ip.Base.Exec.{Result, ok, err, pure, for_each, ◌>>=◌}
use usbover_ip.Base.Exec.Triple.{
  Triple, Outcome, Triple-bind, Triple-pure, Triple-if, Triple-weaken, Triple-both,
}
use usbover_ip.Outside.{Env}
use usbover_ip.Client.State.{Attachment, Config, Client, outside}
use usbover_ip.Client.Frame.{Frame, Frame→Triple, frame_rules}
use usbover_ip.Client.Frame.Nodes.{On}
use usbover_ip.Client.Backoff.{watchdog_should_skip, still_ahead}
use usbover_ip.Client.Backoff.Records.{Has}
use usbover_ip.Client.Restore.{restore_dropped_attachment}
use usbover_ip.Client.Restore.Bystanders.{restore-Leaves}
use usbover_ip.Client.Watchdog.{is_live, watch_one}

-- All entries of the dict are on record.
abbrev pub AllHas : Dict Attachment → Config → Type 0
AllHas [] c = Unit
AllHas ((k, b) ∷ d) c = Has k b c × AllHas d c

module _ ⦃env : Env⦄ where
  -- No new id is a key of the dict.
  abbrev pub FreshIds : Dict Attachment → Type 0
  FreshIds [] = Unit
  FreshIds ((k, b) ∷ d) = ((w : env.World) → (env.new_id w).0 ≢ k) × FreshIds d

  pub always :
      {A : Type 0} (P : Client env.World → Type 0) (r : Result A) (t : Client env.World)
      → P t
      → Outcome (λ _. P) (λ _. P) r t
  always P (ok a) t p = p
  always P (err e) t p = p

  pub head_differs :
      (att_id k : String) (b : Attachment) (d : Dict Attachment)
      → lookup att_id ((k, b) ∷ d) ≡ none
      → att_id ≢ k
  unfolding lookup
  head_differs att_id k b d h e = ground (arith, h, eq_iff k att_id, e)

  pub tail_lacks :
      (att_id k : String) (b : Attachment) (d : Dict Attachment)
      → lookup att_id ((k, b) ∷ d) ≡ none
      → lookup att_id d ≡ none
  unfolding lookup
  tail_lacks att_id k b d h = ground (arith, h)

  -- The recovery of a record keeps the others.
  pub leaves_all :
      (att_id : String) (att : Attachment) (d : Dict Attachment)
      → FreshIds d
      → lookup att_id d ≡ none
      → Triple
          (λ s. Has att_id att s.cfg × AllHas d s.cfg)
          (restore_dropped_attachment att_id att)
          (λ _. On (AllHas d))
          (λ _. On (AllHas d))
  leaves_all att_id att [] f h = record {
    at = λ s p. always (On (AllHas [])) (restore_dropped_attachment att_id att s).0 _ tt;
  }
  leaves_all att_id att ((k, b) ∷ d) f h =
      Triple-weaken
        (Triple-both (restore-Leaves k b f.0 att_id att (head_differs att_id k b d h))
          (leaves_all att_id att d f.1 (tail_lacks att_id k b d h)))
        (λ s p. ((p.0, p.1.0), (p.0, p.1.1))) (λ _ s q. q) (λ _ s q. q)

  pub skip-Frame : (att : Attachment) → Frame (watchdog_should_skip att)
  unfolding watchdog_should_skip
  skip-Frame att = go att.next_retry_at
    where
      go :
          (o : Option String)
          → Frame (elim o [
            | none ↦ pure false
            | some text ↦
                if truthy (some text)
                then (do
                  now ← outside env.utcnow
                  pure (still_ahead (env.fromisoformat (env.rstrip_z text)) now))
                else pure false
          ])
      go none = search frame_rules
      go (some text) = search frame_rules

  -- A claim that each recovery of a record that is not live keeps.
  module _ (live : Dict (Option String)) (X : Config → Type 0)
      (steps : (att_id : String) (att : Attachment)
        → is_live live att ≡ false
        → Triple
            (λ s. Has att_id att s.cfg × X s.cfg)
            (restore_dropped_attachment att_id att)
            (λ _. On X)
            (λ _. On X)) where
    watch_one-Triple :
        (att_id : String) (att : Attachment) (d : Dict Attachment)
        → FreshIds d
        → lookup att_id d ≡ none
        → Triple
            (λ s. X s.cfg × Has att_id att s.cfg × AllHas d s.cfg)
            (watch_one live (att_id, att))
            (λ _ s. X s.cfg × AllHas d s.cfg)
            (λ _. On X)
    unfolding watch_one
    watch_one-Triple att_id att d f h =
        Triple-if (is_live live att) (λ _. Triple-pure tt (λ s p. (p.0, p.2)))
          λ dead.
            Triple-bind
              (Triple-weaken
                (Frame→Triple (λ c. X c × Has att_id att c × AllHas d c) (skip-Frame att))
                (λ s p. p) (λ _ s p. p) (λ e s p. p.0.0))
              λ skip.
                Triple-if skip (λ _. Triple-pure tt (λ s p. (p.0, p.2)))
                  λ _.
                    Triple-bind
                      (Triple-weaken
                        (Triple-both (steps att_id att dead) (leaves_all att_id att d f h))
                        (λ s p. ((p.1, p.0), (p.1, p.2))) (λ _ s q. q) (λ e s q. q.0))
                      (λ _. Triple-pure tt (λ s p. p))

    pub watch_all-Triple :
        (d : Dict Attachment)
        → FreshIds d
        → DistinctKeys d
        → Triple
            (λ s. X s.cfg × AllHas d s.cfg)
            (for_each d (watch_one live))
            (λ _. On X)
            (λ _. On X)
    unfolding for_each
    watch_all-Triple [] f u = Triple-pure tt (λ s p. p.0)
    watch_all-Triple ((k, b) ∷ d) f u =
        Triple-bind
          (Triple-weaken (watch_one-Triple k b d f.1 u.0) (λ s p. (p.0, p.1.0, p.1.1)) (λ _ s q. q)
            (λ _ s q. q))
          (λ _. watch_all-Triple d f.1 u.1)
