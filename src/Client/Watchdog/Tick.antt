-- ===== src/Client/Watchdog/Tick.antt =====
-- A whole tick of the watchdog, which works on the attachments as it has read them once.
use usbover_ip.Client.Restore.Outcomes.{restore-Unique}
use usbover_ip.Client.Groups.Members.{Unique}
use usbover_ip.Client.Frame.Calls.{live_port_map-Frame}
use usbover_ip.Client.Usbip.{live_port_map}
use mathlib.Core.Bool.{false≢true}
use mathlib.Core.Option.{some-injective}
use usbover_ip.Base.{
  String, ◌≡◌, ◌≢◌, false, Option, some, [], ◌∷◌, arith, eq_iff, ◌∙◌, sym, ap, subst, refl, inl,
  inr, Bool-cases, eq_refl, ◌==◌, true,
}
use usbover_ip.Base.Dict.{Dict, DistinctKeys, lookup}
use usbover_ip.Base.Exec.{Result, ok, err, for_each, ◌>>=◌, continue, ok-injective}
use usbover_ip.Base.Exec.Triple.{Triple, Outcome}
use usbover_ip.Outside.{Env}
use usbover_ip.Client.State.{Attachment, Config, Client, read}
use usbover_ip.Client.Frame.Nodes.{On}
use usbover_ip.Client.Backoff.Records.{Has}
use usbover_ip.Client.Restore.{restore_dropped_attachment}
use usbover_ip.Client.Restore.Bystanders.{restore-Leaves}
use usbover_ip.Client.Watchdog.{is_live, watch_one, watchdog_tick}
use usbover_ip.Client.Watchdog.Entries.{watch_all-Triple, AllHas, FreshIds, always}

module _ ⦃env : Env⦄ where
  all_has :
      (d : Dict Attachment) (c : Config)
      → DistinctKeys d
      → ((k : String) (b : Attachment) → lookup k d ≡ some b → Has k b c)
      → AllHas d c
  unfolding lookup
  all_has [] c u h = tt
  all_has ((k, b) ∷ d) c u h =
      (h k b (rw eq_refl refl), all_has d c u.1 (λ j x e. h j x (rw (apart j x e) e)))
    where
      apart : (j : String) (x : Attachment) → lookup j d ≡ some x → (k == j) ≡ false
      apart j x e = ground (arith, eq_iff k j, u.0, e)

  fresh_key :
      (d : Dict Attachment) (k : String) (b : Attachment)
      → FreshIds d
      → lookup k d ≡ some b
      → (w : env.World) → (env.new_id w).0 ≢ k
  unfolding lookup
  fresh_key [] k b f h = cc
  fresh_key ((j, x) ∷ d) k b f h = elim (Bool-cases (j == k)) [
    | inl same ↦ λ w e. f.0 w (e ∙ sym ((eq_iff j k).0 same))
    | inr differ ↦ fresh_key d k b f.1 (rw differ at h)
  ]

  collapse :
      {A : Type 0} (X : Config → Type 0) (r : Result A) (t : Client env.World)
      → Outcome (λ _. On X) (λ _. On X) r t
      → X t.cfg
  collapse X (ok a) t h = h
  collapse X (err e) t h = h

  module _ (s : Client env.World) (fresh : FreshIds s.cfg.attachments)
      (distinct : DistinctKeys s.cfg.attachments) where
    tick_keeps :
        (X : Config → Type 0)
        → ((live : Dict (Option String))
            → (live_port_map s).0 ≡ ok live
            → (att_id : String) (att : Attachment) → is_live live att ≡ false
            → Triple
                (λ t. Has att_id att t.cfg × X t.cfg)
                (restore_dropped_attachment att_id att)
                (λ _. On X)
                (λ _. On X))
        → X s.cfg
        → X (watchdog_tick s).1.cfg
    unfolding watchdog_tick read ◌>>=◌
    tick_keeps X steps x = go (live_port_map s).0 refl
      where
        t : Client env.World
        t = (live_port_map s).1

        same : t.cfg ≡ s.cfg
        same = live_port_map-Frame.same s

        go :
            (r : Result (Dict (Option String)))
            → (live_port_map s).0 ≡ r
            → X (continue r (λ live. for_each s.cfg.attachments (watch_one live)) t).1.cfg
        go (err e) h = subst X (sym same) x
        go (ok live) h = collapse X (for_each s.cfg.attachments (watch_one live) t).0 _ (
            (watch_all-Triple live X (steps live h) s.cfg.attachments fresh distinct).at t (
              subst X (sym same) x,
              all_has s.cfg.attachments t.cfg distinct
                  (λ k b e. ap (λ (c : Config). lookup k c.attachments) same ∙ e),
            ))

    -- Where the keys of the attachments are distinct and no new id is one of them: if no group has
    -- two attachments, then none has after a tick of the watchdog, whether it returns or raises.
    pub watchdog_tick-Unique : Unique s.cfg → Unique (watchdog_tick s).1.cfg
    watchdog_tick-Unique = tick_keeps Unique λ live e att_id att dead. record {
      at = λ t h.
          always (On Unique) (restore_dropped_attachment att_id att t).0 _
            (restore-Unique att_id att t h.0 h.1);
    }

    -- Where the keys of the attachments are distinct and no new id is one of them: an attachment
    -- that sits on its port by the list of ports that the tick reads has the same record after the
    -- tick, whether it returns or raises and whatever happens to the others.
    pub watchdog_tick-live :
        (live : Dict (Option String)) (k : String) (b : Attachment)
        → (live_port_map s).0 ≡ ok live
        → is_live live b ≡ true
        → lookup k s.cfg.attachments ≡ some b
        → lookup k (watchdog_tick s).1.cfg.attachments ≡ some b
    watchdog_tick-live live k b e alive there =
        tick_keeps (Has k b)
          (λ live' e' att_id att dead. elim (Bool-cases (att_id == k)) [
            | inl same ↦ record {
              at = λ t h.
                  let ids : att_id ≡ k = (eq_iff att_id k).0 same in
                  let one : att ≡ b =
                    some-injective _ _ (sym h.0 ∙ ap (λ i. lookup i t.cfg.attachments) ids ∙ h.1) in
                  absurd (
                    false≢true (
                      sym dead
                      ∙ ap (λ l. is_live l att) (ok-injective (sym e' ∙ e))
                      ∙ ap (is_live live) one
                      ∙ alive));
            }
            | inr differ ↦
                restore-Leaves k b (fresh_key s.cfg.attachments k b fresh there) att_id att
                  (ground (arith, eq_iff att_id k, differ))
          ])
          there
