-- ===== src/Client/Backoff/Delay.antt =====
-- The pauses of the watchdog: how long they are, and that a tick respects them.
use native.Mathlib.Nat.{pow-suc}
use usbover_ip.Base.{
  ℕ, zero, suc, ◌+◌, ◌-◌, ◌*◌, ◌^◌, ◌≤◌, min, String, ◌≡◌, ◌≢◌, refl, ◌⊎◌, inl, inr, if◌then◌else◌,
  true, false, some, arith, ltb, leb, or_default, truthy_text, contains, Bool-cases, eq_refl,
}
use usbover_ip.Base.Dict.{lookup, lookup-insert}
use usbover_ip.Base.Exec.{ok, ◌>>=◌}
use usbover_ip.Outside.{Env, second}
use usbover_ip.Client.State.{
  Attachment, Server, Client, outside, read, update_attachments, log_event,
}
use usbover_ip.Client.Backoff.{
  bump_found, backoff_delay, force_rebind_after_failures, stamp, bump, count_only,
  count_and_back_off, note_reconnect_failure, still_ahead, watchdog_should_skip, is_busy_error,
  startup_rebind, maybe_force_rebind,
}
use usbover_ip.Client.Backoff.Records.{Has}

delay_step : (k : ℕ) → min (60 * 2 ^ suc k) 1800 ≡ min (2 * min (60 * 2 ^ k) 1800) 1800
delay_step k = rw pow-suc (omega arith)

-- From the third failure on: the pause is 60 seconds after the third, doubles with each further
-- failure up to 1800 seconds, and is never less than 60 nor more than 1800.
pub backoff_delay_lem :
    (count : ℕ)
    → 3 ≤ count
    → (backoff_delay 3 ≡ 60)
      × (backoff_delay (suc count) ≡ min (2 * backoff_delay count) 1800)
      × (60 ≤ backoff_delay count)
      × (backoff_delay count ≤ 1800)
unfolding backoff_delay
backoff_delay_lem count h =
    (refl, rw (shift count h) (delay_step (count - 3)), lower (count - 3), omega arith)
  where
    shift : (n : ℕ) → 3 ≤ n → suc n - 3 ≡ suc (n - 3)
    shift n h = omega arith

    lower : (k : ℕ) → 60 ≤ min (60 * 2 ^ k) 1800
    lower zero = omega arith
    lower (suc k) = rw delay_step (omega (arith, lower k))

module _ ⦃env : Env⦄ where
  -- What the clock's texts promise: a time that was printed is read back, and no text is empty.
  pub record IsoClock : Type 0 where
    pub read_back : (t : ℕ) → env.fromisoformat (env.rstrip_z (stamp t)) ≡ some t
    pub not_empty : (t : ℕ) → truthy_text (stamp t) ≡ true

  skip-stamp :
      IsoClock
      → (a : Attachment) (t : ℕ) (s : Client env.World) → a.next_retry_at ≡ some (stamp t)
      → (watchdog_should_skip a s).0 ≡ ok (ltb (env.utcnow s.world).0 t)
  unfolding watchdog_should_skip ◌>>=◌ outside still_ahead
  skip-stamp c a t s e = rw (e, watchdog_should_skip, c.not_empty t, c.read_back t)

  module _ (att_id : String) (att : Attachment) (s : Client env.World) where
    abbrev count : ℕ
    count = or_default att.failure_count 0 + 1

    abbrev failed_at : Client env.World
    failed_at = (note_reconnect_failure att_id s).1

    bump-eq : Has att_id att s.cfg → note_reconnect_failure att_id s ≡ bump att_id att s
    unfolding note_reconnect_failure bump_found read ◌>>=◌
    bump-eq h = rw (h, bump_found)

    -- When a failure is noted for an attachment on record, its record then counts it. From the
    -- third failure on the time of the next retry is the end of the pause; before that it is what
    -- it was.
    pub note_reconnect_failure-counts :
        Has att_id att s.cfg
        → (a : Attachment) × (lookup att_id (note_reconnect_failure att_id s).1.cfg.attachments
            ≡ some a)
          × (a.failure_count ≡ some count)
          × (a.next_retry_at ≡ (
              if leb 3 count
              then some (stamp ((env.utcnow s.world).0 + backoff_delay count * second))
              else att.next_retry_at))
    unfolding bump count_only count_and_back_off update_attachments log_event outside ◌>>=◌
    note_reconnect_failure-counts h = elim (Bool-cases (leb 3 count)) [
      | inl many ↦ (
        record att {
          failure_count = some count;
          next_retry_at = some (stamp ((env.utcnow s.world).0 + backoff_delay count * second));
        },
        rw (bump-eq h, many) (rw (lookup-insert, eq_refl)),
        refl,
        rw many refl,
      )
      | inr few ↦ (
        record att { failure_count = some count },
        rw (bump-eq h, few) (rw (lookup-insert, eq_refl)),
        refl,
        rw few refl,
      )
    ]

    -- Where the clock's texts can be read back: after the third failure of an attachment on record,
    -- and after each later one, the watchdog skips the record exactly until the pause is over.
    pub note_reconnect_failure-skip :
        Has att_id att s.cfg
        → IsoClock
        → 3 ≤ count
        → (later : Client env.World)
        → (a : Attachment) × (lookup att_id (note_reconnect_failure att_id s).1.cfg.attachments
            ≡ some a)
          × ((watchdog_should_skip a later).0
              ≡ ok (
                  ltb
                    (env.utcnow later.world).0
                    ((env.utcnow s.world).0 + backoff_delay count * second)))
    note_reconnect_failure-skip h c m later =
        let r = note_reconnect_failure-counts h in
        let many : leb 3 count ≡ true = ground arith in
        (r.0, r.1, skip-stamp c r.0 _ later (rw many at r.3))

  -- Without the flag nothing is requested and nothing changes. Nor with it, unless this is the
  -- sixth failure, or the error says that the device is busy and the startup request for this
  -- attachment has not been made.
  pub maybe_force_rebind-idle :
      (att : Attachment) (att_id : String) (server : Server) (busid : String) (failures : ℕ)
      (error : String) (s : Client env.World)
      → (or_default att.auto_rebind_on_backoff false ≡ false)
        ⊎ ((failures ≢ force_rebind_after_failures)
            × ((is_busy_error error ≡ false) ⊎ (contains s.rebind_requested att_id ≡ true)))
      → maybe_force_rebind att att_id server busid failures error s ≡ (ok tt, s)
  unfolding maybe_force_rebind startup_rebind ◌>>=◌
  maybe_force_rebind-idle att att_id server busid failures error s h = ground arith
