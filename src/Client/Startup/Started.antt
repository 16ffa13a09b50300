-- ===== src/Client/Startup/Started.antt =====
-- What the start of the client promises, whatever fails in it.
use usbover_ip.Base.{
  ℕ, zero, suc, String, ◌≡◌, refl, Option, none, some, List, [], ◌∷◌, truthy_text,
}
use usbover_ip.Base.Dict.{Dict, insert}
use usbover_ip.Base.Exec.{
  Exec, Result, ok, err, wireguard_error, validation_error, pure, attempt, ◌>>=◌, ◌>>◌,
}
use usbover_ip.Base.Exec.Triple.{
  Keeps, Outcome, Triple-bind, Triple-pure, Triple-raise, Triple-if, Triple-weaken, Triple-attempt,
}
use usbover_ip.Outside.{Env}
use usbover_ip.Client.Files.{StableNode, from_record}
use usbover_ip.Client.State.{
  App, Attachment, Client, Config, Keys, Server, Tunnel, outside, on_machine,
}
use usbover_ip.Client.Usbip.{AttachedPort}
use usbover_ip.Client.Nodes.{
  live_port, node_key, node_placed, place_again, restore_node, restore_nodes,
  restore_persisted_nodes, update_node_for_port,
}
use usbover_ip.Client.Frame.{
  Frame, Frame→Triple, Frame-pure, Frame-bind, Frame-outside, Frame-outside_try, Frame-log_event,
  Frame-read,
}
use usbover_ip.Client.Frame.Calls.{list_ports-Frame}
use usbover_ip.Client.Frame.Nodes.{
  On, Triple-update, sync_tmpfiles_conf-Frame, update_node_for_port-Triple,
}
use usbover_ip.Client.Api.Attachments.{
  migrate_records, all_have_ids, migrate_attachments_to_id_keys,
}
use usbover_ip.Client.Tunnels.{Tools}
use usbover_ip.Client.Tunnels.Restored.{
  restore_tunnel, tunnel_restored, restore_server, restore_tunnels, ensure_wireguard_tunnels_up,
}
use usbover_ip.Client.Startup.{
  Task, watchdog_loop, Program, run_task, on_client, start_watchdog, on_startup, watchdog_turn,
  watchdog_turns,
}

-- The servers, the groups and the keys are those of `c`.
abbrev pub Fixed : Config → Config → Type 0
Fixed c d = (d.servers ≡ c.servers) × (d.groups ≡ c.groups) × (d.wireguard ≡ c.wireguard)

module _ ⦃env : Env⦄ (c : Config) where
  framed : {A : Type 0} {m : App A} → Frame m → Keeps (On (Fixed c)) m
  framed h = Triple-weaken (Frame→Triple (Fixed c) h) (λ s p. p) (λ a s p. p) (λ e s p. p.0)

  either :
      {A : Type 0} (r : Result A) (s : Client env.World)
      → Outcome (λ _. On (Fixed c)) (λ _. On (Fixed c)) r s
      → On (Fixed c) s
  either (ok a) s h = h
  either (err e) s h = h

  -- `try: m` with a handler, or with one that does nothing
  handled :
      {A B : Type 0} {m : App A} {f : Result A → App B}
      → Keeps (On (Fixed c)) m
      → ((r : Result A) → Keeps (On (Fixed c)) (f r))
      → Keeps (On (Fixed c)) (attempt m >>= f)
  handled km kf =
      Triple-bind (Triple-attempt km) λ r. Triple-weaken (kf r) (either r) (λ _ s h. h) (λ _ s h. h)

  migrate_records-Frame : (migrated d : Dict Attachment) → Frame (migrate_records migrated d)
  unfolding migrate_records
  migrate_records-Frame migrated [] = Frame-pure migrated
  migrate_records-Frame migrated ((key, att) ∷ d) = go (λ m. migrate_records-Frame m d) att.id
    where
      go :
          ((m : Dict Attachment) → Frame (migrate_records m d))
          → (o : Option String)
          → Frame (elim o [
            | some id ↦ migrate_records (insert key att migrated) d
            | none ↦ do
              new_id ← outside env.new_id
              migrate_records
                  (insert new_id (record att { id = some new_id; port = some key }) migrated)
                  d
          ])
      go more none = Frame-bind (Frame-outside _) (λ id. more _)
      go more (some id) = more _

  migrate-Fixed : Keeps (On (Fixed c)) migrate_attachments_to_id_keys
  unfolding migrate_attachments_to_id_keys
  migrate-Fixed = Triple-bind (framed Frame-read) λ cfg.
      Triple-bind (framed (migrate_records-Frame [] cfg.attachments)) λ migrated.
        Triple-if (all_have_ids cfg.attachments) (λ _. Triple-pure tt (λ s h. h))
          (λ _. Triple-update (Fixed c) (Fixed c) _ (λ d h. h))

  node_placed-Frame :
      (label : String) (node : StableNode) (o : Option String) → Frame (node_placed label node o)
  unfolding node_placed
  node_placed-Frame label node none = Frame-pure tt
  node_placed-Frame label node (some path) = Frame-log_event _

  place_again-Frame :
      (att_id : String) (att : Attachment) (o : Option StableNode)
      → Frame (place_again att_id att o)
  unfolding place_again
  place_again-Frame att_id att none = Frame-pure tt
  place_again-Frame att_id att (some node) =
      Frame-bind (Frame-outside_try _) (λ placed. node_placed-Frame _ node placed)

  restore_node-Fixed :
      (ports : List AttachedPort) (att_id : String) (att : Attachment)
      → Keeps (On (Fixed c)) (restore_node ports (att_id, att))
  unfolding restore_node
  restore_node-Fixed ports att_id att = go (live_port ports att)
    where
      go :
          (o : Option String)
          → Keeps (On (Fixed c)) (elim o [
            | none ↦ place_again att_id att (from_record att.stable_node)
            | some port ↦ do update_node_for_port (node_key att_id att) port att_id; pure tt
          ])
      go none = framed (place_again-Frame att_id att _)
      go (some port) =
          Triple-bind
            (Triple-weaken
              (update_node_for_port-Triple att_id {D = Fixed c} (λ cfg node h. h) _ port) (λ s h. h)
              (λ a s h. h) (λ e s h. h.0))
            (λ _. Triple-pure tt (λ s h. h))

  restore_nodes-Fixed :
      (ports : List AttachedPort) (d : Dict Attachment)
      → Keeps (On (Fixed c)) (restore_nodes ports d)
  unfolding restore_nodes
  restore_nodes-Fixed ports [] = Triple-pure tt (λ s h. h)
  restore_nodes-Fixed ports ((att_id, att) ∷ d) =
      handled (restore_node-Fixed ports att_id att) (λ r. restore_nodes-Fixed ports d)

  nodes-Fixed : Keeps (On (Fixed c)) restore_persisted_nodes
  unfolding restore_persisted_nodes
  nodes-Fixed = Triple-bind (framed Frame-read) λ cfg.
      Triple-bind (framed list_ports-Frame) λ ports.
        Triple-bind (restore_nodes-Fixed ports cfg.attachments)
          (λ _. framed sync_tmpfiles_conf-Frame)

  machine-Fixed : {A : Type 0} (m : Exec env.World A) → Keeps (On (Fixed c)) (on_machine m)
  unfolding on_machine
  machine-Fixed m = record { at = λ s h. go (m s.world).0 (record s { world = (m s.world).1 }) h }
    where
      go :
          {A : Type 0} (r : Result A) (s : Client env.World)
          → On (Fixed c) s
          → Outcome (λ _. On (Fixed c)) (λ _. On (Fixed c)) r s
      go (ok a) s h = h
      go (err e) s h = h

  module _ (tools : Tools) where
    restored-Fixed : (r : Result (Unit {0})) → Keeps (On (Fixed c)) (tunnel_restored tools r)
    unfolding tunnel_restored
    restored-Fixed (ok u) = Triple-pure u (λ s h. h)
    restored-Fixed (err (wireguard_error m)) = Triple-pure tt (λ s h. h)
    restored-Fixed (err (validation_error m)) = Triple-pure tt (λ s h. h)
    restored-Fixed (err e) = Triple-raise e (λ s h. h)

    restore_server-Fixed :
        (keys : Keys) (o : Option Tunnel) → Keeps (On (Fixed c)) (restore_server tools keys o)
    unfolding restore_server restore_tunnel
    restore_server-Fixed keys none = Triple-pure tt (λ s h. h)
    restore_server-Fixed keys (some t) =
        handled (Triple-bind (machine-Fixed _) (λ _. machine-Fixed _)) restored-Fixed

    restore_tunnels-Fixed :
        (keys : Keys) (servers : Dict Server)
        → Keeps (On (Fixed c)) (restore_tunnels tools keys servers)
    unfolding restore_tunnels
    restore_tunnels-Fixed keys [] = Triple-pure tt (λ s h. h)
    restore_tunnels-Fixed keys ((server_id, server) ∷ servers) =
        Triple-bind (restore_server-Fixed keys server.wireguard)
          (λ _. restore_tunnels-Fixed keys servers)

    tunnels-Fixed : Keeps (On (Fixed c)) (ensure_wireguard_tunnels_up tools)
    unfolding ensure_wireguard_tunnels_up
    tunnels-Fixed = Triple-bind (framed (Frame-outside _)) λ available.
        Triple-if available
          (λ _. Triple-bind (framed Frame-read) λ cfg.
            Triple-if (truthy_text cfg.wireguard.private_key)
              (λ _. restore_tunnels-Fixed cfg.wireguard cfg.servers)
              (λ _. Triple-pure tt (λ s h. h)))
          (λ _. Triple-pure tt (λ s h. h))

  ran :
      {m : App Unit}
      → Keeps (On (Fixed c)) m
      → (s : Client env.World) → On (Fixed c) s
      → On (Fixed c) (m s).1
  ran {m} k s h = either (m s).0 (m s).1 (k.at s h)

module _ ⦃env : Env⦄ where
  -- The watchdog's task is there, and the servers, the groups and the keys are those from before.
  pub record Started (p p' : Program) : Type 0 where
    pub task : p'.watchdog_task ≡ some watchdog_loop
    pub fixed : Fixed p.client.cfg p'.client.cfg

  -- No turn of the loop raises.
  run_task-returns : (task : Task) (n : ℕ) (s : Client env.World) → (run_task task n s).0 ≡ ok tt
  unfolding run_task watchdog_turns watchdog_turn outside ◌>>=◌
  run_task-returns watchdog_loop zero s = refl
  run_task-returns watchdog_loop (suc n) s = run_task-returns watchdog_loop n (watchdog_turn s).1

  -- Whatever the migration, the nodes and the tunnels raise, the start of the client returns with
  -- the task of the watchdog created, and with the servers, the groups and the keys as they were;
  -- and whatever the ticks raise, any number of turns of that task completes.
  pub on_startup-Started :
      (tools : Tools) (p : Program)
      → ((on_startup tools p).0 ≡ ok tt)
        × Started p (on_startup tools p).1
        × ((n : ℕ) → (run_task watchdog_loop n (on_startup tools p).1.client).0 ≡ ok tt)
  unfolding on_startup on_client start_watchdog ◌>>=◌
  on_startup-Started tools p =
      let c = p.client.cfg in
      let migrated = (migrate_attachments_to_id_keys p.client).1 in
      let placed = (restore_persisted_nodes migrated).1 in
      (
        refl,
        record {
          task = refl;
          fixed = ran c (tunnels-Fixed c tools) placed (
              ran c (nodes-Fixed c) migrated (ran c (migrate-Fixed c) p.client (refl, refl, refl)));
        },
        λ n. run_task-returns watchdog_loop n _,
      )
