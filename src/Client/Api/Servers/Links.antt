-- ===== src/Client/Api/Servers/Links.antt =====
-- Which servers the attachments name, and what an edit of a server keeps.
use usbover_ip.Base.{
  String, ◌≡◌, subst, false, some, [], ◌∷◌, arith, ◌==◌, eq_iff, Option, none, refl, eq_refl,
}
use usbover_ip.Base.Dict.{Dict, lookup, lookup-erase, lookup-insert}
use usbover_ip.Base.Exec.{Result, ok, err, ◌>>=◌, validation_error, ok-injective}
use usbover_ip.Base.Exec.Triple.{
  Outcome, Keeps, Triple, Triple-bind, Triple-raise, Triple-if, Triple-gets, Triple-lift,
  Triple-pure, Triple-weaken,
}
use usbover_ip.Outside.{Env}
use usbover_ip.Web.{Request, require_session_user, require_safe_ajax}
use usbover_ip.Client.State.{Attachment, Server, Config, Client, read, update}
use usbover_ip.Client.Api.Servers.{
  has_attachment, remove_server, guard_browser, api_delete_server, ServerBody, put_server,
  bad_request, update_found, edited_server, api_update_server,
}

-- Each attachment is from a server that is registered.
abbrev pub Linked : Config → Type 0
Linked cfg =
    (k : String) (a : Attachment)
    → lookup k cfg.attachments ≡ some a
    → (server : Server) × (lookup a.server_id cfg.servers ≡ some server)

not_attached :
    (id k : String) (a : Attachment) (d : Dict Attachment)
    → has_attachment id d ≡ false
    → lookup k d ≡ some a
    → (a.server_id == id) ≡ false
unfolding has_attachment lookup
not_attached id k a [] h e = cc
not_attached id k a ((i, b) ∷ d) h e = ground (arith, not_attached id k a d)

remove_server-Linked :
    (id : String) (cfg : Config)
    → has_attachment id cfg.attachments ≡ false
    → Linked cfg
    → Linked (remove_server id cfg)
unfolding remove_server
remove_server-Linked id cfg free linked k a e =
    let l = linked k a e in
    let differ = not_attached id k a cfg.attachments free e in
    (
      l.0,
      rw lookup-erase (ground (arith, l.1, differ, eq_iff id a.server_id, eq_iff a.server_id id)),
    )

module _ ⦃env : Env⦄ where
  guard-Keeps :
      {P : Client env.World → Type 0} (request : Request) → Keeps P (guard_browser request)
  unfolding guard_browser
  guard-Keeps request =
      Triple-bind (Triple-lift (require_session_user request))
        (λ _. Triple-lift (require_safe_ajax request))

  removal :
      (id : String) (cfg : Config)
      → has_attachment id cfg.attachments ≡ false
      → Triple
          (λ s. Linked s.cfg × (cfg ≡ s.cfg))
          (update (remove_server id))
          (λ _ s. Linked s.cfg)
          (λ _ s. Linked s.cfg)
  unfolding update ◌>>=◌
  removal id cfg free = record {
    at = λ s h.
        remove_server-Linked id s.cfg
          (subst (λ (x : Config). has_attachment id x.attachments ≡ false) h.1 free) h.0;
  }

  delete-Keeps :
      (request : Request) (id : String) → Keeps (λ s. Linked s.cfg) (api_delete_server request id)
  unfolding api_delete_server read
  delete-Keeps request id = Triple-bind (guard-Keeps request) λ _.
      Triple-bind (Triple-gets (λ s. s.cfg)) λ cfg.
        Triple-if (has_attachment id cfg.attachments) (λ used. Triple-raise _ (λ s h. h.0))
          (λ free. removal id cfg free)

  -- If each attachment is from a registered server, so it is after the request to delete a server,
  -- whether it deletes the server or is refused.
  pub api_delete_server-Linked :
      (request : Request) (id : String) (s : Client env.World)
      → Linked s.cfg
      → Linked (api_delete_server request id s).1.cfg
  api_delete_server-Linked request id s h =
      either (api_delete_server request id s).0 ((delete-Keeps request id).at s h)
    where
      either :
          (r : Result (Unit {0}))
          → Outcome (λ _ s. Linked s.cfg) (λ _ s. Linked s.cfg) r (api_delete_server request id s).1
          → Linked (api_delete_server request id s).1.cfg
      either (ok j) h = h
      either (err e) h = h

  bad_request-Keeps :
      {A : Type 0} {P : Client env.World → Type 0} (r : Result A) → Keeps P (bad_request r)
  unfolding bad_request
  bad_request-Keeps (ok a) = Triple-pure a (λ s h. h)
  bad_request-Keeps (err (validation_error m)) = Triple-raise _ (λ s h. h)
  bad_request-Keeps (err e) = Triple-raise e (λ s h. h)

  -- The server that is stored, which knows no tunnel.
  abbrev Stored : String → Server → Client env.World → Type 0
  Stored id server s = (lookup id s.cfg.servers ≡ some server) × (server.wireguard ≡ none)

  put-Stored :
      (id : String) (server : Server) {P E : Client env.World → Type 0}
      → server.wireguard ≡ none
      → Triple P (update (put_server id server)) (λ _. Stored id server) (λ _. E)
  unfolding update put_server ◌>>=◌
  put-Stored id server w = record { at = λ s h. (rw (lookup-insert, eq_refl), w) }

  update-Stored :
      (id : String) (body : ServerBody) (o : Option Server)
      → Triple (λ _. Unit) (update_found id body o) (Stored id) (λ _ _. Unit)
  unfolding update_found edited_server
  update-Stored id body none = Triple-raise _ (λ s h. h)
  update-Stored id body (some existing) = Triple-bind (bad_request-Keeps _) λ _.
      Triple-bind (bad_request-Keeps _) λ api_port. Triple-bind (bad_request-Keeps _) λ usbip_port.
        Triple-bind (put-Stored id (edited_server id existing body api_port usbip_port) refl)
          (λ _. Triple-pure _ (λ s h. h))

  -- When the edit of a server returns, the server that it answers is on record, and it has no
  -- tunnel, also if it had one before.
  pub api_update_server_lem :
      (request : Request) (id : String) (body : ServerBody) (server : Server) (s : Client env.World)
      → (api_update_server request id body s).0 ≡ ok server
      → (lookup id (api_update_server request id body s).1.cfg.servers ≡ some server)
        × (server.wireguard ≡ none)
  unfolding api_update_server read
  api_update_server_lem request id body server s returns =
      done (api_update_server request id body s).0 returns (edits.at s tt)
    where
      edits : Triple (λ _. Unit) (api_update_server request id body) (Stored id) (λ _ _. Unit)
      edits = Triple-bind (guard-Keeps request) λ _.
          Triple-bind
            (Triple-weaken (Triple-gets (λ s. s.cfg)) (λ s h. h) (λ a s h. h.0) (λ e s h. h))
            (λ cfg. update-Stored id body (lookup id cfg.servers))

      done :
          (r : Result Server)
          → r ≡ ok server
          → Outcome (Stored id) (λ _ _. Unit) r (api_update_server request id body s).1
          → Stored id server (api_update_server request id body s).1
      done (ok x) e h =
          subst (λ y. Stored id y (api_update_server request id body s).1) (ok-injective e) h
      done (err x) e h = cc
