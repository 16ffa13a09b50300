-- ===== src/Lib.antt =====
-- USBOverIP shares USB devices of a server with clients over the network. Both programs are Python
-- web services around the `usbip` commands, with one JSON file of configuration each.
--
-- The client (client/app) keeps servers, groups of candidate devices and attachments. `attach_group`
-- of client/app/groups.py attaches the first candidate that is free; a watchdog, and a push from the
-- server, recover an attachment that dropped. The server (server/app) binds the devices that are
-- shared, follows them when their bus ids change, pushes to its clients, and gives them addresses of
-- a WireGuard tunnel. Both use common/ for validating texts, throttling logins and storing records.
--
-- The files, and the code that they are about:
--   Base             exceptions and state (Exec) with rules for what code keeps (Exec/Triple), dicts
--                    in their order of insertion (Dict), lists and Boolean tests
--   Outside          what the client uses and does not implement: commands, HTTP, clock, files
--   Validate         common/procutil.py; Cidr has its IPv4 networks, Shape what is accepted
--   Store            common/config_store.py; Laws is what its system calls promise, Cell the store as
--                    one cell
--   Web              common/webauth.py; Throttle/Window tells the throttle by a history of logins
--   Wireguard        common/wireguard_helper.py on a box of either program; Status is
--                    `interface_status`, Local what it keeps of the world
--   Web/Login        common/security.py and the forms of login, set-up and logout of both main.py
--   Client/State     client/app/config.py, the records and the event log
--   Client/Usbip     `attach`, `detach` and the lists of ports of client/app/usbip_client.py
--   Client/Files     the nodes in /dev of client/app/usbip_client.py: Paths is `resolve_device_paths`,
--                    Place `_place_node` and its callers, Tmpfiles `write_tmpfiles_conf`; Place/Posix
--                    is what the calls of `os` promise
--   Client/Proxmox   client/app/proxmox.py and its handlers of client/app/main.py
--   Client/Remote    client/app/remote_client.py
--   Client/Restart   `run_restart_actions` with client/app/docker_helper.py and systemd_helper.py
--   Client/Nodes     `update_node_for_port`, `sync_tmpfiles_conf` and `restore_persisted_nodes` of
--                    client/app/groups.py
--   Client/Backoff   `_note_reconnect_failure`, `_watchdog_should_skip`, `_maybe_force_rebind`
--   Client/Groups    `attach_group` and `detach_group`
--   Client/Restore   `_restore_dropped_attachment` and `_find_relocated_busid`
--   Client/Watchdog  `_watchdog_tick` and `reconnect_device`; Tick is about a whole tick
--   Client/Tunnels   the tunnels of the client in client/app/main.py and remote_client.py; Restored is
--                    `_ensure_wireguard_tunnels_up`, Wired has the server as a process in the
--                    client's world, Raising is the interface, Joined the two programs together
--   Client/Docker    client/app/docker_helper.py, its handlers, and `available` of systemd_helper.py
--   Client/Startup   `on_startup` of client/app/main.py and `watchdog_loop`
--   Client/Frame     code of the client that leaves the configuration alone, a lemma per function
--   Client/Api       the handlers of client/app/main.py on servers, groups and attachments; Views and
--                    ServerViews are those that only show
--   Server/State     server/app/config.py and events.py, and the world of the server
--   Server/Devices   server/app/usb_devices.py
--   Server/Rename, Server/Bound, Server/Notify
--                    `_ensure_shared_devices_bound` and `notify_clients_device_available` of
--                    server/app/main.py
--   Server/Share, Server/Clients, Server/Tunnel
--                    the handlers of server/app/main.py on devices, clients and the tunnel
--   Server/Supervisor
--                    server/app/usbipd_supervisor.py, its task as steps between awaits
--   Server/Host      the server's box; Firewall is server/app/firewall_helper.py with
--                    `api_wireguard_require`, Startup `_ensure_wireguard_up`
--   Server/Startup   `on_startup` of server/app/main.py and its `_watchdog_loop`
--   Server/Views     the handlers of server/app/main.py that show, and the name of the server
--   Server/Frame     code of the server that leaves the configuration alone
--   Examples         a small world for each program and a run per theorem
--
-- A function that reads or writes state is an action of `Exec`: from a state to a result and a
-- state, where what was written before an exception stays written. `config.store` is the field
-- `cfg` of the state. An exception is a value that keeps its Python class, and `other` stands for
-- the classes that the code nowhere names. A key that a record may lack is an `Option`. Code that
-- is not in the repository, the kernel included, is a field of `Env` and may answer anything;
-- numbers of seconds are counted in microseconds. Regular expressions on the output of commands are
-- fields of `Env` too, those of the validators are matchers.
--
-- The loops over lists and dicts recurse on them, and `attach` polls ten times as the source does,
-- so no fuel is needed. Host numbers and counts are unbounded, as integers of Python are.
--
-- Where a component stands on calls of the system whose order and failures matter, the record of
-- those calls is a parameter (`Env`, `Volume`, `Secrets`, `Lines`, `Host`, `Tools`, `Box`), and what
-- a theorem needs of them is a record of laws (`Posix`, `Laws`, `Bcrypt`, `Nft`, `Wired`, `Links`,
-- `Settled`) that it takes as a hypothesis; Examples has an instance of each.
--
-- Not modelled: what `await` lets run between two statements of a handler, but for the steps of the
-- supervisor and the set-up of the password; templates and scripts, which have no logic of their
-- own; `fetch_info`, which nothing calls. In the state of the two programs the store is its
-- document, without the file.
pub mod Base
pub mod Outside
pub mod Client
pub mod Validate
pub mod Server
pub mod Store
pub mod Web
pub mod Wireguard
mod Examples
