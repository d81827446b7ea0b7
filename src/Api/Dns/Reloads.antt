-- ===== src/Api/Dns/Reloads.antt =====
-- What a change of the name server's configuration leaves when the server cannot listen.
use cncache_hub.Prelude.{ℕ, ◌≡◌, refl, sym, subst, ap, ◌∙◌, Bool, true, false, some, ok}
use cncache_hub.Text.{codes, same}
use cncache_hub.Access.ClientIp.{Net}
use cncache_hub.Dns.Config.{Config}
use cncache_hub.Dns.Server.{Server, udp_listen_failed, start, stop, stats, reload}
use cncache_hub.Dns.Server.Queries.{IsStartable, stop_lem}
use cncache_hub.Storage.DnsConfigs.{DnsConfig, DnsConfigPatch, patched_config, update_dns_config}
use cncache_hub.Api.Requests.{refuse, document, Caller, require_admin, decode_json_body}
use cncache_hub.Api.Dns.{
  dns_reply, dns_config_get, checked_config, server_config, ReloadFaults, reloaded_or, patch_config,
  dns_config_patch,
}

start_busy :
    (s : Server)
    → s.udp_srv ≡ false
    → IsStartable s.cfg
    → start true s ≡ (record s { udp_srv = false; tcp_srv = true }, some udp_listen_failed)
unfolding start
start_busy s u (e, l, a, v) = rw (e, l, a, v, u) refl

-- The server after a reload that could not listen.
abbrev busy_server : Bool → Bool → Server → Config → Server
busy_server a b s cfg = record (stop a b s).0 { cfg = cfg; udp_srv = false; tcp_srv = true }

reload_busy :
    (a b : Bool) (s : Server) (cfg : Config)
    → IsStartable cfg
    → reload a b true s cfg ≡ (busy_server a b s cfg, some udp_listen_failed)
unfolding reload
reload_busy a b s cfg h = start_busy (record (stop a b s).0 { cfg = cfg }) (stop_lem a b s).0 h

-- A patch of an administrator that passes the checks and makes a complete configuration, where the
-- port is taken: the answer is an error, but the row is changed and the old listener gone, and a
-- later GET says that the server is listening.
pub dns_config_patch_busy :
    (net : Net) (now : ℕ) (f : ReloadFaults) (s : Server) (cur : DnsConfig) (c : Caller)
    (p : DnsConfigPatch)
    → same c.role (codes "admin") ≡ true
    → checked_config net p ≡ ok p
    → f.listen ≡ true
    → IsStartable (server_config (patched_config now p cur))
    → let a = dns_config_patch net now f s (some cur) c (document p) in
      let new = patched_config now p cur in
      (a.0 ≡ some new)
      × (a.1.udp_srv ≡ false)
      × (a.2 ≡ refuse 500 (codes "dns_reload_failed"))
      × (dns_config_get a.1 a.0 c
          ≡ ok (record {
            status = 200;
            body = record { config = new; counts = stats a.1; listening = true };
          }))
unfolding dns_config_patch require_admin decode_json_body update_dns_config dns_config_get dns_reply
dns_config_patch_busy net now f s cur c p admin checked busy startable =
    let new = patched_config now p cur in
    let cfg = server_config new in
    let after = busy_server f.stop_udp f.stop_tcp s cfg in
    let run : dns_config_patch net now f s (some cur) c (document p)
        ≡ (some new, after, refuse 500 (codes "dns_reload_failed")) =
      rw admin (
        ap (patch_config now f s (some cur)) checked
        ∙ ap (λ b. reloaded_or new (reload f.stop_udp f.stop_tcp b s cfg)) busy
        ∙ ap (reloaded_or new) (reload_busy f.stop_udp f.stop_tcp s cfg startable)) in
    let listens : dns_config_get after (some new) c
        ≡ ok (record {
          status = 200;
          body = record { config = new; counts = stats after; listening = true };
        }) =
      rw admin (
        ap
          (λ b. ok (record {
            status = 200;
            body = record { config = new; counts = stats after; listening = b };
          }))
          startable.0) in
    (
      ap (λ x. x.0) run,
      ap (λ x. x.1.udp_srv) run,
      ap (λ x. x.2) run,
      subst
          (λ x.
            dns_config_get x.1 x.0 c
            ≡ ok (record {
              status = 200;
              body = record { config = new; counts = stats x.1; listening = true };
            }))
          (sym run) listens,
    )
