-- ===== src/Supervisor/Loop.antt =====
-- What the event loop hands to the supervisor (src/supervisor/supervisor.c): requests of clients,
-- devices that connect, stations that come and go, and the timer of the ticket, one after another.
pub mod Safety
use edgesec.Common.{ℕ, Option, none, some, List, [], ◌∷◌, Mac}
use edgesec.Supervisor.MacMapper.{ApConnectionStatus}
use edgesec.Supervisor.Context.{Context, Env, M, Run, ClientAddress, ◌>>=◌, ◌>>◌, pure}
use edgesec.Supervisor.Network.{eloop_ticket_timeout_handler}
use edgesec.Supervisor.Access.{get_mac_conn_cmd}
use edgesec.Supervisor.System.{ap_service_callback}
use edgesec.Supervisor.Requests.{process_received_data}

pub data Input : Type 0 where
  request : ClientAddress → List ℕ → Input
  connection : Mac → Input
  station : Mac → ApConnectionStatus → Input
  ticket_timeout : Input

-- eloop_read_domain_handler and eloop_read_udp_handler only log a failure, and so do the others.
unfoldable pub handle : Env → Input → M (Unit {0})
handle env (Input.request addr received) = process_received_data env addr received
handle env (Input.connection mac) = get_mac_conn_cmd env (some mac) >> pure tt
handle env (Input.station mac status) = ap_service_callback env mac status >> pure tt
handle env Input.ticket_timeout = eloop_ticket_timeout_handler

-- The state after the inputs; `none`, if there is a memory fault on the way.
unfoldable pub serve_rest : (Context → Option Context) → Run (Unit {0}) → Option Context
serve_rest next (Run.done a d) = next d
serve_rest next (Run.failed d) = next d
serve_rest next Run.fault = none

unfoldable pub serve : Env → List Input → Context → Option Context
unfolding serve_rest handle
serve env [] c = some c
serve env (i ∷ is) c = serve_rest (serve env is) (handle env i c)
