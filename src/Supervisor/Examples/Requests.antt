-- ===== src/Supervisor/Examples/Requests.antt =====
-- The theorems on the requests to the supervisor at concrete inputs.
use edgesec.Common.{◌≡◌, refl, ◌⊎◌, none, some, [], ◌∷◌, codes, Mac, mac_eq, ℤ, arith}
use edgesec.Utils.Net.{mac_str, colon_bytes}
use edgesec.Utils.Strings.{split_string_array, rtrim}
use edgesec.Supervisor.MacMapper.{MacConnInfo, hash_find}
use edgesec.Supervisor.Context.{Context, Run, TicketPtr}
use edgesec.Supervisor.Context.Post.{Post}
use edgesec.Supervisor.Context.Triple.{Outcome}
use edgesec.Supervisor.Save.Keeps.{Inv}
use edgesec.Supervisor.Network.{accept_mac_cmd, deny_mac_cmd}
use edgesec.Supervisor.Network.Deny.{LockedOut, deny_mac_cmd-LockedOut}
use edgesec.Supervisor.Network.Accept.{Unchanged, AcceptedOn, accept_mac_cmd_lem}
use edgesec.Supervisor.Access.{get_mac_conn_cmd, rejected}
use edgesec.Supervisor.Access.Denied.{get_mac_conn_cmd-denied}
use edgesec.Supervisor.Access.Keeps.{get_mac_conn_cmd_safe}
use edgesec.Supervisor.Requests.{c_string, process_received_data}
use edgesec.Supervisor.Requests.Dispatch.{process_received_data_safe}
use edgesec.Supervisor.Texts.{device_line}
use edgesec.Common.{ℤ, str_eq, mac_eq, List, ◌∷◌, []}
use edgesec.Supervisor.MacMapper.{ApConnectionStatus, hash_find}
use edgesec.Supervisor.Access.Ticket.{ByTicket, get_mac_conn_cmd-uses_ticket}
use edgesec.Supervisor.Network.{register_ticket_cmd, eloop_ticket_timeout_handler}
use edgesec.Supervisor.Network.Dangling.{register_ticket_cmd-dangling}
use edgesec.Supervisor.Loop.{Input, serve}
use edgesec.Supervisor.Loop.Safety.{serve-Inv}
use edgesec.Supervisor.Examples.Data.{
  ticket, closed_context, exhausted, camera, lamp, camera_info, table, env, wlan, context,
  context-Inv, client,
}

deny_mac_cmd-LockedOut_example :
    Outcome
      (λ _ d. LockedOut camera d)
      (λ d.
        ((hash_find camera table ≡ none)
          × ((m : Mac) → hash_find m d.mac_mapper ≡ hash_find m table))
        ⊎ LockedOut camera d)
      (deny_mac_cmd env camera context)
deny_mac_cmd-LockedOut_example = deny_mac_cmd-LockedOut env camera context context-Inv

accept_mac_cmd_lem_example :
    Outcome
      (λ _ d. AcceptedOn camera (ℤ.pos 5) context d)
      (λ d. Unchanged context d ⊎ AcceptedOn camera (ℤ.pos 5) context d)
      (accept_mac_cmd env camera (ℤ.pos 5) context)
accept_mac_cmd_lem_example = accept_mac_cmd_lem env camera (ℤ.pos 5) context

get_mac_conn_cmd-denied_example :
    (answer : MacConnInfo) × (c' : Context) × (get_mac_conn_cmd env (some camera) context
      ≡ Run.done answer c')
    × ((answer ≡ rejected camera_info) × (c'.mac_mapper ≡ table) × (c'.ticket ≡ TicketPtr.null))
unfolding hash_find mac_eq
get_mac_conn_cmd-denied_example =
    get_mac_conn_cmd-denied env camera context camera_info (wlan ∷ []) refl refl refl

get_mac_conn_cmd_safe_example : Post Inv (get_mac_conn_cmd env (some lamp) context)
get_mac_conn_cmd_safe_example = get_mac_conn_cmd_safe env lamp context context-Inv

process_received_data_safe_example :
    Post Inv (process_received_data env client (codes "DENY_MAC 02:00:00:00:00:11") context)
unfolding split_string_array rtrim c_string device_line mac_str colon_bytes
process_received_data_safe_example =
    process_received_data_safe env client (codes "DENY_MAC 02:00:00:00:00:11") context (λ t. refl)
      ((λ t n. refl), (λ t n. refl)) (omega arith, (omega arith, tt)) context-Inv
      (λ e. (omega arith, tt))

get_mac_conn_cmd-uses_ticket_example :
    (answer : MacConnInfo) × (d : Context) × (get_mac_conn_cmd env (some lamp) closed_context
      ≡ Run.done answer d)
    × (ByTicket ticket answer × (d.ticket ≡ TicketPtr.null))
unfolding hash_find mac_eq
get_mac_conn_cmd-uses_ticket_example =
    get_mac_conn_cmd-uses_ticket env lamp closed_context ticket (wlan ∷ []) refl refl (omega arith)
      refl refl

register_ticket_cmd-dangling_example :
    (d : Context) × (register_ticket_cmd exhausted lamp (codes "lamp") (ℤ.pos 5) context
      ≡ Run.failed d)
    × (eloop_ticket_timeout_handler d ≡ Run.fault)
register_ticket_cmd-dangling_example =
    register_ticket_cmd-dangling exhausted lamp (codes "lamp") (ℤ.pos 5) context refl (omega arith)
      refl refl

abbrev inputs : List Input
inputs =
    Input.request client (codes "DENY_MAC 02:00:00:00:00:11")
    ∷ Input.connection camera
    ∷ Input.station lamp ApConnectionStatus.ap_connected_status
    ∷ Input.ticket_timeout
    ∷ []

serve-Inv_example : (d : Context) × (serve env inputs context ≡ some d) × Inv d
unfolding split_string_array rtrim c_string str_eq
serve-Inv_example =
    serve-Inv env inputs context (λ t. refl) ((λ t n. refl), (λ t n. refl))
      (((omega arith, (omega arith, tt)), refl), (tt, (tt, (tt, tt)))) context-Inv
