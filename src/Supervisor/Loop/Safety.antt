-- ===== src/Supervisor/Loop/Safety.antt =====
-- The supervisor survives any sequence of inputs: src/supervisor/supervisor.c.
use edgesec.Common.{◌≡◌, refl, Bool, true, false, Option, some, List, [], ◌∷◌, All, str_eq}
use edgesec.Supervisor.Context.{Context, Env, Run}
use edgesec.Supervisor.Context.Post.{Post, then-Keeps, pure-Keeps}
use edgesec.Supervisor.Save.Keeps.{Inv}
use edgesec.Supervisor.Network.{eloop_ticket_timeout_handler}
use edgesec.Supervisor.Network.Keeps.{free_ticket-Inv}
use edgesec.Supervisor.Network.Bridges.{Allocates}
use edgesec.Supervisor.Network.Tickets.{IssuesTickets}
use edgesec.Supervisor.Access.Keeps.{get_mac_conn_cmd-Inv}
use edgesec.Supervisor.System.Keeps.{ap_service_callback-Inv}
use edgesec.Supervisor.Requests.Safety.{ShortWords, words_of, first_word, get_map}
use edgesec.Supervisor.Requests.Dispatch.{process_received_data_safe}
use edgesec.Supervisor.Loop.{Input, handle, serve, serve_rest}

-- A request has short words, and does not ask for GET_MAP; any other input will do.
abbrev pub Admissible : Input → Type 0
Admissible (Input.request addr received) =
    ShortWords (words_of received) × (str_eq (first_word (words_of received)) get_map ≡ false)
Admissible (Input.connection mac) = Unit {0}
Admissible (Input.station mac status) = Unit {0}
Admissible Input.ticket_timeout = Unit {0}

module _ (env : Env) (a : Allocates env) (i : IssuesTickets env) where
  handle-Post :
      (input : Input) → Admissible input → (c : Context) → Inv c → Post Inv (handle env input c)
  unfolding handle eloop_ticket_timeout_handler
  handle-Post (Input.request addr received) h c v =
      process_received_data_safe env addr received c a i h.0 v (λ e. absurd (differ h.1 e))
    where
      differ : {b : Bool} → b ≡ false → b ≡ true → ⊥
      differ e f = cc
  handle-Post (Input.connection mac) h c v =
      (then-Keeps (get_mac_conn_cmd-Inv env mac) (pure-Keeps tt)).post c v
  handle-Post (Input.station mac status) h c v =
      (then-Keeps (ap_service_callback-Inv env mac status) (pure-Keeps tt)).post c v
  handle-Post Input.ticket_timeout h c v = free_ticket-Inv.post c v

  served :
      (next : Context → Option Context)
      → ((d : Context) → Inv d → (e : Context) × (next d ≡ some e) × Inv e)
      → (r : Run (Unit {0})) → Post Inv r
      → (d : Context) × (serve_rest next r ≡ some d) × Inv d
  unfolding serve_rest
  served next k (Run.done u d) w = k d w
  served next k (Run.failed d) w = k d w
  served next k Run.fault w = absurd w

  serve-keeps :
      (inputs : List Input)
      → All Admissible inputs
      → (c : Context) → Inv c
      → (d : Context) × (serve env inputs c ≡ some d) × Inv d
  unfolding serve
  serve-keeps [] h c v = (c, refl, v)
  serve-keeps (input ∷ inputs) h c v =
      served (serve env inputs) (serve-keeps inputs h.1) (handle env input c)
        (handle-Post input h.0 c v)

-- While memory, random bytes and timers can be had, the supervisor serves any sequence of requests,
-- connections, station events and ticket timeouts to its end with no memory fault, and the state
-- at the end has the invariant again. The words of a request are shorter than 22 bytes, and none
-- is GET_MAP.
pub serve-Inv :
    (env : Env) (inputs : List Input) (c : Context)
    → Allocates env
    → IssuesTickets env
    → All Admissible inputs
    → Inv c
    → (d : Context) × (serve env inputs c ≡ some d) × Inv d
serve-Inv env inputs c a i h v = serve-keeps env a i inputs h c v
