-- ===== src/Supervisor/Network/Dangling.antt =====
-- The ticket of src/supervisor/network_commands.c after a failure of register_ticket_cmd.
use edgesec.Common.{◌<◌, ◌≡◌, refl, true, false, ◌∷◌, CString, length, leb, Mac, ℤ, arith}
use edgesec.Supervisor.Context.{
  Context, Env, Call, Run, TicketPtr, ◌>>=◌, ◌>>◌, bind_run, pure, fail, crash, get, modify,
  unless_fail, call,
}
use edgesec.Supervisor.Network.{
  free_ticket, free_ticket_at, eloop_ticket_timeout_handler, give_up_ticket, register_ticket,
  register_ticket_cmd, max_device_label_size, ticket_passphrase_size,
}

-- If no random bytes can be had, register_ticket_cmd fails and leaves a state from which the
-- handler of the ticket's timeout frees memory that has been freed.
pub register_ticket_cmd-dangling :
    (env : Env) (mac : Mac) (label : CString) (vlanid : ℤ) (c : Context)
    → c.ticket ≡ TicketPtr.null
    → length label < max_device_label_size
    → env.succeeds c.trace Call.os_malloc ≡ true
    → env.succeeds (Call.os_malloc ∷ c.trace) (Call.os_get_random ticket_passphrase_size) ≡ false
    → (d : Context) × (register_ticket_cmd env mac label vlanid c ≡ Run.failed d)
      × (eloop_ticket_timeout_handler d ≡ Run.fault)
unfolding register_ticket_cmd register_ticket give_up_ticket eloop_ticket_timeout_handler
    free_ticket free_ticket_at ◌>>=◌ ◌>>◌ bind_run call get modify fail crash unless_fail pure
register_ticket_cmd-dangling env mac label vlanid c t h m r = (
  record c {
    ticket = TicketPtr.dangling;
    trace = Call.os_get_random ticket_passphrase_size ∷ Call.os_malloc ∷ c.trace;
  },
  rw (t, short, m, r) refl,
  refl,
)
  where
    short : leb max_device_label_size (length label) ≡ false
    short = ground arith
