-- ===== src/Supervisor/Replies.antt =====
-- src/supervisor/cmd_processor.c: how the handlers answer a client, and what they share in reading a
-- request. A result is that of write_socket_data: it `fail`s where that returns -1.
use edgesec.Common.{if◌then◌else◌, none, some, List, [], ◌∷◌, ◌++◌, CString, codes, Mac, ℤ}
use edgesec.Utils.Net.{hwaddr_aton2}
use edgesec.Utils.Strings.{string_append_char}
use edgesec.Supervisor.Context.{Env, Call, M, ClientAddress, ◌>>=◌, succeeds?, call, must}
use edgesec.Supervisor.Texts.{read_vlanid}

abbrev pub ok_reply : CString
ok_reply = codes "OK" ++ 10 ∷ []

abbrev pub fail_reply : CString
fail_reply = codes "FAIL" ++ 10 ∷ []

abbrev pub Handler : Type 0
Handler = Env → ClientAddress → List CString → M (Unit {0})

module _ (env : Env) (addr : ClientAddress) where
  unfoldable pub reply : CString → M (Unit {0})
  reply text = must env (Call.write_socket_data addr text)

  -- OK if the command returned 0 (or more), FAIL if it returned -1.
  unfoldable pub answer : M (Unit {0}) → M (Unit {0})
  unfolding reply
  answer cmd = do ok ← succeeds? cmd; if ok then reply ok_reply else reply fail_reply

  unfoldable pub write_newline_socket_data : CString → M (Unit {0})
  unfolding reply
  write_newline_socket_data data_text = do
    ok ← call env Call.os_malloc
    if ok then reply (string_append_char data_text 10) else reply fail_reply

  -- What a handler does with a word that is to be a MAC address.
  unfoldable pub with_mac : CString → (Mac → M (Unit {0})) → M (Unit {0})
  unfolding reply
  with_mac text f = elim (hwaddr_aton2 text) [ none ↦ reply fail_reply | some (mac, used) ↦ f mac ]

  unfoldable pub with_vlanid : CString → (ℤ → M (Unit {0})) → M (Unit {0})
  unfolding reply
  with_vlanid text f = elim (read_vlanid text) [ none ↦ reply fail_reply | some vlanid ↦ f vlanid ]

  -- The handlers that take one MAC address and run a command on it.
  unfoldable pub on_mac : (Mac → M (Unit {0})) → List CString → M (Unit {0})
  unfolding reply answer with_mac
  on_mac cmd_fn (cmd ∷ mac_text ∷ more) = with_mac mac_text λ mac. answer (cmd_fn mac)
  on_mac cmd_fn _ = reply fail_reply

  -- The second word of two MAC addresses.
  unfoldable pub second_mac : (Mac → Mac → M (Unit {0})) → Mac → List CString → M (Unit {0})
  unfolding reply answer with_mac
  second_mac cmd_fn left [] = reply fail_reply
  second_mac cmd_fn left (text ∷ more) = with_mac text λ right. answer (cmd_fn left right)
