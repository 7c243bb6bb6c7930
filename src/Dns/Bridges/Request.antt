-- ===== src/Dns/Bridges/Request.antt =====
-- The request for a bridge as the supervisor reads it: create_domain_command of
-- src/dns/mdns_service.c with process_received_data of src/supervisor/supervisor.c.
use edgesec.Common.{
  ℕ, ◌≡◌, ◌≢◌, refl, sym, ap, ◌∙◌, false, some, List, [], ◌∷◌, ◌++◌, CString, str_eq, arith,
}
use mathlib.Core.List.{append_assoc, append-nil}
use edgesec.Utils.Strings.Trim.{has_blank, rtrim-append}
use edgesec.Utils.StringQueue.{push_string_queue, init_string_queue, is_over}
use edgesec.Utils.StringQueue.Order.{concat_string_queue-joined}
use edgesec.Utils.Strings.{rtrim, split_string_array}
use edgesec.Utils.Strings.Split.{join, has_byte, has_byte-append, split_string_array-join}
use edgesec.Supervisor.Context.{
  Env, Call, Context, Run, M, ClientAddress, bind_run, ◌>>=◌, ◌>>◌, must, pure,
}
use edgesec.Supervisor.Processor.{process_add_bridge_cmd}
use edgesec.Supervisor.Requests.{
  c_string, process_domain_buffer, cmd_delimiter, first_command, get_command_function, run_handler,
  run_args, process_received_data,
}
use edgesec.Dns.Bridges.{cmd_add_bridge, delim_str, create_domain_command}

pub create_domain_command-join :
    (src dst : CString)
    → create_domain_command src dst ≡ some (join cmd_delimiter (cmd_add_bridge ∷ src ∷ dst ∷ []))
unfolding create_domain_command init_string_queue push_string_queue is_over join
create_domain_command-join src dst =
    concat_string_queue-joined (cmd_add_bridge ∷ delim_str ∷ src ∷ delim_str ∷ dst ∷ [])
    ∙ ap (λ t. some (cmd_add_bridge ++ 32 ∷ (src ++ 32 ∷ t))) (append-nil dst)

-- A text without NUL and without white space.
abbrev pub IsWord : CString → Type 0
IsWord s = (has_byte 0 s ≡ false) × (has_blank s ≡ false) × (s ≢ [])

blank-space : (s : CString) → has_blank s ≡ false → has_byte cmd_delimiter s ≡ false
unfolding has_blank has_byte
blank-space [] h = refl
blank-space (c ∷ s) h = ground (arith, blank-space s)

c_string-text : (s : List ℕ) → has_byte 0 s ≡ false → c_string s ≡ s
unfolding c_string has_byte
c_string-text [] h = refl
c_string-text (c ∷ s) h = ground (arith, c_string-text s)

-- The text of the request, as it is received.
abbrev pub request_text : CString → CString → List ℕ
request_text src dst = cmd_add_bridge ++ 32 ∷ (src ++ 32 ∷ dst)

abbrev pub request_words : CString → CString → List CString
request_words src dst = cmd_add_bridge ∷ src ∷ dst ∷ []

text-no_nul :
    (src dst : CString) → IsWord src → IsWord dst → has_byte 0 (request_text src dst) ≡ false
unfolding has_byte
text-no_nul src dst ws wd = ground (arith, has_byte-append 0 src (32 ∷ dst), ws.0, wd.0)

words-of :
    (src dst : CString)
    → IsWord src
    → IsWord dst
    → split_string_array (rtrim (c_string (request_text src dst))) cmd_delimiter
      ≡ request_words src dst
unfolding join has_byte
words-of src dst ws wd =
    ap (λ t. split_string_array (rtrim t) cmd_delimiter)
      (c_string-text (request_text src dst) (text-no_nul src dst ws wd))
    ∙ ap (λ t. split_string_array t cmd_delimiter) trimmed
    ∙ split_string_array-join cmd_add_bridge (src ∷ dst ∷ []) cmd_delimiter
        (refl, (blank-space src ws.1, (blank-space dst wd.1, tt)))
  where
    ends : request_text src dst ≡ (cmd_add_bridge ++ 32 ∷ (src ++ 32 ∷ [])) ++ dst
    ends = ap (λ t. cmd_add_bridge ++ 32 ∷ t) (sym (append_assoc src (32 ∷ []) dst))

    trimmed : rtrim (request_text src dst) ≡ request_text src dst
    trimmed =
        ap rtrim ends
        ∙ rtrim-append (cmd_add_bridge ++ 32 ∷ (src ++ 32 ∷ [])) dst wd.2 wd.1
        ∙ sym ends

bind_run_assoc :
    {A B C : Type 0} (r : Run A) (f : A → M B) (g : B → M C)
    → bind_run (bind_run r f) g ≡ bind_run r (λ a c. bind_run (f a c) g)
unfolding bind_run
bind_run_assoc (Run.done a c) f g = refl
bind_run_assoc (Run.failed c) f g = refl
bind_run_assoc Run.fault f g = refl

bind_run-cong :
    {A B : Type 0} (r : Run A) (f g : A → M B)
    → ((a : A) (c : Context) → f a c ≡ g a c)
    → bind_run r f ≡ bind_run r g
unfolding bind_run
bind_run-cong (Run.done a c) f g h = h a c
bind_run-cong (Run.failed c) f g h = refl
bind_run-cong Run.fault f g h = refl

handler-of :
    (env : Env) (addr : ClientAddress) (src dst : CString) (c : Context)
    → run_args env addr (request_words src dst) c
      ≡ process_add_bridge_cmd env addr (request_words src dst) c
unfolding run_args run_handler get_command_function first_command str_eq
handler-of env addr src dst c = refl

-- The request is read into its words, and these are given to the handler.
received :
    (env : Env) (addr : ClientAddress) (src dst : CString) (c : Context)
    → IsWord src
    → IsWord dst
    → process_received_data env addr (request_text src dst) c
      ≡ (do
        must env Call.os_malloc
        must env Call.os_malloc
        process_add_bridge_cmd env addr (request_words src dst))
          c
unfolding process_received_data process_domain_buffer ◌>>=◌ ◌>>◌ pure bind_run
received env addr src dst c ws wd = bind_run-cong (must env Call.os_malloc c) _ _ λ _ c'.
    bind_run_assoc (must env Call.os_malloc c') _ (run_args env addr)
    ∙ bind_run-cong (must env Call.os_malloc c') _ _ λ _ c''.
      ap (λ ws. run_args env addr ws c'') (words-of src dst ws wd) ∙ handler-of env addr src dst c''

-- The text that create_domain_command writes for two addresses (words without white space) makes
-- the supervisor, once it has the memory for its copies, run the handler of ADD_BRIDGE on just
-- these two addresses.
pub process_received_data-create_domain_command :
    (env : Env) (addr : ClientAddress) (src dst : CString) (text : CString) (c : Context)
    → IsWord src
    → IsWord dst
    → create_domain_command src dst ≡ some text
    → process_received_data env addr text c
      ≡ (do
        must env Call.os_malloc
        must env Call.os_malloc
        process_add_bridge_cmd env addr (request_words src dst))
          c
unfolding join
process_received_data-create_domain_command env addr src dst text c ws wd made =
    let is_text : text ≡ request_text src dst = cc (made, create_domain_command-join src dst) in
    rw is_text (received env addr src dst c ws wd)
