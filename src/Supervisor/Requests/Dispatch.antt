-- ===== src/Supervisor/Requests/Dispatch.antt =====
-- process_received_data of src/supervisor/supervisor.c: a request does not make the supervisor
-- touch memory that is not its own, and leaves the invariant.
use edgesec.Common.{ℕ, ◌≡◌, ◌≢◌, refl, true, Option, none, some, List, [], ◌∷◌, CString, str_eq}
use edgesec.Utils.Strings.{rtrim, split_string_array}
use edgesec.Utils.Strings.Split.{split_from-ne}
use edgesec.Supervisor.Context.{Env, Context, ClientAddress, ◌>>=◌, ◌>>◌}
use edgesec.Supervisor.Context.Post.{
  Post, KeepsWith, pure-Keeps, must-Keeps, bind-ending, pure-KeepsWith, fail-KeepsWith,
}
use edgesec.Supervisor.Context.Leads.{Leads, Keeps-Leads, then-Leads, bind-Leads}
use edgesec.Supervisor.Save.Keeps.{Inv}
use edgesec.Supervisor.Network.Bridges.{Allocates}
use edgesec.Supervisor.Network.Tickets.{IssuesTickets}
use edgesec.Supervisor.Requests.{
  c_string, process_domain_buffer, cmd_delimiter, get_command_function, commands, run_handler,
  run_args, process_received_data,
}
use edgesec.Supervisor.Replies.{Handler}
use edgesec.Supervisor.Requests.Safety.{
  LinesFit, ShortWords, words_of, first_word, get_map, Ready, Ready-trace, first_command-Safe,
  commands-AllSafe,
}

module _ (env : Env) (addr : ClientAddress) (a : Allocates env) (i : IssuesTickets env) where
  handled :
      (cmd : CString) (args : List CString) (o : Option Handler)
      → ShortWords args
      → get_command_function cmd ≡ o
      → Leads (Ready cmd) Inv (run_handler env addr args o)
  unfolding run_handler get_command_function
  handled cmd args none s e = Keeps-Leads (λ c r. r.0) (pure-Keeps tt)
  handled cmd args (some h) s e =
      (first_command-Safe env addr cmd commands h (commands-AllSafe env addr cmd a i) e).leads args
        s

  run_args-Leads :
      (words : List CString)
      → ShortWords words
      → words ≢ []
      → Leads (Ready (first_word words)) Inv (run_args env addr words)
  unfolding run_args
  run_args-Leads [] s n = absurd (n refl)
  run_args-Leads (cmd ∷ args) s n = handled cmd (cmd ∷ args) (get_command_function cmd) s refl

  words_case :
      (received : List ℕ)
      → ShortWords (words_of received)
      → KeepsWith
          (λ words. Leads (Ready (first_word (words_of received))) Inv (run_args env addr words))
          (Ready (first_word (words_of received)))
          (process_domain_buffer env received cmd_delimiter)
  unfolding process_domain_buffer split_string_array ◌>>=◌ ◌>>◌
  words_case [] s = fail-KeepsWith
  words_case (c ∷ received) s = bind-ending (must-Keeps (Ready-trace _) env _) λ _.
      pure-KeepsWith _ (
        run_args-Leads (words_of (c ∷ received)) s
          (split_from-ne cmd_delimiter [] (rtrim (c_string (c ∷ received)))))

  process_received_data-Leads :
      (received : List ℕ)
      → ShortWords (words_of received)
      → Leads (Ready (first_word (words_of received))) Inv (process_received_data env addr received)
  unfolding process_received_data
  process_received_data-Leads received s =
      then-Leads (λ c r. r.0) (must-Keeps (Ready-trace _) env _)
        (bind-Leads (λ c r. r.0) (words_case received s) λ words h. h)

-- While memory, random bytes and timers can be had, a request of any bytes, whose words are
-- shorter than 22 bytes, keeps the invariant of the supervisor and makes it touch no memory that
-- is not its own. For GET_MAP the line of no known device may be longer than 255 bytes. The
-- handler may fail in any other way that the outside brings about.
pub process_received_data_safe :
    (env : Env) (addr : ClientAddress) (received : List ℕ) (c : Context)
    → Allocates env
    → IssuesTickets env
    → ShortWords (words_of received)
    → Inv c
    → (str_eq (first_word (words_of received)) get_map ≡ true → LinesFit c)
    → Post Inv (process_received_data env addr received c)
process_received_data_safe env addr received c a i s v l =
    (process_received_data-Leads env addr a i received s).post c (v, l)
