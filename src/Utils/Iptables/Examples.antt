-- ===== src/Utils/Iptables/Examples.antt =====
-- The theorems on src/utils/iptables.c at a listing of two rules.
mod Kernel
use edgesec.Common.{
  ℕ, zero, suc, ◌+◌, ◌<◌, ◌^◌, ◌&&◌, ◌≡◌, refl, ◌⊎◌, Bool, true, false, Option, none, some, List,
  [], ◌∷◌, ◌++◌, CString, codes, ℤ, length, take, All, str_eq, if◌then◌else◌, arith,
}
use edgesec.Utils.Net.{find_slash, digits_value, validate_ipv4_string}
use edgesec.Utils.Strings.{split_string_array}
use edgesec.Utils.Strings.Split.{join, has_byte}
use edgesec.Utils.Iptables.{IptablesColumns, strtol, list_rule_cb, read_command_output}
use edgesec.Utils.Iptables.Listing.{Line, Listing, list_rule_cb-Listing, read_command_output-last}
use edgesec.Utils.Iptables.Commands.{
  Tool, Tables, list_filter, delete_filter, insert_filter, run_iptables, delete_bridge_rule,
  add_bridge_rule,
}
use edgesec.Utils.Iptables.Commands.Chain.{accepts, rejects, remove_at, remove_first}
use edgesec.Utils.Iptables.Commands.Bridges.{Listed, listed, FirstReject, add_bridge_rule-Listed}
use edgesec.Supervisor.Texts.{decimal}

abbrev pub camera_ip : CString
camera_ip = codes "10.0.1.7"

abbrev pub phone_ip : CString
phone_ip = codes "10.0.2.9"

abbrev pub bridge_rule : IptablesColumns
bridge_rule = record {
  num = ℤ.pos 0;
  target = codes "ACCEPT";
  in_if = codes "br1";
  out_if = codes "br2";
  source = camera_ip;
  destination = phone_ip;
}

abbrev pub base_rule : IptablesColumns
base_rule = record {
  num = ℤ.pos 0;
  target = codes "REJECT";
  in_if = codes "br1";
  out_if = codes "*";
  source = codes "0.0.0.0/0";
  destination = codes "0.0.0.0/0";
}

abbrev pub rules : List IptablesColumns
rules = bridge_rule ∷ base_rule ∷ []

abbrev pub bridge_line : CString
bridge_line =
    codes "1       10   840 ACCEPT     all  --  br1    br2     10.0.1.7             10.0.2.9"

abbrev base_line : CString
base_line =
    codes
      "2        0     0 REJECT     all  --  br1    *       0.0.0.0/0            0.0.0.0/0            reject-with icmp-port-unreachable"

abbrev text_lines : List CString
text_lines =
    codes "Chain FORWARD (policy ACCEPT)"
    ∷ codes "num   pkts bytes target"
    ∷ bridge_line
    ∷ base_line
    ∷ []
    ∷ []

abbrev pub text : CString
text = join 10 text_lines

pub bridge_line-Line : Line 1 bridge_rule bridge_line
unfolding split_string_array strtol digits_value
bridge_line-Line = record {
  numeral = codes "1";
  packets = codes "10";
  bytes = codes "840";
  protocol = codes "all";
  option = codes "--";
  more = [];
  layout = refl;
  value = refl;
  fits_target = omega arith;
  fits_in_if = omega arith;
  fits_out_if = omega arith;
  fits_source = omega arith;
  fits_destination = omega arith;
}

base_line-Line : Line 2 base_rule base_line
unfolding split_string_array strtol digits_value
base_line-Line = record {
  numeral = codes "2";
  packets = codes "0";
  bytes = codes "0";
  protocol = codes "all";
  option = codes "--";
  more = codes "reject-with" ∷ codes "icmp-port-unreachable" ∷ [];
  layout = refl;
  value = refl;
  fits_target = omega arith;
  fits_in_if = omega arith;
  fits_out_if = omega arith;
  fits_source = omega arith;
  fits_destination = omega arith;
}

pub text-Listing : Listing rules text
unfolding has_byte
text-Listing = record {
  title = codes "Chain FORWARD (policy ACCEPT)";
  heading = codes "num   pkts bytes target";
  lines = bridge_line ∷ base_line ∷ [];
  layout = refl;
  separated = (refl, (refl, (refl, (refl, (refl, tt)))));
  rows = (bridge_line-Line, omega arith, (base_line-Line, omega arith, tt));
}

list_rule_cb-Listing_example :
    list_rule_cb [] text
    ≡ record bridge_rule { num = ℤ.pos 1 } ∷ record base_rule { num = ℤ.pos 2 } ∷ []
list_rule_cb-Listing_example = list_rule_cb-Listing [] rules text text-Listing

read_command_output-last_example :
    read_command_output [] ((text ∷ []) ++ codes "0.0.0.0/0" ∷ [])
    ≡ list_rule_cb [] (codes "0.0.0.0/0")
read_command_output-last_example = read_command_output-last [] (text ∷ []) (codes "0.0.0.0/0")

-- The state is the commands so far.
abbrev tool : Tool (List (List CString))
tool = record {
  exec = λ argv w. ((true, text ∷ []), argv ∷ w);
  inet = record { pton = λ s. some 0; network = λ s. 0 };
}

abbrev start : Tables (List (List CString))
start = record { rule_list = []; exec_iptables = true; world = [] }

start-Listed : Listed tool start rules (list_filter ∷ [])
start-Listed = record {
  runs = refl;
  text = text;
  listing = text-Listing;
  printed = refl;
  some_rules = omega arith;
  few_rules = omega arith;
}

add_bridge_rule-Listed_example :
    (k : ℕ) × FirstReject (codes "br1") rules k
    × (add_bridge_rule tool camera_ip (codes "br1") phone_ip (codes "br2") start
        ≡ some (
            run_iptables tool false
              (insert_filter (decimal (1 + k)) camera_ip (codes "br1") phone_ip (codes "br2"))
              (listed tool rules (list_filter ∷ []))))
unfolding validate_ipv4_string find_slash
add_bridge_rule-Listed_example =
    add_bridge_rule-Listed tool camera_ip (codes "br1") phone_ip (codes "br2") start rules
      (list_filter ∷ []) start-Listed refl refl
