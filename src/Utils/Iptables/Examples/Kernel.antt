-- ===== src/Utils/Iptables/Examples/Kernel.antt =====
-- iptables_delete_bridge with a kernel that holds at most two rules.
use edgesec.Common.{
  ℕ, zero, suc, ◌+◌, ◌<◌, ◌^◌, ◌&&◌, ◌≡◌, refl, Bool, true, false, some, List, [], ◌∷◌, CString,
  codes, length, str_eq, if◌then◌else◌, arith,
}
use edgesec.Utils.Net.{digits_value}
use edgesec.Utils.Strings.{split_string_array}
use edgesec.Utils.Strings.Split.{join, has_byte}
use edgesec.Utils.Iptables.{IptablesColumns, strtol}
use edgesec.Utils.Iptables.Listing.{Line, Listing}
use edgesec.Utils.Iptables.Commands.{
  Tool, Tables, list_filter, delete_filter, iptables_delete_bridge,
}
use edgesec.Utils.Iptables.Commands.Chain.{accepts, remove_at, remove_first}
use edgesec.Utils.Iptables.Commands.Removal.{Removes, iptables_delete_bridge-removes}
use edgesec.Utils.Iptables.Examples.{
  camera_ip, phone_ip, bridge_rule, base_rule, rules, bridge_line, text, bridge_line-Line,
  text-Listing,
}
use edgesec.Supervisor.Texts.{decimal}

-- A kernel with one bridge rule and one base rule, each of which may be gone.
abbrev argv_eq : List CString → List CString → Bool
argv_eq [] [] = true
argv_eq [] (b ∷ bs) = false
argv_eq (a ∷ xs) [] = false
argv_eq (a ∷ xs) (b ∷ bs) = str_eq a b && argv_eq xs bs

abbrev chain : Bool × Bool → List IptablesColumns
chain (true, true) = rules
chain (true, false) = bridge_rule ∷ []
chain (false, true) = base_rule ∷ []
chain (false, false) = []

abbrev first_line : CString
first_line =
    codes
      "1        0     0 REJECT     all  --  br1    *       0.0.0.0/0            0.0.0.0/0            reject-with icmp-port-unreachable"

abbrev chain_text : Bool × Bool → CString
chain_text (true, true) = text
chain_text (true, false) = join 10 (codes "Chain FORWARD" ∷ codes "num" ∷ bridge_line ∷ [] ∷ [])
chain_text (false, true) = join 10 (codes "Chain FORWARD" ∷ codes "num" ∷ first_line ∷ [] ∷ [])
chain_text (false, false) = join 10 (codes "Chain FORWARD" ∷ codes "num" ∷ [] ∷ [])

abbrev delete_first : Bool × Bool → Bool × Bool
delete_first (true, b) = (false, b)
delete_first (false, b) = (false, false)

abbrev delete_second : Bool × Bool → Bool × Bool
delete_second (a, b) = (a, false)

abbrev kernel : Tool (Bool × Bool)
kernel = record {
  exec = λ argv w. if argv_eq argv list_filter then ((true, chain_text w ∷ []), w) else (
    (true, []),
    if argv_eq argv (delete_filter (codes "1"))
        then delete_first w
        else if argv_eq argv (delete_filter (codes "2"))
        then delete_second w
        else w,
  );
  inet = record { pton = λ s. some 0; network = λ s. 0 };
}

first_line-Line : Line 1 base_rule first_line
unfolding split_string_array strtol digits_value
first_line-Line = record {
  numeral = codes "1";
  packets = codes "0";
  bytes = codes "0";
  protocol = codes "all";
  option = codes "--";
  more = codes "reject-with" ∷ codes "icmp-port-unreachable" ∷ [];
  layout = refl;
  value = refl;
  fits_target = omega arith;
  fits_in_if = omega arith;
  fits_out_if = omega arith;
  fits_source = omega arith;
  fits_destination = omega arith;
}

kernel-Listing : (w : Bool × Bool) → 0 < length (chain w) → Listing (chain w) (chain_text w)
unfolding has_byte
kernel-Listing (true, true) h = text-Listing
kernel-Listing (true, false) h = record {
  title = codes "Chain FORWARD";
  heading = codes "num";
  lines = bridge_line ∷ [];
  layout = refl;
  separated = (refl, (refl, (refl, (refl, tt))));
  rows = (bridge_line-Line, omega arith, tt);
}
kernel-Listing (false, true) h = record {
  title = codes "Chain FORWARD";
  heading = codes "num";
  lines = first_line ∷ [];
  layout = refl;
  separated = (refl, (refl, (refl, (refl, tt))));
  rows = (first_line-Line, omega arith, tt);
}
kernel-Listing (false, false) h = absurd (omega arith)

few : (w : Bool × Bool) → suc (length (chain w)) < 10 ^ 9
few (true, true) = omega arith
few (true, false) = omega arith
few (false, true) = omega arith
few (false, false) = omega arith

kernel_deletes :
    (w : Bool × Bool) (k : ℕ)
    → k < length (chain w)
    → (w' : Bool × Bool) × (kernel.exec (delete_filter (decimal (1 + k))) w ≡ ((true, []), w'))
      × (chain w' ≡ remove_at k (chain w))
unfolding str_eq decimal
kernel_deletes (true, true) zero h = ((false, true), refl, refl)
kernel_deletes (true, true) (suc zero) h = ((true, false), refl, refl)
kernel_deletes (true, true) (suc (suc k)) h = absurd (omega arith)
kernel_deletes (true, false) zero h = ((false, false), refl, refl)
kernel_deletes (true, false) (suc k) h = absurd (omega arith)
kernel_deletes (false, true) zero h = ((false, false), refl, refl)
kernel_deletes (false, true) (suc k) h = absurd (omega arith)
kernel_deletes (false, false) k h = absurd (omega arith)

kernel-Removes : Removes kernel chain 2
unfolding str_eq
kernel-Removes = record {
  listing = λ t runs some_rules one_piece. record {
    runs = runs;
    text = chain_text t.world;
    listing = kernel-Listing t.world some_rules;
    printed = refl;
    some_rules = some_rules;
    few_rules = few t.world;
  };
  deleting = kernel_deletes;
}

abbrev at_boot : Tables (Bool × Bool)
at_boot = record { rule_list = []; exec_iptables = true; world = (true, true) }

iptables_delete_bridge-removes_example :
    (s' : Tables (Bool × Bool)) × (iptables_delete_bridge kernel camera_ip
        (codes "br1")
        phone_ip
        (codes "br2")
        at_boot
      ≡ some (true, s'))
    × (chain s'.world
        ≡ remove_first
            (accepts phone_ip (codes "br2") camera_ip (codes "br1"))
            (remove_first (accepts camera_ip (codes "br1") phone_ip (codes "br2")) rules))
iptables_delete_bridge-removes_example =
    iptables_delete_bridge-removes kernel chain 2 kernel-Removes camera_ip (codes "br1") phone_ip
      (codes "br2") at_boot refl (omega arith) (omega arith)
