-- ===== src/Dns/Reflector.antt =====
-- src/dns/reflection_list.c and src/dns/mdns_service.c: the interfaces that mDNS messages are
-- forwarded to. A dl_list is a list without its head; allocation succeeds.
pub mod Each
pub mod Forward
use edgesec.Common.{
  ℕ, ◌==◌, if◌then◌else◌, Bool, true, false, Option, none, some, List, [], ◌∷◌, ◌++◌, CString, ℤ,
  take, os_strlcpy,
}
use edgesec.Utils.IfaceMapper.{VlanConn, if_namesize}
use edgesec.Dns.MdnsMapper.{MdnsConn}

-- struct reflection_list: one element.
pub record ReflectionIf : Type 0 where
  pub recv_fd : ℤ
  pub send_fd : ℤ
  pub ifindex : ℕ
  pub ifname : CString

unfoldable pub setup_reflection_if_el : ℕ → Option CString → ReflectionIf
setup_reflection_if_el ifindex none = record {
  recv_fd = ℤ.negsuc 0;
  send_fd = ℤ.negsuc 0;
  ifindex = ifindex;
  ifname = [];
}
setup_reflection_if_el ifindex (some ifname) = record {
  recv_fd = ℤ.negsuc 0;
  send_fd = ℤ.negsuc 0;
  ifindex = ifindex;
  ifname = os_strlcpy ifname if_namesize;
}

-- -1, or NULL, is `none`.
unfoldable pub push_reflection_list :
    Option (List ReflectionIf) → ℕ → Option CString → Option (List ReflectionIf)
unfolding setup_reflection_if_el
push_reflection_list none ifindex ifname = none
push_reflection_list (some rif) ifindex ifname =
    some (rif ++ setup_reflection_if_el ifindex ifname ∷ [])

unfoldable pub pop_reflection_list : Option (List ReflectionIf) → Option ReflectionIf
pop_reflection_list none = none
pop_reflection_list (some []) = none
pop_reflection_list (some (el ∷ rif)) = some el

-- The loop takes the first element and frees it, until there is none.
unfoldable pub free_reflection_list : List ReflectionIf → List ReflectionIf
free_reflection_list [] = []
free_reflection_list (el ∷ rif) = free_reflection_list rif

-- struct mdns_context, as far as the functions modelled here use it.
pub record MdnsContext : Type 0 where
  pub rif4 : List ReflectionIf
  pub rif6 : List ReflectionIf
  pub imap : List MdnsConn
  pub command_mapper : List ℕ
  pub reflect_ip4 : Bool
  pub reflect_ip6 : Bool

-- The loop of init_reflections; `nametoindex` is if_nametoindex, which gives 0 for no interface.
unfoldable pub add_interfaces :
    (CString → ℕ)
    → List VlanConn
    → List ReflectionIf
    → List ReflectionIf
    → Option (List ReflectionIf × List ReflectionIf)
unfolding push_reflection_list
add_interfaces nametoindex [] rif6 rif4 = some (rif6, rif4)
add_interfaces nametoindex (current ∷ vlan_mapper) rif6 rif4 =
    let ifindex = nametoindex current.ifname in
    if ifindex == 0
    then none
    else elim (push_reflection_list (some rif6) ifindex (some current.ifname)) [
      | none ↦ none
      | some rif6' ↦ elim (push_reflection_list (some rif4) ifindex (some current.ifname)) [
        | none ↦ none
        | some rif4' ↦ add_interfaces nametoindex vlan_mapper rif6' rif4'
      ]
    ]

-- The two lists, of IP6 and of IP4.
unfoldable pub init_reflections :
    (CString → ℕ) → List VlanConn → Option (List ReflectionIf × List ReflectionIf)
unfolding add_interfaces
init_reflections nametoindex vlan_mapper = add_interfaces nametoindex vlan_mapper [] []

-- A call of sendto to the mDNS group: the socket, the scope of the IP6 address (0 for IP4), and
-- the bytes.
pub record Datagram : Type 0 where
  pub send_fd : ℤ
  pub scope_id : ℕ
  pub send_buf : List ℕ

-- What sendto returns: the length, or -1 with errno EWOULDBLOCK, EADDRNOTAVAIL or another.
pub data Sent : Type 0 where
  sent ewouldblock eaddrnotavail other_errno : Sent

-- `sendto` may depend on the datagrams before. A result is 0 or -1, and all datagrams so far.
abbrev pub Sendto : Type 0
Sendto = List Datagram → Datagram → Sent

unfoldable pub forward_reflector_if6 :
    Sendto → List ℕ → List ReflectionIf → List Datagram → Bool × List Datagram
forward_reflector_if6 sendto send_buf [] out = (true, out)
forward_reflector_if6 sendto send_buf (el ∷ rif) out =
    let datagram : Datagram = record {
      send_fd = el.send_fd;
      scope_id = el.ifindex;
      send_buf = send_buf;
    } in
    let next = forward_reflector_if6 sendto send_buf rif in
    elim (sendto out datagram) [
      | Sent.sent ↦ next (out ++ datagram ∷ [])
      | Sent.ewouldblock ↦ next out
      | Sent.eaddrnotavail ↦ next out
      | Sent.other_errno ↦ (false, out)
    ]

unfoldable pub forward_reflector_if4 :
    Sendto → List ℕ → List ReflectionIf → List Datagram → Bool × List Datagram
forward_reflector_if4 sendto send_buf [] out = (true, out)
forward_reflector_if4 sendto send_buf (el ∷ rif) out =
    let datagram : Datagram = record { send_fd = el.send_fd; scope_id = 0; send_buf = send_buf } in
    let next = forward_reflector_if4 sendto send_buf rif in
    elim (sendto out datagram) [
      | Sent.sent ↦ next (out ++ datagram ∷ [])
      | Sent.ewouldblock ↦ next out
      | Sent.eaddrnotavail ↦ (false, out)
      | Sent.other_errno ↦ (false, out)
    ]
