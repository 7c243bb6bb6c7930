-- ===== src/Supervisor/Subscribers/Order.antt =====
-- The comparison of src/supervisor/subscriber_events.c by which the array is sorted and searched.
use edgesec.Common.{◌≡◌, refl, false, arith}
use edgesec.Supervisor.Context.{ClientAddress, SocketType}
use edgesec.Supervisor.Subscribers.{
  Sign, same_type, compare_client_addresses, sort_subscribers_array,
}

-- Two clients of equal length and of different types stand each before the other: the comparison
-- is not an order, which bsearch and qsort want.
pub sort_subscribers_array-not_antisymmetric :
    (a b : ClientAddress)
    → a.len ≡ b.len
    → same_type a.type b.type ≡ false
    → (sort_subscribers_array a b ≡ Sign.negative) × (sort_subscribers_array b a ≡ Sign.negative)
unfolding sort_subscribers_array compare_client_addresses
sort_subscribers_array-not_antisymmetric a b e h = ground (arith, same_type_comm a.type b.type)
  where
    same_type_comm : (s t : SocketType) → same_type s t ≡ same_type t s
    same_type_comm SocketType.socket_type_none SocketType.socket_type_none = refl
    same_type_comm SocketType.socket_type_none SocketType.socket_type_domain =
        unfold same_type in refl
    same_type_comm SocketType.socket_type_none SocketType.socket_type_udp = unfold same_type in refl
    same_type_comm SocketType.socket_type_domain SocketType.socket_type_none =
        unfold same_type in refl
    same_type_comm SocketType.socket_type_domain SocketType.socket_type_domain = refl
    same_type_comm SocketType.socket_type_domain SocketType.socket_type_udp =
        unfold same_type in refl
    same_type_comm SocketType.socket_type_udp SocketType.socket_type_none = unfold same_type in refl
    same_type_comm SocketType.socket_type_udp SocketType.socket_type_domain =
        unfold same_type in refl
    same_type_comm SocketType.socket_type_udp SocketType.socket_type_udp = refl
