-- ===== src/Supervisor/Subscribers.antt =====
-- src/supervisor/subscriber_events.c: the sorted array of the clients that are told of events.
pub mod Order
use edgesec.Common.{
  ℕ, zero, suc, ◌+◌, ◌/◌, ltb, ◌==◌, if◌then◌else◌, Bool, true, false, not, ◌&&◌, Option, none,
  some, is_some, List, [], ◌∷◌, ◌++◌, length, get_elem?, take,
}
use edgesec.Supervisor.Context.{
  Context, Env, Call, M, Event, ClientAddress, SocketType, ◌>>=◌, ◌>>◌, pure, crash, get, modify,
  unless_fail, call, must,
}

-- The sign of a comparison.
pub data Sign : Type 0 where
  negative zero_sign positive : Sign

-- memcmp of as many bytes as the lists have.
unfoldable pub memcmp : List ℕ → List ℕ → Sign
memcmp [] [] = Sign.zero_sign
memcmp [] (b ∷ t) = Sign.negative
memcmp (a ∷ s) [] = Sign.positive
memcmp (a ∷ s) (b ∷ t) =
    let rest = memcmp s t in
    if a == b then rest else if ltb a b then Sign.negative else Sign.positive

unfoldable pub same_type : SocketType → SocketType → Bool
same_type SocketType.socket_type_none SocketType.socket_type_none = true
same_type SocketType.socket_type_domain SocketType.socket_type_domain = true
same_type SocketType.socket_type_udp SocketType.socket_type_udp = true
same_type _ _ = false

unfoldable pub compare_client_addresses : ClientAddress → ClientAddress → Sign
compare_client_addresses a b =
    if not (same_type a.type b.type) then Sign.negative else elim a.type [
      | SocketType.socket_type_domain ↦ memcmp (take a.len a.sun_path) (take a.len b.sun_path)
      | SocketType.socket_type_udp ↦
          if not (a.sin_port == b.sin_port)
          then if ltb a.sin_port b.sin_port then Sign.negative else Sign.positive
          else memcmp a.sin_addr b.sin_addr
      | SocketType.socket_type_none ↦ Sign.negative
    ]

unfoldable pub sort_subscribers_array : ClientAddress → ClientAddress → Sign
sort_subscribers_array a b =
    if not (a.len == b.len)
    then if ltb a.len b.len then Sign.negative else Sign.positive
    else compare_client_addresses a b

-- A client that is found is not added again.
unfoldable pub add_subscriber : Env → ClientAddress → List ClientAddress → List ClientAddress
add_subscriber env addr ps =
    if is_some (env.utarray_find addr ps) then ps else env.utarray_sort (ps ++ addr ∷ [])

-- utarray_find and utarray_push_back follow the pointer to the array.
unfoldable pub add_events_subscriber : Env → ClientAddress → M (Unit {0})
add_events_subscriber env addr = do
  c ← get
  elim c.subscribers_array [
    | none ↦ crash
    | some ps ↦ modify (λ d. record d { subscribers_array = some (add_subscriber env addr ps) })
  ]

-- A client that cannot be reached is passed over.
unfoldable pub write_each : Env → Event → List ClientAddress → M (Unit {0})
write_each env ev [] = pure tt
write_each env ev (p ∷ ps) = do _ ← call env (Call.write_event p ev); write_each env ev ps

unfoldable pub send_to : Env → Event → Option (List ClientAddress) → M (Unit {0})
send_to env ev none = pure tt
send_to env ev (some ps) = do must env Call.os_malloc; write_each env ev ps

-- send_events, for the event that send_events_subscriber is told.
unfoldable pub send_events_subscriber : Env → Event → M (Unit {0})
send_events_subscriber env ev = do c ← get; send_to env ev c.subscribers_array
