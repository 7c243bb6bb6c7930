-- ===== src/Lib.antt =====
-- EDGESec's supervisor (src/supervisor), with its rules for iptables (src/utils/iptables.c) and its
-- crypt service (src/crypt), and its mDNS service (src/dns). The supervisor is the part of the router
-- that decides which devices may connect, on which VLAN, and which of them may talk to each other.
--
-- Clients send commands as lines of text to a socket (cmd_processor.c). The handlers call the
-- network and system commands (network_commands.c, system_commands.c), which change the table of
-- devices (mac_mapper.c) and the list of bridges (bridge_list.c), and tell the firewall
-- (firewall_service.c, which runs the commands of iptables.c), hostapd and the databases. For each
-- device that connects, the RADIUS server asks get_mac_conn_cmd (supervisor.c) for its password
-- and VLAN. Clients that subscribe are told of events (subscriber_events.c).
--
-- The mDNS service (src/dns) runs in a thread of its own. It forwards mDNS messages from each
-- interface to the others, and decodes them (mdns_decoder.c) to know which addresses have asked and
-- answered (mdns_mapper.c). When it captures a packet between two addresses of which one has
-- answered, it sends the supervisor the command that lets the two devices talk (mdns_service.c).
--
-- In the build with the crypt service, clients can also store values under names. They are kept
-- encrypted in a database (crypt_service.c, sqlite_crypt_writer.c) under one key, which is itself
-- kept there under a secret of the user or by a security module; some commands use a stored value as
-- a key (crypt_commands.c).
--
-- The files, and what they are about:
--   Common            shared types, tests, lists, C strings, MAC addresses and integers
--   Utils/Strings     src/utils/os.c: is_number, rtrim, split_string_array and others
--   Utils/Net         src/utils/net.c: addresses; inet_pton and inet_network are the record Inet
--   Utils/Hash        src/utils/hash.c: sdbm_hash and md_hash
--   Utils/StringQueue src/utils/squeue.c
--   Utils/HashMap     src/utils/hashmap.c
--   Utils/Iptables    src/utils/iptables.c; Listing is about the reading of listings, Commands has the
--                     commands, with Bridges, Removal and Chain about the rules they change
--                     where the listing comes in one piece of output
--   Utils/IfaceMapper src/utils/iface_mapper.c: the tables of subnets and VLANs
--   Supervisor/BridgeList   src/supervisor/bridge_list.c
--   Supervisor/MacMapper    src/supervisor/mac_mapper.c
--   Supervisor/Context      src/supervisor/supervisor_config.h: the state, and how functions run
--   Supervisor/Save         src/supervisor/supervisor_utils.c and src/firewall/firewall_service.c
--   Supervisor/Network      src/supervisor/network_commands.c
--   Supervisor/Access       src/supervisor/supervisor.c: get_mac_conn_cmd
--   Supervisor/Subscribers  src/supervisor/subscriber_events.c
--   Supervisor/System       src/supervisor/system_commands.c, and ap_service_callback
--   Supervisor/Texts        the numbers and lines in the protocol's texts
--   Supervisor/Replies, Processor, Requests   src/supervisor/cmd_processor.c: the answers, the
--                           handlers, and the dispatch with process_received_data
--   Supervisor/Loop         the event loop: any sequence of requests, connections, station events and
--                           timeouts
--   Crypt/Run               what the crypt service runs on: OpenSSL, base64, sqlite; Works says what
--                           they promise
--   Crypt/Database          src/crypt/sqlite_crypt_writer.c
--   Crypt/Service           src/crypt/crypt_service.c; Pairs about values, Reload about the key
--   Crypt/Commands          src/supervisor/crypt_commands.c; Blobs about encrypted texts
--   Crypt/Handlers          the handlers of these commands in src/supervisor/cmd_processor.c
--   Capture/MdnsDecoder     src/capture/middlewares/header_middleware/mdns_decoder.c; Names/Grammar
--                           has the grammar of names that the decoder is compared with
--   Dns/MdnsMapper          src/dns/mdns_list.c and src/dns/mdns_mapper.c
--   Dns/CommandMapper       src/dns/command_mapper.c
--   Dns/Reflector           src/dns/reflection_list.c, and the forwarding of src/dns/mdns_service.c
--   Dns/Handler, Bridges    src/dns/mdns_service.c: the handler of a message, and the requests for
--                           bridges
--   Supervisor/Examples, Utils/Examples, Utils/Iptables/Examples, Crypt/Examples, Capture/Examples,
--   Dns/Examples            the theorems at concrete inputs
-- Below a component its child modules prove things of it: Keeps holds the steps by which its
-- functions keep the invariant `Inv` of Supervisor/Save/Keeps (for the network commands also
-- Bridges and Tickets).
--
-- How the code is modelled. A function of the source has its name here. A pointer is an `Option`;
-- a hash table is a list in insertion order; a C string is the list of its bytes before the NUL.
-- A function of the supervisor takes the state to a `Run`: `done` with a value, `failed` for -1,
-- which keeps the changes made before, or `fault`, an access to memory that is not the program's.
-- A password that is copied into the array of a device is a fault if it is longer than the array.
-- Every call of the outside (os_malloc, iptables, hostapd, the databases, sockets, the clock,
-- random bytes) is recorded in the state's trace, and its outcome is a function in `Env` of all
-- calls before it, of which nothing is assumed but what a theorem names: `Allocates` (memory can
-- be had) and `IssuesTickets` (random bytes and timers can be had). utarray_find and utarray_sort
-- of uthash are functions in `Env` too.
--
-- The code outside the supervisor has a `Result`: `ok`, `err` for -1, `fault`, or `stuck`, which is a
-- recursion that goes deeper than its fuel. Only the decoder of names recurs without a limit of its
-- own; Capture/MdnsDecoder/Pointers says when its fuel is enough, and when none is.
--
-- Bounds: a decimal number is printed with 20 digits at most, which holds any 64-bit number; all
-- other loops go along a list.
--
-- The crypt service has a state of its own, the two tables, and a `CryptRun`: `done`, `failed` or
-- `fault`. A key or vector that is shorter than the cipher reads is a fault.
--
-- iptables is a record `Tool`: what it does with its arguments in a state of its own, of any type. Its
-- output comes in pieces. The supervisor's model does not run these commands: it records the calls
-- of iptables_add_nat and the others in its trace.
--
-- Not modelled: the place of the crypt handlers in the dispatch (process_received_data is that of
-- the build without them, and the call of the service by save_mac_mapper is an outside call, with
-- its reading of the password); the set-up of the supervisor and of the mDNS service; the rest of
-- capture, DHCP and the access point services, which are I/O around other programs; the RADIUS
-- server, from hostapd; the libraries under lib/. The words of a request are taken to be allocated
-- by split_string_array.
pub mod Common
pub mod Utils
pub mod Capture
pub mod Supervisor
pub mod Crypt
pub mod Dns
