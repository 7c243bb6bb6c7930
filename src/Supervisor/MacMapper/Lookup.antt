-- ===== src/Supervisor/MacMapper/Lookup.antt =====
-- get_ip_mapper of src/supervisor/mac_mapper.c: the device that has an IP address.
use edgesec.Common.{
  ℕ, ◌<◌, ◌≡◌, ◌≢◌, refl, ◌⊎◌, inl, inr, Bool, true, false, Option, none, some, is_some, List, [],
  ◌∷◌, length, CString, Mac, All, Find, arith, Option-cases, str_eq_sound, str_eq_refl,
}
use edgesec.Utils.Net.{Inet, validate_ipv4_string, find_slash, os_inet_addrstrlen}
use edgesec.Supervisor.MacMapper.{MacConn, has_ip, pick_ip, find_ip, get_ip_mapper}

find_slash-lt :
    (s : CString) (n : ℕ) (rest : CString) → find_slash s ≡ some (n, rest) → n < length s
unfolding find_slash
find_slash-lt [] n rest e = cc
find_slash-lt (c ∷ s) n rest e = elim (Option-cases (find_slash s)) [
  | inl absent ↦ ground arith
  | inr ((m, tail), there) ↦ ground (arith, find_slash-lt s m tail there)
]

-- A text that is shorter than its array, 22 bytes, never makes validate_ipv4_string write out of
-- bounds.
pub validate_ipv4_string_total :
    (inet : Inet) (s : CString)
    → length s < os_inet_addrstrlen
    → is_some (validate_ipv4_string inet s) ≡ true
unfolding validate_ipv4_string
validate_ipv4_string_total inet s h = elim (Option-cases (find_slash s)) [
  | inl absent ↦ ground arith
  | inr ((m, tail), there) ↦ ground (arith, find_slash-lt s m tail there)
]

-- The addresses that the table holds fit their arrays.
abbrev pub FitsIps : MacConn → Type 0
FitsIps s =
    (length s.info.ip_addr < os_inet_addrstrlen) × (length s.info.ip_sec_addr < os_inet_addrstrlen)

-- An entry has the address, as its first or its second one.
abbrev pub HasIp : Inet → CString → MacConn → Type 0
HasIp inet ip s =
    ((validate_ipv4_string inet s.info.ip_addr ≡ some true) × (ip ≡ s.info.ip_addr))
    ⊎ ((validate_ipv4_string inet s.info.ip_sec_addr ≡ some true) × (ip ≡ s.info.ip_sec_addr))

-- An entry with the address, and the MAC address `mac`, is in the table.
abbrev pub SomeHasIp : Inet → CString → Mac → List MacConn → Type 0
SomeHasIp inet ip mac [] = ⊥
SomeHasIp inet ip mac (s ∷ hmap) =
    ((s.mac_addr ≡ mac) × HasIp inet ip s) ⊎ SomeHasIp inet ip mac hmap

has_ip_sound :
    (inet : Inet) (ip addr : CString)
    → has_ip inet ip addr ≡ some true
    → (validate_ipv4_string inet addr ≡ some true) × (ip ≡ addr)
unfolding has_ip
has_ip_sound inet ip addr h = ground (arith, str_eq_sound ip addr)

has_ip_complete :
    (inet : Inet) (ip addr : CString)
    → has_ip inet ip addr ≡ some false
    → validate_ipv4_string inet addr ≡ some true
    → ip ≢ addr
unfolding has_ip
has_ip_complete inet ip addr h v e = ground (arith, str_eq_refl addr)

has_ip_total :
    (inet : Inet) (ip addr : CString)
    → length addr < os_inet_addrstrlen
    → is_some (has_ip inet ip addr) ≡ true
unfolding has_ip
has_ip_total inet ip addr h = ground (arith, validate_ipv4_string_total inet addr h)

-- What the result of the loop says about the table.
abbrev pub Answers : Inet → CString → List MacConn → Option (Find Mac) → Type 0
Answers inet ip hmap none = ⊥
Answers inet ip hmap (some Find.bad_param) = ⊥
Answers inet ip hmap (some Find.missing) = All (λ s. ¬ HasIp inet ip s) hmap
Answers inet ip hmap (some (Find.found mac)) = SomeHasIp inet ip mac hmap

pick_ip-Answers :
    (inet : Inet) (ip : CString) (s : MacConn) (hmap : List MacConn) (a b : Option Bool)
    → has_ip inet ip s.info.ip_addr ≡ a
    → has_ip inet ip s.info.ip_sec_addr ≡ b
    → FitsIps s
    → (r : Option (Find Mac)) → Answers inet ip hmap r
    → Answers inet ip (s ∷ hmap) (pick_ip s.mac_addr a b r)
unfolding pick_ip
pick_ip-Answers inet ip s hmap none b ea eb f r h =
    ground (arith, has_ip_total inet ip s.info.ip_addr f.0)
pick_ip-Answers inet ip s hmap (some true) b ea eb f r h =
    inl (refl, inl (has_ip_sound inet ip s.info.ip_addr ea))
pick_ip-Answers inet ip s hmap (some false) none ea eb f r h =
    ground (arith, has_ip_total inet ip s.info.ip_sec_addr f.1)
pick_ip-Answers inet ip s hmap (some false) (some true) ea eb f r h =
    inl (refl, inr (has_ip_sound inet ip s.info.ip_sec_addr eb))
pick_ip-Answers inet ip s hmap (some false) (some false) ea eb f (some Find.missing) h =
    (neither, h)
  where
    neither : ¬ HasIp inet ip s
    neither (inl (v, e)) = has_ip_complete inet ip s.info.ip_addr ea v e
    neither (inr (v, e)) = has_ip_complete inet ip s.info.ip_sec_addr eb v e
pick_ip-Answers inet ip s hmap (some false) (some false) ea eb f (some (Find.found mac)) h = inr h
pick_ip-Answers inet ip s hmap (some false) (some false) ea eb f (some Find.bad_param) h = absurd h
pick_ip-Answers inet ip s hmap (some false) (some false) ea eb f none h = absurd h

find_ip-Answers :
    (inet : Inet) (ip : CString) (hmap : List MacConn)
    → All FitsIps hmap
    → Answers inet ip hmap (find_ip inet ip hmap)
unfolding find_ip
find_ip-Answers inet ip [] h = tt
find_ip-Answers inet ip (s ∷ hmap) h =
    pick_ip-Answers inet ip s hmap (has_ip inet ip s.info.ip_addr)
      (has_ip inet ip s.info.ip_sec_addr) refl refl h.0 (find_ip inet ip hmap)
      (find_ip-Answers inet ip hmap h.1)

-- With live pointers and addresses that fit, get_ip_mapper returns, with no fault: 1 with the MAC
-- address of an entry that has the IP address, or 0 if no entry has it.
pub get_ip_mapper-Answers :
    (inet : Inet) (ip : CString) (hmap : List MacConn)
    → All FitsIps hmap
    → Answers inet ip hmap (get_ip_mapper inet (some hmap) (some ip) true)
unfolding get_ip_mapper
get_ip_mapper-Answers inet ip hmap h = find_ip-Answers inet ip hmap h
