-- ===== src/Supervisor/MacMapper/Laws.antt =====
-- src/supervisor/mac_mapper.c as a finite map.
use edgesec.Common.{
  ◌+◌, if◌then◌else◌, ◌≡◌, refl, sym, subst, ◌⊎◌, inl, inr, Bool, true, false, ◌&&◌, none, some,
  is_some, List, [], ◌∷◌, ◌++◌, length, length-append, Mac, mac_eq, mac_eq_iff, All, All-append,
  Find, arith, Bool-cases, not,
}
use edgesec.Supervisor.MacMapper.{
  MacConn, MacConnInfo, hash_find, set_value, put_mac_mapper, get_mac_mapper,
}

-- No MAC address stands twice.
abbrev pub Distinct : List MacConn → Type 0
Distinct [] = Unit {0}
Distinct (s ∷ hmap) = (hash_find s.mac_addr hmap ≡ none) × Distinct hmap

pub hash_find-set_value :
    (mac m : Mac) (info : MacConnInfo) (hmap : List MacConn)
    → is_some (hash_find mac hmap) ≡ true
    → hash_find m (set_value mac info hmap) ≡ (if mac_eq mac m then some info else hash_find m hmap)
unfolding hash_find set_value
hash_find-set_value mac m info [] h = cc
hash_find-set_value mac m info (s ∷ hmap) h = ground (
  arith,
  hash_find-set_value mac m info hmap,
  mac_eq_iff s.mac_addr mac,
  mac_eq_iff mac m,
  mac_eq_iff s.mac_addr m,
)

pub hash_find-append :
    (m : Mac) (hmap : List MacConn) (conn : MacConn)
    → hash_find conn.mac_addr hmap ≡ none
    → hash_find m (hmap ++ conn ∷ [])
      ≡ (if mac_eq conn.mac_addr m then some conn.info else hash_find m hmap)
unfolding hash_find
hash_find-append m [] conn h = refl
hash_find-append m (s ∷ hmap) conn h = ground (
  arith,
  hash_find-append m hmap conn,
  mac_eq_iff s.mac_addr conn.mac_addr,
  mac_eq_iff conn.mac_addr m,
  mac_eq_iff s.mac_addr m,
)

-- What put_mac_mapper leaves in the table.
abbrev pub put_table : Bool → List MacConn → MacConn → List MacConn
put_table alloc_ok hmap conn = elim (put_mac_mapper alloc_ok (some hmap) conn).1 [
  | none ↦ hmap
  | some table ↦ table
]

-- After put_mac_mapper has returned true, the table holds the new value under the address, and
-- every other address as before; after false it is as before.
pub hash_find-put_mac_mapper :
    (alloc_ok : Bool) (hmap : List MacConn) (conn : MacConn) (m : Mac)
    → hash_find m (put_table alloc_ok hmap conn) ≡ (
        if (put_mac_mapper alloc_ok (some hmap) conn).0 && mac_eq conn.mac_addr m
        then some conn.info
        else hash_find m hmap)
unfolding put_mac_mapper
hash_find-put_mac_mapper alloc_ok hmap conn m =
    ground (arith, hash_find-append m hmap conn, hash_find-set_value conn.mac_addr m conn.info hmap)

hash_find-set_value-none :
    (mac m : Mac) (info : MacConnInfo) (hmap : List MacConn)
    → hash_find m hmap ≡ none
    → hash_find m (set_value mac info hmap) ≡ none
unfolding hash_find set_value
hash_find-set_value-none mac m info [] h = refl
hash_find-set_value-none mac m info (s ∷ hmap) h =
    ground (arith, hash_find-set_value-none mac m info hmap)

set_value-Distinct :
    (mac : Mac) (info : MacConnInfo) (hmap : List MacConn)
    → Distinct hmap
    → Distinct (set_value mac info hmap)
unfolding set_value hash_find
set_value-Distinct mac info [] d = tt
set_value-Distinct mac info (s ∷ hmap) d = ground (
  arith,
  set_value-Distinct mac info hmap d.1,
  hash_find-set_value-none mac s.mac_addr info hmap d.0,
)

append-Distinct :
    (hmap : List MacConn) (conn : MacConn)
    → Distinct hmap
    → hash_find conn.mac_addr hmap ≡ none
    → Distinct (hmap ++ conn ∷ [])
unfolding hash_find
append-Distinct [] conn d h = (refl, tt)
append-Distinct (s ∷ hmap) conn d h = ground (
  arith,
  append-Distinct hmap conn d.1,
  hash_find-append s.mac_addr hmap conn,
  mac_eq_iff s.mac_addr conn.mac_addr,
  mac_eq_iff conn.mac_addr s.mac_addr,
)

-- put_mac_mapper keeps the addresses distinct.
pub put_mac_mapper-Distinct :
    (alloc_ok : Bool) (hmap : List MacConn) (conn : MacConn)
    → Distinct hmap
    → Distinct (put_table alloc_ok hmap conn)
unfolding put_mac_mapper
put_mac_mapper-Distinct alloc_ok hmap conn d =
    ground (arith, set_value-Distinct conn.mac_addr conn.info hmap d, append-Distinct hmap conn d)

length-set_value :
    (mac : Mac) (info : MacConnInfo) (hmap : List MacConn)
    → length (set_value mac info hmap) ≡ length hmap
unfolding set_value
length-set_value mac info [] = refl
length-set_value mac info (s ∷ hmap) = ground (arith, length-set_value mac info hmap)

-- put_mac_mapper adds one entry if it returns true and the address is new; else the number of
-- entries stays.
pub length-put_mac_mapper :
    (alloc_ok : Bool) (hmap : List MacConn) (conn : MacConn)
    → length (put_table alloc_ok hmap conn) ≡ (
        if (put_mac_mapper alloc_ok (some hmap) conn).0
          && not (is_some (hash_find conn.mac_addr hmap))
        then length hmap + 1
        else length hmap)
unfolding put_mac_mapper
length-put_mac_mapper alloc_ok hmap conn =
    ground (arith, length-set_value conn.mac_addr conn.info hmap, length-append hmap (conn ∷ []))

put_table_cases :
    (alloc_ok : Bool) (hmap : List MacConn) (conn : MacConn)
    → (put_table alloc_ok hmap conn ≡ hmap)
      ⊎ ((put_table alloc_ok hmap conn ≡ hmap ++ conn ∷ [])
          ⊎ (put_table alloc_ok hmap conn ≡ set_value conn.mac_addr conn.info hmap))
unfolding put_mac_mapper
put_table_cases alloc_ok hmap conn = ground arith

module _ (P : MacConn → Type 0) where
  set_value-All :
      (mac : Mac) (info : MacConnInfo) (hmap : List MacConn)
      → P (record { mac_addr = mac; info = info })
      → All P hmap
      → All P (set_value mac info hmap)
  unfolding set_value
  set_value-All mac info [] p h = tt
  set_value-All mac info (s ∷ hmap) p h = elim (Bool-cases (mac_eq s.mac_addr mac)) [
    | inl hit ↦ rw hit (
      subst (λ m. P (record { mac_addr = m; info = info }))
          (sym ((mac_eq_iff s.mac_addr mac).0 hit)) p,
      h.1,
    )
    | inr miss ↦ rw miss (h.0, set_value-All mac info hmap p h.1)
  ]

  -- What holds of every entry and of the new one holds of every entry after put_mac_mapper.
  pub put_mac_mapper-All :
      (alloc_ok : Bool) (hmap : List MacConn) (conn : MacConn)
      → P conn
      → All P hmap
      → All P (put_table alloc_ok hmap conn)
  put_mac_mapper-All alloc_ok hmap conn p h = elim (put_table_cases alloc_ok hmap conn) [
    | inl same ↦ subst (All P) (sym same) h
    | inr (inl longer) ↦ subst (All P) (sym longer) (All-append P hmap (conn ∷ []) h (p, tt))
    | inr (inr set) ↦ subst (All P) (sym set) (set_value-All conn.mac_addr conn.info hmap p h)
  ]

pub get_mac_mapper-found :
    (mac : Mac) (hmap : List MacConn) (info : MacConnInfo)
    → hash_find mac hmap ≡ some info
    → get_mac_mapper (some hmap) (some mac) true ≡ Find.found info
unfolding get_mac_mapper
get_mac_mapper-found mac hmap info h = ground arith

pub get_mac_mapper-missing :
    (mac : Mac) (hmap : List MacConn)
    → hash_find mac hmap ≡ none
    → get_mac_mapper (some hmap) (some mac) true ≡ Find.missing
unfolding get_mac_mapper
get_mac_mapper-missing mac hmap h = ground arith

-- put_mac_mapper fails only for a new device.
pub put_mac_mapper-new :
    (alloc_ok : Bool) (hmap : List MacConn) (conn : MacConn)
    → (put_mac_mapper alloc_ok (some hmap) conn).0 ≡ false
    → hash_find conn.mac_addr hmap ≡ none
unfolding put_mac_mapper
put_mac_mapper-new alloc_ok hmap conn h = ground arith
