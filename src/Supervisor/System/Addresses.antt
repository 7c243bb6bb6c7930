-- ===== src/Supervisor/System/Addresses.antt =====
-- The addresses that set_ip_cmd of src/supervisor/system_commands.c gives and takes.
use edgesec.Common.{
  ℕ, zero, suc, ◌<◌, ◌≤◌, ◌≡◌, refl, sym, ap, subst, Bool, true, false, [], ◌∷◌, CString, length,
  take, os_strlcpy, str_eq, str_eq_refl, arith, Bool-cases, inl, inr,
}
use edgesec.Utils.Net.{os_inet_addrstrlen}
use edgesec.Supervisor.MacMapper.{MacConnInfo}
use edgesec.Supervisor.Context.{DhcpIpType}
use edgesec.Supervisor.System.{IpChange, ip_change, new_ip, del_ip, is_empty_text}

take_all : (n : ℕ) (s : CString) → length s ≤ n → take n s ≡ s
take_all zero [] h = refl
take_all zero (c ∷ s) h = absurd (omega arith)
take_all (suc n) [] h = refl
take_all (suc n) (c ∷ s) h = ap (λ t. c ∷ t) (take_all n s (omega arith))

copied : (ip : CString) → length ip < os_inet_addrstrlen → os_strlcpy ip os_inet_addrstrlen ≡ ip
copied ip h = take_all 21 ip (omega arith)

module _ (info : MacConnInfo) (ip : CString) (h : length ip < os_inet_addrstrlen) where
  -- The first address was free.
  first_taken :
      info.ip_addr ≡ []
      → str_eq info.ip_sec_addr ip ≡ false
      → del_ip (record info { ip_addr = os_strlcpy ip os_inet_addrstrlen }) ip
        ≡ IpChange.change info false
  unfolding del_ip
  first_taken e s =
      ap (λ i. IpChange.change i false)
        (rw (copied ip h, str_eq_refl ip, s) (ap (λ a. record info { ip_addr = a }) (sym e)))

  second_taken :
      info.ip_sec_addr ≡ []
      → str_eq info.ip_addr ip ≡ false
      → del_ip (record info { ip_sec_addr = os_strlcpy ip os_inet_addrstrlen }) ip
        ≡ IpChange.change info false
  unfolding del_ip
  second_taken e s =
      ap (λ i. IpChange.change i false)
        (rw (copied ip h, str_eq_refl ip, s) (ap (λ a. record info { ip_sec_addr = a }) (sym e)))

  empty : (s : CString) → is_empty_text s ≡ true → s ≡ []
  empty [] e = refl
  empty (c ∷ s) e = cc

  changed-inj : {i j : MacConnInfo} {p q : Bool} → IpChange.change i p ≡ IpChange.change j q → i ≡ j
  changed-inj e = cc

  undone :
      (given : MacConnInfo) (primary : Bool)
      → new_ip info ip ≡ IpChange.change given primary
      → del_ip given ip ≡ IpChange.change info false
  unfolding new_ip
  undone given primary e = elim (Bool-cases (str_eq info.ip_addr ip)) [
    | inl has ↦ ground arith
    | inr no_first ↦ elim (Bool-cases (str_eq info.ip_sec_addr ip)) [
      | inl has ↦ ground arith
      | inr no_second ↦ elim (Bool-cases (is_empty_text info.ip_addr)) [
        | inl free ↦
            subst (λ g. del_ip g ip ≡ IpChange.change info false)
              (changed-inj {i = record info { ip_addr = os_strlcpy ip os_inet_addrstrlen }}
                {j = given} {p = true} {q = primary} (ground arith))
              (first_taken (empty info.ip_addr free) no_second)
        | inr full ↦ elim (Bool-cases (is_empty_text info.ip_sec_addr)) [
          | inl free ↦
              subst (λ g. del_ip g ip ≡ IpChange.change info false)
                (changed-inj {i = record info { ip_sec_addr = os_strlcpy ip os_inet_addrstrlen }}
                  {j = given} {p = false} {q = primary} (ground arith))
                (second_taken (empty info.ip_sec_addr free) no_first)
          | inr both ↦ ground arith
        ]
      ]
    ]
  ]

-- When the switch of set_ip_cmd on the kind of lease, ip_change, has put a new address that fits its
-- array into the information of a device, the same switch with the deletion of that address gives
-- the information from before, whichever of the two places the address was put in.
pub ip_change-undone :
    (info given : MacConnInfo) (ip : CString) (primary : Bool)
    → length ip < os_inet_addrstrlen
    → ip_change info ip DhcpIpType.dhcp_ip_new ≡ IpChange.change given primary
    → ip_change given ip DhcpIpType.dhcp_ip_del ≡ IpChange.change info false
unfolding ip_change
ip_change-undone info given ip primary h e = undone info ip h given primary e
