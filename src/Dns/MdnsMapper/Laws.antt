-- ===== src/Dns/MdnsMapper/Laws.antt =====
-- The table of src/dns/mdns_mapper.c as a set of pairs of an address and a kind of request.
use edgesec.Common.{
  ℕ, ◌≡◌, ◌≢◌, ◌⊎◌, refl, ap, ◌∙◌, inl, inr, if◌then◌else◌, Bool, true, false, ◌&&◌, ◌||◌, Option,
  none, some, List, [], ◌∷◌, ◌++◌, CString, str_eq, str_eq_sound, str_eq_refl, Bool-cases,
  Option-cases, arith,
}
use edgesec.Dns.MdnsMapper.{
  MdnsRequestType, request_eq, MdnsListInfo, has_info, push_named, push_mdns_list, has_request,
  check_mdns_list_req, MdnsConn, find_mdns, set_mdns, put_mdns_info, check_mdns_mapper_req,
}

-- Whether the address is in the set with that request.
abbrev pub listed : Option (List MdnsListInfo) → MdnsRequestType → Bool
listed none request = false
listed (some mlist) request = has_request request mlist

unfoldable pub is_known : List MdnsConn → List ℕ → MdnsRequestType → Bool
is_known imap ip request = listed (find_mdns ip imap) request

pub check_mdns_mapper_req-is_known :
    (imap : List MdnsConn) (ip : List ℕ) (request : MdnsRequestType)
    → check_mdns_mapper_req (some imap) (some ip) request ≡ some (is_known imap ip request)
unfolding check_mdns_mapper_req check_mdns_list_req is_known
check_mdns_mapper_req-is_known imap ip request = ground arith

request_eq_sound : (a b : MdnsRequestType) → request_eq a b ≡ true → a ≡ b
unfolding request_eq
request_eq_sound MdnsRequestType.mdns_request_none MdnsRequestType.mdns_request_none h = refl
request_eq_sound MdnsRequestType.mdns_request_none MdnsRequestType.mdns_request_query h = cc
request_eq_sound MdnsRequestType.mdns_request_none MdnsRequestType.mdns_request_answer h = cc
request_eq_sound MdnsRequestType.mdns_request_query MdnsRequestType.mdns_request_none h = cc
request_eq_sound MdnsRequestType.mdns_request_query MdnsRequestType.mdns_request_query h = refl
request_eq_sound MdnsRequestType.mdns_request_query MdnsRequestType.mdns_request_answer h = cc
request_eq_sound MdnsRequestType.mdns_request_answer MdnsRequestType.mdns_request_none h = cc
request_eq_sound MdnsRequestType.mdns_request_answer MdnsRequestType.mdns_request_query h = cc
request_eq_sound MdnsRequestType.mdns_request_answer MdnsRequestType.mdns_request_answer h = refl

has_info-has_request :
    (request : MdnsRequestType) (name : CString) (mlist : List MdnsListInfo)
    → has_info request name mlist ≡ true
    → has_request request mlist ≡ true
unfolding has_info has_request
has_info-has_request request name [] h = h
has_info-has_request request name (el ∷ mlist) h =
    ground (arith, has_info-has_request request name mlist)

has_request-append :
    (request : MdnsRequestType) (mlist : List MdnsListInfo) (info : MdnsListInfo)
    → has_request request (mlist ++ info ∷ [])
      ≡ (request_eq info.request request || has_request request mlist)
unfolding has_request
has_request-append request [] info = refl
has_request-append request (el ∷ mlist) info = ground (arith, has_request-append request mlist info)

push_named-has_request :
    (request : MdnsRequestType) (mlist new : List MdnsListInfo) (info : MdnsListInfo)
    (o : Option CString)
    → push_named mlist info o ≡ some new
    → has_request request new ≡ (request_eq info.request request || has_request request mlist)
unfolding push_named
push_named-has_request request mlist new info none e = cc
push_named-has_request request mlist new info (some name) e =
    elim (Bool-cases (request_eq info.request request)) [
      | inl same ↦ ground (
        arith,
        ap (λ r. has_request r mlist) (request_eq_sound info.request request same),
        has_info-has_request info.request name mlist,
        has_request-append request mlist info,
      )
      | inr other ↦ ground (arith, has_request-append request mlist info)
    ]

-- A push adds its request to those of the list.
push-has_request :
    (request : MdnsRequestType) (mlist new : List MdnsListInfo) (info : MdnsListInfo)
    → push_mdns_list (some mlist) (some info) ≡ some new
    → has_request request new ≡ (request_eq info.request request || has_request request mlist)
unfolding push_mdns_list
push-has_request request mlist new info e =
    push_named-has_request request mlist new info info.name e

find-set :
    (ip other : List ℕ) (mlist : List MdnsListInfo) (imap : List MdnsConn)
    → find_mdns ip imap ≢ none
    → find_mdns other (set_mdns ip mlist imap)
      ≡ (if str_eq ip other then some mlist else find_mdns other imap)
unfolding find_mdns set_mdns
find-set ip other mlist [] h = absurd (h refl)
find-set ip other mlist (s ∷ imap) h = elim (Bool-cases (str_eq s.key ip)) [
  | inl hit ↦ rw (hit, ap (λ k. str_eq k other) (str_eq_sound s.key ip hit)) (ground arith)
  | inr miss ↦ elim (Bool-cases (str_eq s.key other)) [
    | inl here ↦ ground (
      arith,
      str_eq_sound s.key other here,
      str_eq_sound ip other,
      str_eq_refl ip,
      ap (λ k. str_eq k ip) (str_eq_sound s.key other here),
    )
    | inr there ↦ ground (arith, find-set ip other mlist imap)
  ]
]

find-append :
    (other : List ℕ) (imap : List MdnsConn) (s : MdnsConn)
    → find_mdns s.key imap ≡ none
    → find_mdns other (imap ++ s ∷ [])
      ≡ (if str_eq s.key other then some s.value else find_mdns other imap)
unfolding find_mdns
find-append other [] s h = refl
find-append other (t ∷ imap) s h = elim (Bool-cases (str_eq t.key other)) [
  | inl here ↦ ground (
    arith,
    str_eq_sound s.key other,
    ap (λ k. str_eq k s.key) (str_eq_sound t.key other here),
    ap (str_eq other) (str_eq_sound t.key other here),
    str_eq_refl s.key,
    λ (k : s.key ≡ other). ap (λ a. str_eq a s.key) k,
  )
  | inr there ↦ ground (arith, find-append other imap s)
]

-- What a push that succeeds stores: a new entry, or a new list at the entry that is there.
Stored : List MdnsConn → List MdnsConn → List ℕ → MdnsListInfo → Type 0
Stored imap new ip info =
    ((mlist : List MdnsListInfo) × (find_mdns ip imap ≡ none)
      × (push_mdns_list (some []) (some info) ≡ some mlist)
      × (new ≡ imap ++ record { key = ip; value = mlist } ∷ []))
    ⊎ ((old mlist : List MdnsListInfo) × (find_mdns ip imap ≡ some old)
        × (push_mdns_list (some old) (some info) ≡ some mlist)
        × (new ≡ set_mdns ip mlist imap))

put-Stored :
    (imap new : List MdnsConn) (ip : List ℕ) (info : MdnsListInfo)
    → put_mdns_info imap ip info ≡ some new
    → Stored imap new ip info
unfolding put_mdns_info Stored
put-Stored imap new ip info e = elim (Option-cases (find_mdns ip imap)) [
  | inl absent ↦ elim (Option-cases (push_mdns_list (some []) (some info))) [
    | inl failed ↦ absurd (ground arith)
    | inr (mlist, pushed) ↦ inl (mlist, absent, pushed, ground arith)
  ]
  | inr (old, present) ↦ elim (Option-cases (push_mdns_list (some old) (some info))) [
    | inl failed ↦ absurd (ground arith)
    | inr (mlist, pushed) ↦ inr (old, mlist, present, pushed, ground arith)
  ]
]

Stored-is_known :
    (imap new : List MdnsConn) (ip other : List ℕ) (info : MdnsListInfo) (request : MdnsRequestType)
    → Stored imap new ip info
    → is_known new other request
      ≡ ((str_eq ip other && request_eq info.request request) || is_known imap other request)
unfolding Stored is_known has_request
Stored-is_known imap new ip other info request (inl (mlist, absent, pushed, new_is)) =
    rw (new_is, find-append other imap (record { key = ip; value = mlist }) absent)
      (ground (
        arith,
        push-has_request request [] mlist info pushed,
        λ (h : str_eq ip other ≡ true). ap (λ a. find_mdns a imap) (str_eq_sound ip other h),
      ))
Stored-is_known imap new ip other info request (inr (old, mlist, present, pushed, new_is)) =
    rw (new_is, find-set ip other mlist imap (λ h. cc))
      (ground (
        arith,
        push-has_request request old mlist info pushed,
        λ (h : str_eq ip other ≡ true). ap (λ a. find_mdns a imap) (str_eq_sound ip other h),
      ))

-- When put_mdns_info returns 0, check_mdns_mapper_req finds what it found before, and besides the
-- pair of this address with the request of this query or answer.
pub put_mdns_info-check :
    (imap new : List MdnsConn) (ip other : List ℕ) (info : MdnsListInfo) (request : MdnsRequestType)
    → put_mdns_info imap ip info ≡ some new
    → check_mdns_mapper_req (some new) (some other) request
      ≡ some ((str_eq ip other && request_eq info.request request) || is_known imap other request)
put_mdns_info-check imap new ip other info request e =
    check_mdns_mapper_req-is_known new other request
    ∙ ap some (Stored-is_known imap new ip other info request (put-Stored imap new ip info e))
