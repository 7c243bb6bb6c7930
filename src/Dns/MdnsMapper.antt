-- ===== src/Dns/MdnsMapper.antt =====
-- src/dns/mdns_list.c and src/dns/mdns_mapper.c: what each IP address has asked and answered. The
-- uthash table is a list in its order of insertion, and a dl_list is a list. Allocation succeeds.
pub mod Laws
use edgesec.Common.{
  ℕ, if◌then◌else◌, Bool, true, false, ◌&&◌, ◌||◌, Option, none, some, List, [], ◌∷◌, ◌++◌, CString,
  str_eq,
}
use edgesec.Capture.MdnsDecoder.{MdnsQueryEntry, MdnsAnswerEntry}

-- enum MDNS_REQUEST_TYPE
pub data MdnsRequestType : Type 0 where
  mdns_request_none mdns_request_query mdns_request_answer : MdnsRequestType

unfoldable pub request_eq : MdnsRequestType → MdnsRequestType → Bool
request_eq MdnsRequestType.mdns_request_none MdnsRequestType.mdns_request_none = true
request_eq MdnsRequestType.mdns_request_query MdnsRequestType.mdns_request_query = true
request_eq MdnsRequestType.mdns_request_answer MdnsRequestType.mdns_request_answer = true
request_eq _ _ = false

-- A field that the caller does not set is `none`. `name` is the pointer.
pub record MdnsListInfo : Type 0 where
  pub request : MdnsRequestType
  pub ttl : Option ℕ
  pub rrtype : Option ℕ
  pub qtype : Option ℕ
  pub name : Option CString

-- strcmp(a, b) == 0; the elements of a list have names.
unfoldable pub same_name : Option CString → CString → Bool
same_name none name = false
same_name (some s) name = str_eq s name

unfoldable pub has_info : MdnsRequestType → CString → List MdnsListInfo → Bool
unfolding request_eq same_name
has_info request name [] = false
has_info request name (el ∷ mlist) =
    (request_eq el.request request && same_name el.name name) || has_info request name mlist

unfoldable pub push_named :
    List MdnsListInfo → MdnsListInfo → Option CString → Option (List MdnsListInfo)
unfolding has_info
push_named mlist info none = none
push_named mlist info (some name) =
    if has_info info.request name mlist then some mlist else some (mlist ++ info ∷ [])

-- -1 is `none`.
unfoldable pub push_mdns_list :
    Option (List MdnsListInfo) → Option MdnsListInfo → Option (List MdnsListInfo)
unfolding push_named
push_mdns_list none info = none
push_mdns_list (some mlist) none = none
push_mdns_list (some mlist) (some info) = push_named mlist info info.name

unfoldable pub has_request : MdnsRequestType → List MdnsListInfo → Bool
unfolding request_eq
has_request request [] = false
has_request request (el ∷ mlist) = request_eq el.request request || has_request request mlist

unfoldable pub check_mdns_list_req : Option (List MdnsListInfo) → MdnsRequestType → Option Bool
unfolding has_request
check_mdns_list_req none request = none
check_mdns_list_req (some mlist) request = some (has_request request mlist)

-- hmap_mdns_conn: the four bytes of the address, and its list.
pub record MdnsConn : Type 0 where
  pub key : List ℕ
  pub value : List MdnsListInfo

-- HASH_FIND
unfoldable pub find_mdns : List ℕ → List MdnsConn → Option (List MdnsListInfo)
find_mdns ip [] = none
find_mdns ip (s ∷ imap) = if str_eq s.key ip then some s.value else find_mdns ip imap

-- The list of the entry that is there.
unfoldable pub set_mdns : List ℕ → List MdnsListInfo → List MdnsConn → List MdnsConn
set_mdns ip mlist [] = []
set_mdns ip mlist (s ∷ imap) =
    if str_eq s.key ip
    then record { key = s.key; value = mlist } ∷ imap
    else s ∷ set_mdns ip mlist imap

unfoldable pub put_mdns_info : List MdnsConn → List ℕ → MdnsListInfo → Option (List MdnsConn)
unfolding find_mdns set_mdns push_mdns_list
put_mdns_info imap ip info = elim (find_mdns ip imap) [
  | none ↦ elim (push_mdns_list (some []) (some info)) [
    | none ↦ none
    | some mlist ↦ some (imap ++ record { key = ip; value = mlist } ∷ [])
  ]
  | some old ↦ elim (push_mdns_list (some old) (some info)) [
    | none ↦ none
    | some mlist ↦ some (set_mdns ip mlist imap)
  ]
]

unfoldable pub query_info : MdnsQueryEntry → MdnsListInfo
query_info query = record {
  request = MdnsRequestType.mdns_request_query;
  ttl = none;
  rrtype = none;
  qtype = some query.qtype;
  name = some query.qname;
}

unfoldable pub answer_info : MdnsAnswerEntry → MdnsListInfo
answer_info answer = record {
  request = MdnsRequestType.mdns_request_answer;
  ttl = some answer.ttl;
  rrtype = some answer.rrtype;
  qtype = none;
  name = some answer.rrname;
}

unfoldable pub put_mdns_query_mapper :
    Option (List MdnsConn) → Option (List ℕ) → Option MdnsQueryEntry → Option (List MdnsConn)
unfolding put_mdns_info query_info
put_mdns_query_mapper (some imap) (some ip) (some query) = put_mdns_info imap ip (query_info query)
put_mdns_query_mapper _ _ _ = none

unfoldable pub put_mdns_answer_mapper :
    Option (List MdnsConn) → Option (List ℕ) → Option MdnsAnswerEntry → Option (List MdnsConn)
unfolding put_mdns_info answer_info
put_mdns_answer_mapper (some imap) (some ip) (some answer) =
    put_mdns_info imap ip (answer_info answer)
put_mdns_answer_mapper _ _ _ = none

-- HASH_ITER with HASH_DEL of each entry.
unfoldable pub free_mdns_mapper : List MdnsConn → List MdnsConn
free_mdns_mapper [] = []
free_mdns_mapper (current ∷ imap) = free_mdns_mapper imap

-- -1 is `none`.
unfoldable pub check_mdns_mapper_req :
    Option (List MdnsConn) → Option (List ℕ) → MdnsRequestType → Option Bool
unfolding find_mdns check_mdns_list_req
check_mdns_mapper_req (some imap) (some ip) request = elim (find_mdns ip imap) [
  | none ↦ some false
  | some mlist ↦ check_mdns_list_req (some mlist) request
]
check_mdns_mapper_req _ _ request = none
