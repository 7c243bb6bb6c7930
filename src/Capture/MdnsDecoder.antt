-- ===== src/Capture/MdnsDecoder.antt =====
-- src/capture/middlewares/header_middleware/mdns_decoder.c: the names, queries and answers of an
-- mDNS message. `mem` is the block that the message was received into; a read behind it is a fault.
-- Allocation succeeds. C recursion is bounded by fuel: `stuck` is a recursion that goes deeper.
pub mod Names
pub mod Pointers
pub mod RoundTrip
pub mod Entries
use edgesec.Common.{
  ℕ, zero, suc, ◌+◌, ◌*◌, ◌%◌, ◌^◌, ltb, ◌==◌, if◌then◌else◌, Bool, true, false, not, ◌&&◌, Option,
  none, some, List, [], ◌∷◌, ◌++◌, length, CString, ℤ,
}
use edgesec.Common.Results.{Result, ◌>>=◌, byte_at, from_option}
use edgesec.Utils.StringQueue.{
  StringQueue, init_string_queue, push_string_queue, concat_string_queue,
}
use Prim.Native.Nat.{bit_and, bit_or}

-- strncpy(dest, &mem[i], n): the bytes up to a NUL, and n at most.
unfoldable pub strncpy : List ℕ → ℕ → ℕ → Result CString
strncpy mem i zero = Result.ok []
strncpy mem i (suc n) = do
  b ← byte_at mem i
  if b == 0 then Result.ok [] else do rest ← strncpy mem (i + 1) n; Result.ok (b ∷ rest)

-- The dot stands at index n, which a string that ended before it does not reach.
unfoldable pub with_dot : ℕ → CString → CString
with_dot n label = if length label == n then label ++ b'.' ∷ [] else label

unfoldable pub copy_mdns_query_name : List ℕ → ℕ → Result (Option CString)
unfolding strncpy with_dot
copy_mdns_query_name mem i = do
  n ← byte_at mem i
  if n == 0
      then Result.ok none
      else do label ← strncpy mem (i + 1) n; Result.ok (some (with_dot n label))

-- In uint16_t.
unfoldable pub get_mdns_query_offset : ℕ → ℕ → ℕ
get_mdns_query_offset low high = bit_or (low * 2 ^ 8 % 2 ^ 16) high

-- COMPRESSION_FLAG_BIT7 and COMPRESSION_FLAG_BIT6 are both set.
unfoldable pub is_compressed : ℕ → Bool
is_compressed b = not (bit_and b 0x80 == 0) && not (bit_and b 0x40 == 0)

-- The offset in the byte `b`, without its flags, and the byte behind it.
unfoldable pub pointer_offset : ℕ → ℕ → ℕ
unfolding get_mdns_query_offset
pointer_offset b next = get_mdns_query_offset (bit_and b 0x3f) next

-- push_string_queue, where there is a string.
unfoldable pub push_name : StringQueue → Option CString → Result StringQueue
push_name queue none = Result.ok queue
push_name queue (some qname) = from_option (push_string_queue (some queue) (some qname))

-- The loop of decode_mdns_query_name, from index `i` on; a pointer is followed by a call of the
-- function itself, with a queue of its own.
unfoldable pub decode_loop : ℕ → List ℕ → ℕ → ℕ → StringQueue → Result (ℕ × StringQueue)
unfolding copy_mdns_query_name is_compressed pointer_offset push_name
decode_loop zero mem len i squeue = Result.stuck
decode_loop (suc fuel) mem len i squeue =
    if ltb i len
    then (do
      b ← byte_at mem i
      if b == 0
          then Result.ok (i, squeue)
          else if is_compressed b
          then (do
            next ← byte_at mem (i + 1)
            (_, inner) ←
                decode_loop fuel mem len (pointer_offset b next) (init_string_queue (ℤ.negsuc 0))
            queue ← push_name squeue (concat_string_queue (some inner) (ℤ.negsuc 0))
            Result.ok (i + 1, queue))
          else do
            qname ← copy_mdns_query_name mem i
            queue ← push_name squeue qname
            decode_loop fuel mem len (i + b + 1) queue)
    else Result.ok (i, squeue)

-- The index `first` behind the name, and the name, NULL where it has no labels.
unfoldable pub decode_mdns_query_name : ℕ → List ℕ → ℕ → ℕ → Result (ℕ × Option CString)
unfolding decode_loop
decode_mdns_query_name fuel mem len first = do
  (i, squeue) ← decode_loop fuel mem len first (init_string_queue (ℤ.negsuc 0))
  Result.ok (i, concat_string_queue (some squeue) (ℤ.negsuc 0))

-- MAX_WEB_PATH_LEN
abbrev pub max_web_path_len : ℕ
max_web_path_len = 2048

-- strcpy into an array of MAX_WEB_PATH_LEN bytes, which a longer string runs over.
unfoldable pub strcpy_path : CString → Result CString
strcpy_path s = if ltb (length s) max_web_path_len then Result.ok s else Result.fault

-- ntohs and ntohl of the bytes at `i`.
unfoldable pub read_u16 : List ℕ → ℕ → Result ℕ
read_u16 mem i = do hi ← byte_at mem i; lo ← byte_at mem (i + 1); Result.ok (hi * 2 ^ 8 + lo)

unfoldable pub read_u32 : List ℕ → ℕ → Result ℕ
unfolding read_u16
read_u32 mem i = do hi ← read_u16 mem i; lo ← read_u16 mem (i + 2); Result.ok (hi * 2 ^ 16 + lo)

pub record MdnsQueryEntry : Type 0 where
  pub qtype : ℕ
  pub qname : CString

-- sizeof(struct mdns_query_meta): the type, and the class with its flag.
abbrev pub query_meta_size : ℕ
query_meta_size = 4

-- The array of queries is a list in the order of utarray_push_back.
unfoldable pub push_query :
    List ℕ → ℕ → Option CString → List MdnsQueryEntry → Result (List MdnsQueryEntry)
unfolding read_u16 strcpy_path
push_query mem i none queries = Result.ok queries
push_query mem i (some name) queries = do
  qtype ← read_u16 mem i
  qname ← strcpy_path name
  Result.ok (queries ++ record { qtype = qtype; qname = qname } ∷ [])

unfoldable pub decode_mdns_queries :
    ℕ → List ℕ → ℕ → ℕ → ℕ → List MdnsQueryEntry → Result (ℕ × List MdnsQueryEntry)
unfolding decode_mdns_query_name push_query
decode_mdns_queries fuel mem len i zero queries = Result.ok (i, queries)
decode_mdns_queries fuel mem len i (suc nqueries) queries = do
  (j, qname) ← decode_mdns_query_name fuel mem len i
  queries' ← push_query mem (j + 1) qname queries
  decode_mdns_queries fuel mem len (j + 1 + query_meta_size) nqueries queries'

pub record MdnsAnswerEntry : Type 0 where
  pub ttl : ℕ
  pub rrtype : ℕ
  pub rrname : CString
  pub ip : List ℕ

-- sizeof(struct mdns_answer_meta): type, class, time to live, length of the data.
abbrev pub answer_meta_size : ℕ
answer_meta_size = 10

unfoldable pub read_ip : List ℕ → ℕ → Result (List ℕ)
read_ip mem i = do
  a ← byte_at mem i
  b ← byte_at mem (i + 1)
  c ← byte_at mem (i + 2)
  d ← byte_at mem (i + 3)
  Result.ok (a ∷ b ∷ c ∷ d ∷ [])

-- The address of an "A" record with IP_ALEN bytes of data, zeros for any other.
unfoldable pub answer_ip : List ℕ → ℕ → ℕ → ℕ → Result (List ℕ)
unfolding read_ip
answer_ip mem i rrtype rdlength =
    if (rrtype == 1) && (rdlength == 4) then read_ip mem i else Result.ok (0 ∷ 0 ∷ 0 ∷ 0 ∷ [])

-- `meta` is where the meta data start, `i` where they end.
unfoldable pub push_answer :
    List ℕ → ℕ → ℕ → Option CString → List MdnsAnswerEntry → Result (List MdnsAnswerEntry)
unfolding read_u16 read_u32 strcpy_path answer_ip
push_answer mem meta i none answers = Result.ok answers
push_answer mem meta i (some name) answers = do
  ttl ← read_u32 mem (meta + 4)
  rrtype ← read_u16 mem meta
  rrname ← strcpy_path name
  rdlength ← read_u16 mem (meta + 8)
  ip ← answer_ip mem i rrtype rdlength
  Result.ok (answers ++ record { ttl = ttl; rrtype = rrtype; rrname = rrname; ip = ip } ∷ [])

unfoldable pub decode_mdns_answers :
    ℕ → List ℕ → ℕ → ℕ → ℕ → List MdnsAnswerEntry → Result (ℕ × List MdnsAnswerEntry)
unfolding decode_mdns_query_name push_answer read_u16
decode_mdns_answers fuel mem len i zero answers = Result.ok (i, answers)
decode_mdns_answers fuel mem len i (suc nanswers) answers = do
  (j, rrname) ← decode_mdns_query_name fuel mem len i
  answers' ← push_answer mem (j + 1) (j + 1 + answer_meta_size) rrname answers
  rdlength ← read_u16 mem (j + 1 + 8)
  decode_mdns_answers fuel mem len (j + 1 + answer_meta_size + rdlength) nanswers answers'

pub record MdnsHeader : Type 0 where
  pub tid : ℕ
  pub flags : ℕ
  pub nqueries : ℕ
  pub nanswers : ℕ
  pub nauth : ℕ
  pub nother : ℕ

-- sizeof(struct mdns_header)
abbrev pub mdns_header_size : ℕ
mdns_header_size = 12

unfoldable pub decode_mdns_header : List ℕ → Result MdnsHeader
unfolding read_u16
decode_mdns_header packet = do
  tid ← read_u16 packet 0
  flags ← read_u16 packet 2
  nqueries ← read_u16 packet 4
  nanswers ← read_u16 packet 6
  nauth ← read_u16 packet 8
  nother ← read_u16 packet 10
  Result.ok (record {
    tid = tid;
    flags = flags;
    nqueries = nqueries;
    nanswers = nanswers;
    nauth = nauth;
    nother = nother;
  })
