-- ===== src/Capture/MdnsDecoder/Entries.antt =====
-- What decode_mdns_queries and decode_mdns_answers of
-- src/capture/middlewares/header_middleware/mdns_decoder.c add to their arrays.
use edgesec.Common.{
  ℕ, zero, suc, ◌+◌, ◌*◌, ◌≤◌, ◌<◌, ◌≡◌, subst, sym, ap, ◌∙◌, Option, none, some, List, [], ◌∷◌,
  ◌++◌, CString, length, length-append, All, All-append, arith,
}
use mathlib.Core.List.{append_assoc, append-nil}
use edgesec.Common.Results.{Result, bind-ok}
use edgesec.Utils.StringQueue.{init_string_queue}
use edgesec.Utils.StringQueue.Order.{unbounded, joined}
use edgesec.Capture.MdnsDecoder.{
  decode_loop, decode_mdns_query_name, max_web_path_len, strcpy_path, read_u16, read_u32, answer_ip,
  MdnsQueryEntry, query_meta_size, push_query, decode_mdns_queries, MdnsAnswerEntry,
  answer_meta_size, push_answer, decode_mdns_answers,
}
use edgesec.Capture.MdnsDecoder.Names.{Parsed}
use edgesec.Capture.MdnsDecoder.Names.Grammar.{Name, decode_mdns_query_name-Name}
use edgesec.Capture.MdnsDecoder.Names.Sound.{Sound, Reads, sound}

Parsed-le :
    (mem : List ℕ) (len i : ℕ) (labels : List CString) (e : ℕ) → Parsed mem len i labels e → i ≤ e
Parsed-le mem len i labels e (Parsed.stop over) = omega arith
Parsed-le mem len i labels e (Parsed.root h z) = omega arith
Parsed-le mem len i labels e (Parsed.label h eb n c copied name) =
    let le = Parsed-le _ _ _ _ _ name in omega (arith, le)
Parsed-le mem len i labels e (Parsed.pointer h eb n c en name) = omega arith

query_name-le :
    (fuel : ℕ) (mem : List ℕ) (len i j : ℕ) (out : Option CString)
    → decode_mdns_query_name fuel mem len i ≡ Result.ok (j, out)
    → i ≤ j
unfolding decode_mdns_query_name init_string_queue Sound Reads
query_name-le fuel mem len i j out run =
    let (r, found, done) = bind-ok (decode_loop fuel mem len i (unbounded [])) _ run in
    let (labels, name, queue_is) = sound mem len fuel i [] r found in
    let end_is : r.0 ≡ j = cc done in
    subst (λ k. i ≤ k) end_is (Parsed-le mem len i labels r.0 name)

-- The string is a name that stands somewhere in the message, and has room for its NUL in the array of
-- an entry.
abbrev pub IsNameIn : List ℕ → ℕ → CString → Type 0
IsNameIn mem len s =
    (length s < max_web_path_len)
    × ((i : ℕ) × (e : ℕ) × (labels : List CString) × Name mem len i labels e
        × (some s ≡ joined labels))

abbrev pub QueryFits : List ℕ → ℕ → MdnsQueryEntry → Type 0
QueryFits mem len q = IsNameIn mem len q.qname

abbrev pub AnswerFits : List ℕ → ℕ → MdnsAnswerEntry → Type 0
AnswerFits mem len a = IsNameIn mem len a.rrname

-- The array has its old entries in their order, and behind them at most `n` new ones, which fit.
abbrev pub Grows : {A : Type 0} → (A → Type 0) → ℕ → List A → List A → Type 0
Grows {A} Fits n old new =
    (added : List A) × (new ≡ old ++ added) × All Fits added × (length added ≤ n)

suc_n : (n : ℕ) → 1 + n ≡ suc n
suc_n n = omega arith

no_more : {A : Type 0} (Fits : A → Type 0) (n : ℕ) (old : List A) → Grows Fits n old old
no_more Fits n old = ([], sym (append-nil old), tt, omega arith)

both :
    {A : Type 0} (Fits : A → Type 0) (n m : ℕ) (old mid new : List A)
    → Grows Fits n old mid
    → Grows Fits m mid new
    → Grows Fits (n + m) old new
both Fits n m old mid new (xs, e, f, le) (ys, e', f', le') = (
  xs ++ ys,
  e' ∙ ap (λ l. l ++ ys) e ∙ append_assoc old xs ys,
  All-append Fits xs ys f f',
  omega (arith, le, le', length-append xs ys),
)

strcpy_path-fits :
    (s t : CString) → strcpy_path s ≡ Result.ok t → (length t < max_web_path_len) × (s ≡ t)
unfolding strcpy_path
strcpy_path-fits s t e = ground arith

-- What decode_mdns_query_name returns is a name of the message.
decoded_name :
    (fuel : ℕ) (mem : List ℕ) (len i j : ℕ) (name copy : CString)
    → All (λ n. n < 256) mem
    → decode_mdns_query_name fuel mem len i ≡ Result.ok (j, some name)
    → strcpy_path name ≡ Result.ok copy
    → IsNameIn mem len copy
decoded_name fuel mem len i j name copy bytes run copied =
    let (fits, same) = strcpy_path-fits name copy copied in
    let (labels, there, is_name) =
      (decode_mdns_query_name-Name mem len i j (some name) bytes).0 (fuel, run) in
    (fits, (i, j, labels, there, sym (ap (λ t. some t) same) ∙ is_name))

push_query-Grows :
    (fuel len start j : ℕ) (mem : List ℕ) (i : ℕ) (o : Option CString)
    (old new : List MdnsQueryEntry)
    → All (λ n. n < 256) mem
    → decode_mdns_query_name fuel mem len start ≡ Result.ok (j, o)
    → push_query mem i o old ≡ Result.ok new
    → Grows (QueryFits mem len) 1 old new
unfolding push_query
push_query-Grows fuel len start j mem i none old new bytes run e =
    let same : old ≡ new = cc e in
    subst (Grows (QueryFits mem len) 1 old) same (no_more (QueryFits mem len) 1 old)
push_query-Grows fuel len start j mem i (some name) old new bytes run e =
    let (qtype, _, named) = bind-ok (read_u16 mem i) _ e in
    let (qname, copied, pushed) = bind-ok (strcpy_path name) _ named in
    let entry : MdnsQueryEntry = record { qtype = qtype; qname = qname } in
    let appended : old ++ entry ∷ [] ≡ new = cc pushed in
    (
      entry ∷ [],
      sym appended,
      (decoded_name fuel mem len start j name qname bytes run copied, tt),
      omega arith,
    )

push_answer-Grows :
    (fuel len start j : ℕ) (mem : List ℕ) (meta i : ℕ) (o : Option CString)
    (old new : List MdnsAnswerEntry)
    → All (λ n. n < 256) mem
    → decode_mdns_query_name fuel mem len start ≡ Result.ok (j, o)
    → push_answer mem meta i o old ≡ Result.ok new
    → Grows (AnswerFits mem len) 1 old new
unfolding push_answer
push_answer-Grows fuel len start j mem meta i none old new bytes run e =
    let same : old ≡ new = cc e in
    subst (Grows (AnswerFits mem len) 1 old) same (no_more (AnswerFits mem len) 1 old)
push_answer-Grows fuel len start j mem meta i (some name) old new bytes run e =
    let (ttl, _, e1) = bind-ok (read_u32 mem (meta + 4)) _ e in
    let (rrtype, _, e2) = bind-ok (read_u16 mem meta) _ e1 in
    let (rrname, copied, e3) = bind-ok (strcpy_path name) _ e2 in
    let (rdlength, _, e4) = bind-ok (read_u16 mem (meta + 8)) _ e3 in
    let (ip, _, e5) = bind-ok (answer_ip mem i rrtype rdlength) _ e4 in
    let entry : MdnsAnswerEntry = record { ttl = ttl; rrtype = rrtype; rrname = rrname; ip = ip } in
    let appended : old ++ entry ∷ [] ≡ new = cc e5 in
    (
      entry ∷ [],
      sym appended,
      (decoded_name fuel mem len start j name rrname bytes run copied, tt),
      omega arith,
    )

-- When decode_mdns_queries, run on a message of bytes, returns 0 and makes no memory fault, it has put
-- at most `nqueries` entries behind the old ones, each with a name that stands in the message as the
-- grammar has it and fits its array, and it has moved on by at least five bytes for each query.
pub decode_mdns_queries-Grows :
    (fuel : ℕ) (mem : List ℕ) (len i nqueries : ℕ) (old : List MdnsQueryEntry) {j : ℕ}
    {new : List MdnsQueryEntry}
    → All (λ n. n < 256) mem
    → decode_mdns_queries fuel mem len i nqueries old ≡ Result.ok (j, new)
    → Grows (QueryFits mem len) nqueries old new × (i + nqueries * 5 ≤ j)
unfolding decode_mdns_queries
decode_mdns_queries-Grows fuel mem len i zero old {j} {new} bytes run =
    let same : old ≡ new = cc run in
    let stays : i ≡ j = cc run in
    (subst (Grows (QueryFits mem len) 0 old) same (no_more (QueryFits mem len) 0 old), omega arith)
decode_mdns_queries-Grows fuel mem len i (suc nqueries) old {j} {new} bytes run =
    let (r, named, e1) = bind-ok (decode_mdns_query_name fuel mem len i) _ run in
    let (mid, pushed, e2) = bind-ok (push_query mem (r.0 + 1) r.1 old) _ e1 in
    let one = push_query-Grows fuel len i r.0 mem (r.0 + 1) r.1 old mid bytes named pushed in
    let (more, moved) =
      decode_mdns_queries-Grows fuel mem len (r.0 + 1 + query_meta_size) nqueries mid bytes e2 in
    let le = query_name-le fuel mem len i r.0 r.1 named in
    (
      subst (λ n. Grows (QueryFits mem len) n old new) (suc_n nqueries)
          (both (QueryFits mem len) 1 nqueries old mid new one more),
      omega arith,
    )

-- When decode_mdns_answers, run on a message of bytes, returns 0 and makes no memory fault, it has put
-- at most `nanswers` entries behind the old ones, each with a name that stands in the message as the
-- grammar has it and fits its array, and it has moved on by at least eleven bytes for each answer.
pub decode_mdns_answers-Grows :
    (fuel : ℕ) (mem : List ℕ) (len i nanswers : ℕ) (old : List MdnsAnswerEntry) {j : ℕ}
    {new : List MdnsAnswerEntry}
    → All (λ n. n < 256) mem
    → decode_mdns_answers fuel mem len i nanswers old ≡ Result.ok (j, new)
    → Grows (AnswerFits mem len) nanswers old new × (i + nanswers * 11 ≤ j)
unfolding decode_mdns_answers
decode_mdns_answers-Grows fuel mem len i zero old {j} {new} bytes run =
    let same : old ≡ new = cc run in
    let stays : i ≡ j = cc run in
    (
      subst (Grows (AnswerFits mem len) 0 old) same (no_more (AnswerFits mem len) 0 old),
      omega arith,
    )
decode_mdns_answers-Grows fuel mem len i (suc nanswers) old {j} {new} bytes run =
    let (r, named, e1) = bind-ok (decode_mdns_query_name fuel mem len i) _ run in
    let (mid, pushed, e2) =
      bind-ok (push_answer mem (r.0 + 1) (r.0 + 1 + answer_meta_size) r.1 old) _ e1 in
    let (rdlength, _, e3) = bind-ok (read_u16 mem (r.0 + 1 + 8)) _ e2 in
    let one =
      push_answer-Grows fuel len i r.0 mem (r.0 + 1) (r.0 + 1 + answer_meta_size) r.1 old mid bytes
        named pushed in
    let (more, moved) =
      decode_mdns_answers-Grows fuel mem len (r.0 + 1 + answer_meta_size + rdlength) nanswers mid
        bytes e3 in
    let le = query_name-le fuel mem len i r.0 r.1 named in
    (
      subst (λ n. Grows (AnswerFits mem len) n old new) (suc_n nanswers)
          (both (AnswerFits mem len) 1 nanswers old mid new one more),
      omega arith,
    )
