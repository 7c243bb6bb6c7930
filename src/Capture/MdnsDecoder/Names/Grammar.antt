-- ===== src/Capture/MdnsDecoder/Names/Grammar.antt =====
-- The names of a message, with labels of up to 191 bytes where RFC 1035 has 63, said apart from
-- decode_mdns_query_name of src/capture/middlewares/header_middleware/mdns_decoder.c, which finds just
-- these.
use edgesec.Common.{
  ℕ, zero, suc, ◌+◌, ◌*◌, ◌≤◌, ◌<◌, ◌≡◌, ◌≢◌, ◌↔◌, refl, sym, ap, ◌∙◌, Option, some, List, [], ◌∷◌,
  ◌++◌, CString, All, get_elem?, arith, subst,
}
use edgesec.Common.Results.{Result}
use edgesec.Utils.StringQueue.Order.{concat, joined}
use edgesec.Capture.MdnsDecoder.{is_compressed, pointer_offset, decode_mdns_query_name}
use edgesec.Capture.MdnsDecoder.Names.{suffix, Parsed}
use edgesec.Capture.MdnsDecoder.Names.Complete.{decode_mdns_query_name-Parsed}
use edgesec.Capture.MdnsDecoder.Names.Labels.{Text, Text-copy, copy-Text}
use edgesec.Capture.MdnsDecoder.Names.Flags.{is_plain, is_pointer, offset_is, short, flagged}

-- What a name at the end of a pointer adds to the name with the pointer: its labels as one.
pub data Joined : List CString → List CString → Type 0 where
  no_labels : Joined [] []
  as_one : {l : CString} {ls : List CString} → Joined (l ∷ ls) ((l ++ concat ls) ∷ [])

-- `Name mem len i labels e`: the name at index `i` of the message has these labels, and ends at `e`.
-- A byte below 192 is the length of a label; in any other the two high bits are set, and the rest of
-- it, with the byte behind it, is the index where the name goes on.
pub data Name (mem : List ℕ) (len : ℕ) : ℕ → List CString → ℕ → Type 0 where
  stop : {i : ℕ} → len ≤ i → Name mem len i [] i
  root : {i : ℕ} → i < len → get_elem? mem i ≡ some 0 → Name mem len i [] i
  label :
      {i n e : ℕ} {text : CString} {labels : List CString}
      → i < len
      → get_elem? mem i ≡ some n
      → n ≢ 0
      → n < 192
      → Text mem (i + 1) n text
      → Name mem len (i + n + 1) labels e
      → Name mem len i (text ∷ labels) e
  pointer :
      (high : ℕ) {i b low e : ℕ} {labels more : List CString}
      → i < len
      → get_elem? mem i ≡ some b
      → b ≡ 192 + high
      → get_elem? mem (i + 1) ≡ some low
      → Name mem len (high * 256 + low) labels e
      → Joined labels more
      → Name mem len i more (i + 1)

suffix-Joined : (labels : List CString) → Joined labels (suffix labels)
suffix-Joined [] = Joined.no_labels
suffix-Joined (l ∷ ls) = Joined.as_one

Joined-suffix : {labels more : List CString} → Joined labels more → suffix labels ≡ more
Joined-suffix Joined.no_labels = refl
Joined-suffix Joined.as_one = refl

All-at :
    (mem : List ℕ) (i : ℕ) {b : ℕ} → All (λ n. n < 256) mem → get_elem? mem i ≡ some b → b < 256
All-at [] i h e = absurd (cc e)
All-at (x ∷ xs) zero h e = let same : x ≡ _ = cc e in subst (λ n. n < 256) same h.0
All-at (x ∷ xs) (suc i) h e = All-at xs i h.1 e

module _ (mem : List ℕ) (len : ℕ) (bytes : All (λ n. n < 256) mem) where
  Name-Parsed :
      {i e : ℕ} {labels : List CString} → Name mem len i labels e → Parsed mem len i labels e
  Name-Parsed (Name.stop over) = Parsed.stop over
  Name-Parsed (Name.root h z) = Parsed.root h z
  Name-Parsed (Name.label {i = i} {n = n} h at_i some_bytes plain text name) =
      Parsed.label h at_i some_bytes (is_plain n plain) (Text-copy mem i n at_i some_bytes text)
        (Name-Parsed name)
  Name-Parsed
        (Name.pointer high {i = i} {b = b} {low = low} {e = e} {labels = labels} h at_i is_b at_next
          name joins) =
      let below : high < 64 = omega (arith, All-at mem i bytes at_i, is_b) in
      let offset : high * 256 + low ≡ pointer_offset b low = sym (
        ap (λ n. pointer_offset n low) is_b
        ∙ offset_is high low below (All-at mem (i + 1) bytes at_next)) in
      subst (λ ls. Parsed mem len i ls (i + 1)) (Joined-suffix joins)
        (Parsed.pointer h at_i (omega (arith, is_b)) (ap is_compressed is_b ∙ is_pointer high below)
          at_next (subst (λ j. Parsed mem len j labels e) offset (Name-Parsed name)))

  pointer-Name :
      {i b next e : ℕ} {labels : List CString} (high : ℕ)
      → b ≡ 192 + high
      → i < len
      → get_elem? mem i ≡ some b
      → get_elem? mem (i + 1) ≡ some next
      → Name mem len (pointer_offset b next) labels e
      → Name mem len i (suffix labels) (i + 1)
  pointer-Name {i} {b} {next} {e} {labels} high is_b h at_i at_next name =
      let below : high < 64 = omega (arith, All-at mem i bytes at_i, is_b) in
      let offset : pointer_offset b next ≡ high * 256 + next =
        ap (λ n. pointer_offset n next) is_b
        ∙ offset_is high next below (All-at mem (i + 1) bytes at_next) in
      Name.pointer high h at_i is_b at_next (subst (λ j. Name mem len j labels e) offset name)
        (suffix-Joined labels)

  Parsed-Name :
      {i e : ℕ} {labels : List CString} → Parsed mem len i labels e → Name mem len i labels e
  Parsed-Name (Parsed.stop over) = Name.stop over
  Parsed-Name (Parsed.root h z) = Name.root h z
  Parsed-Name (Parsed.label {i = i} {b = b} h at_i some_bytes plain copied name) =
      Name.label h at_i some_bytes (short b (All-at mem i bytes at_i) plain)
        (copy-Text mem i b at_i some_bytes copied) (Parsed-Name name)
  Parsed-Name (Parsed.pointer {i = i} {b = b} h at_i some_bytes flags at_next name) =
      let (high, is_b) = flagged b flags in pointer-Name high is_b h at_i at_next (Parsed-Name name)

-- In a message of bytes: for some fuel decode_mdns_query_name returns the index `e` and the string
-- `out` if and only if the grammar has a name at `first` that ends at `e`, and `out` is its labels
-- one behind the other (NULL if it has none).
pub decode_mdns_query_name-Name :
    (mem : List ℕ) (len first e : ℕ) (out : Option CString)
    → All (λ n. n < 256) mem
    → ((fuel : ℕ) × (decode_mdns_query_name fuel mem len first ≡ Result.ok (e, out)))
      ↔ ((labels : List CString) × Name mem len first labels e × (out ≡ joined labels))
decode_mdns_query_name-Name mem len first e out bytes =
    let (there, back) = decode_mdns_query_name-Parsed mem len first e out in
    (
      λ run.
          let (labels, name, is_out) = there run in
          (labels, Parsed-Name mem len bytes name, is_out),
      λ h. let (labels, name, is_out) = h in back (labels, Name-Parsed mem len bytes name, is_out),
    )
