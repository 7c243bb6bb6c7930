-- ===== src/Capture/MdnsDecoder/Pointers.antt =====
-- When the recursion of decode_mdns_query_name of
-- src/capture/middlewares/header_middleware/mdns_decoder.c ends: the function has no limit of its
-- own on the pointers that it follows.
use edgesec.Common.{
  ℕ, zero, suc, ◌+◌, ◌-◌, ◌*◌, ◌<◌, ◌==◌, ◌≡◌, ◌≢◌, inl, inr, refl, ◌∙◌, true, false, Option, none,
  some, List, [], CString, Bool-cases, Option-cases, get_elem?, arith,
}
use native.Mathlib.Decide.{dec_lt}
use edgesec.Common.Results.{Result, byte_at, bind-ne_stuck, byte_at-ne_stuck, from_option-ne_stuck}
use edgesec.Utils.StringQueue.{StringQueue, init_string_queue, push_string_queue}
use edgesec.Utils.StringQueue.Order.{unbounded}
use edgesec.Capture.MdnsDecoder.{
  strncpy, copy_mdns_query_name, is_compressed, pointer_offset, push_name, decode_loop,
  decode_mdns_query_name,
}
use edgesec.Capture.MdnsDecoder.Names.{loop-stop, loop-label, loop-pointer}

-- `Walk mem s i`: the labels from index `s` on lead to index `i`.
pub data Walk (mem : List ℕ) : ℕ → ℕ → Type 0 where
  here : {s : ℕ} → Walk mem s s
  label :
      {s i b : ℕ}
      → Walk mem s i
      → get_elem? mem i ≡ some b
      → b ≢ 0
      → is_compressed b ≡ false
      → Walk mem s (i + b + 1)

-- Names start at the indices of `IsStart`, and each pointer that follows on the labels of a name
-- points to the start of a name that is before its own.
pub record PointsBack (mem : List ℕ) (len : ℕ) (IsStart : ℕ → Type 0) : Type 0 where
  pub earlier :
      (s i b next : ℕ)
      → IsStart s
      → Walk mem s i
      → i < len
      → get_elem? mem i ≡ some b
      → is_compressed b ≡ true
      → get_elem? mem (i + 1) ≡ some next
      → IsStart (pointer_offset b next) × (pointer_offset b next < s)

strncpy-ne_stuck : (mem : List ℕ) (i n : ℕ) → strncpy mem i n ≢ Result.stuck
unfolding strncpy
strncpy-ne_stuck mem i zero = λ e. cc
strncpy-ne_stuck mem i (suc n) = ground (arith, strncpy-ne_stuck mem (i + 1) n)

copy-ne_stuck : (mem : List ℕ) (i : ℕ) → copy_mdns_query_name mem i ≢ Result.stuck
unfolding copy_mdns_query_name
copy-ne_stuck mem i =
    bind-ne_stuck (byte_at mem i) _ (byte_at-ne_stuck mem i)
      λ n. ground (arith, strncpy-ne_stuck mem (i + 1) n)

push_name-ne_stuck : (q : StringQueue) (o : Option CString) → push_name q o ≢ Result.stuck
unfolding push_name
push_name-ne_stuck q none = λ e. cc
push_name-ne_stuck q (some s) = from_option-ne_stuck (push_string_queue (some q) (some s))

compressed-ne_zero : (b : ℕ) → is_compressed b ≡ true → b ≢ 0
unfolding is_compressed
compressed-ne_zero b c = ground arith

-- The fuel for a name that starts at `s`, after the fuel for all names before it.
rounds : ℕ → ℕ → ℕ
rounds len s = s * (len + 1)

rounds-earlier : (len t s : ℕ) → t < s → rounds len t + len < rounds len s
unfolding rounds
rounds-earlier len t s h = grind arith

module _ (mem : List ℕ) (len : ℕ) (IsStart : ℕ → Type 0) (back : PointsBack mem len IsStart) where
  Ends : ℕ → Type 0
  Ends fuel =
      (s i : ℕ) (q : StringQueue)
      → IsStart s
      → Walk mem s i
      → rounds len s + (len - i) < fuel
      → decode_loop fuel mem len i q ≢ Result.stuck

  label-ne_stuck :
      (fuel : ℕ)
      → Ends fuel
      → (s i b : ℕ) (q : StringQueue) → IsStart s
      → Walk mem s i
      → rounds len s + (len - i) < suc fuel
      → i < len
      → get_elem? mem i ≡ some b
      → b ≢ 0
      → is_compressed b ≡ false
      → decode_loop (suc fuel) mem len i q ≢ Result.stuck
  unfolding Ends
  label-ne_stuck fuel ih s i b q start walk h in_message e n c =
      rw (loop-label mem len fuel i b q in_message e n c) (
        bind-ne_stuck (copy_mdns_query_name mem i) _ (copy-ne_stuck mem i) λ qname.
          bind-ne_stuck (push_name q qname) _ (push_name-ne_stuck q qname)
            λ queue. ih s (i + b + 1) queue start (Walk.label walk e n c) (omega arith))

  pointer-ne_stuck :
      (fuel : ℕ)
      → Ends fuel
      → (s i b next : ℕ) (q : StringQueue) → IsStart s
      → Walk mem s i
      → rounds len s + (len - i) < suc fuel
      → i < len
      → get_elem? mem i ≡ some b
      → b ≢ 0
      → is_compressed b ≡ true
      → get_elem? mem (i + 1) ≡ some next
      → decode_loop (suc fuel) mem len i q ≢ Result.stuck
  unfolding Ends
  pointer-ne_stuck fuel ih s i b next q start walk h in_message e n c en =
      let (start', earlier) = back.earlier s i b next start walk in_message e c en in
      rw (loop-pointer mem len fuel i b next q in_message e n c en) (
        bind-ne_stuck (decode_loop fuel mem len (pointer_offset b next) (unbounded [])) _
          (ih (pointer_offset b next) (pointer_offset b next) (unbounded []) start' Walk.here
            (omega (arith, rounds-earlier len (pointer_offset b next) s earlier)))
          λ r. bind-ne_stuck (push_name q _) _ (push_name-ne_stuck q _) λ queue. λ e. cc)

  loop-ne_stuck : (fuel : ℕ) → Ends fuel
  unfolding Ends decode_loop
  loop-ne_stuck zero s i q start walk h = absurd (omega arith)
  loop-ne_stuck (suc fuel) s i q start walk h = elim (dec_lt i len) [
    | no out ↦ λ e. cc (e, loop-stop mem len fuel i q (omega arith))
    | yes in_message ↦ elim (Option-cases (get_elem? mem i)) [
      | inl behind ↦ λ e. ground arith
      | inr (b, eb) ↦ elim (Bool-cases (is_compressed b)) [
        | inl compressed ↦ elim (Option-cases (get_elem? mem (i + 1))) [
          | inl behind ↦ λ e. ground arith
          | inr (next, en) ↦
              pointer-ne_stuck fuel (loop-ne_stuck fuel) s i b next q start walk h in_message eb
                (compressed-ne_zero b compressed) compressed en
        ]
        | inr plain ↦ elim (Bool-cases (b == 0)) [
          | inl root ↦ λ e. ground arith
          | inr other ↦
              label-ne_stuck fuel (loop-ne_stuck fuel) s i b q start walk h in_message eb
                (ground arith) plain
        ]
      ]
    ]
  ]

  -- If each pointer in a name points to the start of a name before it, decode_mdns_query_name
  -- does not run without end on a name that starts at `first`: a recursion (with its rounds) of
  -- (first + 1) * (len + 1) is deep enough.
  pub decode_mdns_query_name-ne_stuck :
      (first : ℕ)
      → IsStart first
      → decode_mdns_query_name ((first + 1) * (len + 1)) mem len first ≢ Result.stuck
  unfolding decode_mdns_query_name init_string_queue Ends rounds
  decode_mdns_query_name-ne_stuck first start =
      bind-ne_stuck (decode_loop ((first + 1) * (len + 1)) mem len first (unbounded [])) _
        (loop-ne_stuck ((first + 1) * (len + 1)) first first (unbounded []) start Walk.here
          (grind arith))
        λ r. λ e. cc

-- A name that is a pointer to itself has no end: whatever the depth, decode_mdns_query_name calls
-- itself once more.
pub decode_mdns_query_name-endless :
    (mem : List ℕ) (len i b next fuel : ℕ)
    → i < len
    → get_elem? mem i ≡ some b
    → is_compressed b ≡ true
    → get_elem? mem (i + 1) ≡ some next
    → pointer_offset b next ≡ i
    → decode_mdns_query_name fuel mem len i ≡ Result.stuck
unfolding decode_mdns_query_name init_string_queue
decode_mdns_query_name-endless mem len i b next fuel h e c en self =
    rw (endless fuel (unbounded [])) refl
  where
    endless : (fuel : ℕ) (q : StringQueue) → decode_loop fuel mem len i q ≡ Result.stuck
    endless zero q = unfold decode_loop in refl
    endless (suc fuel) q =
        loop-pointer mem len fuel i b next q h e (compressed-ne_zero b c) c en
        ∙ rw (self, endless fuel (unbounded [])) refl
