-- ===== src/Utils/StringQueue.antt =====
-- src/utils/squeue.c: a queue of strings that forgets the oldest where it has a greatest length. The
-- dl_list is a list, oldest first; allocation succeeds.
pub mod Order
use edgesec.Common.{
  ℕ, suc, ◌+◌, ltb, if◌then◌else◌, Bool, true, false, ◌&&◌, Option, none, some, List, [], ◌∷◌, ◌++◌,
  length, CString, ℤ,
}

-- The head of the list; an element repeats `max_length`.
pub record StringQueue : Type 0 where
  pub max_length : ℤ
  pub list : List CString

unfoldable pub init_string_queue : ℤ → StringQueue
init_string_queue max_length = record { max_length = max_length; list = [] }

-- dl_list_del and free of the first element, if there is one.
unfoldable pub free_first : List CString → List CString
free_first [] = []
free_first (x ∷ xs) = xs

unfoldable pub get_string_queue_length : Option StringQueue → ℕ
get_string_queue_length none = 0
get_string_queue_length (some queue) = length queue.list

-- length > max_length && max_length >= 0
unfoldable pub is_over : ℤ → ℕ → Bool
is_over (ℤ.pos max_length) n = ltb max_length n
is_over (ℤ.negsuc k) n = false

unfoldable pub push_string_queue : Option StringQueue → Option CString → Option StringQueue
unfolding is_over free_first
push_string_queue queue none = none
push_string_queue none (some str) = none
push_string_queue (some queue) (some str) =
    let list = queue.list ++ str ∷ [] in
    if is_over queue.max_length (length list)
    then some (record { max_length = queue.max_length; list = free_first list })
    else some (record { max_length = queue.max_length; list = list })

-- The outer option is the status; the inner is the string, NULL where the queue is empty.
unfoldable pub peek_string_queue : Option StringQueue → Option (Option CString)
peek_string_queue none = none
peek_string_queue (some queue) = elim queue.list [ [] ↦ some none | x ∷ xs ↦ some (some x) ]

unfoldable pub pop_string_queue : Option StringQueue → Option (Option CString × StringQueue)
unfolding free_first
pop_string_queue none = none
pop_string_queue (some queue) =
    let left : StringQueue = record {
      max_length = queue.max_length;
      list = free_first queue.list;
    } in
    elim (peek_string_queue (some queue)) [ none ↦ none | some str ↦ some (str, left) ]

-- (num < count && count > 0) || count < 0
unfoldable pub is_counted : ℤ → ℕ → Bool
is_counted (ℤ.pos count) num = ltb num count && ltb 0 count
is_counted (ℤ.negsuc k) num = true

unfoldable pub empty_from : ℤ → ℕ → List CString → List CString
unfolding is_counted
empty_from count num [] = []
empty_from count num (x ∷ xs) =
    let rest = empty_from count (num + 1) xs in if is_counted count num then rest else x ∷ xs

unfoldable pub empty_string_queue : StringQueue → ℤ → StringQueue
unfolding empty_from
empty_string_queue queue count = record {
  max_length = queue.max_length;
  list = empty_from count 0 queue.list;
}

-- strcat on a string that is NULL before the first.
unfoldable pub strcat_to : Option CString → CString → Option CString
strcat_to none str = some str
strcat_to (some s) str = some (s ++ str)

unfoldable pub concat_from : ℤ → ℕ → Option CString → List CString → Option CString
unfolding is_counted strcat_to
concat_from count num concat_str [] = concat_str
concat_from count num concat_str (x ∷ xs) =
    if is_counted count num
    then concat_from count (num + 1) (strcat_to concat_str x) xs
    else concat_from count (num + 1) concat_str xs

unfoldable pub concat_string_queue : Option StringQueue → ℤ → Option CString
unfolding concat_from
concat_string_queue none count = none
concat_string_queue (some queue) count = concat_from count 0 none queue.list
