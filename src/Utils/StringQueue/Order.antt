-- ===== src/Utils/StringQueue/Order.antt =====
-- The order of the strings in a queue of src/utils/squeue.c, and what concat_string_queue makes of
-- them.
use edgesec.Common.{
  ℕ, zero, suc, ◌+◌, ◌-◌, ◌≤◌, ◌<◌, ◌≡◌, refl, ap, sym, ◌∙◌, Option, none, some, List, [], ◌∷◌,
  ◌++◌, length, length-append, drop, CString, ℤ, arith,
}
use mathlib.Core.List.{append_assoc, append-nil}
use native.Mathlib.Decide.{dec_lt}
use edgesec.Utils.StringQueue.{
  StringQueue, init_string_queue, free_first, is_over, push_string_queue, is_counted, strcat_to,
  concat_from, concat_string_queue,
}

-- A queue of at most `n` strings.
abbrev pub bounded : ℕ → List CString → StringQueue
bounded n list = record { max_length = ℤ.pos n; list = list }

-- A queue with no bound.
abbrev pub unbounded : List CString → StringQueue
unbounded list = record { max_length = ℤ.negsuc 0; list = list }

unfoldable pub push_all : Option StringQueue → List CString → Option StringQueue
push_all queue [] = queue
push_all queue (s ∷ strs) = push_all (push_string_queue queue (some s)) strs

pub push_string_queue-unbounded :
    (list : List CString) (s : CString)
    → push_string_queue (some (unbounded list)) (some s) ≡ some (unbounded (list ++ s ∷ []))
unfolding push_string_queue is_over
push_string_queue-unbounded list s = refl

-- The last `n` elements.
abbrev pub latest : ℕ → List CString → List CString
latest n xs = drop (length xs - n) xs

drop-append : (k : ℕ) (xs ys : List CString) → k ≤ length xs → drop k (xs ++ ys) ≡ drop k xs ++ ys
drop-append zero xs ys h = refl
drop-append (suc k) [] ys h = absurd (omega arith)
drop-append (suc k) (x ∷ xs) ys h = drop-append k xs ys (omega arith)

length-drop : (k : ℕ) (xs : List CString) → length (drop k xs) ≡ length xs - k
length-drop zero xs = omega arith
length-drop (suc k) [] = omega arith
length-drop (suc k) (x ∷ xs) = omega (arith, length-drop k xs)

free_first-drop : (k : ℕ) (xs : List CString) → free_first (drop k xs) ≡ drop (suc k) xs
unfolding free_first
free_first-drop zero [] = refl
free_first-drop zero (x ∷ xs) = refl
free_first-drop (suc k) [] = refl
free_first-drop (suc k) (x ∷ xs) = free_first-drop k xs

empty_drop : (k : ℕ) → drop {A = CString} k [] ≡ []
empty_drop zero = refl
empty_drop (suc k) = refl

push-room :
    (n : ℕ) (list : List CString) (s : CString)
    → length list < n
    → push_string_queue (some (bounded n list)) (some s) ≡ some (bounded n (list ++ s ∷ []))
unfolding push_string_queue is_over
push-room n list s h = ground (arith, length-append list (s ∷ []))

push-full :
    (n : ℕ) (list : List CString) (s : CString)
    → length list ≡ n
    → push_string_queue (some (bounded n list)) (some s)
      ≡ some (bounded n (free_first (list ++ s ∷ [])))
unfolding push_string_queue is_over
push-full n list s h = ground (arith, length-append list (s ∷ []))

push-latest :
    (n : ℕ) (seen : List CString) (s : CString)
    → push_string_queue (some (bounded n (latest n seen))) (some s)
      ≡ some (bounded n (latest n (seen ++ s ∷ [])))
push-latest n seen s = elim (dec_lt (length seen) n) [
  | yes room ↦
      push-room n (latest n seen) s (omega (arith, length-drop (length seen - n) seen))
      ∙ ap (λ l. some (bounded n l))
          (kept ∙ ap (λ k. drop k (seen ++ s ∷ [])) {x = length seen - n} (omega (arith, grown)))
  | no full ↦
      push-full n (latest n seen) s (omega (arith, length-drop (length seen - n) seen))
      ∙ ap (λ l. some (bounded n l))
          (ap free_first kept
            ∙ free_first-drop (length seen - n) (seen ++ s ∷ [])
            ∙ ap (λ k. drop k (seen ++ s ∷ [])) {x = suc (length seen - n)} (omega (arith, grown)))
]
  where
    grown : length (seen ++ s ∷ []) ≡ length seen + 1
    grown = length-append seen (s ∷ [])

    kept : latest n seen ++ s ∷ [] ≡ drop (length seen - n) (seen ++ s ∷ [])
    kept = sym (drop-append (length seen - n) seen (s ∷ []) (omega arith))

push_all-latest_from :
    (n : ℕ) (seen strs : List CString)
    → push_all (some (bounded n (latest n seen))) strs ≡ some (bounded n (latest n (seen ++ strs)))
unfolding push_all
push_all-latest_from n seen [] = rw (append-nil seen) refl
push_all-latest_from n seen (s ∷ strs) =
    rw (push-latest n seen s) (push_all-latest_from n (seen ++ s ∷ []) strs)
    ∙ ap (λ l. some (bounded n (latest n l))) (append_assoc seen (s ∷ []) strs)

-- A queue with a greatest length that is not negative, when strings are pushed on it from empty,
-- holds the latest of them, as many as that length allows, in the order in which they came.
pub push_all-latest :
    (n : ℕ) (strs : List CString)
    → push_all (some (init_string_queue (ℤ.pos n))) strs ≡ some (bounded n (latest n strs))
unfolding init_string_queue
push_all-latest n strs =
    ap (λ l. push_all (some (bounded n l)) strs) (sym (empty_drop (0 - n)))
    ∙ push_all-latest_from n [] strs

pub push_all-unbounded :
    (list strs : List CString)
    → push_all (some (unbounded list)) strs ≡ some (unbounded (list ++ strs))
unfolding push_all
push_all-unbounded list [] = rw (append-nil list) refl
push_all-unbounded list (s ∷ strs) =
    rw (push_string_queue-unbounded list s) (push_all-unbounded (list ++ s ∷ []) strs)
    ∙ ap (λ l. some (unbounded l)) (append_assoc list (s ∷ []) strs)

-- The strings one behind the other.
abbrev pub concat : List CString → CString
concat [] = []
concat (x ∷ xs) = x ++ concat xs

-- NULL for no strings.
abbrev pub joined : List CString → Option CString
joined [] = none
joined (x ∷ xs) = some (x ++ concat xs)

concat_from-some :
    (num : ℕ) (s : CString) (xs : List CString)
    → concat_from (ℤ.negsuc 0) num (some s) xs ≡ some (s ++ concat xs)
unfolding concat_from is_counted strcat_to
concat_from-some num s [] = rw (append-nil s) refl
concat_from-some num s (x ∷ xs) =
    concat_from-some (num + 1) (s ++ x) xs ∙ ap some (append_assoc s x (concat xs))

pub concat_string_queue-joined :
    (xs : List CString) → concat_string_queue (some (unbounded xs)) (ℤ.negsuc 0) ≡ joined xs
unfolding concat_string_queue concat_from is_counted strcat_to
concat_string_queue-joined [] = refl
concat_string_queue-joined (x ∷ xs) = concat_from-some 1 x xs
