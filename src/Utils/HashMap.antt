-- ===== src/Utils/HashMap.antt =====
-- src/utils/hashmap.c: a table of strings. Allocation succeeds.
pub mod Laws
use edgesec.Common.{
  ℕ, ◌-◌, ltb, if◌then◌else◌, Bool, true, false, Option, none, some, List, [], ◌∷◌, ◌++◌, CString,
  length, str_eq,
}

-- struct hashmap_str_keychar
pub record HmapStrKeychar : Type 0 where
  pub key : CString
  pub value : CString

-- HASH_KEY_CHAR_SIZE
abbrev pub hash_key_char_size : ℕ
hash_key_char_size = 20

-- HASH_FIND_STR
unfoldable pub find_str : List HmapStrKeychar → CString → Option CString
find_str [] keyptr = none
find_str (s ∷ hmap) keyptr = if str_eq s.key keyptr then some s.value else find_str hmap keyptr

unfoldable pub hmap_str_keychar_get : List HmapStrKeychar → Option CString → Option CString
unfolding find_str
hmap_str_keychar_get hmap none = none
hmap_str_keychar_get hmap (some keyptr) = find_str hmap keyptr

-- HASH_REPLACE_STR takes the old entry out, and puts the new one at the end.
unfoldable pub delete_str : List HmapStrKeychar → CString → List HmapStrKeychar
delete_str [] key = []
delete_str (s ∷ hmap) key =
    let rest = delete_str hmap key in if str_eq s.key key then hmap else s ∷ rest

-- The table, and whether the string was put.
unfoldable pub hmap_str_keychar_put :
    List HmapStrKeychar → Option CString → Option CString → List HmapStrKeychar × Bool
unfolding delete_str
hmap_str_keychar_put hmap none value = (hmap, false)
hmap_str_keychar_put hmap (some keyptr) none = (hmap, false)
hmap_str_keychar_put hmap (some keyptr) (some value) =
    if ltb (hash_key_char_size - 1) (length keyptr)
    then (hmap, false)
    else (delete_str hmap keyptr ++ record { key = keyptr; value = value } ∷ [], true)

unfoldable pub hmap_str_keychar_free : List HmapStrKeychar → List HmapStrKeychar
hmap_str_keychar_free hmap = []
