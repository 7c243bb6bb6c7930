-- ===== src/Utils/HashMap/Laws.antt =====
-- What hmap_str_keychar_get of src/utils/hashmap.c finds after hmap_str_keychar_put.
use edgesec.Common.{
  ◌-◌, ◌<◌, ◌≡◌, refl, sym, ap, ◌∙◌, subst, ltb, if◌then◌else◌, Bool, true, false, ◌||◌, Option,
  none, some, List, [], ◌∷◌, ◌++◌, CString, length, str_eq, str_eq_sound, str_eq_refl, Bool-cases,
  inl, inr, arith,
}
use edgesec.Utils.HashMap.{
  HmapStrKeychar, hash_key_char_size, find_str, delete_str, hmap_str_keychar_get,
  hmap_str_keychar_put,
}

-- No key stands twice.
abbrev pub has_str : CString → List HmapStrKeychar → Bool
has_str k [] = false
has_str k (s ∷ hmap) = str_eq s.key k || has_str k hmap

abbrev pub DistinctStrs : List HmapStrKeychar → Type 0
DistinctStrs [] = Unit
DistinctStrs (s ∷ hmap) = (has_str s.key hmap ≡ false) × DistinctStrs hmap

find_str-absent :
    (k : CString) (hmap : List HmapStrKeychar) → has_str k hmap ≡ false → find_str hmap k ≡ none
unfolding find_str
find_str-absent k [] h = refl
find_str-absent k (s ∷ hmap) h = ground (arith, find_str-absent k hmap)

find_str-append :
    (hmap : List HmapStrKeychar) (s : HmapStrKeychar) (k : CString)
    → find_str (hmap ++ s ∷ []) k ≡ elim (find_str hmap k) [
      | none ↦ if str_eq s.key k then some s.value else none
      | some v ↦ some v
    ]
unfolding find_str
find_str-append [] s k = refl
find_str-append (r ∷ hmap) s k = elim (Bool-cases (str_eq r.key k)) [
  | inl hit ↦ rw hit refl
  | inr miss ↦ rw miss (find_str-append hmap s k)
]

str_eq_trans : (a b : CString) → str_eq a b ≡ true → (c : CString) → str_eq a c ≡ str_eq b c
str_eq_trans a b e c = ap (λ x. str_eq x c) (str_eq_sound a b e)

find_str-delete_str :
    (hmap : List HmapStrKeychar) (key k : CString)
    → DistinctStrs hmap
    → find_str (delete_str hmap key) k ≡ (if str_eq key k then none else find_str hmap k)
unfolding find_str delete_str
find_str-delete_str [] key k d = elim (Bool-cases (str_eq key k)) [
  | inl e ↦ rw e refl
  | inr e ↦ rw e refl
]
find_str-delete_str (s ∷ hmap) key k (fresh, d) = elim (Bool-cases (str_eq s.key key)) [
  | inl hit ↦ elim (Bool-cases (str_eq key k)) [
    | inl same ↦
        let is_k : s.key ≡ k = str_eq_sound s.key key hit ∙ str_eq_sound key k same in
        rw (hit, same) (find_str-absent k hmap (subst (λ x. has_str x hmap ≡ false) is_k fresh))
    | inr other ↦ rw (hit, other, str_eq_trans s.key key hit k ∙ other) refl
  ]
  | inr miss ↦ elim (Bool-cases (str_eq s.key k)) [
    | inl found ↦ elim (Bool-cases (str_eq key k)) [
      | inl same ↦
          let equal : s.key ≡ key = str_eq_sound s.key k found ∙ sym (str_eq_sound key k same) in
          absurd (cc (miss, subst (λ x. str_eq s.key x ≡ true) equal (str_eq_refl s.key)))
      | inr other ↦ rw (miss, found, other) refl
    ]
    | inr further ↦ rw (miss, further) (find_str-delete_str hmap key k d)
  ]
]

-- After a put of a key that fits its array into a table without a key twice, a lookup gives the new
-- value at the key, and what it gave before at any other.
pub hmap_str_keychar_get-hmap_str_keychar_put :
    (hmap : List HmapStrKeychar) (key value k : CString)
    → DistinctStrs hmap
    → length key < hash_key_char_size
    → hmap_str_keychar_get (hmap_str_keychar_put hmap (some key) (some value)).0 (some k)
      ≡ (if str_eq key k then some value else hmap_str_keychar_get hmap (some k))
unfolding hmap_str_keychar_get hmap_str_keychar_put
hmap_str_keychar_get-hmap_str_keychar_put hmap key value k d fits =
    rw
      (
        short,
        find_str-append (delete_str hmap key) (record { key = key; value = value }) k,
        find_str-delete_str hmap key k d,
      )
      (either (str_eq key k) (find_str hmap k))
  where
    short : ltb (hash_key_char_size - 1) (length key) ≡ false
    short = ground (arith, fits)

    either :
        (b : Bool) (o : Option CString)
        → (elim (if b then none else o) [ none ↦ if b then some value else none | some v ↦ some v ])
          ≡ (if b then some value else o)
    either true o = refl
    either false none = refl
    either false (some v) = refl
