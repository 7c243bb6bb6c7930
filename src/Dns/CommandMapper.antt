-- ===== src/Dns/CommandMapper.antt =====
-- src/dns/command_mapper.c: the commands that were sent, by their hash. The uthash table is the list
-- of its keys, in the order of insertion; the value is always true. Allocation succeeds.
use edgesec.Common.{
  ℕ, ◌==◌, Bool, false, ◌||◌, if◌then◌else◌, Option, none, some, List, [], ◌∷◌, ◌++◌, CString,
}
use edgesec.Utils.Hash.{md_hash}

unfoldable pub has_key : ℕ → List ℕ → Bool
has_key key [] = false
has_key key (s ∷ hmap) = (s == key) || has_key key hmap

-- -1 is `none`.
unfoldable pub put_command_mapper : Option (List ℕ) → Option CString → Option (List ℕ)
unfolding has_key md_hash
put_command_mapper (some hmap) (some command) =
    if has_key (md_hash command) hmap then some hmap else some (hmap ++ md_hash command ∷ [])
put_command_mapper _ _ = none

unfoldable pub check_command_mapper : Option (List ℕ) → Option CString → Option Bool
unfolding has_key md_hash
check_command_mapper (some hmap) (some command) = some (has_key (md_hash command) hmap)
check_command_mapper _ _ = none

unfoldable pub free_command_mapper : List ℕ → List ℕ
free_command_mapper [] = []
free_command_mapper (current ∷ hmap) = free_command_mapper hmap
