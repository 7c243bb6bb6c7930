-- ===== src/Utils/Examples.antt =====
-- The theorems on src/utils at concrete inputs.
use edgesec.Common.{
  List, refl, str_eq, if◌then◌else◌, ◌%◌, ◌^◌, ◌≡◌, some, [], ◌∷◌, codes, Mac, ℤ, arith,
}
use edgesec.Utils.Net.{mac_str, hwaddr_aton2}
use edgesec.Utils.Net.MacText.{IsBytes, hwaddr_aton2-mac_str}
use edgesec.Utils.Strings.{split_string_array}
use edgesec.Utils.Strings.Split.{join, Separated, split_string_array_lem}
use edgesec.Utils.StringQueue.{init_string_queue}
use edgesec.Utils.StringQueue.Order.{push_all, bounded, push_all-latest}
use edgesec.Utils.HashMap.{HmapStrKeychar, find_str, hmap_str_keychar_get, hmap_str_keychar_put}
use edgesec.Utils.HashMap.Laws.{DistinctStrs, hmap_str_keychar_get-hmap_str_keychar_put}
use edgesec.Utils.Hash.{sdbm_hash, sdbm_polynomial, sdbm_hash-polynomial}
use edgesec.Utils.IfaceMapper.{VlanConn}

abbrev router : Mac
router = record { b0 = 0; b1 = 255; b2 = 16; b3 = 10; b4 = 171; b5 = 7 }

router-IsBytes : IsBytes router
router-IsBytes = record {
  fit0 = omega arith;
  fit1 = omega arith;
  fit2 = omega arith;
  fit3 = omega arith;
  fit4 = omega arith;
  fit5 = omega arith;
}

hwaddr_aton2-mac_str_example : hwaddr_aton2 (mac_str router) ≡ some (router, 17)
hwaddr_aton2-mac_str_example = hwaddr_aton2-mac_str router router-IsBytes

split_string_array_lem_example :
    (join 32 (split_string_array (codes "SET_IP add") 32) ≡ codes "SET_IP add")
    × Separated 32 (split_string_array (codes "SET_IP add") 32)
split_string_array_lem_example = split_string_array_lem (codes "SET_IP add") 32

sdbm_hash-polynomial_example :
    sdbm_hash (1 ∷ 255 ∷ 16 ∷ []) ≡ sdbm_polynomial 0 (1 ∷ 255 ∷ 16 ∷ []) % 2 ^ 32
sdbm_hash-polynomial_example = sdbm_hash-polynomial (1 ∷ 255 ∷ 16 ∷ [])

abbrev guests : VlanConn
guests = record { vlanid = ℤ.pos 5; ifname = codes "wlan5"; capture_pid = 0 }

-- The queue of two strings, after three.
push_all-latest_example :
    push_all (some (init_string_queue (ℤ.pos 2))) (codes "a" ∷ codes "b" ∷ codes "c" ∷ [])
    ≡ some (bounded 2 (codes "b" ∷ codes "c" ∷ []))
push_all-latest_example = push_all-latest 2 (codes "a" ∷ codes "b" ∷ codes "c" ∷ [])

abbrev two_strings : List HmapStrKeychar
two_strings =
    record { key = codes "ssid"; value = codes "wlan" }
    ∷ record { key = codes "mode"; value = codes "g" }
    ∷ []

two_strings-DistinctStrs : DistinctStrs two_strings
unfolding find_str str_eq
two_strings-DistinctStrs = (refl, (refl, tt))

hmap_str_keychar_get-hmap_str_keychar_put_example :
    hmap_str_keychar_get
      (hmap_str_keychar_put two_strings (some (codes "ssid")) (some (codes "mesh"))).0
      (some (codes "ssid"))
    ≡ (if str_eq (codes "ssid") (codes "ssid")
        then some (codes "mesh")
        else hmap_str_keychar_get two_strings (some (codes "ssid")))
hmap_str_keychar_get-hmap_str_keychar_put_example =
    hmap_str_keychar_get-hmap_str_keychar_put two_strings (codes "ssid") (codes "mesh")
      (codes "ssid") two_strings-DistinctStrs (omega arith)
