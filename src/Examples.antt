-- ===== src/Examples.antt =====
-- The theorems on the checksum, the interface list and the routing table, at small data.
use internet_course.Base.{ℕ, ◌≡◌, ◌≢◌, ◌↔◌, refl, Option, none, some, List, [], ◌∷◌, All, arith}
use internet_course.Checksum.{cksum}
use internet_course.Checksum.Sum.{word_sum, Complements, cksum-Complements}
use internet_course.CString.{strncmp_eq}
use internet_course.Iface.{SrIf}
use internet_course.Base.Result.{ok}
use internet_course.Base.{◌++◌, replicate}
use internet_course.Iface.Hardware.{sr_handle_hwinfo}
use internet_course.Iface.Hardware.Laws.{Port, PortFits, nodes, announcement, sr_handle_hwinfo_lem}
use internet_course.Route.{
  SrRt, longest_prefix_sum, interface_exists, count_missing, sr_verify_routing_table,
}
use internet_course.Route.Laws.{HasInterface, sr_verify_routing_table_iff, longest_prefix_sum-none}
use internet_course.Route.Load.{Words, sr_load_rt, entries_of, replaced, sr_load_rt_lem}

abbrev odd_bytes : List ℕ
odd_bytes = 69 ∷ 0 ∷ 255 ∷ []

cksum-Complements_example : Complements (word_sum odd_bytes) (cksum odd_bytes)
cksum-Complements_example =
    cksum-Complements odd_bytes (omega arith, (omega arith, (omega arith, tt))) (omega arith)

abbrev eth0 : SrIf
eth0 = record { name = 101 ∷ 116 ∷ 104 ∷ 48 ∷ 0 ∷ []; addr = []; ip = 1; speed = 0 }

abbrev eth1 : List ℕ
eth1 = 101 ∷ 116 ∷ 104 ∷ 49 ∷ 0 ∷ []

abbrev route : SrRt
route = record { dest = 5; gw = 0; mask = 0; interface = eth0.name }

sr_verify_routing_table_iff_example :
    (sr_verify_routing_table (eth0 ∷ []) (route ∷ []) ≡ 0)
    ↔ (((eth0 ∷ []) ≢ []) × ((route ∷ []) ≢ []) × All (HasInterface (eth0 ∷ [])) (route ∷ []))
sr_verify_routing_table_iff_example = sr_verify_routing_table_iff (eth0 ∷ []) (route ∷ [])

verified : sr_verify_routing_table (eth0 ∷ []) (route ∷ []) ≡ 0
unfolding sr_verify_routing_table count_missing interface_exists strncmp_eq
verified = refl

routed : longest_prefix_sum (route ∷ []) 5 ≡ some route
unfolding longest_prefix_sum
routed = refl

longest_prefix_sum-none_example : longest_prefix_sum (route ∷ []) 6 ≡ none
longest_prefix_sum-none_example = longest_prefix_sum-none (route ∷ []) 6 (omega arith, tt)

-- A line is its destination; the other words stay as they were. An address is its first number.
abbrev scan : List ℕ → Words → Words
scan line w = record w { dest = line }

abbrev number : List ℕ → Option ℕ
number [] = none
number (c ∷ cs) = some c

abbrev buffers : Words
buffers = record { dest = []; gw = 1 ∷ []; mask = 2 ∷ []; iface = 101 ∷ [] }

abbrev lines : List (List ℕ)
lines = (5 ∷ []) ∷ (6 ∷ []) ∷ [] ∷ []

sr_load_rt_lem_example : sr_load_rt scan number (some lines) buffers (route ∷ []) ≡ (
  (entries_of scan number lines buffers).0,
  replaced scan number (route ∷ []) (entries_of scan number lines buffers).1,
)
sr_load_rt_lem_example = sr_load_rt_lem scan number lines buffers (route ∷ [])

-- One interface, "eth1" with the address 10.0.0.1.
abbrev port : Port
port = record {
  name = eth1 ++ replicate 27 0;
  mac = (2 ∷ 0 ∷ 0 ∷ 0 ∷ 0 ∷ 7 ∷ []) ++ replicate 26 0;
  ip = (10 ∷ 0 ∷ 0 ∷ 1 ∷ []) ++ replicate 28 0;
}

port-Fits : PortFits port
port-Fits = record { name_size = refl; mac_size = refl; ip_size = refl }

abbrev unset : ℕ → SrIf
unset n = eth0

sr_handle_hwinfo_lem_example :
    sr_handle_hwinfo unset (announcement (port ∷ [])) (eth0 ∷ [])
    ≡ ok ((eth0 ∷ []) ++ nodes unset (port ∷ []))
sr_handle_hwinfo_lem_example =
    sr_handle_hwinfo_lem unset (port ∷ []) (eth0 ∷ []) (port-Fits, tt) (omega arith)
