-- ===== src/Print/Tables.antt =====
-- The printing of the interfaces, the routing table and the ARP cache, in
-- 20100117_RouterAssign_1/router/sr_if.c, sr_rt.c and sr_arpcache.c. `inet_ntoa` and `ctime` are
-- parameters. A name is printed up to its NUL; without one the code reads behind its array.
use internet_course.Base.{
  ℕ, ◌≡◌, refl, Option, none, some, List, [], ◌∷◌, ◌++◌, All, get_or, if◌then◌else◌,
}
use internet_course.Base.Result.{Result, ok, fault, out_of_bounds}
use internet_course.Bytes.{ntohl}
use internet_course.Iface.{SrIf}
use internet_course.Route.{SrRt}
use internet_course.Cache.{ArpEntry, ArpCache}
use internet_course.Server.Session.{c_string}
use internet_course.Print.{number, text, Call, says, shows, prints, then_print}
use internet_course.Print.Bounds.{Prints, Prints-then}

-- A call that shows a name.
unfoldable pub print_name : (List ℕ → List Call) → Option (List ℕ) → Result (List Call)
print_name calls none = fault out_of_bounds
print_name calls (some name) = ok (calls name)

-- `DebugMAC`
unfoldable pub debug_mac : List ℕ → List Call
debug_mac x =
    shows "%02x:" (get_or x 0 0)
    ∷ shows "%02x:" (get_or x 1 0)
    ∷ shows "%02x:" (get_or x 2 0)
    ∷ shows "%02x:" (get_or x 3 0)
    ∷ shows "%02x:" (get_or x 4 0)
    ∷ shows "%02x" (get_or x 5 0)
    ∷ []

module _ (inet_ntoa : ℕ → List ℕ) where
  unfoldable pub sr_print_if : SrIf → Result (List Call)
  sr_print_if iface =
      print_name
        (λ name.
          prints "%s\tHWaddr" (text name ∷ [])
          ∷ (debug_mac iface.addr
              ++ (says "\n" ∷ prints "\tinet addr %s\n" (text (inet_ntoa iface.ip) ∷ []) ∷ [])))
        (c_string iface.name)

  -- The loop of `sr_print_if_list`.
  unfoldable pub print_ifs : List SrIf → Result (List Call)
  print_ifs [] = ok []
  print_ifs (i ∷ rest) = then_print (sr_print_if i) (print_ifs rest)

  unfoldable pub sr_print_if_list : List SrIf → Result (List Call)
  sr_print_if_list [] = ok (says " Interface list empty \n" ∷ [])
  sr_print_if_list (i ∷ rest) = print_ifs (i ∷ rest)

  unfoldable pub sr_print_routing_entry : SrRt → Result (List Call)
  sr_print_routing_entry entry =
      print_name
        (λ name.
          prints "%s\t\t" (text (inet_ntoa entry.dest) ∷ [])
          ∷ prints "%s\t" (text (inet_ntoa entry.gw) ∷ [])
          ∷ prints "%s\t" (text (inet_ntoa entry.mask) ∷ [])
          ∷ prints "%s\n" (text name ∷ [])
          ∷ [])
        (c_string entry.interface)

  -- The loop of `sr_print_routing_table`.
  unfoldable pub print_entries : List SrRt → Result (List Call)
  print_entries [] = ok []
  print_entries (r ∷ rest) = then_print (sr_print_routing_entry r) (print_entries rest)

  unfoldable pub sr_print_routing_table : List SrRt → Result (List Call)
  sr_print_routing_table [] = ok (says " *warning* Routing table empty \n" ∷ [])
  sr_print_routing_table (r ∷ rest) =
      then_print (ok (says "Destination\tGateway\t\tMask\tIface\n" ∷ [])) (print_entries (r ∷ rest))

  -- The name ends within its array.
  abbrev pub HasEnd : List ℕ → Type 0
  HasEnd name = (s : List ℕ) × (c_string name ≡ some s)

  entry-Prints : (r : SrRt) → HasEnd r.interface → Prints (sr_print_routing_entry r)
  unfolding sr_print_routing_entry print_name
  entry-Prints r (s, e) = rw e (_, refl)

  entries-Prints :
      (rts : List SrRt) → All (λ r. HasEnd r.interface) rts → Prints (print_entries rts)
  unfolding print_entries
  entries-Prints [] h = ([], refl)
  entries-Prints (r ∷ rest) h = Prints-then _ _ (entry-Prints r h.0) (entries-Prints rest h.1)

  -- The routing table is printed if each interface name ends within its array.
  pub table-Prints :
      (rts : List SrRt) → All (λ r. HasEnd r.interface) rts → Prints (sr_print_routing_table rts)
  unfolding sr_print_routing_table
  table-Prints [] h = (_, refl)
  table-Prints (r ∷ rest) h =
      Prints-then _ _ (says "Destination\tGateway\t\tMask\tIface\n" ∷ [], refl)
        (entries-Prints (r ∷ rest) h)

module _ (ctime : ℕ → List ℕ) where
  unfoldable pub dump_entry : ArpEntry → Call
  dump_entry cur = prints "%.1x%.1x%.1x%.1x%.1x%.1x   %.8x   %.24s   %d\n" (
      number (get_or cur.mac 0 0)
      ∷ number (get_or cur.mac 1 0)
      ∷ number (get_or cur.mac 2 0)
      ∷ number (get_or cur.mac 3 0)
      ∷ number (get_or cur.mac 4 0)
      ∷ number (get_or cur.mac 5 0)
      ∷ number (ntohl cur.ip)
      ∷ text (ctime cur.added)
      ∷ number (if cur.valid then 1 else 0)
      ∷ [])

  -- The loop over the slots.
  unfoldable pub dump_entries : List ArpEntry → List Call
  dump_entries [] = []
  dump_entries (e ∷ rest) = dump_entry e ∷ dump_entries rest

  unfoldable pub sr_arpcache_dump : ArpCache → List Call
  sr_arpcache_dump cache =
      says "\nMAC            IP         ADDED                      VALID\n"
      ∷ says "-----------------------------------------------------------\n"
      ∷ (dump_entries cache.entries ++ says "\n" ∷ [])
