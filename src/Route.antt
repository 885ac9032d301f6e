-- ===== src/Route.antt =====
-- The routing table of 20100117_RouterAssign_1/router/sr_rt.c, its check against the interfaces
-- (`sr_verify_routing_table` of 20100117_RouterAssign_1/router/sr_main.c) and the lookup
-- `longest_prefix_sum` of 20100117_RouterAssign_1/router/sr_ip.c.
pub mod Laws
pub mod Load
use internet_course.Base.{
  ℕ, suc, ◌+◌, ◌≡◌, Bool, true, false, Option, none, some, List, [], ◌∷◌, if◌then◌else◌, ◌==◌,
}
use internet_course.CString.{strncpy, strncmp_eq}
use internet_course.Iface.{SrIf, sr_iface_namelen}

pub record SrRt : Type 0 where
  pub dest : ℕ
  pub gw : ℕ
  pub mask : ℕ
  pub interface : List ℕ

-- The new entry goes to the end of the table.
unfoldable pub sr_add_rt_entry : List SrRt → ℕ → ℕ → ℕ → List ℕ → List SrRt
sr_add_rt_entry [] dest gw mask if_name =
    record { dest = dest; gw = gw; mask = mask; interface = strncpy if_name sr_iface_namelen } ∷ []
sr_add_rt_entry (r ∷ rest) dest gw mask if_name = r ∷ sr_add_rt_entry rest dest gw mask if_name

-- The loop over the entries that have a successor, and the test of the last entry behind it.
unfoldable pub longest_prefix_sum : List SrRt → ℕ → Option SrRt
longest_prefix_sum [] ip_dst = none
longest_prefix_sum (r ∷ []) ip_dst = if ip_dst == r.dest then some r else none
longest_prefix_sum (r ∷ s ∷ rest) ip_dst =
    if ip_dst == r.dest then some r else longest_prefix_sum (s ∷ rest) ip_dst

-- The inner loop: is there an interface of that name?
unfoldable pub interface_exists : List SrIf → List ℕ → Bool
interface_exists [] interface = false
interface_exists (i ∷ rest) interface =
    if strncmp_eq sr_iface_namelen i.name interface then true else interface_exists rest interface

-- The outer loop counts the entries without an interface.
unfoldable pub count_missing : List SrIf → List SrRt → ℕ
unfolding interface_exists
count_missing ifs [] = 0
count_missing ifs (r ∷ rest) =
    (if interface_exists ifs r.interface then 0 else 1) + count_missing ifs rest

unfoldable pub sr_verify_routing_table : List SrIf → List SrRt → ℕ
unfolding count_missing
sr_verify_routing_table [] rts = 999
sr_verify_routing_table (i ∷ ifs) [] = 999
sr_verify_routing_table (i ∷ ifs) (r ∷ rts) = count_missing (i ∷ ifs) (r ∷ rts)
