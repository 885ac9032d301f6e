-- ===== src/Iface.antt =====
-- The interface list of 20100117_RouterAssign_1/router/sr_if.c, and the hardware information that
-- fills it (`sr_handle_hwinfo` of 20100117_RouterAssign_1/router/sr_vns_comm.c). A new node comes
-- from `malloc`: its content before the writes is an argument, `fresh`.
pub mod Laws
pub mod Hardware
use internet_course.Base.{ℕ, ◌≡◌, Bool, Option, none, some, List, [], ◌∷◌, if◌then◌else◌, ◌==◌}
use internet_course.Base.Result.{Result, ok, fault, assertion}
use internet_course.Bytes.{slice}
use internet_course.CString.{strncpy, strncmp_eq}

pub record SrIf : Type 0 where
  pub name : List ℕ
  pub addr : List ℕ
  pub ip : ℕ
  pub speed : ℕ

-- `sr_IFACE_NAMELEN`
abbrev pub sr_iface_namelen : ℕ
sr_iface_namelen = 32

-- The first interface of that name; `none` is the null pointer.
unfoldable pub sr_get_interface : List SrIf → List ℕ → Option SrIf
sr_get_interface [] name = none
sr_get_interface (i ∷ rest) name =
    if strncmp_eq sr_iface_namelen i.name name then some i else sr_get_interface rest name

-- The new node goes to the end of the list.
unfoldable pub sr_add_interface : SrIf → List SrIf → List ℕ → List SrIf
sr_add_interface fresh [] name = record fresh { name = strncpy name sr_iface_namelen } ∷ []
sr_add_interface fresh (i ∷ rest) name = i ∷ sr_add_interface fresh rest name

-- The assignment to the last node; an empty list fails the `assert`.
unfoldable pub set_last : (SrIf → SrIf) → SrIf → List SrIf → List SrIf
set_last f i [] = f i ∷ []
set_last f i (j ∷ rest) = i ∷ set_last f j rest

unfoldable pub sr_set_ether_addr : List SrIf → List ℕ → Result (List SrIf)
unfolding set_last
sr_set_ether_addr [] addr = fault assertion
sr_set_ether_addr (i ∷ rest) addr = ok (set_last (λ j. record j { addr = slice addr 0 6 }) i rest)

unfoldable pub sr_set_ether_ip : List SrIf → ℕ → Result (List SrIf)
unfolding set_last
sr_set_ether_ip [] ip_nbo = fault assertion
sr_set_ether_ip (i ∷ rest) ip_nbo = ok (set_last (λ j. record j { ip = ip_nbo }) i rest)
