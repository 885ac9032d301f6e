-- ===== src/Iface/Laws.antt =====
-- The interface list as a directory: what `sr_get_interface` finds.
use internet_course.Base.{
  ◌≡◌, refl, ◌∙◌, true, Bool-cases, inl, inr, Option, none, some, List, [], ◌∷◌, ℕ, arith,
  if◌then◌else◌,
}
use internet_course.CString.{strncpy, strncmp_eq, strncmp_eq-strncpy, strncmp_eq-congr}
use internet_course.Iface.{SrIf, sr_iface_namelen, sr_get_interface, sr_add_interface}

-- An interface that is found has the name that was asked for.
pub sr_get_interface-name :
    (ifs : List SrIf) (name : List ℕ) {i : SrIf}
    → sr_get_interface ifs name ≡ some i
    → strncmp_eq sr_iface_namelen i.name name ≡ true
unfolding sr_get_interface
sr_get_interface-name [] name h = cc
sr_get_interface-name (j ∷ rest) name {i} h =
    ground (arith, sr_get_interface-name rest name {i = i})

abbrev pub or_new : Option SrIf → SrIf → List ℕ → List ℕ → Option SrIf
or_new (some i) fresh name asked = some i
or_new none fresh name asked =
    if strncmp_eq sr_iface_namelen name asked
    then some (record fresh { name = strncpy name sr_iface_namelen })
    else none

-- After `sr_add_interface` a name that was known means what it meant, and of the others exactly
-- the new one is known, as the new node.
pub sr_get_interface-add :
    (fresh : SrIf) (ifs : List SrIf) (name asked : List ℕ)
    → sr_get_interface (sr_add_interface fresh ifs name) asked
      ≡ or_new (sr_get_interface ifs asked) fresh name asked
unfolding sr_get_interface sr_add_interface
sr_get_interface-add fresh [] name asked = rw (strncmp_eq-strncpy sr_iface_namelen name asked)
sr_get_interface-add fresh (i ∷ rest) name asked =
    elim (Bool-cases (strncmp_eq sr_iface_namelen i.name asked)) [
      | inl e ↦ rw e
      | inr e ↦ rw e (sr_get_interface-add fresh rest name asked)
    ]

sr_get_interface-congr :
    (ifs : List SrIf) (a b : List ℕ)
    → strncmp_eq sr_iface_namelen a b ≡ true
    → sr_get_interface ifs a ≡ sr_get_interface ifs b
unfolding sr_get_interface
sr_get_interface-congr [] a b h = refl
sr_get_interface-congr (j ∷ rest) a b h =
    rw (strncmp_eq-congr sr_iface_namelen a b j.name h, sr_get_interface-congr rest a b h)

-- Looking an interface up by the name that it stores finds it again.
pub sr_get_interface_again :
    (ifs : List SrIf) (name : List ℕ) {i : SrIf}
    → sr_get_interface ifs name ≡ some i
    → sr_get_interface ifs i.name ≡ some i
sr_get_interface_again ifs name {i} h =
    sr_get_interface-congr ifs i.name name (sr_get_interface-name ifs name h) ∙ h
