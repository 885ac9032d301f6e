-- ===== src/Iface/Hardware.antt =====
-- `sr_handle_hwinfo` of 20100117_RouterAssign_1/router/sr_vns_comm.c, which fills the interface list
-- from a message of the server, with the message of 20100117_RouterAssign_1/router/vnscommand.h.
pub mod Laws
use internet_course.Base.{
  ℕ, zero, suc, ◌+◌, ◌*◌, ◌-◌, ◌/◌, ◌%◌, ◌^◌, ◌<◌, ◌≤◌, ◌≡◌, ◌∙◌, ap, sym, refl, Bool, true, false,
  List, [], ◌∷◌, ◌++◌, length, length-append, take, drop, map, All, arith, if◌then◌else◌, ◌==◌, ltb,
}
use internet_course.Base.Result.{Result, ok, fault, out_of_bounds}
use internet_course.Bytes.{slice, word_le, bytes_le, ntohl, htonl}
use internet_course.Bytes.Laws.{
  word_le-bytes_le₄, length-bytes_le, slice-append_left, slice-append_right, slice-append_middle,
}
use internet_course.CString.{strncpy}
use internet_course.Iface.{
  SrIf, sr_iface_namelen, sr_add_interface, sr_set_ether_addr, sr_set_ether_ip, set_last,
}

-- `c_hw_entry`
pub record HwEntry : Type 0 where
  pub m_key : ℕ
  pub value : List ℕ

unfoldable pub read_hw_entry : List ℕ → HwEntry
read_hw_entry p = record { m_key = word_le (slice p 0 4); value = slice p 4 32 }

abbrev pub hwinterface : ℕ
hwinterface = 1

abbrev pub hwether : ℕ
hwether = 32

abbrev pub hwethip : ℕ
hwethip = 64

-- The body of the `switch`. The keys that only print change nothing.
unfoldable pub handle_entry : SrIf → HwEntry → List SrIf → Result (List SrIf)
handle_entry fresh e ifs =
    let key = ntohl e.m_key in
    if key == hwinterface
    then ok (sr_add_interface fresh ifs e.value)
    else if key == hwethip
    then sr_set_ether_ip ifs (word_le (slice e.value 0 4))
    else if key == hwether
    then sr_set_ether_addr ifs e.value
    else ok ifs

-- The loop; `p` is what is left of the message, and `fresh` what new nodes hold.
unfoldable pub handle_entries : (ℕ → SrIf) → ℕ → List ℕ → List SrIf → Result (List SrIf)
handle_entries fresh zero p ifs = ok ifs
handle_entries fresh (suc n) p ifs =
    if ltb (length p) 36
    then fault out_of_bounds
    else elim (handle_entry (fresh n) (read_hw_entry p) ifs) [
      | fault e ↦ fault e
      | ok ifs' ↦ handle_entries fresh n (drop 36 p) ifs'
    ]

-- The number of entries: a difference of `size_t`, divided, and stored in an `int`, which a loop
-- from 0 takes for none where it is negative.
unfoldable pub num_entries : List ℕ → ℕ
num_entries hwinfo =
    let n = (ntohl (word_le (slice hwinfo 0 4)) + (2 ^ 64 - 8)) % 2 ^ 64 / 36 % 2 ^ 32 in
    if ltb n (2 ^ 31) then n else 0

unfoldable pub sr_handle_hwinfo : (ℕ → SrIf) → List ℕ → List SrIf → Result (List SrIf)
sr_handle_hwinfo fresh hwinfo ifs =
    if ltb (length hwinfo) 8
    then fault out_of_bounds
    else handle_entries fresh (num_entries hwinfo) (drop 8 hwinfo) ifs
