-- ===== src/Router/Send.antt =====
-- `sr_send_packet` and `sr_ether_addrs_match_interface` of
-- 20100117_RouterAssign_1/router/sr_vns_comm.c, with the message of
-- 20100117_RouterAssign_1/router/vnscommand.h.
use internet_course.Base.{
  Option, ℕ, ◌+◌, ◌%◌, ◌^◌, Bool, false, none, some, List, ◌∷◌, ◌++◌, length, if◌then◌else◌, ltb,
  leb, bytes_eq,
}
use internet_course.Base.Result.{
  Cmd, Result, ok, fault, pure, guard, get_state, out_of_bounds, ◌>>=◌, ◌>>◌,
}
use internet_course.Bytes.{slice, bytes_le, htonl}
use internet_course.CString.{strncpy}
use internet_course.Dump.{sr_log_packet}
use internet_course.Protocol.Struct.{get}
use internet_course.Protocol.Ether.{ethernet_hdr}
use internet_course.Iface.{sr_get_interface}
use internet_course.Router.{SrInstance, Env}

-- `VNSPACKET`
abbrev pub vnspacket : ℕ
vnspacket = 4

-- The message that carries a frame: `c_packet_header` and the frame behind it.
unfoldable pub packet_message : List ℕ → ℕ → List ℕ → List ℕ
packet_message buf len iface =
    bytes_le 4 (htonl ((len + 24) % 2 ^ 32))
    ++ (bytes_le 4 (htonl vnspacket) ++ (strncpy iface 16 ++ slice buf 0 len))

-- Is the source address of the frame that of the interface?
unfoldable pub sr_ether_addrs_match_interface : SrInstance → List ℕ → List ℕ → Bool
sr_ether_addrs_match_interface sr buf name = elim (sr_get_interface sr.if_list name) [
  | none ↦ false
  | some iface ↦ bytes_eq (get ethernet_hdr buf 0).ether_shost iface.addr
]

-- `sr_log_packet` on the log of the router.
unfoldable pub set_log : Result (Option (List ℕ)) → Cmd SrInstance (Unit {0})
set_log (ok logfile) sr = ok (tt, record sr { logfile = logfile })
set_log (fault e) sr = fault e

unfoldable pub log_packet : Env → List ℕ → ℕ → Cmd SrInstance (Unit {0})
log_packet env buf len sr = set_log (sr_log_packet env.gettimeofday sr.logfile buf len) sr

-- `write` to the socket.
unfoldable pub write_message : Env → List ℕ → Cmd SrInstance Bool
write_message env message sr = ok (env.write_whole sr.wire, record sr { wire = message ∷ sr.wire })

-- `true` is the return value 0, `false` is -1. Copying `len` bytes out of a shorter block is a
-- fault.
unfoldable pub sr_send_packet : Env → List ℕ → ℕ → List ℕ → Cmd SrInstance Bool
sr_send_packet env buf len iface = if ltb len 14 then pure false else (do
  guard (leb len (length buf)) out_of_bounds
  log_packet env buf len
  sr ← get_state
  if sr_ether_addrs_match_interface sr buf iface
      then write_message env (packet_message buf len iface)
      else pure false)
