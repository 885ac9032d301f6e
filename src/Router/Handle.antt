-- ===== src/Router/Handle.antt =====
-- `sr_handlepacket` of 20100117_RouterAssign_1/router/sr_router.c.
use internet_course.Base.{ℕ, List, length, if◌then◌else◌, ◌==◌, leb}
use internet_course.Base.Result.{Cmd, pure, guard, out_of_bounds, ◌>>◌}
use internet_course.Router.{SrInstance, Env}
use internet_course.Router.Arp.{arp_packet}
use internet_course.Router.Ip.{ethertype, ethertype_ip, ethertype_arp, ip_packet}

-- `now` is the time during the call and `fuel` bounds the loop of `handle_arpreq`.
unfoldable pub sr_handlepacket : Env → ℕ → ℕ → List ℕ → ℕ → List ℕ → Cmd SrInstance (Unit {0})
sr_handlepacket env fuel now packet len interface = do
  guard (leb 14 (length packet)) out_of_bounds
  if ethertype packet == ethertype_arp
      then arp_packet env fuel now packet interface len
      else (if ethertype packet == ethertype_ip
          then ip_packet env fuel now packet interface len
          else pure tt)
