-- ===== src/Router/Examples/Returning.antt =====
-- The theorem that short frames are handled, at the network.
use internet_course.Base.{refl, inr, arith}
use internet_course.CString.{strncmp_eq}
use internet_course.Route.{sr_verify_routing_table, count_missing, interface_exists}
use internet_course.Router.Handle.{sr_handlepacket}
use internet_course.Router.Returning.Frames.{Able, Handles}
use internet_course.Router.Returning.Handling.{handlepacket-Handles}
use internet_course.Router.Examples.Network.{
  env, eth0, frame, frame-IsBytes, router, found_eth0, pending-IsQueue,
}

router-Able : Able 12 eth0.name router
unfolding sr_verify_routing_table count_missing interface_exists strncmp_eq
router-Able = record {
  way = (eth0, found_eth0);
  verified = refl;
  queue = pending-IsQueue;
  sound = ((inr (omega arith), tt), tt);
}

handlepacket-Handles_example :
    Handles 12 eth0.name (sr_handlepacket env 3 12 frame 42 eth0.name) router
handlepacket-Handles_example =
    handlepacket-Handles env 3 12 eth0.name frame (omega arith, omega arith) router router-Able
      frame-IsBytes
