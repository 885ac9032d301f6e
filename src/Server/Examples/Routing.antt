-- ===== src/Server/Examples/Routing.antt =====
-- The theorems on frames from the stream, at the network.
use internet_course.Base.{◌∷◌}
use internet_course.Server.Session.{Session, World}
use internet_course.Server.Main.Serving.{Step, frame_comes, thread_wakes}
use internet_course.Base.{◌≡◌, refl, none, some, List, [], arith}
use internet_course.Base.Result.{ok}
use internet_course.CString.{strncpy, strncmp_eq}
use internet_course.Iface.{sr_get_interface}
use internet_course.Router.Forward.{forward_packet}
use internet_course.Router.Sending.{sent_on}
use internet_course.Router.Examples.Network.{
  env, eth0, frame, frame-IsForwarded, router, host_entry, host_route, host-IsMac, found_hop,
}
use internet_course.Server.Socket.{Event}
use internet_course.Server.Socket.Stream.{content}
use internet_course.Server.Session.{one}
use internet_course.Server.Reader.{sr_read_from_server}
use internet_course.Server.Reader.Delivery.{named}
use internet_course.Server.Reader.Routing.{sr_read_from_server-forwards}
use internet_course.Server.Examples.{world, session, carried, carried-content}

known : sr_get_interface router.if_list (named frame eth0.name (omega arith)) ≡ some eth0
unfolding sr_get_interface strncmp_eq strncpy
known = refl

sr_read_from_server-forwards_example :
    (rest : List Event) × (content rest ≡ [])
    × (sr_read_from_server world 3 5 (session carried)
        ≡ ok (
          one,
          record (session rest) {
            router = sent_on env router (forward_packet eth0 host_entry frame) 42 eth0.name;
          },
        ))
sr_read_from_server-forwards_example =
    sr_read_from_server-forwards world 3 5 frame eth0.name [] (omega arith) (session carried)
      host_route host_entry eth0 eth0 tt (omega arith) carried-content known
      (frame-IsForwarded router.cache none) found_hop host-IsMac

-- A round of the thread, the frame, and another round.
abbrev one_frame : List Step
one_frame =
    thread_wakes ∷ frame_comes (record { frame = frame; name = eth0.name }) ∷ thread_wakes ∷ []

-- The memory at every address holds the one for which there is a route.
abbrev full_world : World
full_world = record world { env = record env { peek = λ address. some host_route.dest } }
