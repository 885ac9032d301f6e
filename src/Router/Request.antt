-- ===== src/Router/Request.antt =====
-- `arp_request_send` and `handle_arpreq` of 20100117_RouterAssign_1/router/sr_arp.c. A request is
-- passed by its address, and each access looks whether the node is still there.
use internet_course.Base.{
  ℕ, zero, suc, ◌+◌, ◌%◌, ◌^◌, Bool, Option, none, some, List, [], ◌∷◌, replicate, if◌then◌else◌,
  ◌==◌, ltb, leb,
}
use internet_course.Base.Result.{
  Cmd, pure, raise, need, get_state, null_deref, use_after_free, wild_pointer, out_of_fuel, ◌>>=◌,
  ◌>>◌,
}
use internet_course.Bytes.{slice, htons}
use internet_course.Protocol.Struct.{put}
use internet_course.Protocol.Ether.{EthernetHdr, ethernet_hdr}
use internet_course.Protocol.Arp.{ArpHdr, arp_hdr}
use internet_course.Iface.{SrIf}
use internet_course.Route.{SrRt, longest_prefix_sum}
use internet_course.Cache.{SrPacket, ArpReq, update_request, sr_arpreq_destroy}
use internet_course.Router.{SrInstance, Env, on_cache}
use internet_course.Router.Send.{sr_send_packet}
use internet_course.Router.Icmp.{deref_interface, dest_host_unreach}

-- The broadcast that asks for the Ethernet address of `ip`.
unfoldable pub arp_request_packet : Env → SrIf → ℕ → List ℕ
arp_request_packet env get_interface ip =
    let ehdr : EthernetHdr = record {
      ether_dhost = replicate 6 255;
      ether_shost = slice get_interface.addr 0 6;
      ether_type = htons 2054;
    } in
    let ahdr : ArpHdr = record {
      ar_hrd = htons 1;
      ar_pro = htons 2048;
      ar_tha = replicate 6 255;
      ar_sha = slice get_interface.addr 0 6;
      ar_hln = 6;
      ar_pln = 4;
      ar_op = htons 1;
      ar_sip = get_interface.ip;
      ar_tip = ip;
    } in
    put arp_hdr (put ethernet_hdr (env.fresh 42) 0 ehdr) 14 ahdr

-- `ip` is `request->ip`; `dest` may be the null pointer.
unfoldable pub arp_request_send : Env → ℕ → Option SrRt → Cmd SrInstance Bool
arp_request_send env ip dest = do
  rt ← need dest null_deref
  get_interface ← deref_interface rt.interface
  sr_send_packet env (arp_request_packet env get_interface ip) 42 get_interface.name

-- The node at an address, if it is in the queue.
unfoldable pub find_address : List ArpReq → ℕ → Option ArpReq
find_address [] address = none
find_address (r ∷ rest) address = if r.address == address then some r else find_address rest address

-- A read through a pointer to a request.
unfoldable pub read_request : ℕ → Cmd SrInstance ArpReq
read_request address = do
  sr ← get_state
  need (find_address sr.cache.requests address) use_after_free

-- A write through a pointer to a request.
unfoldable pub write_request : ℕ → (ArpReq → ArpReq) → Cmd SrInstance (Unit {0})
write_request address f = do
  req ← read_request address
  on_cache (λ c. (tt, record c { requests = update_request address f c.requests }))

-- `longest_prefix_sum (sr, req->ip)`: the number is taken for the address of an IP header, whose
-- `ip_dst` lies 16 bytes further.
unfoldable pub wild_lookup : Env → ℕ → Cmd SrInstance (Option SrRt)
wild_lookup env ip = do
  ip_dst ← need (env.peek (ip + 16)) wild_pointer
  sr ← get_state
  pure (longest_prefix_sum sr.routing_table ip_dst)

-- One round of the loop for a request that was sent five times.
unfoldable pub give_up_round : Env → ℕ → SrPacket → Cmd SrInstance (Unit {0})
give_up_round env ip p = do
  dest_rt ← wild_lookup env ip
  rt ← need dest_rt null_deref
  dest_host_unreach env p.buf rt.interface p.len

-- The loop `while (packets->next != NULL)`; `packets` is not moved on.
unfoldable pub give_up : Env → ℕ → ℕ → List SrPacket → Cmd SrInstance (Unit {0})
give_up env fuel ip [] = pure tt
give_up env fuel ip (p ∷ []) = pure tt
give_up env zero ip (p ∷ q ∷ rest) = raise out_of_fuel
give_up env (suc fuel) ip (p ∷ q ∷ rest) = do
  give_up_round env ip p
  give_up env fuel ip (p ∷ q ∷ rest)

-- The body of `handle_arpreq` where more than a second has passed since the last sending.
unfoldable pub retry : Env → ℕ → ArpReq → Option SrRt → Cmd SrInstance (Unit {0})
retry env fuel req dest_rt =
    if leb 5 req.times_sent
    then (give_up env fuel req.ip req.packets
        >> on_cache (λ c. (tt, sr_arpreq_destroy c req.address)))
    else (arp_request_send env req.ip dest_rt >> pure tt)

unfoldable pub handle_arpreq : Env → ℕ → ℕ → ℕ → Option SrRt → Cmd SrInstance (Unit {0})
handle_arpreq env fuel now address dest_rt = do
  req ← read_request address
  if ltb (req.sent + 1) now
      then (retry env fuel req dest_rt
          >> write_request address
              (λ r. record r { sent = now; times_sent = (r.times_sent + 1) % 2 ^ 32 }))
      else pure tt
