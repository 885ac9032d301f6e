-- ===== src/Router/Answering.antt =====
-- The answers that the router makes out of the packet itself: the echo reply of
-- 20100117_RouterAssign_1/router/sr_icmp.c and the ARP reply of
-- 20100117_RouterAssign_1/router/sr_arp.c.
use internet_course.Base.{
  ℕ, ◌%◌, ◌<◌, ◌≤◌, ◌≡◌, ◌∙◌, ap, ap₂, refl, sym, List, ◌++◌, length, drop, take_all, arith, some,
}
use internet_course.Base.Result.{ok}
use internet_course.Bytes.{IsBytes, slice, htons, ntohs}
use internet_course.Bytes.Laws.{drop-splice, drop-eq-slice_append, slice-splice_self}
use internet_course.Checksum.{cksum}
use internet_course.Checksum.Sum.{word_sum, Complements, cksum-Complements}
use internet_course.Checksum.Valid.{
  ChecksumHolds, checksummed, checksummed-Fits, checksummed-ChecksumHolds,
}
use internet_course.Protocol.Struct.{
  get, put, get-put, get-Fits, length-put, slice-put_before, slice-put_after,
}
use internet_course.Protocol.Ether.{EthernetHdr, EthernetFits, ethernet_hdr}
use internet_course.Protocol.Ip.{IpHdr, IpFits, ip_hdr}
use internet_course.Protocol.Icmp.{IcmpHdr, IcmpFits, icmp_hdr, write_icmp}
use internet_course.Protocol.Icmp
use internet_course.Protocol.Arp.{ArpHdr, ArpFits, arp_hdr}
use internet_course.Iface.{SrIf, sr_get_interface}
use internet_course.Router.{SrInstance, Env}
use internet_course.Router.Icmp.{deref_interface, echo_reply_packet}
use internet_course.Router.Arp.{arp_reply_packet, arp_packet}
use internet_course.Router.Rewriting.{
  IsMac, IsMac-slice, with_headers, get_ethernet-headers, get_ip-headers, drop-headers,
  length-headers,
}
use internet_course.Router.Sending.{sr_send_packet_lem, sent_on}

module _ (i : SrIf) (mac : IsMac i.addr) (ip_fits : i.ip < 4294967296) (packet : List ℕ)
    (bytes : IsBytes packet) (long : 38 ≤ length packet) where
  abbrev old_ether : EthernetHdr
  old_ether = get ethernet_hdr packet 0

  abbrev old_ip : IpHdr
  old_ip = get ip_hdr packet 14

  abbrev old_icmp : IcmpHdr
  old_icmp = get icmp_hdr packet 34

  abbrev pub echo_ether : EthernetHdr
  echo_ether = record old_ether {
    ether_shost = slice i.addr 0 6;
    ether_dhost = old_ether.ether_shost;
  }

  abbrev pub echo_ip : IpHdr
  echo_ip = record old_ip { ip_dst = old_ip.ip_src; ip_src = i.ip }

  abbrev pub echo_icmp : IcmpHdr
  echo_icmp =
      let cleared : IcmpHdr = record old_icmp { icmp_type = 0; icmp_sum = 0 } in
      record cleared { icmp_sum = cksum (write_icmp cleared) }

  ether-Fits : EthernetFits echo_ether
  ether-Fits =
      let old = get-Fits ethernet_hdr packet 0 bytes (omega arith) in
      record {
        dhost_size = old.shost_size;
        shost_size = (IsMac-slice i.addr mac).six;
        dhost_bytes = old.shost_bytes;
        shost_bytes = (IsMac-slice i.addr mac).octets;
        type_fits = old.type_fits;
      }

  ip-Fits : IpFits echo_ip
  ip-Fits = omega (arith, get-Fits ip_hdr packet 14 bytes (omega arith))

  cleared-Fits : IcmpFits (record old_icmp { icmp_type = 0; icmp_sum = 0 })
  cleared-Fits = omega (arith, get-Fits icmp_hdr packet 34 bytes (omega arith))

  icmp-Complements :
      Complements
        (word_sum (write_icmp (record old_icmp { icmp_type = 0; icmp_sum = 0 })))
        echo_icmp.icmp_sum
  icmp-Complements =
      let cleared : IcmpHdr = record old_icmp { icmp_type = 0; icmp_sum = 0 } in
      cksum-Complements (write_icmp cleared) (Icmp.write-IsBytes cleared cleared-Fits)
        (omega (arith, Icmp.length-write cleared cleared-Fits))

  icmp-Fits : IcmpFits echo_icmp
  icmp-Fits = record {
    type_fits = omega arith;
    code_fits = cleared-Fits.code_fits;
    sum_fits = icmp-Complements.1;
  }

  -- An echo reply to a packet of at least 38 bytes, from an interface with an Ethernet address of
  -- six bytes, goes back to the sender: the sender's addresses as the destination, the interface's
  -- own as the source, type 0, an IP checksum that holds, and the bytes behind the four of the
  -- ICMP header as they were.
  pub echo_reply_packet_lem :
      let sent = echo_reply_packet i packet in
      (get ethernet_hdr sent 0 ≡ echo_ether)
      × (get ip_hdr sent 14 ≡ checksummed echo_ip)
      × ChecksumHolds (get ip_hdr sent 14)
      × (get icmp_hdr sent 34 ≡ echo_icmp)
      × (drop 38 sent ≡ drop 38 packet)
      × (length sent ≡ length packet)
  unfolding echo_reply_packet
  echo_reply_packet_lem =
      let room : 34 ≤ length packet = omega arith in
      let done = checksummed echo_ip in
      let fits = checksummed-Fits echo_ip ip-Fits in
      let inner = with_headers packet room echo_ether ether-Fits done fits in
      let size = length-headers packet room echo_ether ether-Fits done fits in
      let stored =
        ap ip_hdr.read (slice-put_before icmp_hdr inner 34 14 20 echo_icmp (omega arith))
        ∙ get_ip-headers packet room echo_ether ether-Fits done fits in
      (
        ap ethernet_hdr.read (slice-put_before icmp_hdr inner 34 0 14 echo_icmp (omega arith))
            ∙ get_ethernet-headers packet room echo_ether ether-Fits done fits,
        stored,
        rw stored (checksummed-ChecksumHolds echo_ip ip-Fits),
        get-put icmp_hdr inner 34 echo_icmp icmp-Fits (omega (arith, size)),
        drop-splice inner 34 38 (write_icmp echo_icmp)
              (omega (arith, Icmp.length-write echo_icmp icmp-Fits))
            ∙ drop-headers packet room echo_ether ether-Fits done fits 38 (omega arith),
        length-put icmp_hdr inner 34 echo_icmp ∙ size,
      )

  stored_icmp : slice (echo_reply_packet i packet) 34 4 ≡ write_icmp echo_icmp
  unfolding echo_reply_packet
  stored_icmp =
      let room : 34 ≤ length packet = omega arith in
      let done = checksummed echo_ip in
      let fits = checksummed-Fits echo_ip ip-Fits in
      slice-splice_self (with_headers packet room echo_ether ether-Fits done fits) 34 4
        (write_icmp echo_icmp) (sym (Icmp.length-write echo_icmp icmp-Fits))
        (omega (arith, length-headers packet room echo_ether ether-Fits done fits))

  header_sum :
      word_sum (write_icmp echo_icmp ++ drop 38 packet) % 65535 ≡ word_sum (drop 38 packet) % 65535
  header_sum = let c = icmp-Complements in unfold write_icmp in omega (arith, c)

  -- The checksum of the reply to a packet of at least 38 bytes covers the ICMP header alone:
  -- modulo 65535, the words of the whole ICMP message sum to what the bytes behind its four-byte
  -- header sum to.
  pub echo_reply_checksum :
      word_sum (drop 34 (echo_reply_packet i packet)) % 65535 ≡ word_sum (drop 38 packet) % 65535
  echo_reply_checksum =
      let made = echo_reply_packet_lem in
      ap (λ b. word_sum b % 65535)
        (drop-eq-slice_append (echo_reply_packet i packet) 34 4 38 refl
          ∙ ap₂ ◌++◌ stored_icmp made.4)
      ∙ header_sum

module _ (i : SrIf) (mac : IsMac i.addr) (ip_fits : i.ip < 4294967296) (buf : List ℕ)
    (bytes : IsBytes buf) (long : 42 ≤ length buf) where
  abbrev asked : ArpHdr
  asked = get arp_hdr buf 14

  abbrev pub reply_ether : EthernetHdr
  reply_ether =
      let old : EthernetHdr = get ethernet_hdr buf 0 in
      record old { ether_dhost = asked.ar_sha; ether_shost = slice i.addr 0 6 }

  abbrev pub reply_arp : ArpHdr
  reply_arp = record asked {
    ar_op = htons 2;
    ar_sip = i.ip;
    ar_tip = asked.ar_sip;
    ar_sha = slice i.addr 0 6;
    ar_tha = asked.ar_sha;
  }

  reply_ether-Fits : EthernetFits reply_ether
  reply_ether-Fits =
      let old = get-Fits arp_hdr buf 14 bytes long in
      record {
        dhost_size = old.sha_size;
        shost_size = (IsMac-slice i.addr mac).six;
        dhost_bytes = old.sha_bytes;
        shost_bytes = (IsMac-slice i.addr mac).octets;
        type_fits = (get-Fits ethernet_hdr buf 0 bytes (omega arith)).type_fits;
      }

  reply_arp-Fits : ArpFits reply_arp
  reply_arp-Fits =
      let old = get-Fits arp_hdr buf 14 bytes long in
      record {
        hrd_fits = old.hrd_fits;
        pro_fits = old.pro_fits;
        hln_fits = old.hln_fits;
        pln_fits = old.pln_fits;
        op_fits = omega arith;
        sha_size = (IsMac-slice i.addr mac).six;
        sha_bytes = (IsMac-slice i.addr mac).octets;
        sip_fits = ip_fits;
        tha_size = old.sha_size;
        tha_bytes = old.sha_bytes;
        tip_fits = old.sip_fits;
      }

  -- The ARP reply to a request of at least 42 bytes names the interface's addresses, the Ethernet
  -- address having six bytes, as the sender's and the asker's as the target's, and is as long as
  -- the request.
  pub arp_reply_packet_lem :
      let sent = arp_reply_packet i buf in
      (get ethernet_hdr sent 0 ≡ reply_ether)
      × (get arp_hdr sent 14 ≡ reply_arp)
      × (length sent ≡ length buf)
  unfolding arp_reply_packet
  arp_reply_packet_lem =
      let inner = put arp_hdr buf 14 reply_arp in
      let size = length-put arp_hdr buf 14 reply_arp in
      (
        get-put ethernet_hdr inner 0 reply_ether reply_ether-Fits (omega (arith, size)),
        ap arp_hdr.read (
              slice-put_after ethernet_hdr inner 0 14 28 reply_ether reply_ether-Fits (omega arith))
            ∙ get-put arp_hdr buf 14 reply_arp reply_arp-Fits long,
        length-put ethernet_hdr inner 0 reply_ether ∙ size,
      )

module _ (env : Env) (fuel now : ℕ) (buf interface : List ℕ) (sr : SrInstance) (i : SrIf) where
  -- A request of at least 42 bytes for the address of the interface that it came in by, which has
  -- an Ethernet address of six bytes and an IP address of 32 bits, is answered with one frame on
  -- that interface, as long as the request, and besides the log nothing else changes. The frame
  -- goes to the Ethernet address that asks, from the interface's; it is an ARP reply (operation 2)
  -- that gives the interface's two addresses as the sender's and those of the asker as the
  -- target's, its other fields as asked.
  pub arp_packet_answers :
      (bytes : IsBytes buf)
      → (long : 42 ≤ length buf) → sr_get_interface sr.if_list interface ≡ some i
      → (mac : IsMac i.addr) → (ip_fits : i.ip < 4294967296) → (get arp_hdr buf 14).ar_tip ≡ i.ip
      → ntohs (get arp_hdr buf 14).ar_op ≡ 1
      → let sent = arp_reply_packet i buf in
        (arp_packet env fuel now buf interface (length buf) sr
          ≡ ok (tt, sent_on env sr sent (length buf) interface))
        × (get ethernet_hdr sent 0 ≡ reply_ether i mac ip_fits buf bytes long)
        × (get arp_hdr sent 14 ≡ reply_arp i mac ip_fits buf bytes long)
        × (length sent ≡ length buf)
  unfolding arp_packet deref_interface
  arp_packet_answers bytes long iface mac ip_fits us asks =
      let made = arp_reply_packet_lem i mac ip_fits buf bytes long in
      let out =
        sr_send_packet_lem env (arp_reply_packet i buf) (length buf) interface sr i iface
          (ap (λ e. e.ether_shost) made.0 ∙ take_all 6 i.addr (omega (arith, mac.six)))
          (omega arith) (omega (arith, made.2)) in
      (ground (arith, out), made.0, made.1, made.2)
