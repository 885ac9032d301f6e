-- ===== src/Print.antt =====
-- The printing of headers in 20100117_RouterAssign_1/router/sr_utils.c, as the calls of `fprintf` to
-- the standard error; Tables has the lists of sr_if.c, sr_rt.c and sr_arpcache.c. `print_addr_ip`, which needs `inet_ntop`, is left out.
pub mod Bounds
pub mod Tables
use Prim.Native.String.{String}
use Prim.Native.Nat.{bit_and}
use internet_course.Base.{
  ℕ, ◌*◌, ◌/◌, ◌%◌, ◌^◌, List, [], ◌∷◌, ◌++◌, length, drop, if◌then◌else◌, ◌==◌, ltb, leb,
}
use internet_course.Base.Result.{Result, ok, fault, out_of_bounds}
use internet_course.Bytes.{ntohs, ntohl}
use internet_course.Protocol.Struct.{get}
use internet_course.Protocol.Ether.{ethernet_hdr}
use internet_course.Protocol.Ip.{ip_hdr}
use internet_course.Protocol.Icmp.{icmp_hdr}
use internet_course.Protocol.Arp.{arp_hdr}
use internet_course.Router.Ip.{ethertype, ethertype_ip, ethertype_arp}

-- What a format shows: a number, or the characters of a string.
pub data Arg : Type 0 where
  number : ℕ → Arg
  text : List ℕ → Arg

-- A call with the format alone, one with a number, and one with several arguments.
pub data Call : Type 0 where
  says : String → Call
  shows : String → ℕ → Call
  prints : String → List Arg → Call

-- A read of `n` bytes, which must lie in the block.
abbrev pub within : ℕ → List ℕ → List Call → Result (List Call)
within n buf calls = if leb n (length buf) then ok calls else fault out_of_bounds

-- One after the other.
abbrev pub then_print : Result (List Call) → Result (List Call) → Result (List Call)
then_print (fault e) later = fault e
then_print (ok calls) (ok more) = ok (calls ++ more)
then_print (ok calls) (fault e) = fault e

abbrev pub ip_protocol : List ℕ → ℕ
ip_protocol buf = (get ip_hdr buf 0).ip_p

-- The rounds of the loop behind the first.
abbrev pub print_octets : List ℕ → List Call
print_octets [] = []
print_octets (cur ∷ rest) = says ":" ∷ shows "%02X" cur ∷ print_octets rest

abbrev pub print_addr_eth : List ℕ → List Call
print_addr_eth [] = says "\n" ∷ []
print_addr_eth (cur ∷ rest) = shows "%02X" cur ∷ (print_octets rest ++ says "\n" ∷ [])

unfoldable pub print_addr_ip_int : ℕ → List Call
print_addr_ip_int ip =
    shows "%d." (ip / 2 ^ 24)
    ∷ shows "%d." (ip * 2 ^ 8 % 2 ^ 32 / 2 ^ 24)
    ∷ shows "%d." (ip * 2 ^ 16 % 2 ^ 32 / 2 ^ 24)
    ∷ shows "%d\n" (ip * 2 ^ 24 % 2 ^ 32 / 2 ^ 24)
    ∷ []

unfoldable pub print_hdr_eth : List ℕ → Result (List Call)
print_hdr_eth buf =
    let ehdr = get ethernet_hdr buf 0 in
    within 14 buf (
      says "ETHERNET header:\n"
      ∷ says "\tdestination: "
      ∷ (print_addr_eth ehdr.ether_dhost
          ++ (says "\tsource: "
              ∷ (print_addr_eth ehdr.ether_shost
                  ++ (shows "\ttype: %d\n" (ntohs ehdr.ether_type) ∷ [])))))

-- The first of the three flags that is set.
unfoldable pub print_flag : ℕ → List Call
print_flag off =
    if ltb 0 (bit_and off 0x4000)
    then says "\tfragment flag: DF\n" ∷ []
    else if ltb 0 (bit_and off 0x2000)
    then says "\tfragment flag: MF\n" ∷ []
    else if ltb 0 (bit_and off 0x8000)
    then says "\tfragment flag: R\n" ∷ []
    else []

unfoldable pub print_hdr_ip : List ℕ → Result (List Call)
print_hdr_ip buf =
    let iphdr = get ip_hdr buf 0 in
    within 20 buf (
      says "IP header:\n"
      ∷ shows "\tversion: %d\n" iphdr.ip_v
      ∷ shows "\theader length: %d\n" iphdr.ip_hl
      ∷ shows "\ttype of service: %d\n" iphdr.ip_tos
      ∷ shows "\tlength: %d\n" (ntohs iphdr.ip_len)
      ∷ shows "\tid: %d\n" (ntohs iphdr.ip_id)
      ∷ (print_flag (ntohs iphdr.ip_off)
          ++ (shows "\tfragment offset: %d\n" (bit_and (ntohs iphdr.ip_off) 0x1fff)
              ∷ shows "\tTTL: %d\n" iphdr.ip_ttl
              ∷ shows "\tprotocol: %d\n" iphdr.ip_p
              ∷ shows "\tchecksum: %d\n" iphdr.ip_sum
              ∷ says "\tsource: "
              ∷ (print_addr_ip_int (ntohl iphdr.ip_src)
                  ++ (says "\tdestination: " ∷ print_addr_ip_int (ntohl iphdr.ip_dst))))))

unfoldable pub print_hdr_icmp : List ℕ → Result (List Call)
print_hdr_icmp buf =
    let hdr = get icmp_hdr buf 0 in
    within 4 buf (
      says "ICMP header:\n"
      ∷ shows "\ttype: %d\n" hdr.icmp_type
      ∷ shows "\tcode: %d\n" hdr.icmp_code
      ∷ shows "\tchecksum: %d\n" hdr.icmp_sum
      ∷ [])

unfoldable pub print_hdr_arp : List ℕ → Result (List Call)
print_hdr_arp buf =
    let hdr = get arp_hdr buf 0 in
    within 28 buf (
      says "ARP header\n"
      ∷ shows "\thardware type: %d\n" (ntohs hdr.ar_hrd)
      ∷ shows "\tprotocol type: %d\n" (ntohs hdr.ar_pro)
      ∷ shows "\thardware address length: %d\n" hdr.ar_hln
      ∷ shows "\tprotocol address length: %d\n" hdr.ar_pln
      ∷ shows "\topcode: %d\n" (ntohs hdr.ar_op)
      ∷ says "\tsender hardware address: "
      ∷ (print_addr_eth hdr.ar_sha
          ++ (says "\tsender ip address: "
              ∷ (print_addr_ip_int (ntohl hdr.ar_sip)
                  ++ (says "\ttarget hardware address: "
                      ∷ (print_addr_eth hdr.ar_tha
                          ++ (says "\ttarget ip address: "
                              ∷ print_addr_ip_int (ntohl hdr.ar_tip))))))))

-- What follows the IP header.
unfoldable pub print_icmp_part : List ℕ → ℕ → Result (List Call)
print_icmp_part buf len =
    if ip_protocol (drop 14 buf) == 1
    then if ltb len 38
      then ok (says "Failed to print ICMP header, insufficient length\n" ∷ [])
      else print_hdr_icmp (drop 34 buf)
    else ok []

-- What follows the Ethernet header.
unfoldable pub print_payload : List ℕ → ℕ → Result (List Call)
print_payload buf len =
    if ethertype buf == ethertype_ip
    then if ltb len 34
      then ok (says "Failed to print IP header, insufficient length\n" ∷ [])
      else then_print (print_hdr_ip (drop 14 buf)) (print_icmp_part buf len)
    else if ethertype buf == ethertype_arp
    then if ltb len 42
      then ok (says "Failed to print ARP header, insufficient length\n" ∷ [])
      else print_hdr_arp (drop 14 buf)
    else ok (shows "Unrecognized Ethernet Type: %d\n" (ethertype buf) ∷ [])

unfoldable pub print_hdrs : List ℕ → ℕ → Result (List Call)
print_hdrs buf len =
    if ltb len 14
    then ok (says "Failed to print ETHERNET header, insufficient length\n" ∷ [])
    else then_print (print_hdr_eth buf) (print_payload buf len)
