-- ===== src/Dump.antt =====
-- The log of frames: 20100117_RouterAssign_1/router/sr_dumper.c and sr_dumper.h, and `sr_log_packet`
-- of 20100117_RouterAssign_1/router/sr_vns_comm.c. A file is the bytes written to it so far.
pub mod Reading
pub mod Appending
mod Examples
use internet_course.Base.{
  ℕ, ◌%◌, ◌^◌, Bool, Option, none, some, List, [], ◌∷◌, ◌++◌, length, take, if◌then◌else◌, ltb, leb,
}
use internet_course.Base.Result.{Result, ok, fault, out_of_bounds}
use internet_course.Bytes.{bytes_le}
use internet_course.CString.{strncmp_eq}

-- `PACKET_DUMP_SIZE`, `TCPDUMP_MAGIC` and `LINKTYPE_ETHERNET`.
abbrev pub packet_dump_size : ℕ
packet_dump_size = 1024

abbrev pub tcpdump_magic : ℕ
tcpdump_magic = 0xa1b2c3d4

abbrev pub linktype_ethernet : ℕ
linktype_ethernet = 1

-- `struct pcap_pkthdr`, with the seconds and microseconds of its `ts`.
pub record PcapPkthdr : Type 0 where
  pub tv_sec : ℕ
  pub tv_usec : ℕ
  pub caplen : ℕ
  pub len : ℕ

-- The bytes of `struct pcap_file_header`: the magic number, version 2.4, and no accuracy.
unfoldable pub sf_write_header : ℕ → ℕ → ℕ → List ℕ
sf_write_header linktype thiszone snaplen =
    bytes_le 4 tcpdump_magic
    ++ (bytes_le 2 2
        ++ (bytes_le 2 4
            ++ (bytes_le 4 thiszone
                ++ (bytes_le 4 0 ++ (bytes_le 4 snaplen ++ bytes_le 4 linktype)))))

-- The name "-" is the standard output; `opens` says which files can be opened.
unfoldable pub sr_dump_open : (List ℕ → Bool) → List ℕ → ℕ → ℕ → Option (List ℕ)
sr_dump_open opens fname thiszone snaplen =
    if strncmp_eq 2 fname (45 ∷ 0 ∷ [])
    then some (sf_write_header linktype_ethernet thiszone snaplen)
    else if opens fname
    then some (sf_write_header linktype_ethernet thiszone snaplen)
    else none

-- The bytes of `struct pcap_sf_pkthdr`: each number keeps its low 32 bits.
unfoldable pub pcap_sf_pkthdr : PcapPkthdr → List ℕ
pcap_sf_pkthdr h =
    bytes_le 4 h.tv_sec ++ (bytes_le 4 h.tv_usec ++ (bytes_le 4 h.caplen ++ bytes_le 4 h.len))

-- `fp` is what the file holds; `fwrite` reads `caplen` bytes from `sp`.
unfoldable pub sr_dump : List ℕ → PcapPkthdr → List ℕ → Result (List ℕ)
sr_dump fp h sp =
    if leb h.caplen (length sp)
    then ok (fp ++ (pcap_sf_pkthdr h ++ take h.caplen sp))
    else fault out_of_bounds

-- The smaller of 1024 and an `int`: a negative one is a number from 2 ^ 31 on.
unfoldable pub capped : ℕ → ℕ
capped len =
    if ltb packet_dump_size len then (if ltb len (2 ^ 31) then packet_dump_size else len) else len

-- With no log file nothing happens. `clock` is what `gettimeofday` gives, seconds and microseconds:
-- each call lengthens the log, so that it may give a new time. The second choice,
-- `size < 1024 ? size : 1024`, is `size`.
unfoldable pub sr_log_packet :
    (List ℕ → ℕ × ℕ) → Option (List ℕ) → List ℕ → ℕ → Result (Option (List ℕ))
sr_log_packet clock none buf len = ok none
sr_log_packet clock (some logfile) buf len =
    let size = capped len in
    let (sec, usec) = clock logfile in
    let h : PcapPkthdr = record { tv_sec = sec; tv_usec = usec; caplen = size; len = size } in
    elim (sr_dump logfile h buf) [ ok logfile' ↦ ok (some logfile') | fault e ↦ fault e ]
