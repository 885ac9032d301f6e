-- ===== src/Dump/Appending.antt =====
-- What one call of `sr_log_packet` does to the log.
use internet_course.Base.{
  ℕ, ◌≤◌, ◌≡◌, refl, Option, none, some, List, ◌++◌, length, take, arith, leb, true,
}
use internet_course.Base.Result.{ok}
use internet_course.Dump.{pcap_sf_pkthdr, sr_dump, capped, sr_log_packet}

-- The record for the bytes that are kept of a frame.
abbrev pub pcap_record : ℕ × ℕ → List ℕ → ℕ → List ℕ
pcap_record (sec, usec) buf len =
    pcap_sf_pkthdr (record { tv_sec = sec; tv_usec = usec; caplen = capped len; len = capped len })
    ++ take (capped len) buf

-- The log with one record more.
abbrev pub appended : (List ℕ → ℕ × ℕ) → Option (List ℕ) → List ℕ → ℕ → Option (List ℕ)
appended clock none buf len = none
appended clock (some logfile) buf len = some (logfile ++ pcap_record (clock logfile) buf len)

capped-le : (len : ℕ) → capped len ≤ len
unfolding capped
capped-le len = ground arith

pub sr_log_packet_lem :
    (clock : List ℕ → ℕ × ℕ) (logfile : Option (List ℕ)) (buf : List ℕ) (len : ℕ)
    → len ≤ length buf
    → sr_log_packet clock logfile buf len ≡ ok (appended clock logfile buf len)
unfolding sr_log_packet sr_dump
sr_log_packet_lem clock none buf len h = refl
sr_log_packet_lem clock (some logfile) buf len h =
    let enough : leb (capped len) (length buf) ≡ true = ground (arith, capped-le len) in
    rw (enough, sr_log_packet) refl
