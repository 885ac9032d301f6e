-- ===== src/Dump/Reading.antt =====
-- The log read back, by the format of a pcap file.
use internet_course.Base.{
  ℕ, zero, suc, ◌^◌, ◌<◌, ◌≤◌, ◌≡◌, ◌∙◌, ◌&&◌, refl, ap, sym, true, false, Bool-cases, inl, inr,
  Option, none, some, List, [], ◌∷◌, ◌++◌, map, All, length, take, drop, take_all, arith,
  if◌then◌else◌, ◌==◌, ltb, leb,
}
use mathlib.Core.List.{append_assoc, append-nil}
use mathlib.Core.Option
use internet_course.Base.Result.{Result, ok, fault}
use internet_course.Bytes.{slice, word_le}
use internet_course.Bytes.Laws.{word_le-bytes_le₄, slice-append_left, drop-append}
use internet_course.Dump.{
  packet_dump_size, tcpdump_magic, linktype_ethernet, PcapPkthdr, sf_write_header, pcap_sf_pkthdr,
  sr_dump, capped, sr_log_packet,
}

-- A frame with the time at which it is logged.
pub record Stamped : Type 0 where
  pub sec : ℕ
  pub usec : ℕ
  pub frame : List ℕ

-- The frames of a log, one after the other; a header of 16 bytes says in its third field how many
-- bytes of the frame follow.
abbrev pub read_frames : ℕ → List ℕ → Option (List Stamped)
read_frames zero bs = if length bs == 0 then some [] else none
read_frames (suc count) bs =
    let rest = read_frames count (drop (word_le (slice bs 8 4)) (drop 16 bs)) in
    if length bs == 0
    then some []
    else if ltb (length bs) 16
    then none
    else Option.map
        (λ fs.
          record {
            sec = word_le (slice bs 0 4);
            usec = word_le (slice bs 4 4);
            frame = slice bs 16 (word_le (slice bs 8 4));
          }
          ∷ fs)
        rest

-- A whole log: the magic number, the link type, and at most `count` frames.
abbrev pub read_log : ℕ → List ℕ → Option (List Stamped)
read_log count bs =
    if (word_le (slice bs 0 4) == tcpdump_magic) && (word_le (slice bs 20 4) == linktype_ethernet)
    then read_frames count (drop 24 bs)
    else none

-- The frames are logged one after the other, each with its length.
abbrev pub log_all : Option (List ℕ) → List Stamped → Result (Option (List ℕ))
log_all logfile [] = ok logfile
log_all logfile (f ∷ fs) =
    elim (sr_log_packet (λ so_far. (f.sec, f.usec)) logfile f.frame (length f.frame)) [
      | ok logfile' ↦ log_all logfile' fs
      | fault e ↦ fault e
    ]

-- The times fit their fields, and the length of the frame is an `int`.
pub record FitsLog (f : Stamped) : Type 0 where
  pub sec_fits : f.sec < 4294967296
  pub usec_fits : f.usec < 4294967296
  pub len_fits : length f.frame < 2147483648

-- What is logged of a frame: its first 1024 bytes.
abbrev pub logged : Stamped → Stamped
logged f = record f { frame = take packet_dump_size f.frame }

abbrev header_of : Stamped → PcapPkthdr
header_of f = record {
  tv_sec = f.sec;
  tv_usec = f.usec;
  caplen = capped (length f.frame);
  len = capped (length f.frame);
}

-- The bytes of the frames in a log.
abbrev encode : List Stamped → List ℕ
encode [] = []
encode (f ∷ fs) =
    pcap_sf_pkthdr (header_of f) ++ (take (capped (length f.frame)) f.frame ++ encode fs)

capped_lem : (f : Stamped) → FitsLog f → capped (length f.frame) ≤ length f.frame
unfolding capped
capped_lem f h = ground (arith, h.len_fits)

length-data : (n : ℕ) (xs : List ℕ) → n ≤ length xs → length (take n xs) ≡ n
length-data zero xs h = refl
length-data (suc n) [] h = absurd (omega arith)
length-data (suc n) (x ∷ xs) h = ap suc (length-data n xs (omega arith))

data-logged :
    (f : Stamped)
    → FitsLog f
    → take (capped (length f.frame)) f.frame ≡ take packet_dump_size f.frame
unfolding capped
data-logged f h = elim (Bool-cases (ltb packet_dump_size (length f.frame))) [
  | inl e ↦
      let positive : ltb (length f.frame) (2 ^ 31) ≡ true = ground (arith, h.len_fits) in
      rw (e, positive) refl
  | inr e ↦ rw e (
      take_all (length f.frame) f.frame (omega arith)
      ∙ sym (take_all packet_dump_size f.frame (ground arith)))
]

log_all-encode :
    (fp : List ℕ) (fs : List Stamped)
    → All FitsLog fs
    → log_all (some fp) fs ≡ ok (some (fp ++ encode fs))
unfolding sr_log_packet sr_dump
log_all-encode fp [] h = ap (λ bs. ok (some bs)) (sym (append-nil fp))
log_all-encode fp (f ∷ fs) (h, hs) =
    let n = capped (length f.frame) in
    let head = pcap_sf_pkthdr (header_of f) in
    let data_ = take n f.frame in
    let enough : leb n (length f.frame) ≡ true = ground (arith, capped_lem f h) in
    rw (enough, log_all)
      (log_all-encode (fp ++ (head ++ data_)) fs hs
        ∙ ap (λ bs. ok (some bs))
            (append_assoc fp (head ++ data_) (encode fs)
              ∙ ap (λ bs. fp ++ bs) (append_assoc head data_ (encode fs))))

read_frames-encode :
    (count : ℕ) (fs : List Stamped)
    → length fs ≤ count
    → All FitsLog fs
    → read_frames count (encode fs) ≡ some (map logged fs)
unfolding pcap_sf_pkthdr
read_frames-encode zero [] enough h = refl
read_frames-encode zero (f ∷ fs) enough h = absurd (omega arith)
read_frames-encode (suc count) [] enough h = refl
read_frames-encode (suc count) (f ∷ fs) enough (h, hs) =
    let n = capped (length f.frame) in
    let data_ = take n f.frame in
    let small : n < 4294967296 = omega (arith, capped_lem f h, h.len_fits) in
    let sized = length-data n f.frame (capped_lem f h) in
    let rest : drop n (data_ ++ encode fs) ≡ encode fs =
      drop-append data_ (encode fs) n 0 (omega (arith, sized)) in
    let front : take n (data_ ++ encode fs) ≡ take packet_dump_size f.frame =
      slice-append_left data_ (encode fs) n sized ∙ data-logged f h in
    let some_bytes : (length (encode (f ∷ fs)) == 0) ≡ false = ground arith in
    let header_there : ltb (length (encode (f ∷ fs))) 16 ≡ false = ground arith in
    rw
      (
        some_bytes,
        header_there,
        word_le-bytes_le₄ n small,
        word_le-bytes_le₄ f.sec h.sec_fits,
        word_le-bytes_le₄ f.usec h.usec_fits,
        rest,
        front,
        read_frames-encode count fs (omega arith) hs,
      )
      refl

-- Whatever frames are logged one after the other to a log that has just been opened, each shorter
-- than 2 ^ 31 bytes and at a time that fits its fields: nothing goes wrong, and the log, read by the
-- format of a pcap file, holds these frames with their times, in order, each cut to its first 1024
-- bytes.
pub read_log-log_all :
    (fs : List Stamped) (count thiszone snaplen : ℕ)
    → length fs ≤ count
    → All FitsLog fs
    → (bs : List ℕ) × (log_all (some (sf_write_header linktype_ethernet thiszone snaplen)) fs
        ≡ ok (some bs))
      × (read_log count bs ≡ some (map logged fs))
unfolding sf_write_header
read_log-log_all fs count thiszone snaplen enough h =
    let opened = sf_write_header linktype_ethernet thiszone snaplen in
    (opened ++ encode fs, log_all-encode opened fs h, read_frames-encode count fs enough h)
