-- ===== src/Dump/Examples.antt =====
-- The log of two frames, one of them longer than what is kept of it.
use internet_course.Base.{ℕ, ◌≡◌, some, List, [], ◌∷◌, replicate, length-replicate, arith}
use internet_course.Base.Result.{ok}
use internet_course.Dump.{linktype_ethernet, packet_dump_size, sf_write_header}
use internet_course.Dump.Reading.{Stamped, FitsLog, logged, log_all, read_log, read_log-log_all}

abbrev short : Stamped
short = record { sec = 1000; usec = 5; frame = 1 ∷ 2 ∷ 3 ∷ [] }

abbrev long : Stamped
long = record { sec = 1001; usec = 7; frame = replicate 1500 9 }

short-FitsLog : FitsLog short
short-FitsLog = record { sec_fits = omega arith; usec_fits = omega arith; len_fits = omega arith }

long-FitsLog : FitsLog long
long-FitsLog = record {
  sec_fits = omega arith;
  usec_fits = omega arith;
  len_fits = omega (arith, length-replicate {A = ℕ} 1500 9);
}

read_log-log_all_example :
    (bs : List ℕ) × (log_all
        (some (sf_write_header linktype_ethernet 0 packet_dump_size))
        (short ∷ long ∷ [])
      ≡ ok (some bs))
    × (read_log 2 bs ≡ some (logged short ∷ logged long ∷ []))
read_log-log_all_example =
    read_log-log_all (short ∷ long ∷ []) 2 0 packet_dump_size (omega arith)
      (short-FitsLog, (long-FitsLog, tt))
