-- ===== src/Sender/Examples/Late.antt =====
-- The theorem on late acknowledgements, over whole numbers.
use internet_course.Base.{ℕ, ◌≡◌, List, [], ◌∷◌, arith}
use internet_course.Sender.LongDouble.{whole}
use internet_course.Sender.Throughput.{controller}
use internet_course.Sender.Throughput.Lateness.{Ack, all_acks, all_acks-late_run}

-- Sent in millisecond 1000, and acknowledged so much later.
abbrev ack : ℕ → Ack
ack acked = record { sequence_number = 0; sent = 1000; received = 1040; acked = acked }

-- One is late, the next is not, and then two are.
abbrev history : List Ack
history = ack 1200 ∷ ack 1080 ∷ ack 1101 ∷ ack 1300 ∷ []

all_acks-late_run_example :
    let s = all_acks ℕ whole (controller ℕ whole 3 10) history in
    (s.successive_time_out ≡ 2) × (s.delay ≡ 44)
all_acks-late_run_example = all_acks-late_run ℕ whole 3 10 history (omega arith)
