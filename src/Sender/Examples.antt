-- ===== src/Sender/Examples.antt =====
-- The sender's theorems at concrete runs, with the AIMD controller over whole numbers.
mod Late
use internet_course.Base.{ℕ, ◌+◌, ◌-◌, ◌^◌, ◌<◌, ◌≡◌, ◌≤◌, refl, true, false, some, [], ◌∷◌, arith}
use internet_course.Sender.{
  Controller, DatagrumpSender, writable, readable, timeout, continues, start, window_is_open,
  send_datagram, got_ack, close_window, handle_event,
}
use internet_course.Sender.LongDouble.{whole}
use internet_course.Sender.Aimd
use internet_course.Sender.Aimd.{aimd}
use internet_course.Sender.Window.{numbered, IsAccounted, close_window_lem, got_ack-opens}
use internet_course.Sender.Runs.{Reach, here, later, event, IsNumbered, Reach-IsNumbered}

abbrev c : Controller
c = aimd ℕ whole

-- A window of 3 and a threshold of 10.
abbrev fresh_controller : Aimd.State ℕ whole
fresh_controller = record { this_window = 3; ssthresh = 10; next_time_out = 105; previous_rtt = 0 }

abbrev clock : ℕ → ℕ
clock n = 1000 + n

-- Five datagrams were sent, and all but the last were acknowledged.
abbrev midway : DatagrumpSender c
midway = record {
  controller = fresh_controller;
  sequence_number = 5;
  next_ack_expected = 4;
  wire = 4 ∷ 3 ∷ 2 ∷ 1 ∷ 0 ∷ [];
}

midway-IsAccounted : IsAccounted c midway
midway-IsAccounted = record { acknowledged = omega arith; no_wrap = omega arith }

midway-room :
    2 ≡ c.window_size midway.controller - (midway.sequence_number - midway.next_ack_expected)
unfolding Aimd.window_size
midway-room = refl

close_window_lem_example :
    (t : DatagrumpSender c) × (close_window c clock 2 midway ≡ some t)
    × (t.sequence_number ≡ 7)
    × (t.next_ack_expected ≡ 4)
    × (t.wire ≡ numbered 2 5 midway.wire)
    × (window_is_open c t ≡ false)
close_window_lem_example =
    close_window_lem c clock 2 2 midway (omega arith) (omega arith) (omega arith) midway-room

midway_fits : (Aimd.ack_received ℕ whole fresh_controller 4 900 950 1000).this_window < 2 ^ 32
unfolding Aimd.ack_received Aimd.adapt Aimd.at_least_one Aimd.current_rtt Aimd.timeout_ms
midway_fits = omega arith

-- An acknowledgement with a round trip of 100 ms.
midway_lets : 1 ≤ c.window_size (c.ack_received midway.controller 4 900 950 1000)
midway_lets = Aimd.window_size-ack_received ℕ whole fresh_controller 4 900 950 1000 midway_fits

window_size-ack_received_example :
    1 ≤ Aimd.window_size ℕ whole (Aimd.ack_received ℕ whole fresh_controller 4 900 950 1000)
window_size-ack_received_example =
    Aimd.window_size-ack_received ℕ whole fresh_controller 4 900 950 1000 midway_fits

got_ack-opens_example :
    (t : DatagrumpSender c) × (got_ack c 1000 true 4 900 950 midway ≡ some t)
    × (window_is_open c t ≡ true)
got_ack-opens_example = got_ack-opens c midway 4 900 950 1000 midway-IsAccounted refl midway_lets

-- A run: the window of 3 is closed, the first datagram is acknowledged, and a time-out sends one more.
abbrev closed : DatagrumpSender c
closed = record {
  controller = fresh_controller;
  sequence_number = 3;
  next_ack_expected = 0;
  wire = 2 ∷ 1 ∷ 0 ∷ [];
}

abbrev acked : DatagrumpSender c
acked = record {
  controller = record { this_window = 4; ssthresh = 10; next_time_out = 105; previous_rtt = 100 };
  sequence_number = 3;
  next_ack_expected = 1;
  wire = 2 ∷ 1 ∷ 0 ∷ [];
}

abbrev repeated : DatagrumpSender c
repeated = record {
  controller = acked.controller;
  sequence_number = 4;
  next_ack_expected = 1;
  wire = 3 ∷ 2 ∷ 1 ∷ 0 ∷ [];
}

closes : handle_event c clock 3 writable (start c fresh_controller) ≡ continues closed
unfolding handle_event close_window window_is_open send_datagram start Aimd.window_size
closes = refl

acks : handle_event c clock 3 (readable true 0 900 950 1000) closed ≡ continues acked
unfolding handle_event got_ack Aimd.ack_received Aimd.adapt Aimd.at_least_one Aimd.current_rtt
    Aimd.timeout_ms
acks = refl

repeats : handle_event c clock 3 timeout acked ≡ continues repeated
unfolding handle_event send_datagram
repeats = refl

run : Reach c clock 3 fresh_controller repeated
run =
    later
      (later (later here (event writable tt closes))
        (event (readable true 0 900 950 1000) (omega arith) acks))
      (event timeout tt repeats)

Reach-IsNumbered_example : IsNumbered c clock 3 repeated
Reach-IsNumbered_example = Reach-IsNumbered c clock 3 fresh_controller (omega arith) run
