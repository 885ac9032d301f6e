-- ===== src/Sender/Throughput.antt =====
-- The controller of Assign_3/controller_throughput.cc. Its numbers are `double` but for the window.
pub mod Lateness
use internet_course.Base.{
  ℕ, ◌+◌, ◌-◌, ◌%◌, ◌^◌, ◌≤◌, ◌≡◌, refl, false, Bool, Bool-cases, inl, inr, arith, if◌then◌else◌,
  leb, ltb,
}
use internet_course.Sender.{Controller}
use internet_course.Sender.LongDouble.{LongDouble}

module _ (W : Type 0) (f : LongDouble W) where
  open f use {
    of_nat, of_ratio, add, sub, mul, div, lt, le, to_uint, to_uint64, to_long, Fits, lt_nat,
    to_uint_positive,
  }

  -- The fields that the code sets, and its global variables.
  pub record State : Type 0 where
    pub this_window : W
    pub ssthresh : W
    pub alpha : W
    pub next_time_out : W
    pub slot : W
    pub estimate_throughput : W
    pub observed_throughput : W
    pub delay : W
    pub successive_time_out : W
    pub end_time : ℕ
    pub packet_count : W

  unfoldable pub controller : W → W → State
  controller window thresh = record {
    this_window = window;
    ssthresh = to_long thresh;
    alpha = of_ratio 15 100;
    next_time_out = of_nat 100;
    slot = of_nat 30;
    estimate_throughput = of_nat 0;
    observed_throughput = of_nat 0;
    delay = of_nat 50;
    successive_time_out = of_nat 0;
    end_time = 0;
    packet_count = of_nat 0;
  }

  unfoldable pub window_size : State → ℕ
  window_size s = to_uint s.this_window

  -- It only prints.
  abbrev pub datagram_was_sent : State → ℕ → ℕ → Bool → State
  datagram_was_sent s n time after_timeout = s

  pub set_window_size : W → State → State
  set_window_size size s = record s { this_window = size }

  unfoldable pub timeout_ms : State → ℕ
  timeout_ms s = to_uint s.next_time_out

  -- The count of late acknowledgements in a row, for a round trip in a `uint64_t`.
  unfoldable pub count_late : ℕ → State → State
  count_late rtt s = record s {
    successive_time_out =
        if ltb (timeout_ms s) rtt then add s.successive_time_out (of_nat 1) else of_nat 0;
  }

  unfoldable pub choose_delay : State → State
  choose_delay s = record s {
    delay = if le (of_nat 2) s.successive_time_out then of_nat 44 else of_nat 50;
  }

  -- Within the slot the packet is counted; behind it the throughput is estimated anew.
  unfoldable pub observe : ℕ → State → State
  observe timestamp s =
      if leb timestamp s.end_time
      then record s { packet_count = add s.packet_count (of_nat 1) }
      else (let observed = div s.packet_count (div s.slot (of_nat 2)) in
          let estimate =
            add (mul s.estimate_throughput (sub (of_nat 1) s.alpha)) (mul s.alpha observed) in
          record s {
            observed_throughput = observed;
            estimate_throughput = estimate;
            this_window = mul estimate s.delay;
            end_time = to_uint64 (add s.slot (of_nat s.end_time));
            packet_count = of_nat 1;
          })

  unfoldable pub at_least_three : State → State
  at_least_three s = if lt s.this_window (of_nat 1) then record s { this_window = of_nat 3 } else s

  unfoldable pub ack_received : State → ℕ → ℕ → ℕ → ℕ → State
  ack_received s n sent received timestamp =
      at_least_three
        (observe timestamp (choose_delay (count_late ((timestamp + (2 ^ 64 - sent)) % 2 ^ 64) s)))

  abbrev pub throughput : Controller
  throughput = record {
    State = State;
    window_size = window_size;
    datagram_was_sent = datagram_was_sent;
    ack_received = ack_received;
    timeout_ms = timeout_ms;
    sent_keeps = λ s n time after_timeout. refl;
  }

  at_least_three-lt : (s : State) → lt (at_least_three s).this_window (of_nat 1) ≡ false
  unfolding at_least_three
  at_least_three-lt s = elim (Bool-cases (lt s.this_window (of_nat 1))) [
    | inl e ↦ rw e (lt_nat 3 1 (omega arith) (omega arith))
    | inr e ↦ rw e e
  ]

  -- After an acknowledgement the window lets at least one datagram out, as long as it is a number in
  -- the range of `unsigned int`.
  pub window_size-ack_received :
      (s : State) (n sent received timestamp : ℕ)
      → Fits (ack_received s n sent received timestamp).this_window
      → 1 ≤ window_size (ack_received s n sent received timestamp)
  unfolding window_size ack_received
  window_size-ack_received s n sent received timestamp fits =
      to_uint_positive _ fits (at_least_three-lt _)
