-- ===== src/Sender/Throughput/Lateness.antt =====
-- How the controller counts late acknowledgements.
use internet_course.Base.{
  ℕ, suc, ◌+◌, ◌-◌, ◌%◌, ◌^◌, ◌<◌, ◌≡◌, ◌∙◌, refl, ap, Bool, Bool-cases, inl, inr, List, [], ◌∷◌,
  length, arith, if◌then◌else◌, leb, ltb,
}
use internet_course.Sender.LongDouble.{LongDouble}
use internet_course.Sender.Throughput.{
  State, controller, timeout_ms, count_late, choose_delay, observe, at_least_three, ack_received,
}

-- An acknowledgement: the number of the datagram, and when it was sent, received and acknowledged.
pub record Ack : Type 0 where
  pub sequence_number : ℕ
  pub sent : ℕ
  pub received : ℕ
  pub acked : ℕ

-- More than 100 milliseconds lie between the sending and the acknowledgement.
abbrev pub late : Ack → Bool
late a = ltb 100 ((a.acked + (2 ^ 64 - a.sent)) % 2 ^ 64)

-- How many acknowledgements at the end are late, one after the other, with `k` in front of them.
abbrev pub late_run : ℕ → List Ack → ℕ
late_run k [] = k
late_run k (a ∷ acks) = late_run (if late a then suc k else 0) acks

module _ (W : Type 0) (f : LongDouble W) where
  open f use {of_nat, to_uint_nat, le_nat, add_nat}

  abbrev pub all_acks : State W f → List Ack → State W f
  all_acks s [] = s
  all_acks s (a ∷ acks) =
      all_acks (ack_received W f s a.sequence_number a.sent a.received a.acked) acks

  -- The count and the delay that goes with it, and the time-out of 100.
  record Counts (k : ℕ) (s : State W f) : Type 0 where
    count : s.successive_time_out ≡ of_nat k
    delays : s.delay ≡ (if leb 2 k then of_nat 44 else of_nat 50)
    patience : s.next_time_out ≡ of_nat 100

  observe-Counts :
      (timestamp k : ℕ) (s : State W f) → Counts k s → Counts k (observe W f timestamp s)
  unfolding observe
  observe-Counts timestamp k s c = elim (Bool-cases (leb timestamp s.end_time)) [
    | inl e ↦ rw e (record { count = c.count; delays = c.delays; patience = c.patience })
    | inr e ↦ rw e (record { count = c.count; delays = c.delays; patience = c.patience })
  ]

  three-Counts : (k : ℕ) (s : State W f) → Counts k s → Counts k (at_least_three W f s)
  unfolding at_least_three
  three-Counts k s c = elim (Bool-cases (f.lt s.this_window (of_nat 1))) [
    | inl e ↦ rw e (record { count = c.count; delays = c.delays; patience = c.patience })
    | inr e ↦ rw e c
  ]

  late-Counts :
      (a : Ack) (k : ℕ) (s : State W f)
      → suc k < 2 ^ 32
      → Counts k s
      → Counts
          (if late a then suc k else 0)
          (choose_delay W f (count_late W f ((a.acked + (2 ^ 64 - a.sent)) % 2 ^ 64) s))
  unfolding choose_delay count_late timeout_ms
  late-Counts a k s small c =
      let limit : f.to_uint s.next_time_out ≡ 100 =
        ap f.to_uint c.patience ∙ to_uint_nat 100 (omega arith) in
      elim (Bool-cases (late a)) [
        | inl e ↦
            let more : f.add s.successive_time_out (of_nat 1) ≡ of_nat (suc k) =
              ap (λ x. f.add x (of_nat 1)) c.count
              ∙ (add_nat k 1 (omega (arith, small)) ∙ ap of_nat (omega arith)) in
            rw (limit, e)
              (record {
                count = more;
                delays = rw (more, le_nat 2 (suc k) (omega arith) small) refl;
                patience = c.patience;
              })
        | inr e ↦
            rw (limit, e)
              (record {
                count = refl;
                delays = rw (le_nat 2 0 (omega arith) (omega arith)) refl;
                patience = c.patience;
              })
      ]

  acks-Counts :
      (acks : List Ack) (k : ℕ) (s : State W f)
      → k + length acks < 2 ^ 32
      → Counts k s
      → Counts (late_run k acks) (all_acks s acks)
  unfolding ack_received
  acks-Counts [] k s small c = c
  acks-Counts (a ∷ acks) k s small c =
      let step =
        three-Counts _ _
          (observe-Counts a.acked _ _ (late-Counts a k s (omega (arith, small)) c)) in
      elim (Bool-cases (late a)) [
        | inl e ↦ rw e (acks-Counts acks (suc k) _ (omega (arith, small)) (rw e at step))
        | inr e ↦ rw e (acks-Counts acks 0 _ (omega (arith, small)) (rw e at step))
      ]

  -- From the start, after any fewer than 2 ^ 32 acknowledgements: `successive_time_out` is the number
  -- of late ones at the end of them, one after the other, where late means more than 100 milliseconds;
  -- and the delay is 44 if there are at least two of these, else 50.
  pub all_acks-late_run :
      (window thresh : W) (acks : List Ack)
      → length acks < 2 ^ 32
      → let s = all_acks (controller W f window thresh) acks in
        (s.successive_time_out ≡ of_nat (late_run 0 acks))
        × (s.delay ≡ (if leb 2 (late_run 0 acks) then of_nat 44 else of_nat 50))
  unfolding controller
  all_acks-late_run window thresh acks small =
      let c =
        acks-Counts acks 0 (controller W f window thresh) (omega (arith, small))
          (record { count = refl; delays = refl; patience = refl }) in
      (c.count, c.delays)
