-- ===== src/Server/Socket/Stream.antt =====
-- The socket as a stream of bytes: how they were cut into pieces, and which calls a signal broke,
-- makes no difference to what the loops read.
use mathlib.Core.List.{append-nil}
use internet_course.Base.{
  ℕ, zero, suc, ◌-◌, ◌<◌, ◌≤◌, ◌≡◌, refl, sym, ap, ◌∙◌, some, List, [], ◌∷◌, ◌++◌, inl, inr,
  Bool-cases, leb, leb→le, length, take, drop, take_all, length-append, arith,
}
use internet_course.Base.Result.{ok, fault, out_of_fuel}
use internet_course.Server.Socket.{
  Event, arrives, interrupted, fails, left_over, recv, prepend, read_all,
}

-- All the bytes that arrive.
abbrev pub content : List Event → List ℕ
content [] = []
content (arrives b bs ∷ input) = b ∷ (bs ++ content input)
content (interrupted ∷ input) = content input
content (fails ∷ input) = content input

-- No call fails but by a signal.
abbrev pub Reliable : List Event → Type 0
Reliable [] = Unit
Reliable (arrives b bs ∷ input) = Reliable input
Reliable (interrupted ∷ input) = Reliable input
Reliable (fails ∷ input) = ⊥

take_short : (n : ℕ) (xs ys : List ℕ) → n ≤ length xs → take n (xs ++ ys) ≡ take n xs
take_short zero xs ys h = refl
take_short (suc n) [] ys h = absurd (omega arith)
take_short (suc n) (x ∷ xs) ys h = ap (◌∷◌ x) (take_short n xs ys (omega arith))

drop_short : (n : ℕ) (xs ys : List ℕ) → n ≤ length xs → drop n (xs ++ ys) ≡ drop n xs ++ ys
drop_short zero xs ys h = refl
drop_short (suc n) [] ys h = absurd (omega arith)
drop_short (suc n) (x ∷ xs) ys h = drop_short n xs ys (omega arith)

take_long :
    (n : ℕ) (xs ys : List ℕ) → length xs ≤ n → take n (xs ++ ys) ≡ xs ++ take (n - length xs) ys
take_long n [] ys h = ap (λ k. take k ys) (omega arith)
take_long zero (x ∷ xs) ys h = absurd (omega arith)
take_long (suc n) (x ∷ xs) ys h =
    ap (◌∷◌ x) (take_long n xs ys (omega arith) ∙ ap (λ k. xs ++ take k ys) (omega arith))

drop_long : (n : ℕ) (xs ys : List ℕ) → length xs ≤ n → drop n (xs ++ ys) ≡ drop (n - length xs) ys
drop_long n [] ys h = ap (λ k. drop k ys) (omega arith)
drop_long zero (x ∷ xs) ys h = absurd (omega arith)
drop_long (suc n) (x ∷ xs) ys h =
    drop_long n xs ys (omega arith) ∙ ap (λ k. drop k ys) (omega arith)

drop_all : (n : ℕ) (xs : List ℕ) → length xs ≤ n → drop n xs ≡ []
drop_all zero [] h = refl
drop_all zero (x ∷ xs) h = absurd (omega arith)
drop_all (suc n) [] h = refl
drop_all (suc n) (x ∷ xs) h = drop_all n xs (omega arith)

length-take_short : (n : ℕ) (xs : List ℕ) → n ≤ length xs → length (take n xs) ≡ n
length-take_short zero xs h = refl
length-take_short (suc n) [] h = absurd (omega arith)
length-take_short (suc n) (x ∷ xs) h = ap suc (length-take_short n xs (omega arith))

content-left_over :
    (bs : List ℕ) (input : List Event) → content (left_over bs input) ≡ bs ++ content input
content-left_over [] input = refl
content-left_over (b ∷ bs) input = refl

Reliable-left_over :
    (bs : List ℕ) (input : List Event) → Reliable input → Reliable (left_over bs input)
Reliable-left_over [] input r = r
Reliable-left_over (b ∷ bs) input r = r

length-left_over :
    (bs : List ℕ) (input : List Event) → length (left_over bs input) ≤ suc (length input)
length-left_over [] input = omega arith
length-left_over (b ∷ bs) input = omega arith

-- What a reading of `n` bytes leaves.
pub record IsRest (n : ℕ) (input rest : List Event) : Type 0 where
  pub behind : content rest ≡ drop n (content input)
  pub reliable : Reliable rest
  pub shorter : length rest ≤ length input

-- If `n` bytes arrive and no call fails but by a signal, the loop ends, with as much fuel as there
-- are events; it reads the first `n` bytes, however they were cut, and leaves the others.
pub read_all_lem :
    (fuel n : ℕ) (input : List Event)
    → length input ≤ fuel
    → Reliable input
    → n ≤ length (content input)
    → (rest : List Event) × (read_all fuel n input ≡ ok (some (take n (content input)), rest))
      × IsRest n input rest
unfolding read_all recv
read_all_lem fuel zero input enough r h =
    (input, refl, record { behind = refl; reliable = r; shorter = omega arith })
read_all_lem zero (suc n) [] enough r h = absurd (omega arith)
read_all_lem zero (suc n) (e ∷ input) enough r h = absurd (omega arith)
read_all_lem (suc fuel) (suc n) [] enough r h = absurd (omega arith)
read_all_lem (suc fuel) (suc n) (fails ∷ input) enough r h = absurd r
read_all_lem (suc fuel) (suc n) (interrupted ∷ input) enough r h =
    let (rest, ran, left) = read_all_lem fuel (suc n) input (omega arith) r h in
    (
      rest,
      ran,
      record {
        behind = left.behind;
        reliable = left.reliable;
        shorter = omega (arith, left.shorter);
      },
    )
read_all_lem (suc fuel) (suc n) (arrives b bs ∷ input) enough r h =
    elim (Bool-cases (leb (length bs) n)) [
      | inl whole ↦
          let short : length bs ≤ n = leb→le _ _ whole in
          let k = suc n - suc (length bs) in
          let same : k ≡ n - length bs = omega arith in
          let (rest, ran, left) =
            read_all_lem fuel k input (omega arith) r
              (omega (arith, length-append bs (content input), h)) in
          rw (take_all n bs short, drop_all n bs short)
            (
              rest,
              ap (prepend (b ∷ bs)) ran
                  ∙ ap (λ t. ok (some (b ∷ t), rest))
                      (ap (λ j. bs ++ take j (content input)) same
                        ∙ sym (take_long n bs (content input) short)),
              record {
                behind =
                    left.behind
                    ∙ (ap (λ j. drop j (content input)) same
                        ∙ sym (drop_long n bs (content input) short));
                reliable = left.reliable;
                shorter = omega (arith, left.shorter);
              },
            )
      | inr part ↦
          let long : n ≤ length bs = ground arith in
          let none_left : suc n - suc (length (take n bs)) ≡ 0 =
            omega (arith, length-take_short n bs long) in
          let rest = left_over (drop n bs) input in
          rw none_left (
            rest,
            ap (λ t. ok (some t, rest))
                (append-nil (b ∷ take n bs)
                  ∙ ap (◌∷◌ b) (sym (take_short n bs (content input) long))),
            record {
              behind =
                  content-left_over (drop n bs) input ∙ sym (drop_short n bs (content input) long);
              reliable = Reliable-left_over (drop n bs) input r;
              shorter = length-left_over (drop n bs) input;
            },
          )
    ]

-- If the connection is closed before `n` bytes have come, the loop does not end, whatever the fuel:
-- `recv` gives 0 bytes again and again, and the code takes no notice.
pub read_all-closed :
    (fuel n : ℕ) (input : List Event)
    → Reliable input
    → length (content input) < n
    → read_all fuel n input ≡ fault out_of_fuel
unfolding read_all recv
read_all-closed fuel zero input r h = absurd (omega arith)
read_all-closed zero (suc n) input r h = refl
read_all-closed (suc fuel) (suc n) [] r h =
    ap (prepend []) (read_all-closed fuel (suc n - 0) [] r (omega arith))
read_all-closed (suc fuel) (suc n) (fails ∷ input) r h = absurd r
read_all-closed (suc fuel) (suc n) (interrupted ∷ input) r h =
    read_all-closed fuel (suc n) input r h
read_all-closed (suc fuel) (suc n) (arrives b bs ∷ input) r h =
    let short : length bs ≤ n = omega (arith, length-append bs (content input), h) in
    rw (take_all n bs short, drop_all n bs short)
      (ap (prepend (b ∷ bs)) (
        read_all-closed fuel (suc n - suc (length bs)) input r
          (omega (arith, length-append bs (content input), h))))
