-- ===== src/Print/Bounds.antt =====
-- What the printing reads.
use internet_course.Base.{
  ℕ, zero, suc, ◌-◌, ◌≤◌, ◌≡◌, refl, Bool, true, false, List, [], ◌∷◌, length, drop, arith,
  if◌then◌else◌, ◌==◌, ltb, leb,
}
use internet_course.Base.Result.{Result, ok}
use internet_course.Router.Ip.{ethertype, ethertype_ip, ethertype_arp}
use internet_course.Print.{
  Call, then_print, ip_protocol, print_hdr_eth, print_hdr_ip, print_hdr_icmp, print_hdr_arp,
  print_icmp_part, print_payload, print_hdrs,
}

-- The printing comes to an end.
abbrev pub Prints : Result (List Call) → Type 0
Prints r = (calls : List Call) × (r ≡ ok calls)

Prints-if :
    (b : Bool) (r q : Result (List Call))
    → (b ≡ true → Prints r)
    → (b ≡ false → Prints q)
    → Prints (if b then r else q)
Prints-if true r q h k = h refl
Prints-if false r q h k = k refl

pub Prints-then : (r q : Result (List Call)) → Prints r → Prints q → Prints (then_print r q)
Prints-then r q (calls, e) (more, f) = rw (e, f) (_, refl)

length-drop : (n : ℕ) (xs : List ℕ) → length (drop n xs) ≡ length xs - n
length-drop zero xs = omega arith
length-drop (suc n) [] = omega arith
length-drop (suc n) (x ∷ xs) = omega (arith, length-drop n xs)

eth-Prints : (buf : List ℕ) → 14 ≤ length buf → Prints (print_hdr_eth buf)
unfolding print_hdr_eth
eth-Prints buf h = let enough : leb 14 (length buf) ≡ true = ground arith in rw enough (_, refl)

ip-Prints : (buf : List ℕ) → 20 ≤ length buf → Prints (print_hdr_ip buf)
unfolding print_hdr_ip
ip-Prints buf h = let enough : leb 20 (length buf) ≡ true = ground arith in rw enough (_, refl)

icmp-Prints : (buf : List ℕ) → 4 ≤ length buf → Prints (print_hdr_icmp buf)
unfolding print_hdr_icmp
icmp-Prints buf h = let enough : leb 4 (length buf) ≡ true = ground arith in rw enough (_, refl)

arp-Prints : (buf : List ℕ) → 28 ≤ length buf → Prints (print_hdr_arp buf)
unfolding print_hdr_arp
arp-Prints buf h = let enough : leb 28 (length buf) ≡ true = ground arith in rw enough (_, refl)

-- With a length that the block has, `print_hdrs` reads nothing behind its end, whatever the frame.
pub print_hdrs-Prints : (buf : List ℕ) (len : ℕ) → len ≤ length buf → Prints (print_hdrs buf len)
unfolding print_hdrs print_payload print_icmp_part
print_hdrs-Prints buf len h =
    Prints-if (ltb len 14) _ _ (λ e. (_, refl))
      λ long. Prints-then _ _ (eth-Prints buf (ground arith)) (
        Prints-if (ethertype buf == ethertype_ip) _ _
          (λ ip.
            Prints-if (ltb len 34) _ _ (λ e. (_, refl))
              λ longer.
                Prints-then _ _ (ip-Prints (drop 14 buf) (ground (arith, length-drop 14 buf))) (
                  Prints-if (ip_protocol (drop 14 buf) == 1) _ _
                    (λ icmp.
                      Prints-if (ltb len 38) _ _ (λ e. (_, refl))
                        λ longest. icmp-Prints (drop 34 buf) (ground (arith, length-drop 34 buf)))
                    (λ other. (_, refl))))
          (λ not_ip.
            Prints-if (ethertype buf == ethertype_arp) _ _
              (λ arp.
                Prints-if (ltb len 42) _ _ (λ e. (_, refl))
                  λ longer. arp-Prints (drop 14 buf) (ground (arith, length-drop 14 buf)))
              (λ other. (_, refl))))
