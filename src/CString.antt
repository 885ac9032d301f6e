-- ===== src/CString.antt =====
-- `strncpy` and `strncmp` on character arrays, as the interface and routing code uses them.
-- Reading past the end of a list finds the terminating NUL.
use mathlib.Core.Bool.{false≢true}
use internet_course.Base.{
  Bool-cases, inl, inr, sym, ◌∙◌, ℕ, zero, suc, ◌≡◌, refl, ap, Bool, true, false, List, [], ◌∷◌,
  length, replicate, length-replicate, arith, if◌then◌else◌, ◌==◌,
}

-- The `n` bytes that `strncpy(dst, src, n)` writes.
unfoldable pub strncpy : List ℕ → ℕ → List ℕ
strncpy src zero = []
strncpy [] (suc n) = replicate (suc n) 0
strncpy (c ∷ cs) (suc n) =
    let rest = strncpy cs n in if c == 0 then replicate (suc n) 0 else c ∷ rest

-- `strncmp(a, b, n) == 0`
unfoldable pub strncmp_eq : ℕ → List ℕ → List ℕ → Bool
strncmp_eq zero a b = true
strncmp_eq (suc n) [] [] = true
strncmp_eq (suc n) [] (d ∷ b) = d == 0
strncmp_eq (suc n) (c ∷ a) [] = c == 0
strncmp_eq (suc n) (c ∷ a) (d ∷ b) =
    let rest = strncmp_eq n a b in if c == d then (if c == 0 then true else rest) else false

pub length-strncpy : (src : List ℕ) (n : ℕ) → length (strncpy src n) ≡ n
unfolding strncpy
length-strncpy src zero = refl
length-strncpy [] (suc n) = ap suc (length-replicate n 0)
length-strncpy (c ∷ cs) (suc n) = ground (arith, length-strncpy cs n, length-replicate {A = ℕ} n 0)

-- Two names compare equal exactly if `strncpy` stores them alike.
pub strncmp_eq→eq : (n : ℕ) (a b : List ℕ) → strncmp_eq n a b ≡ true → strncpy a n ≡ strncpy b n
unfolding strncmp_eq strncpy
strncmp_eq→eq zero a b h = refl
strncmp_eq→eq (suc n) [] [] h = refl
strncmp_eq→eq (suc n) [] (d ∷ b) h = ground arith
strncmp_eq→eq (suc n) (c ∷ a) [] h = ground arith
strncmp_eq→eq (suc n) (c ∷ a) (d ∷ b) h = ground (arith, strncmp_eq→eq n a b)

pub eq→strncmp_eq : (n : ℕ) (a b : List ℕ) → strncpy a n ≡ strncpy b n → strncmp_eq n a b ≡ true
unfolding strncmp_eq strncpy
eq→strncmp_eq zero a b h = refl
eq→strncmp_eq (suc n) [] [] h = refl
eq→strncmp_eq (suc n) [] (d ∷ b) h = ground arith
eq→strncmp_eq (suc n) (c ∷ a) [] h = ground arith
eq→strncmp_eq (suc n) (c ∷ a) (d ∷ b) h = ground (arith, eq→strncmp_eq n a b)

pub strncpy_twice : (src : List ℕ) (n : ℕ) → strncpy (strncpy src n) n ≡ strncpy src n
unfolding strncpy
strncpy_twice src zero = refl
strncpy_twice [] (suc n) = refl
strncpy_twice (c ∷ cs) (suc n) = ground (arith, strncpy_twice cs n)

-- Comparing with the stored copy is comparing with the name.
pub strncmp_eq-strncpy : (n : ℕ) (a b : List ℕ) → strncmp_eq n (strncpy a n) b ≡ strncmp_eq n a b
strncmp_eq-strncpy n a b = elim (Bool-cases (strncmp_eq n a b)) [
  | inl e ↦ rw e (eq→strncmp_eq n (strncpy a n) b (strncpy_twice a n ∙ strncmp_eq→eq n a b e))
  | inr e ↦ elim (Bool-cases (strncmp_eq n (strncpy a n) b)) [
    | inl d ↦ absurd (
        false≢true (
          sym e
          ∙ eq→strncmp_eq n a b (sym (strncpy_twice a n) ∙ strncmp_eq→eq n (strncpy a n) b d)))
    | inr d ↦ d ∙ sym e
  ]
]

-- Names that compare equal compare alike with a third.
pub strncmp_eq-congr :
    (n : ℕ) (a b c : List ℕ) → strncmp_eq n a b ≡ true → strncmp_eq n c a ≡ strncmp_eq n c b
strncmp_eq-congr n a b c h = elim (Bool-cases (strncmp_eq n c b)) [
  | inl e ↦ eq→strncmp_eq n c a (strncmp_eq→eq n c b e ∙ sym (strncmp_eq→eq n a b h)) ∙ sym e
  | inr e ↦ elim (Bool-cases (strncmp_eq n c a)) [
    | inl d ↦
        absurd
          (false≢true (sym e ∙ eq→strncmp_eq n c b (strncmp_eq→eq n c a d ∙ strncmp_eq→eq n a b h)))
    | inr d ↦ d ∙ sym e
  ]
]
