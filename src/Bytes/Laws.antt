-- ===== src/Bytes/Laws.antt =====
-- Laws of blocks: a copied field reads back, and other fields keep their bytes.
use internet_course.Base.{
  ℕ, zero, suc, ◌+◌, ◌≤◌, ◌<◌, ◌≡◌, refl, ap, List, [], ◌∷◌, ◌++◌, take, drop, length, arith,
  All-take, All-drop, ◌∙◌,
}
use internet_course.Bytes.{slice, overlay, splice, word_le, bytes_le, IsBytes, htons}

length-overlay : (p bs : List ℕ) → length (overlay p bs) ≡ length p
unfolding overlay
length-overlay p [] = refl
length-overlay [] (b ∷ bs) = refl
length-overlay (x ∷ p) (b ∷ bs) = ap suc (length-overlay p bs)

pub length-splice : (p : List ℕ) (o : ℕ) (bs : List ℕ) → length (splice p o bs) ≡ length p
unfolding splice
length-splice p zero bs = length-overlay p bs
length-splice [] (suc o) bs = refl
length-splice (x ∷ p) (suc o) bs = ap suc (length-splice p o bs)

take-overlay :
    (p bs : List ℕ) (n : ℕ) → n ≡ length bs → length bs ≤ length p → take n (overlay p bs) ≡ bs
unfolding overlay
take-overlay p [] zero e h = refl
take-overlay p [] (suc n) e h = absurd (omega arith)
take-overlay [] (b ∷ bs) n e h = absurd (omega arith)
take-overlay (x ∷ p) (b ∷ bs) zero e h = absurd (omega arith)
take-overlay (x ∷ p) (b ∷ bs) (suc n) e h =
    ap (◌∷◌ b) (take-overlay p bs n (omega arith) (omega arith))

-- What was copied in is read back.
pub slice-splice_self :
    (p : List ℕ) (o n : ℕ) (bs : List ℕ)
    → n ≡ length bs
    → o + n ≤ length p
    → slice (splice p o bs) o n ≡ bs
unfolding splice
slice-splice_self p zero n bs e h = take-overlay p bs n e (omega arith)
slice-splice_self [] (suc o) n bs e h = absurd (omega arith)
slice-splice_self (x ∷ p) (suc o) n bs e h = slice-splice_self p o n bs e (omega arith)

-- Bytes in front of the copy stay.
pub slice-splice_before :
    (p : List ℕ) (o j n : ℕ) (bs : List ℕ) → j + n ≤ o → slice (splice p o bs) j n ≡ slice p j n
unfolding splice
slice-splice_before p zero zero zero bs h = refl
slice-splice_before p zero zero (suc n) bs h = absurd (omega arith)
slice-splice_before p zero (suc j) n bs h = absurd (omega arith)
slice-splice_before [] (suc o) j n bs h = refl
slice-splice_before (x ∷ p) (suc o) zero zero bs h = refl
slice-splice_before (x ∷ p) (suc o) zero (suc n) bs h =
    ap (◌∷◌ x) (slice-splice_before p o zero n bs (omega arith))
slice-splice_before (x ∷ p) (suc o) (suc j) n bs h = slice-splice_before p o j n bs (omega arith)

drop-overlay : (p bs : List ℕ) (j : ℕ) → length bs ≤ j → drop j (overlay p bs) ≡ drop j p
unfolding overlay
drop-overlay p [] j h = refl
drop-overlay [] (b ∷ bs) j h = refl
drop-overlay (x ∷ p) (b ∷ bs) zero h = absurd (omega arith)
drop-overlay (x ∷ p) (b ∷ bs) (suc j) h = drop-overlay p bs j (omega arith)

-- Bytes behind the copy stay.
pub drop-splice :
    (p : List ℕ) (o j : ℕ) (bs : List ℕ) → o + length bs ≤ j → drop j (splice p o bs) ≡ drop j p
unfolding splice
drop-splice p zero j bs h = drop-overlay p bs j (omega arith)
drop-splice [] (suc o) j bs h = refl
drop-splice (x ∷ p) (suc o) zero bs h = absurd (omega arith)
drop-splice (x ∷ p) (suc o) (suc j) bs h = drop-splice p o j bs (omega arith)

pub slice-splice_after :
    (p : List ℕ) (o j n : ℕ) (bs : List ℕ)
    → o + length bs ≤ j
    → slice (splice p o bs) j n ≡ slice p j n
slice-splice_after p o j n bs h = ap (take n) (drop-splice p o j bs h)

overlay-overlay :
    (p bs cs : List ℕ) → length bs ≡ length cs → overlay (overlay p bs) cs ≡ overlay p cs
unfolding overlay
overlay-overlay p [] [] e = refl
overlay-overlay p [] (c ∷ cs) e = absurd (omega arith)
overlay-overlay p (b ∷ bs) [] e = absurd (omega arith)
overlay-overlay [] (b ∷ bs) (c ∷ cs) e = refl
overlay-overlay (x ∷ p) (b ∷ bs) (c ∷ cs) e = ap (◌∷◌ c) (overlay-overlay p bs cs (omega arith))

-- The second of two copies to one place wins.
pub splice-splice :
    (p : List ℕ) (o : ℕ) (bs cs : List ℕ)
    → length bs ≡ length cs
    → splice (splice p o bs) o cs ≡ splice p o cs
unfolding splice
splice-splice p zero bs cs e = overlay-overlay p bs cs e
splice-splice [] (suc o) bs cs e = refl
splice-splice (x ∷ p) (suc o) bs cs e = ap (◌∷◌ x) (splice-splice p o bs cs e)

overlay-take : (p : List ℕ) (n : ℕ) → overlay p (take n p) ≡ p
unfolding overlay
overlay-take p zero = refl
overlay-take [] (suc n) = refl
overlay-take (x ∷ p) (suc n) = ap (◌∷◌ x) (overlay-take p n)

-- Copying a field onto itself changes nothing.
pub splice-slice : (p : List ℕ) (o n : ℕ) → splice p o (slice p o n) ≡ p
unfolding splice
splice-slice p zero n = overlay-take p n
splice-slice [] (suc o) n = refl
splice-slice (x ∷ p) (suc o) n = ap (◌∷◌ x) (splice-slice p o n)

overlay-IsBytes : (p bs : List ℕ) → IsBytes p → IsBytes bs → IsBytes (overlay p bs)
unfolding overlay
overlay-IsBytes p [] h k = h
overlay-IsBytes [] (b ∷ bs) h k = tt
overlay-IsBytes (x ∷ p) (b ∷ bs) h k = (k.0, overlay-IsBytes p bs h.1 k.1)

pub splice-IsBytes :
    (p : List ℕ) (o : ℕ) (bs : List ℕ) → IsBytes p → IsBytes bs → IsBytes (splice p o bs)
unfolding splice
splice-IsBytes p zero bs h k = overlay-IsBytes p bs h k
splice-IsBytes [] (suc o) bs h k = tt
splice-IsBytes (x ∷ p) (suc o) bs h k = (h.0, splice-IsBytes p o bs h.1 k)

pub slice-IsBytes : (p : List ℕ) (o n : ℕ) → IsBytes p → IsBytes (slice p o n)
slice-IsBytes p o n h = All-take _ n _ (All-drop _ o p h)

length-take_le : (p : List ℕ) (n : ℕ) → n ≤ length p → length (take n p) ≡ n
length-take_le p zero h = refl
length-take_le [] (suc n) h = absurd (omega arith)
length-take_le (x ∷ p) (suc n) h = ap suc (length-take_le p n (omega arith))

pub length-slice : (p : List ℕ) (o n : ℕ) → o + n ≤ length p → length (slice p o n) ≡ n
length-slice p zero n h = length-take_le p n (omega arith)
length-slice [] (suc o) n h = absurd (omega arith)
length-slice (x ∷ p) (suc o) n h = length-slice p o n (omega arith)

-- A number that fits its field is read back.
pub word_le-bytes_le₂ : (v : ℕ) → v < 65536 → word_le (bytes_le 2 v) ≡ v
word_le-bytes_le₂ v h = omega arith

pub word_le-bytes_le₄ : (v : ℕ) → v < 4294967296 → word_le (bytes_le 4 v) ≡ v
word_le-bytes_le₄ v h = omega arith

pub bytes_le-IsBytes : (n v : ℕ) → IsBytes (bytes_le n v)
bytes_le-IsBytes zero v = tt
bytes_le-IsBytes (suc n) v = (omega arith, bytes_le-IsBytes n _)

pub length-bytes_le : (n v : ℕ) → length (bytes_le n v) ≡ n
length-bytes_le zero v = refl
length-bytes_le (suc n) v = ap suc (length-bytes_le n _)

-- Swapping twice gives a 16-bit number back.
pub htons-htons : (x : ℕ) → x < 65536 → htons (htons x) ≡ x
htons-htons x h = omega arith

pub take-append : (xs ys : List ℕ) (n : ℕ) → length xs ≡ n → take n (xs ++ ys) ≡ xs
take-append [] ys zero e = refl
take-append [] ys (suc n) e = absurd (omega arith)
take-append (x ∷ xs) ys zero e = absurd (omega arith)
take-append (x ∷ xs) ys (suc n) e = ap (◌∷◌ x) (take-append xs ys n (omega arith))

pub drop-append : (xs ys : List ℕ) (o j : ℕ) → o ≡ length xs + j → drop o (xs ++ ys) ≡ drop j ys
drop-append [] ys o j e = ap (λ k. drop k ys) (omega arith)
drop-append (x ∷ xs) ys zero j e = absurd (omega arith)
drop-append (x ∷ xs) ys (suc o) j e = drop-append xs ys o j (omega arith)

-- A field at the front, and one behind other fields.
pub slice-append_left : (xs ys : List ℕ) (n : ℕ) → length xs ≡ n → slice (xs ++ ys) 0 n ≡ xs
slice-append_left xs ys n e = take-append xs ys n e

pub slice-append_right :
    (xs ys : List ℕ) (o j n : ℕ) → o ≡ length xs + j → slice (xs ++ ys) o n ≡ slice ys j n
slice-append_right xs ys o j n e = ap (take n) (drop-append xs ys o j e)

-- A field between two others.
pub slice-append_middle :
    (xs ys zs : List ℕ) (o n : ℕ)
    → o ≡ length xs
    → length ys ≡ n
    → slice (xs ++ (ys ++ zs)) o n ≡ ys
slice-append_middle xs ys zs o n e l =
    slice-append_right xs (ys ++ zs) o 0 n (omega arith) ∙ slice-append_left ys zs n l

take-drop_append : (p : List ℕ) (n : ℕ) → p ≡ take n p ++ drop n p
take-drop_append p zero = refl
take-drop_append [] (suc n) = refl
take-drop_append (x ∷ p) (suc n) = ap (◌∷◌ x) (take-drop_append p n)

-- The rest of a block is its next field and what is behind that.
pub drop-eq-slice_append : (p : List ℕ) (o n m : ℕ) → m ≡ o + n → drop o p ≡ slice p o n ++ drop m p
drop-eq-slice_append p zero n m e =
    take-drop_append p n ∙ ap (λ k. take n p ++ drop k p) (omega arith)
drop-eq-slice_append [] (suc o) n zero e = absurd (omega arith)
drop-eq-slice_append [] (suc o) zero (suc m) e = refl
drop-eq-slice_append [] (suc o) (suc n) (suc m) e = refl
drop-eq-slice_append (x ∷ p) (suc o) n zero e = absurd (omega arith)
drop-eq-slice_append (x ∷ p) (suc o) n (suc m) e = drop-eq-slice_append p o n m (omega arith)
