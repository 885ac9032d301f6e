-- ===== src/Protocol/Struct.antt =====
-- A C structure laid over a block: what a cast such as `(sr_ip_hdr_t *)(packet + 14)` gives, for
-- the headers of 20100117_RouterAssign_1/router/sr_protocol.h.
use internet_course.Base.{ℕ, ◌+◌, ◌≤◌, ◌≡◌, ap, ◌∙◌, List, length, arith}
use internet_course.Bytes.{slice, splice, IsBytes}
use internet_course.Bytes.Laws.{
  slice-splice_self, slice-splice_before, slice-splice_after, splice-splice, splice-slice,
  length-splice, splice-IsBytes, slice-IsBytes, length-slice,
}

-- The layout of a structure: its size and its bytes, with the laws that make them a layout.
-- `Fits` says that each field is within its width.
pub record Struct (H : Type 0) : Type 1 where
  pub size : ℕ
  pub read : List ℕ → H
  pub write : H → List ℕ
  pub Fits : H → Type 0
  pub length_write : (h : H) → Fits h → length (write h) ≡ size
  pub read_write : (h : H) → Fits h → read (write h) ≡ h
  pub write_read : (bs : List ℕ) → length bs ≡ size → IsBytes bs → write (read bs) ≡ bs
  pub read_fits : (bs : List ℕ) → length bs ≡ size → IsBytes bs → Fits (read bs)
  pub write_bytes : (h : H) → Fits h → IsBytes (write h)

module _ {H : Type 0} (s : Struct H) where
  -- The fields of the structure at offset `o` of the block.
  abbrev pub get : List ℕ → ℕ → H
  get p o = s.read (slice p o s.size)

  -- The block after its structure at offset `o` has been given these fields.
  abbrev pub put : List ℕ → ℕ → H → List ℕ
  put p o h = splice p o (s.write h)

  pub get-put :
      (p : List ℕ) (o : ℕ) (h : H) → s.Fits h → o + s.size ≤ length p → get (put p o h) o ≡ h
  get-put p o h f l =
      ap s.read (slice-splice_self p o s.size (s.write h) (omega (arith, s.length_write h f)) l)
      ∙ s.read_write h f

  pub put-put :
      (p : List ℕ) (o : ℕ) (h k : H) → s.Fits h → s.Fits k → put (put p o h) o k ≡ put p o k
  put-put p o h k f g =
      splice-splice p o (s.write h) (s.write k)
        (omega (arith, s.length_write h f, s.length_write k g))

  pub put-get : (p : List ℕ) (o : ℕ) → IsBytes p → o + s.size ≤ length p → put p o (get p o) ≡ p
  put-get p o b l =
      ap (splice p o)
        (s.write_read (slice p o s.size) (length-slice p o s.size l) (slice-IsBytes p o s.size b))
      ∙ splice-slice p o s.size

  pub get-Fits : (p : List ℕ) (o : ℕ) → IsBytes p → o + s.size ≤ length p → s.Fits (get p o)
  get-Fits p o b l =
      s.read_fits (slice p o s.size) (length-slice p o s.size l) (slice-IsBytes p o s.size b)

  pub length-put : (p : List ℕ) (o : ℕ) (h : H) → length (put p o h) ≡ length p
  length-put p o h = length-splice p o (s.write h)

  pub put-IsBytes : (p : List ℕ) (o : ℕ) (h : H) → IsBytes p → s.Fits h → IsBytes (put p o h)
  put-IsBytes p o h b f = splice-IsBytes p o (s.write h) b (s.write_bytes h f)

  -- A field outside the structure keeps its bytes.
  pub slice-put_before :
      (p : List ℕ) (o j n : ℕ) (h : H) → j + n ≤ o → slice (put p o h) j n ≡ slice p j n
  slice-put_before p o j n h l = slice-splice_before p o j n (s.write h) l

  pub slice-put_after :
      (p : List ℕ) (o j n : ℕ) (h : H)
      → s.Fits h
      → o + s.size ≤ j
      → slice (put p o h) j n ≡ slice p j n
  slice-put_after p o j n h f l =
      slice-splice_after p o j n (s.write h) (omega (arith, s.length_write h f))
