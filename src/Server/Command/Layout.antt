-- ===== src/Server/Command/Layout.antt =====
-- A struct that was written is read back.
use internet_course.Base.{
  ℕ, ◌<◌, ◌≡◌, ◌∙◌, refl, ap, List, [], ◌∷◌, ◌++◌, length, take, drop, length-append, arith,
}
use mathlib.Core.List.{append_assoc}
use internet_course.Bytes.Laws.{word_le-bytes_le₂, word_le-bytes_le₄, take-append, drop-append}
use internet_course.Server.Command.{
  Field, uint32, uint16, uint8, char, width, sizeof, Content, Contents, read_field, write_field,
  read_fields, write_fields,
}

-- A number within its width, and an array of its length.
abbrev pub FieldFits : (f : Field) → Content f → Type 0
FieldFits (uint32 name) v = v < 4294967296
FieldFits (uint16 name) v = v < 65536
FieldFits (uint8 name) v = v < 256
FieldFits (char name n) cs = length cs ≡ n

abbrev pub FieldsFit : (fs : List Field) → Contents fs → Type 0
FieldsFit [] v = Unit
FieldsFit (f ∷ fs) v = FieldFits f v.0 × FieldsFit fs v.1

length-write_field :
    (f : Field) (v : Content f) → FieldFits f v → length (write_field f v) ≡ width f
unfolding write_field width
length-write_field (uint32 name) v h = refl
length-write_field (uint16 name) v h = refl
length-write_field (uint8 name) v h = refl
length-write_field (char name n) v h = h

read-write_field : (f : Field) (v : Content f) → FieldFits f v → read_field f (write_field f v) ≡ v
unfolding write_field read_field
read-write_field (uint32 name) v h = word_le-bytes_le₄ v h
read-write_field (uint16 name) v h = word_le-bytes_le₂ v h
read-write_field (uint8 name) v h = omega arith
read-write_field (char name n) v h = refl

pub length-write_fields :
    (fs : List Field) (v : Contents fs) → FieldsFit fs v → length (write_fields fs v) ≡ sizeof fs
unfolding write_fields sizeof
length-write_fields [] v h = refl
length-write_fields (f ∷ fs) v h =
    length-append (write_field f v.0) (write_fields fs v.1)
    ∙ omega (arith, length-write_field f v.0 h.0, length-write_fields fs v.1 h.1)

-- Whatever lies behind it, a struct whose fields are within their widths is read as it was written.
pub read-write_fields :
    (fs : List Field) (v : Contents fs) (behind : List ℕ)
    → FieldsFit fs v
    → read_fields fs (write_fields fs v ++ behind) ≡ v
unfolding read_fields write_fields
read-write_fields [] v behind h = refl
read-write_fields (f ∷ fs) v behind h =
    let size = length-write_field f v.0 h.0 in
    let joined = append_assoc (write_field f v.0) (write_fields fs v.1) behind in
    let first : take (width f) ((write_field f v.0 ++ write_fields fs v.1) ++ behind)
        ≡ write_field f v.0 =
      ap (take (width f)) joined
      ∙ take-append (write_field f v.0) (write_fields fs v.1 ++ behind) (width f) size in
    let others : drop (width f) ((write_field f v.0 ++ write_fields fs v.1) ++ behind)
        ≡ write_fields fs v.1 ++ behind =
      ap (drop (width f)) joined
      ∙ drop-append (write_field f v.0) (write_fields fs v.1 ++ behind) (width f) 0
          (omega (arith, size)) in
    rw (first, others) (λ i. (read-write_field f v.0 h.0 i, read-write_fields fs v.1 behind h.1 i))
