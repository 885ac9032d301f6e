-- ===== src/Route/Load.antt =====
-- `sr_load_rt` of 20100117_RouterAssign_1/router/sr_rt.c. The lines are what `fgets` gives;
-- `sscanf` (which leaves a buffer as it was where a line has fewer words) and `inet_aton` are
-- parameters.
use internet_course.Base.{
  ℕ, ◌≡◌, refl, ap, sym, ◌∙◌, Bool, true, false, Option, none, some, List, [], ◌∷◌, ◌++◌,
  if◌then◌else◌, Option-cases, inl, inr,
}
use mathlib.Core.List.{append_assoc, append-nil}
use internet_course.CString.{strncpy}
use internet_course.Iface.{sr_iface_namelen}
use internet_course.Route.{SrRt, sr_add_rt_entry}

-- The four character buffers that a line is scanned into.
pub record Words : Type 0 where
  pub dest : List ℕ
  pub gw : List ℕ
  pub mask : List ℕ
  pub iface : List ℕ

-- The `int` that is returned: 0, or -1.
pub data Status : Type 0 where
  success failure : Status

-- The node that a line of the file stands for.
abbrev pub entry : ℕ → ℕ → ℕ → List ℕ → SrRt
entry dest gw mask iface = record {
  dest = dest;
  gw = gw;
  mask = mask;
  interface = strncpy iface sr_iface_namelen;
}

add-append :
    (rts : List SrRt) (dest gw mask : ℕ) (iface : List ℕ)
    → sr_add_rt_entry rts dest gw mask iface ≡ rts ++ entry dest gw mask iface ∷ []
unfolding sr_add_rt_entry
add-append [] dest gw mask iface = refl
add-append (s ∷ rts) dest gw mask iface = ap (◌∷◌ s) (add-append rts dest gw mask iface)

module _ (sscanf : List ℕ → Words → Words) (inet_aton : List ℕ → Option ℕ) where
  -- The three conversions; the first that fails ends the loading.
  unfoldable pub convert : Words → Option (ℕ × ℕ × ℕ)
  convert w = elim (inet_aton w.dest) [
    | none ↦ none
    | some dest ↦ elim (inet_aton w.gw) [
      | none ↦ none
      | some gw ↦ elim (inet_aton w.mask) [ none ↦ none | some mask ↦ some (dest, gw, mask) ]
    ]
  ]

  -- The loop; `clear` is `clear_routing_table`.
  unfoldable pub load_lines : List (List ℕ) → Words → Bool → List SrRt → Status × List SrRt
  load_lines [] w clear rts = (success, rts)
  load_lines (line ∷ lines) w clear rts =
      let w' = sscanf line w in
      elim (convert w') [
        | none ↦ (failure, rts)
        | some (dest, gw, mask) ↦
            load_lines lines w' true
              (sr_add_rt_entry (if clear then rts else []) dest gw mask w'.iface)
      ]

  -- `file` is what the file holds, `none` if it cannot be read; `w` is what the uninitialised
  -- buffers hold.
  unfoldable pub sr_load_rt : Option (List (List ℕ)) → Words → List SrRt → Status × List SrRt
  unfolding load_lines
  sr_load_rt none w rts = (failure, rts)
  sr_load_rt (some lines) w rts = load_lines lines w false rts

  -- The entries of the lines up to the first that cannot be converted, and whether there is none.
  unfoldable pub entries_of : List (List ℕ) → Words → Status × List SrRt
  entries_of [] w = (success, [])
  entries_of (line ∷ lines) w =
      let w' = sscanf line w in
      elim (convert w') [
        | none ↦ (failure, [])
        | some (dest, gw, mask) ↦
            let later = entries_of lines w' in (later.0, entry dest gw mask w'.iface ∷ later.1)
      ]

  load_lines-append :
      (lines : List (List ℕ)) (w : Words) (rts : List SrRt)
      → load_lines lines w true rts ≡ ((entries_of lines w).0, rts ++ (entries_of lines w).1)
  unfolding load_lines entries_of
  load_lines-append [] w rts = ap (λ t. (success, t)) (sym (append-nil rts))
  load_lines-append (line ∷ lines) w rts =
      let w' = sscanf line w in
      elim (Option-cases (convert w')) [
        | inl e ↦ rw (e, load_lines, entries_of) (ap (λ t. (failure, t)) (sym (append-nil rts)))
        | inr ((dest, gw, mask), e) ↦
            rw (e, load_lines, entries_of, add-append)
              (load_lines-append lines w' (rts ++ entry dest gw mask w'.iface ∷ [])
                ∙ ap (λ t. ((entries_of lines w').0, t))
                    (append_assoc rts (entry dest gw mask w'.iface ∷ []) (entries_of lines w').1))
      ]

  -- What replaces the table: the entries, unless the first line already fails or there is none.
  abbrev pub replaced : List SrRt → List SrRt → List SrRt
  replaced old [] = old
  replaced old (r ∷ rest) = r ∷ rest

  -- Loading returns success exactly if every line converts. The table becomes the entries of the
  -- lines before the first bad one, in their order, and is left alone where there are none.
  pub sr_load_rt_lem :
      (lines : List (List ℕ)) (w : Words) (rts : List SrRt)
      → sr_load_rt (some lines) w rts
        ≡ ((entries_of lines w).0, replaced rts (entries_of lines w).1)
  unfolding sr_load_rt load_lines entries_of
  sr_load_rt_lem [] w rts = refl
  sr_load_rt_lem (line ∷ lines) w rts =
      let w' = sscanf line w in
      elim (Option-cases (convert w')) [
        | inl e ↦ rw (e, load_lines, entries_of) refl
        | inr ((dest, gw, mask), e) ↦
            rw (e, load_lines, entries_of, add-append)
              (load_lines-append lines w' (entry dest gw mask w'.iface ∷ []))
      ]
