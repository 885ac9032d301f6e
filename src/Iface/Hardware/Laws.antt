-- ===== src/Iface/Hardware/Laws.antt =====
-- What `sr_handle_hwinfo` makes of the message that announces the interfaces of a router.
use mathlib.Core.List.{append_assoc, append-nil}
use internet_course.Base.{
  ℕ, suc, ◌+◌, ◌*◌, ◌<◌, ◌≤◌, ◌≡◌, ◌∙◌, ap, sym, refl, false, List, [], ◌∷◌, ◌++◌, length,
  length-append, All, arith, ltb,
}
use internet_course.Base.Result.{ok}
use internet_course.Bytes.{slice, word_le, bytes_le, htonl}
use internet_course.Bytes.Laws.{
  word_le-bytes_le₄, length-bytes_le, slice-append_left, slice-append_middle, drop-append,
}
use internet_course.CString.{strncpy}
use internet_course.Iface.{
  SrIf, sr_iface_namelen, sr_add_interface, sr_set_ether_addr, sr_set_ether_ip, set_last,
}
use internet_course.Iface.Hardware.{
  read_hw_entry, handle_entry, handle_entries, num_entries, sr_handle_hwinfo,
}

-- The entries for one interface: the three values of 32 bytes.
pub record Port : Type 0 where
  pub name : List ℕ
  pub mac : List ℕ
  pub ip : List ℕ

pub record PortFits (p : Port) : Type 0 where
  pub name_size : length p.name ≡ 32
  pub mac_size : length p.mac ≡ 32
  pub ip_size : length p.ip ≡ 32

abbrev pub entry_bytes : ℕ → List ℕ → List ℕ
entry_bytes key value = bytes_le 4 (htonl key) ++ value

abbrev pub ports_bytes : List Port → List ℕ
ports_bytes [] = []
ports_bytes (p ∷ ps) =
    entry_bytes 1 p.name ++ (entry_bytes 32 p.mac ++ (entry_bytes 64 p.ip ++ ports_bytes ps))

-- The node for an announced interface.
abbrev pub node : SrIf → Port → SrIf
node fresh p = record fresh {
  name = strncpy p.name sr_iface_namelen;
  addr = slice p.mac 0 6;
  ip = word_le (slice p.ip 0 4);
}

-- The number of entries for these interfaces.
abbrev pub count : List Port → ℕ
count [] = 0
count (p ∷ ps) = suc (suc (suc (count ps)))

count-length : (ps : List Port) → count ps ≡ 3 * length ps
count-length [] = refl
count-length (p ∷ ps) = omega (arith, count-length ps)

abbrev pub nodes : (ℕ → SrIf) → List Port → List SrIf
nodes fresh [] = []
nodes fresh (p ∷ ps) = node (fresh (suc (suc (count ps)))) p ∷ nodes fresh ps

add-append :
    (fresh : SrIf) (ifs : List SrIf) (name : List ℕ)
    → sr_add_interface fresh ifs name
      ≡ ifs ++ record fresh { name = strncpy name sr_iface_namelen } ∷ []
unfolding sr_add_interface
add-append fresh [] name = refl
add-append fresh (i ∷ ifs) name = ap (◌∷◌ i) (add-append fresh ifs name)

set_last-append :
    (f : SrIf → SrIf) (i : SrIf) (ifs : List SrIf) (x : SrIf)
    → set_last f i (ifs ++ x ∷ []) ≡ i ∷ (ifs ++ f x ∷ [])
unfolding set_last
set_last-append f i [] x = refl
set_last-append f i (j ∷ ifs) x = ap (◌∷◌ i) (set_last-append f j ifs x)

addr-append :
    (ifs : List SrIf) (x : SrIf) (addr : List ℕ)
    → sr_set_ether_addr (ifs ++ x ∷ []) addr ≡ ok (ifs ++ record x { addr = slice addr 0 6 } ∷ [])
unfolding sr_set_ether_addr set_last
addr-append [] x addr = refl
addr-append (i ∷ ifs) x addr =
    ap ok (set_last-append (λ j. record j { addr = slice addr 0 6 }) i ifs x)

ip-append :
    (ifs : List SrIf) (x : SrIf) (ip : ℕ)
    → sr_set_ether_ip (ifs ++ x ∷ []) ip ≡ ok (ifs ++ record x { ip = ip } ∷ [])
unfolding sr_set_ether_ip set_last
ip-append [] x ip = refl
ip-append (i ∷ ifs) x ip = ap ok (set_last-append (λ j. record j { ip = ip }) i ifs x)

module _ (key : ℕ) (value rest : List ℕ) (size : length value ≡ 32)
    (small : htonl key < 4294967296) where
  entry_size : length (entry_bytes key value) ≡ 36
  entry_size =
      omega
        (arith, length-append (bytes_le 4 (htonl key)) value, length-bytes_le 4 (htonl key), size)

  read-entry :
      read_hw_entry (entry_bytes key value ++ rest) ≡ record { m_key = htonl key; value = value }
  unfolding read_hw_entry
  read-entry = λ i. record {
    m_key =
        (ap word_le (
              slice-append_left (bytes_le 4 (htonl key)) (value ++ rest) 4
                (length-bytes_le 4 (htonl key)))
            ∙ word_le-bytes_le₄ (htonl key) small)
          i;
    value =
        slice-append_middle (bytes_le 4 (htonl key)) value rest 4 32
          (sym (length-bytes_le 4 (htonl key))) size i;
  }

  handle-entry :
      (fresh : ℕ → SrIf) (n : ℕ) (ifs ifs' : List SrIf)
      → handle_entry (fresh n) (record { m_key = htonl key; value = value }) ifs ≡ ok ifs'
      → handle_entries fresh (suc n) (entry_bytes key value ++ rest) ifs
        ≡ handle_entries fresh n rest ifs'
  unfolding handle_entries
  handle-entry fresh n ifs ifs' h =
      let whole : ltb (length (entry_bytes key value ++ rest)) 36 ≡ false =
        ground (arith, length-append (entry_bytes key value) rest, entry_size) in
      rw whole (
        rw read-entry (
          rw h
            (rw (drop-append (entry_bytes key value) rest 36 0 (omega (arith, entry_size))) refl)))

-- One interface: a new node at the end of the list.
handle-port :
    (fresh : ℕ → SrIf) (n : ℕ) (p : Port) (rest : List ℕ) (ifs : List SrIf)
    → PortFits p
    → handle_entries fresh
        (suc (suc (suc n)))
        (entry_bytes 1 p.name ++ (entry_bytes 32 p.mac ++ (entry_bytes 64 p.ip ++ rest)))
        ifs
      ≡ handle_entries fresh n rest (ifs ++ node (fresh (suc (suc n))) p ∷ [])
unfolding handle_entry
handle-port fresh n p rest ifs f =
    let named : SrIf = record (fresh (suc (suc n))) { name = strncpy p.name sr_iface_namelen } in
    let addressed : SrIf = record named { addr = slice p.mac 0 6 } in
    handle-entry 1 p.name (entry_bytes 32 p.mac ++ (entry_bytes 64 p.ip ++ rest)) f.name_size
      (omega arith) fresh (suc (suc n)) ifs (ifs ++ named ∷ [])
      (ap ok (add-append (fresh (suc (suc n))) ifs p.name))
    ∙ (handle-entry 32 p.mac (entry_bytes 64 p.ip ++ rest) f.mac_size (omega arith) fresh (suc n)
          (ifs ++ named ∷ []) (ifs ++ addressed ∷ []) (addr-append ifs named p.mac)
        ∙ handle-entry 64 p.ip rest f.ip_size (omega arith) fresh n (ifs ++ addressed ∷ [])
            (ifs ++ node (fresh (suc (suc n))) p ∷ [])
            (ip-append ifs addressed (word_le (slice p.ip 0 4))))

handle-ports :
    (fresh : ℕ → SrIf) (ps : List Port) (ifs : List SrIf)
    → All PortFits ps
    → handle_entries fresh (count ps) (ports_bytes ps) ifs ≡ ok (ifs ++ nodes fresh ps)
unfolding handle_entries
handle-ports fresh [] ifs f = ap ok (sym (append-nil ifs))
handle-ports fresh (p ∷ ps) ifs f =
    handle-port fresh (count ps) p (ports_bytes ps) ifs f.0
    ∙ (handle-ports fresh ps (ifs ++ node (fresh (suc (suc (count ps)))) p ∷ []) f.1
        ∙ ap ok (append_assoc ifs (node (fresh (suc (suc (count ps)))) p ∷ []) (nodes fresh ps)))

abbrev pub announcement : List Port → List ℕ
announcement ps =
    bytes_le 4 (htonl (8 + 108 * length ps)) ++ (bytes_le 4 (htonl 16) ++ ports_bytes ps)

num_entries-announcement :
    (ps : List Port) → length ps ≤ 85 → num_entries (announcement ps) ≡ count ps
unfolding num_entries
num_entries-announcement ps few = ground (arith, count-length ps)

-- A message that announces at most 85 interfaces, each by its name, its Ethernet address and its IP
-- address, adds exactly these interfaces, in their order, behind those that are there.
pub sr_handle_hwinfo_lem :
    (fresh : ℕ → SrIf) (ps : List Port) (ifs : List SrIf)
    → All PortFits ps
    → length ps ≤ 85
    → sr_handle_hwinfo fresh (announcement ps) ifs ≡ ok (ifs ++ nodes fresh ps)
unfolding sr_handle_hwinfo
sr_handle_hwinfo_lem fresh ps ifs f few =
    let long : ltb (length (announcement ps)) 8 ≡ false = ground arith in
    rw (long, num_entries-announcement ps few) (handle-ports fresh ps ifs f)
