-- ===== src/Router/Checked.antt =====
-- What `validate_checksum` of 20100117_RouterAssign_1/router/sr_ip.c accepts.
use internet_course.Base.{ℕ, ◌<◌, ◌≤◌, ◌≡◌, ◌↔◌, true, List, length, arith, ◌∙◌}
use internet_course.Bytes.{IsBytes}
use internet_course.Checksum.Valid.{SumHolds, header_cksum_iff}
use internet_course.Protocol.Struct.{get, put, put-put, put-get, get-Fits}
use internet_course.Protocol.Ip.{IpHdr, IpFits, ip_hdr}
use internet_course.Router.Ip.{compare_checksum}

module _ (packet : List ℕ) (bytes : IsBytes packet) (long : 34 ≤ length packet) where
  abbrev pub hdr_of : IpHdr
  hdr_of = get ip_hdr packet 14

  hdr-Fits : IpFits hdr_of
  hdr-Fits = get-Fits ip_hdr packet 14 bytes long

  cleared-Fits : IpFits (record hdr_of { ip_sum = 0 })
  cleared-Fits = omega (arith, hdr-Fits)

  restored : put ip_hdr (put ip_hdr packet 14 (record hdr_of { ip_sum = 0 })) 14 hdr_of ≡ packet
  restored =
      put-put ip_hdr packet 14 (record hdr_of { ip_sum = 0 }) hdr_of cleared-Fits hdr-Fits
      ∙ put-get ip_hdr packet 14 bytes long

  -- On a packet of at least 34 bytes the validation passes exactly if the sum of RFC 791 over the
  -- header's first 20 bytes holds and the checksum field is not 0: a header whose sum holds with a
  -- field of 0, which the RFC allows, is refused, as is every header whose sum does not hold.
  pub compare_checksum_iff :
      ((compare_checksum packet).0 ≡ true) ↔ (SumHolds hdr_of × (0 < hdr_of.ip_sum))
  unfolding compare_checksum
  compare_checksum_iff =
      let same = header_cksum_iff hdr_of hdr-Fits in
      (λ h. same.0 (ground arith), λ h. ground (arith, same.1 h))

  -- A packet that passes is as it was.
  pub compare_checksum_restores :
      (compare_checksum packet).0 ≡ true → (compare_checksum packet).1 ≡ packet
  unfolding compare_checksum
  compare_checksum_restores h = ground (arith, restored)
