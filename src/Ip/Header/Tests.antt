-- ===== src/Ip/Header/Tests.antt =====
-- The header round trip at a fragment with options, in front of a packet with room.
use ka9q_unix.Base.{ℕ, ◌+◌, ◌≡◌, ◌%◌, ◌^◌, true, false, [], ◌∷◌, some, arith, refl}
use ka9q_unix.Mbuf.{Packet, contents}
use ka9q_unix.Ip.{Ip}
use ka9q_unix.Ip.Header.{htonip, ntohip}
use ka9q_unix.Ip.Header.Fields.{IsHeader}
use ka9q_unix.Ip.Header.RoundTrip.{sum_sent, ntohip-htonip}

abbrev fragment : Ip
fragment = record {
  source = 0x2c000001;
  dest = 0x2c000002;
  length = 40;
  id = 7;
  offset = 16;
  checksum = 0;
  flags = record { congest = false; df = true; mf = true };
  version = 4;
  tos = 0;
  ttl = 64;
  protocol = 17;
  optlen = 4;
  options = 1 ∷ 1 ∷ 1 ∷ 0 ∷ [];
}

fragment-IsHeader : IsHeader fragment
fragment-IsHeader = record {
  version = omega arith;
  tos = omega arith;
  len = omega arith;
  id = omega arith;
  offset = omega arith;
  units = refl;
  ttl = omega arith;
  protocol = omega arith;
  checksum = omega arith;
  source = omega arith;
  dest = omega arith;
  words = refl;
  max = omega arith;
  options = refl;
}

abbrev payload : Packet
payload = record { size = 32; refcnt = 1; is_dup = false; room = 24; bytes = 9 ∷ 8 ∷ 7 ∷ [] } ∷ []

-- In place of the checksum, the sum of a length and a constant.
abbrev summed : Packet → ℕ → ℕ
summed q n = (n + 0x1234) % 2 ^ 16

ntohip-htonip_example :
    let r = ntohip (htonip summed [] fragment payload false) in
    (r.0 ≡ some (24, record fragment { checksum = sum_sent summed [] fragment payload false }))
    × (contents r.1 ≡ contents payload)
ntohip-htonip_example =
    ntohip-htonip summed [] fragment payload false fragment-IsHeader (λ q n. omega arith)
