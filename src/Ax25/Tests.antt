-- ===== src/Ax25/Tests.antt =====
-- The theorem on AX.25 headers at a response by way of two digipeaters.
use ka9q_unix.Base.{ℕ, ◌<◌, false, List, [], ◌∷◌, arith, refl}
use ka9q_unix.Mbuf.{Packet}
use ka9q_unix.Ax25.{Ax25, lapb_response, htonax25, ntohax25}
use ka9q_unix.Ax25.Bits.{IsAddress}
use ka9q_unix.Ax25.RoundTrip.{IsHeader, GivesBack, ntohax25-htonax25}

-- "KA9Q", shifted, with a byte for the SSID.
abbrev ka9q : ℕ → List ℕ
ka9q ssid = 0x96 ∷ 0x82 ∷ 0x72 ∷ 0xa2 ∷ 0x40 ∷ 0x40 ∷ ssid ∷ []

abbrev answer : Ax25
answer = record {
  dest = ka9q 0xe1;
  source = ka9q 0x62;
  digis = ka9q 0x64 ∷ ka9q 0xe6 ∷ [];
  nextdigi = 1;
  cmdrsp = lapb_response;
}

ka9q-IsAddress : (ssid : ℕ) → ssid < 256 → IsAddress (ka9q ssid)
ka9q-IsAddress ssid h = record { len = refl; ssid = h }

answer-IsHeader : IsHeader answer
answer-IsHeader = record {
  dest = ka9q-IsAddress 0xe1 (omega arith);
  source = ka9q-IsAddress 0x62 (omega arith);
  low = refl;
  digis = (ka9q-IsAddress 0x64 (omega arith), (ka9q-IsAddress 0xe6 (omega arith), tt));
  count = omega arith;
  next = omega arith;
}

abbrev payload : Packet
payload = record { size = 64; refcnt = 1; is_dup = false; room = 40; bytes = 1 ∷ 2 ∷ [] } ∷ []

ntohax25-htonax25_example :
    GivesBack answer (1 ∷ 2 ∷ []) (ntohax25 answer (htonax25 [] answer payload))
ntohax25-htonax25_example = ntohax25-htonax25 [] answer answer payload answer-IsHeader
