-- ===== src/Tcp/Header/Tests.antt =====
-- The theorems on TCP headers at a SYN.
use ka9q_unix.Base.{ℕ, ◌+◌, ◌%◌, ◌^◌, ◌≡◌, true, false, some, List, [], ◌∷◌, ◌++◌, arith, refl}
use ka9q_unix.Mbuf.{Packet, contents}
use ka9q_unix.Tcp.{Tcp}
use ka9q_unix.Tcp.Header.{htontcp, ntohtcp}
use ka9q_unix.Tcp.Header.Options.{IsSegment}
use ka9q_unix.Tcp.Header.RoundTrip.{sum_sent, Reads, ntohtcp-htontcp}
use ka9q_unix.Tcp.Header.Lost.{Item, filler, opt, with_scale, Unseen, ntohtcp-Unseen}

abbrev syn_segment : Tcp
syn_segment = record {
  source = 1024;
  dest = 25;
  seq = 0xfffffff0;
  ack = 0;
  wnd = 2048;
  checksum = 0;
  up = 0;
  mss = 512;
  wsopt = 2;
  tsval = 7;
  tsecr = 0;
  flags = record {
    congest = false;
    urg = false;
    ack = false;
    psh = false;
    rst = false;
    syn = true;
    fin = false;
    has_mss = true;
    has_wscale = true;
    has_tstamp = false;
  };
}

syn_segment-IsSegment : IsSegment syn_segment
syn_segment-IsSegment = omega arith

abbrev payload : Packet
payload = record { size = 64; refcnt = 1; is_dup = false; room = 40; bytes = 1 ∷ 2 ∷ [] } ∷ []

abbrev summed : Packet → ℕ → ℕ
summed q n = (n + 0x1234) % 2 ^ 16

ntohtcp-htontcp_example :
    Reads syn_segment
      (sum_sent summed [] syn_segment payload)
      (contents payload)
      (ntohtcp (9 ∷ []) (htontcp summed [] syn_segment payload))
ntohtcp-htontcp_example =
    ntohtcp-htontcp summed [] (9 ∷ []) syn_segment payload syn_segment-IsSegment
      (λ q n. omega arith) (omega arith)

-- A SYN whose header has 40 bytes.
abbrev fixed : List ℕ
fixed = 4 ∷ 0 ∷ 0 ∷ 25 ∷ 0 ∷ 0 ∷ 0 ∷ 1 ∷ 0 ∷ 0 ∷ 0 ∷ 0 ∷ 0xa0 ∷ 2 ∷ 8 ∷ 0 ∷ 0 ∷ 0 ∷ 0 ∷ 0 ∷ []

-- Maximum segment size, selective acknowledgement permitted, timestamps and a filler.
abbrev others : List Item
others = opt 2 (5 ∷ 180 ∷ []) ∷ opt 4 [] ∷ opt 8 (0 ∷ 0 ∷ 0 ∷ 9 ∷ 0 ∷ 0 ∷ 0 ∷ 0 ∷ []) ∷ filler ∷ []

abbrev long_syn : Packet
long_syn =
    record {
      size = 64;
      refcnt = 1;
      is_dup = false;
      room = 0;
      bytes = fixed ++ (with_scale others 7 [] ++ 1 ∷ 2 ∷ []);
    }
    ∷ []

ntohtcp-Unseen_example :
    let r = ntohtcp (9 ∷ []) long_syn in (r.0 ≡ some 40) × Unseen r.1 × (contents r.2 ≡ 1 ∷ 2 ∷ [])
ntohtcp-Unseen_example =
    ntohtcp-Unseen (9 ∷ []) fixed others 7 [] (1 ∷ 2 ∷ []) long_syn refl refl refl (omega arith)
      (omega arith) (omega arith)
