-- ===== src/Slip/Tests.antt =====
-- The theorems on SLIP at a concrete packet, with both special bytes in it.
use ka9q_unix.Base.{
  ℕ, ◌+◌, ◌≡◌, ◌≢◌, ◌≤◌, List, [], ◌∷◌, ◌++◌, length, arith, ap, true, false, none, some,
}
use ka9q_unix.Mbuf.{Mbuf, Packet, contents}
use ka9q_unix.Slip.{Slip, Slhc, Receiver, deliver, slip_encode, slip_rx}
use ka9q_unix.Slip.Encode.{escaped_bytes, slip_encode-contents}
use ka9q_unix.Slip.Decode.{on_line, slip_rx-slip_encode}

abbrev special : Packet
special =
    record { size = 32; refcnt = 1; is_dup = false; room = 0; bytes = 0x45 ∷ 0xc0 ∷ [] }
    ∷ record { size = 32; refcnt = 1; is_dup = false; room = 0; bytes = 0xdb ∷ [] }
    ∷ []

-- In the middle of another packet.
abbrev busy : Slip
busy = record { escaped = false; rbp = special; errors = 3 }

not_empty : contents special ≢ []
not_empty e = let f : 3 ≡ 0 = ap (λ (xs : List ℕ). length xs) e in omega (arith, f)

slip_encode-contents_example :
    (lbp : Mbuf) × (slip_encode true special ≡ some lbp)
    × (lbp.bytes ≡ 0xc0 ∷ escaped_bytes (0x45 ∷ 0xc0 ∷ 0xdb ∷ []))
    × (length lbp.bytes ≤ lbp.size)
slip_encode-contents_example = slip_encode-contents special (omega arith)

-- A decompressor that refuses what is compressed and remembers the rest as it is.
abbrev no_slhc : Slhc ℕ
no_slhc = record {
  slhc_uncompress = λ comp p. (comp, none);
  slhc_remember = λ comp p. (comp + 1, some p);
}

abbrev busy_receiver : Receiver ℕ
busy_receiver = record { sp = busy; slcomp = some 0 }

slip_rx-slip_encode_example :
    let ready = record busy { rbp = []; escaped = false } in
    let prior = deliver no_slhc (record busy_receiver { sp = ready }) special in
    (lbp : Mbuf) × (q : Packet) × (slip_encode true special ≡ some lbp)
    × (slip_rx no_slhc busy_receiver (on_line lbp.bytes) ≡ (prior.0, prior.1 ++ q ∷ []))
    × (contents q ≡ 0x45 ∷ 0xc0 ∷ 0xdb ∷ [])
slip_rx-slip_encode_example =
    slip_rx-slip_encode no_slhc busy_receiver special not_empty (omega arith) (omega arith)
