-- ===== src/Ip/Reassembly/Tests.antt =====
-- The theorems on reassembly at a datagram of twelve bytes, cut behind the eighth.
use ka9q_unix.Base.{
  ℕ, ◌+◌, ◌≡◌, Bool, true, false, ◌||◌, ◌==◌, List, [], ◌∷◌, arith, refl, inl, some, none, Option,
}
use ka9q_unix.Base.Word.{u32}
use ka9q_unix.Mbuf.{Packet, contents}
use ka9q_unix.Mbuf.Chain.Front.{append-contents}
use ka9q_unix.Ip.{Ip}
use ka9q_unix.Ip.Reassembly.{
  Frag, Reasm, fraghandle, add_to_reasm, last_of, header_len, take_reasm, receive_all, Handled,
  complete, incomplete, matches, add_frag, finish, find_place, strip, add_stripped, trim_frags,
  join, unwind, whole, creat_reasm,
}
use ka9q_unix.Ip.Reassembly.Pieces.{Datagram, covers}
use ka9q_unix.Ip.Reassembly.Complete.{IsFragment, Collecting, Reassembles, add_to_reasm-Reassembles}
use ka9q_unix.Ip.Reassembly.InOrder.{Delivers, receive_all-InOrder}
use ka9q_unix.Ip.Reassembly.Faults.{add_to_reasm_front, add_to_reasm_cover, add_to_reasm_overlap}

abbrev datagram : Datagram
datagram = record {
  bytes = 1 ∷ 2 ∷ 3 ∷ 4 ∷ 5 ∷ 6 ∷ 7 ∷ 8 ∷ 9 ∷ 10 ∷ 11 ∷ 12 ∷ [];
  cut = λ x. x == 0 || x == 8 || x == 12;
}

abbrev ip_header : ℕ → ℕ → Bool → Ip
ip_header offset len mf = record {
  source = 0x2c000001;
  dest = 0x2c000002;
  length = 20 + len;
  id = 7;
  offset = offset;
  checksum = 0;
  flags = record { congest = false; df = false; mf = mf };
  version = 4;
  tos = 0;
  ttl = 64;
  protocol = 17;
  optlen = 0;
  options = [];
}

abbrev buffer : List ℕ → Packet
buffer bytes = record { size = 32; refcnt = 1; is_dup = false; room = 0; bytes = bytes } ∷ []

abbrev first : Packet
first = buffer (1 ∷ 2 ∷ 3 ∷ 4 ∷ 5 ∷ 6 ∷ 7 ∷ 8 ∷ [])

abbrev second : Packet
second = buffer (9 ∷ 10 ∷ 11 ∷ 12 ∷ [])

first-IsFragment : IsFragment datagram (ip_header 0 8 true) first
unfolding last_of header_len
first-IsFragment = record {
  is_piece = record {
    holds = record {
      some_data = omega arith;
      within = omega arith;
      bytes = refl;
      from_cut = refl;
      to_cut = refl;
    };
    filled = (omega arith, tt);
  };
  uncut = λ x c lt. ground arith;
  mark = (λ e. omega arith, λ lt. refl);
  proper = λ e. refl;
  header = omega arith;
}

second-IsFragment : IsFragment datagram (ip_header 8 4 false) second
unfolding last_of header_len
second-IsFragment = record {
  is_piece = record {
    holds = record {
      some_data = omega arith;
      within = omega arith;
      bytes = refl;
      from_cut = refl;
      to_cut = refl;
    };
    filled = (omega arith, tt);
  };
  uncut = λ x c lt. ground arith;
  mark = (λ e. cc, λ lt. absurd (omega arith));
  proper = λ e. absurd (omega (arith, e));
  header = omega arith;
}

-- The descriptor once the second fragment is there.
abbrev tail : Frag
tail = record { offset = 8; last = 12; buf = second; stale = false }

abbrev waiting : Reasm
waiting = record {
  source = 0x2c000001;
  dest = 0x2c000002;
  id = 7;
  protocol = 17;
  length = 12;
  fraglist = tail ∷ [];
}

abbrev begun : Reasm
begun = record waiting {
  length = 0;
  fraglist = record { offset = 0; last = 8; buf = first; stale = false } ∷ [];
}

begun-Collecting : Collecting datagram begun
unfolding last_of header_len
begun-Collecting = record {
  frags = (omega arith, (first-IsFragment.is_piece.holds, refl), tt);
  known = inl (refl, refl);
  pending = λ full. cc (full 9 (omega arith));
}

add_to_reasm-Reassembles_example :
    Reassembles datagram
      (ip_header 8 4 false)
      (covers begun.fraglist)
      begun
      []
      (add_to_reasm true (ip_header 8 4 false) second begun [])
add_to_reasm-Reassembles_example =
    add_to_reasm-Reassembles datagram (ip_header 8 4 false) second begun [] second-IsFragment
      begun-Collecting

receive_all-InOrder_example :
    Delivers datagram []
      (receive_all ((ip_header 0 8 true, first) ∷ (ip_header 8 4 false, second) ∷ []) [])
unfolding last_of header_len take_reasm
receive_all-InOrder_example =
    receive_all-InOrder datagram (ip_header 0 8 true) first ((ip_header 8 4 false, second) ∷ []) []
      (
        first-IsFragment,
        refl,
        refl,
        refl,
        refl,
        refl,
        (second-IsFragment, refl, refl, refl, refl, refl, refl),
      )
      (omega arith) refl

add_to_reasm_front_example : add_to_reasm true (ip_header 0 8 true) first waiting [] ≡ none
unfolding last_of header_len
add_to_reasm_front_example =
    add_to_reasm_front true (ip_header 0 8 true) first waiting [] tail refl refl refl (omega arith)
      (omega arith) refl

add_to_reasm_cover_example : add_to_reasm true (ip_header 0 12 true) first waiting [] ≡ none
unfolding last_of header_len
add_to_reasm_cover_example =
    add_to_reasm_cover true (ip_header 0 12 true) first waiting [] tail refl refl refl (omega arith)
      (omega arith) (omega arith) (omega arith, tt) (omega arith)

add_to_reasm_overlap_example :
    (ip' : Ip) × (add_to_reasm true (ip_header 0 10 true) first waiting []
      ≡ some (complete ip' first, []))
    × (ip'.length ≡ u32 (12 + header_len (ip_header 0 10 true)))
unfolding last_of header_len
add_to_reasm_overlap_example =
    add_to_reasm_overlap true (ip_header 0 10 true) first waiting [] tail refl refl refl
      (omega arith) refl (omega arith) (omega arith) (omega arith)

-- In the other order the second fragment is kept, and the first one then faults.
reversed : receive_all ((ip_header 8 4 false, second) ∷ (ip_header 0 8 true, first) ∷ []) [] ≡ none
unfolding receive_all fraghandle take_reasm matches creat_reasm add_to_reasm last_of header_len
    finish whole add_frag find_place strip add_stripped trim_frags join unwind
reversed = refl

-- The padding of a short link frame behind a fragment that is not the last stays in the datagram:
-- here two bytes between the first eight and the last four.
padded : Packet
padded = buffer (1 ∷ 2 ∷ 3 ∷ 4 ∷ 5 ∷ 6 ∷ 7 ∷ 8 ∷ 0 ∷ 0 ∷ [])

padded_bytes : Option (Handled × List Reasm) → List ℕ
padded_bytes none = []
padded_bytes (some (incomplete, q)) = []
padded_bytes (some (complete ip bp, q)) = contents bp

padding_stays :
    padded_bytes
      (receive_all ((ip_header 0 8 true, padded) ∷ (ip_header 8 4 false, second) ∷ []) [])
    ≡ 1 ∷ 2 ∷ 3 ∷ 4 ∷ 5 ∷ 6 ∷ 7 ∷ 8 ∷ 0 ∷ 0 ∷ 9 ∷ 10 ∷ 11 ∷ 12 ∷ []
unfolding padded padded_bytes receive_all fraghandle take_reasm matches creat_reasm add_to_reasm
    last_of header_len finish whole add_frag find_place strip add_stripped trim_frags join unwind
padding_stays = append-contents padded second
