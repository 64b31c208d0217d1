-- ===== src/Ip/Checksum/Tests.antt =====
-- The checksum of an odd number of bytes in two mbufs, one of them at an odd address.
use ka9q_unix.Base.{
  ℕ, ◌+◌, ◌-◌, ◌≡◌, Bool, false, List, [], ◌∷◌, take, none, some, inl, inr, arith, refl, ◌==◌,
}
use ka9q_unix.Mbuf.{Packet, Mbuf, contents}
use ka9q_unix.Ip.Checksum.{
  PseudoHeader, cksum, pseudo_sum, add_mbufs, add_mbuf, leading, aligned, trailing, lcsum,
  add_words, fold,
}
use ka9q_unix.Ip.Checksum.Sums.{word_sum, folded}
use ka9q_unix.Ip.Checksum.Reference.{cksum-word_sum}

abbrev piece : List ℕ → Mbuf
piece bytes = record { size = 32; refcnt = 1; is_dup = false; room = 0; bytes = bytes }

abbrev two : Packet
two = piece (0xff ∷ 0xfe ∷ 3 ∷ []) ∷ piece (4 ∷ 5 ∷ 0xff ∷ 7 ∷ []) ∷ []

abbrev pseudo : PseudoHeader
pseudo = record { source = 0x2c000001; dest = 0x2c000002; protocol = 6; length = 7 }

-- The second mbuf begins at an odd address.
abbrev second_odd : ℕ → Bool
second_odd place = place == 1

cksum-word_sum_example :
    cksum second_odd (some pseudo) two 7
    ≡ some (65535 - folded (pseudo_sum (some pseudo) + word_sum false (take 7 (contents two))))
unfolding pseudo_sum
cksum-word_sum_example =
    cksum-word_sum second_odd (some pseudo) two 7 (omega arith) (omega arith) (omega arith)
      (omega arith) (inl refl, (inr (omega arith), tt))

-- An empty mbuf at an odd address makes the count of its bytes fall below zero.
empty_mbuf :
    cksum second_odd none (piece (1 ∷ 2 ∷ []) ∷ piece [] ∷ piece (3 ∷ 4 ∷ []) ∷ []) 4 ≡ none
unfolding cksum add_mbufs add_mbuf leading pseudo_sum aligned trailing lcsum add_words fold
empty_mbuf = refl
