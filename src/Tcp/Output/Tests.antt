-- ===== src/Tcp/Output/Tests.antt =====
-- The theorems on output at a connection with 3000 octets to send.
use ka9q_unix.Base.{ℕ, ◌≡◌, true, false, List, [], ◌∷◌, arith, refl, Option, some, none}
use ka9q_unix.Mbuf.{Packet}
use ka9q_unix.Tcp.Output.{
  Settings, Sender, Sent, tcp_syn_received, tcp_established, segment_size, send_segment, tcp_output,
}
use ka9q_unix.Tcp.Output.Bounds.{IsSender}
use ka9q_unix.Tcp.Output.Ends.{Ends, tcp_output-Ends}
use ka9q_unix.Tcp.Output.Forced.{forced_syn_lem}
use ka9q_unix.Tcp.Output.Timeout.{
  IsWhole, back_to_una, tcp_timeout, retransmits, tcp_timeout-oldest,
}
use ka9q_unix.Tcp.Output.Window.{IsPiece, Unacked}

abbrev usual : Settings
usual = record { tcp_mss = 512; tcp_syndata = false; tcp_tstamps = true }

abbrev queue : Packet
queue =
    record { size = 64; refcnt = 1; is_dup = false; room = 40; bytes = 1 ∷ 2 ∷ 3 ∷ 4 ∷ 5 ∷ [] } ∷ []

-- Two octets are in flight, next to the end of the sequence space.
abbrev flowing : Sender
flowing = record {
  state = tcp_established;
  source = 1024;
  dest = 25;
  una = 0xfffffffe;
  nxt = 0;
  ptr = 0;
  wl1 = 0;
  wl2 = 0;
  wnd = 100;
  wind_scale = 0;
  iss = 0xfffffff0;
  resent = 0;
  cwind = 4;
  ssthresh = 4;
  dupacks = 0;
  rcv_nxt = 7;
  rcv_wnd = 2048;
  rcv_scale = 0;
  last_ack_sent = 7;
  ts_recent = 0;
  mss = 2;
  force = false;
  retran = false;
  synack = true;
  rtt_run = false;
  congest = false;
  ts_ok = false;
  ws_ok = false;
  backoff = 0;
  sndq = queue;
  sndcnt = 5;
  timer_runs = false;
  interval = 0;
  rtt_time = 0;
  rttseq = 0;
  rttack = 0;
  srtt = 1000;
  mdev = 100;
  rtt = 0;
  timeouts = 0;
  window = 2048;
  has_upcall = false;
  lastack = 0;
  outlen = 0;
  outrate = 0;
}

flowing-IsSender : IsSender flowing
flowing-IsSender = record {
  una = omega arith;
  ptr = omega arith;
  nxt = omega arith;
  ordered = omega arith;
  queued = omega arith;
  count = omega arith;
  held = omega arith;
  wnd = omega arith;
  cwind = omega arith;
  mss_low = omega arith;
  mss = omega arith;
}

flowing-Unacked : Unacked flowing
flowing-Unacked e = absurd (ground (arith, e))

tcp_output-Ends_example : Ends usual flowing (tcp_output usual 99 flowing)
tcp_output-Ends_example =
    tcp_output-Ends usual 99 flowing flowing-IsSender flowing-Unacked
      (λ e f. absurd (ground (arith, e))) refl

tcp_timeout-oldest_example :
    (t' : Sender) × ((x : Sent) × ((tcp_timeout usual 99 flowing ≡ retransmits (some (t', x ∷ [])))
        × ((x.seg.seq ≡ flowing.una)
            × (IsWhole flowing x
                × (IsPiece (back_to_una flowing) x × (IsSender t' × (t'.ptr ≡ flowing.ptr)))))))
tcp_timeout-oldest_example =
    tcp_timeout-oldest usual 99 flowing flowing-IsSender flowing-Unacked refl refl refl
      (omega arith)

-- A SYN/ACK that is not acknowledged yet, with the send pointer back at it.
abbrev answering : Sender
answering = record flowing {
  state = tcp_syn_received;
  una = 0xfffffff0;
  ptr = 0xfffffff0;
  nxt = 0xfffffff1;
  force = true;
  synack = false;
  sndcnt = 6;
}

forced_syn_lem_example :
    let s = (send_segment usual 99 answering (segment_size usual answering)).1 in
    (s.seg.flags.syn ≡ true)
    × ((s.seg.flags.fin ≡ true) × ((s.seg.seq ≡ 0xfffffff1) × (s.bytes ≡ 1 ∷ 2 ∷ 3 ∷ 4 ∷ 5 ∷ [])))
forced_syn_lem_example =
    forced_syn_lem usual 99 answering refl refl refl (omega arith) (omega arith) (omega arith)

abbrev seqs : List Sent → List ℕ
seqs [] = []
seqs (x ∷ xs) = x.seg.seq ∷ seqs xs

abbrev output_seqs : Option (Sender × List Sent) → List ℕ
output_seqs none = []
output_seqs (some (t, out)) = seqs out

-- One segment goes out, behind what is in flight; the last octet waits for the window.
flowing_seqs : output_seqs (tcp_output usual 99 flowing) ≡ 0 ∷ []
unfolding tcp_output
flowing_seqs = refl
