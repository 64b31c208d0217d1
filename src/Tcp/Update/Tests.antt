-- ===== src/Tcp/Update/Tests.antt =====
-- The theorems on acknowledgements at a connection with data in flight.
use ka9q_unix.Base.{ℕ, ◌≡◌, true, false, [], ◌∷◌, arith, refl, some}
use ka9q_unix.Tcp.{Tcp}
use ka9q_unix.Tcp.Output.{Settings, Sender, tcp_established}
use ka9q_unix.Tcp.Seq.{seq_gt, seq_lt}
use ka9q_unix.Tcp.Update.{Updated, update, offered}
use ka9q_unix.Tcp.Update.Alike.{IsReady}
use ka9q_unix.Tcp.Update.Acknowledge.{Acknowledged}
use ka9q_unix.Tcp.Update.Keeps.{IsOffer, update-IsReady, update-Acknowledged}

abbrev usual : Settings
usual = record { tcp_mss = 512; tcp_syndata = false; tcp_tstamps = true }

-- Three octets of five are in flight, and two duplicates have come.
abbrev waiting : Sender
waiting = record {
  state = tcp_established;
  source = 1024;
  dest = 25;
  una = 0xfffffffe;
  nxt = 1;
  ptr = 1;
  wl1 = 7;
  wl2 = 0xfffffffe;
  wnd = 100;
  wind_scale = 1;
  iss = 0xfffffff0;
  resent = 0;
  cwind = 4;
  ssthresh = 4;
  dupacks = 2;
  rcv_nxt = 7;
  rcv_wnd = 2048;
  rcv_scale = 0;
  last_ack_sent = 7;
  ts_recent = 0;
  mss = 2;
  force = false;
  retran = false;
  synack = true;
  rtt_run = true;
  congest = false;
  ts_ok = false;
  ws_ok = true;
  backoff = 0;
  sndq =
      record { size = 64; refcnt = 1; is_dup = false; room = 40; bytes = 1 ∷ 2 ∷ 3 ∷ 4 ∷ 5 ∷ [] }
      ∷ [];
  sndcnt = 5;
  timer_runs = true;
  interval = 0;
  rtt_time = 90;
  rttseq = 0;
  rttack = 0xfffffffe;
  srtt = 1000;
  mdev = 100;
  rtt = 0;
  timeouts = 0;
  window = 2048;
  has_upcall = true;
  lastack = 0;
  outlen = 0;
  outrate = 0;
}

abbrev answer : ℕ → Tcp
answer ack = record {
  source = 25;
  dest = 1024;
  seq = 7;
  ack = ack;
  wnd = 50;
  checksum = 0;
  up = 0;
  mss = 0;
  wsopt = 0;
  tsval = 0;
  tsecr = 0;
  flags = record {
    congest = false;
    urg = false;
    ack = true;
    psh = false;
    rst = false;
    syn = false;
    fin = false;
    has_mss = false;
    has_wscale = false;
    has_tstamp = false;
  };
}

waiting-IsReady : IsReady waiting
waiting-IsReady = record {
  sender = record {
    una = omega arith;
    ptr = omega arith;
    nxt = omega arith;
    ordered = omega arith;
    queued = omega arith;
    count = omega arith;
    held = omega arith;
    wnd = omega arith;
    cwind = omega arith;
    mss_low = omega arith;
    mss = omega arith;
  };
  unacked = λ e. absurd (ground (arith, e));
  threshold_low = omega arith;
  threshold = omega arith;
  cwind_low = omega arith;
}

duplicate-IsOffer : IsOffer (answer 0xfffffffe) waiting
unfolding offered
duplicate-IsOffer = record { ack = omega arith; offer = omega arith }

fresh-IsOffer : IsOffer (answer 0) waiting
unfolding offered
fresh-IsOffer = record { ack = omega arith; offer = omega arith }

update-IsReady_example :
    (r : Updated) × ((update usual 99 (answer 0xfffffffe) 0 waiting ≡ some r) × IsReady r.tcb)
update-IsReady_example =
    update-IsReady usual 99 (answer 0xfffffffe) 0 waiting waiting-IsReady duplicate-IsOffer refl
      (λ e. absurd (ground (arith, e)))

update-Acknowledged_example :
    (r : Updated) × ((update usual 99 (answer 0) 0 waiting ≡ some r)
      × ((r.sent ≡ []) × Acknowledged waiting 0 r.tcb))
unfolding seq_gt seq_lt
update-Acknowledged_example =
    update-Acknowledged usual 99 (answer 0) 0 waiting waiting-IsReady fresh-IsOffer refl refl
      (omega arith)
