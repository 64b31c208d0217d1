-- ===== src/Ahdlc/Tests.antt =====
-- The theorems on framing at concrete frames.
use ka9q_unix.Base.{◌≡◌, refl, ◌++◌, [], ◌∷◌, arith, true, false, none}
use ka9q_unix.Crc.{fcs_start}
use ka9q_unix.Ahdlc.{Ahdlc, receive, ahdlctx}
use ka9q_unix.Ahdlc.RoundTrip.{IsIdle, receive-ahdlctx}
use ka9q_unix.Ahdlc.Receiver.{Fits, receive-Fits, stale_escape}

abbrev idle : Ahdlc
idle = record {
  escaped = false;
  hunt = false;
  inframe = none;
  maxsize = 8;
  fcs_now = fcs_start;
  rxframes = 0;
  aborts = 0;
  toobigs = 0;
  crcerrs = 0;
  runts = 0;
}

idle-IsIdle : IsIdle idle
idle-IsIdle = record {
  open_now = record { plain = refl; awake = refl };
  empty = refl;
  fresh = refl;
}

receive-ahdlctx_example :
    receive idle (ahdlctx (0x7e ∷ 0x41 ∷ 0x7d ∷ []))
    ≡ (record idle { rxframes = 1 }, (0x7e ∷ 0x41 ∷ 0x7d ∷ []) ∷ [])
receive-ahdlctx_example =
    receive-ahdlctx idle (0x7e ∷ 0x41 ∷ 0x7d ∷ []) idle-IsIdle
      (omega arith, (omega arith, (omega arith, tt))) (omega arith)

receive-Fits_example : Fits (receive idle (1 ∷ 2 ∷ 3 ∷ 4 ∷ 5 ∷ 6 ∷ 7 ∷ 8 ∷ 9 ∷ [])).0
receive-Fits_example = receive-Fits idle (1 ∷ 2 ∷ 3 ∷ 4 ∷ 5 ∷ 6 ∷ 7 ∷ 8 ∷ 9 ∷ []) (omega arith)

stale_escape_example :
    (receive
      (record idle { hunt = true })
      ((0x40 ∷ 0x7d ∷ 0x5e ∷ []) ++ 0x7e ∷ ahdlctx (1 ∷ 2 ∷ []))).1
    ≡ []
stale_escape_example =
    stale_escape (record idle { hunt = true }) (0x40 ∷ []) (0x5e ∷ []) (1 ∷ 2 ∷ []) refl
      (omega arith, tt) (omega arith, tt)
