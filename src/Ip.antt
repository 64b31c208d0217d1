-- ===== src/Ip.antt =====
-- net/inet: IP. `Ip` is a header in host form (struct ip); addresses are 32-bit patterns.
pub mod Reassembly
pub mod Route
pub mod Header
pub mod Checksum
use ka9q_unix.Base.{ℕ, Bool, List}

pub record IpFlags : Type 0 where
  pub congest : Bool
  pub df : Bool
  pub mf : Bool

pub record Ip : Type 0 where
  pub source : ℕ
  pub dest : ℕ
  pub length : ℕ
  pub id : ℕ
  pub offset : ℕ
  pub checksum : ℕ
  pub flags : IpFlags
  pub version : ℕ
  pub tos : ℕ
  pub ttl : ℕ
  pub protocol : ℕ
  pub optlen : ℕ
  pub options : List ℕ

abbrev pub iplen : ℕ
iplen = 20
