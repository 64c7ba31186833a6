-- ===== src/Udp.antt =====
-- src/UdpRW.cpp: the addresses of the peer that `UdpBase` keeps in `Common`.
pub mod Link
pub mod Sockets
mod Tests
use viva_voce.Prelude.{ℕ, ◌%◌, Option, none, some, ltb, if◌then◌else◌}
use viva_voce.Text.{Text}

pub record Address : Type 0 where
  pub ip : ℕ
  pub port : ℕ

pub record Remotes : Type 0 where
  pub name : Option Text
  pub rtp : Address
  pub rtcp : Address
  pub sip : Address
  pub temp : Address

-- The resolver, `gethostbyname`, is a parameter. A port of 0 leaves the address as it was; `htons` keeps
-- 16 bits of another.
module _ (resolve : Text → Option ℕ) where
  abbrev pub update : ℕ → ℕ → Address → Address
  update ip port a = if ltb 0 port then record { ip = ip; port = port % 65536 } else a

  unfoldable pub init_remote_addr : Text → ℕ → ℕ → ℕ → Remotes → Remotes
  init_remote_addr host rtp_port rtcp_port sip_port r = elim (resolve host) [
    | none ↦ r
    | some ip ↦ record r {
      name = some host;
      rtp = update ip rtp_port r.rtp;
      rtcp = update ip rtcp_port r.rtcp;
      sip = update ip sip_port r.sip;
    }
  ]

  unfoldable pub init_temp_remote_addr : Text → ℕ → Remotes → Remotes
  init_temp_remote_addr host port r = elim (resolve host) [
    | none ↦ r
    | some ip ↦ record r { temp = update ip port r.temp }
  ]
