-- ===== src/Sip/RoundTrip.antt =====
-- src/SIP.cpp: what `SIPHandler::write` prints, read back by `SIPHandler::read`.
pub mod Parties
pub mod Fields
pub mod Lines
pub mod First
pub mod Words
pub mod Packets
pub mod Whole
