-- ===== src/Agent/Peers/Offers.antt =====
-- src/UserAgent.cpp with src/SIP.cpp and src/SDP.cpp: what an agent relies on in a packet, where the
-- packet is one that this program prints.
use viva_voce.Prelude.{
  ℕ, zero, suc, ◌<◌, ◌^◌, ◌≡◌, refl, ap, sym, ◌∙◌, Bool, true, false, List, [], ◌∷◌, Option, none,
  some, length, drop, ◌==◌, if◌then◌else◌, arith,
}
use mathlib.Core.Path.{subst}
use mathlib.Core.Option.{some-injective}
use viva_voce.Prelude.Int.{ℤ, pos, pos_part}
use viva_voce.Text.{Text, codes, strtok}
use viva_voce.Text.Cuts.{IsPlain}
use viva_voce.Sip.{SipPacket, Via, add_via_field, method_inv, response_ok}
use viva_voce.Sip.RoundTrip.Lines.{rest_of}
use viva_voce.Sip.RoundTrip.Packets.{tail, with_length, with_type}
use viva_voce.Sip.RoundTrip.Whole.{IsSendable, received, with_vias, with_first}
use viva_voce.Sdp.{SdpPacket, new_sdp}
use viva_voce.Sdp.Session.Written.{owner_of, own_text, write-own_session}
use viva_voce.Sdp.Session.{own_session}
use viva_voce.Sdp.Writer.{write}
use viva_voce.Sdp.Session.Heard.{said}
use viva_voce.Sdp.Session.Peer.{sdp_of, with_sdp, own_session-said, has_sdp-sized}
use viva_voce.Sdp.Session.Call.{body-whole, received-content}
use viva_voce.Agent.Environment.{Environment}
use viva_voce.Agent.Invariant.{IsComplete, is_some, is_offer, media_complete, type_complete}

-- The content of a packet is what `SDPHandler::write` gives of the session that some agent's `init`
-- describes.
pub record IsOwnOffer (p : SipPacket) : Type 0 where
  pub username : Text
  pub session_id : ℕ
  pub owner_version : ℕ
  pub port : ℕ
  pub text : Text
  pub plain : IsPlain username
  pub id_small : session_id < 2 ^ 31
  pub version_small : owner_version < 2 ^ 31
  pub port_small : port < 2 ^ 31
  pub written :
      write (own_session username session_id owner_version port new_sdp)
      ≡ some (pos p.content_length, text)
  pub type_is : p.content_type ≡ some (codes "application/sdp")
  pub data_is : p.content_data ≡ some text

-- The text, and its length, of such a packet.
offer_text :
    (p : SipPacket) (o : IsOwnOffer p)
    → let text = own_text (owner_of o.username o.session_id o.owner_version) o.port in
      (p.content_length ≡ length text) × (p.content_data ≡ some text)
offer_text p o =
    let text = own_text (owner_of o.username o.session_id o.owner_version) o.port in
    let e = some-injective _ _ (
      sym o.written
      ∙ write-own_session o.username o.session_id o.owner_version o.port o.id_small o.version_small
          o.port_small) in
    (ap (λ r. pos_part r.0) e, o.data_is ∙ ap (λ r. some r.1) e)

-- What the agent relies on in every packet.
record Basics (p : SipPacket) : Type 0 where
  call_host : is_some p.call_id_host ≡ true
  contact_id : is_some p.contact_uri.id ≡ true
  contact_host : is_some p.contact_uri.host ≡ true

with_type-Basics : (t : Option Text) (p : SipPacket) → Basics p → Basics (with_type t p)
with_type-Basics none p b = b
with_type-Basics (some t) p b = record {
  call_host = b.call_host;
  contact_id = b.contact_id;
  contact_host = b.contact_host;
}

with_length-Basics :
    (n : ℕ) (bytes : Text) (p : SipPacket) → Basics p → Basics (with_length n bytes p)
with_length-Basics zero bytes p b = record {
  call_host = b.call_host;
  contact_id = b.contact_id;
  contact_host = b.contact_host;
}
with_length-Basics (suc n) bytes p b = record {
  call_host = b.call_host;
  contact_id = b.contact_id;
  contact_host = b.contact_host;
}

-- A packet that is read is an offer if the one that was written is.
with_type-is_offer : (t : Option Text) (p : SipPacket) → is_offer (with_type t p) ≡ is_offer p
with_type-is_offer none p = refl
with_type-is_offer (some t) p = refl

with_length-is_offer :
    (n : ℕ) (bytes : Text) (p : SipPacket) → is_offer (with_length n bytes p) ≡ is_offer p
with_length-is_offer zero bytes p = refl
with_length-is_offer (suc n) bytes p = refl

with_first-is_offer :
    (b : Bool) (p q : SipPacket)
    → is_offer (with_first b p q)
      ≡ (if b then p.request_code == method_inv else p.response_code == response_ok)
with_first-is_offer true p q = refl
with_first-is_offer false p q = refl

with_vias-is_offer : (vs : List Via) (p : SipPacket) → is_offer (with_vias vs p) ≡ is_offer p
unfolding add_via_field
with_vias-is_offer [] p = refl
with_vias-is_offer (v ∷ vs) p = with_vias-is_offer vs _

received-is_offer :
    (p : SipPacket) (bytes text : Text) (q : SipPacket)
    → is_offer (received p bytes text q) ≡ is_offer p
received-is_offer p bytes text q =
    with_length-is_offer p.content_length bytes _
    ∙ with_type-is_offer p.content_type _
    ∙ with_vias-is_offer p.via_list _
    ∙ with_first-is_offer p.is_request p (record q { is_request = false; input = some text })

module _ {R : Type 0} (env : Environment R) where
  text_complete :
      (r : SipPacket)
      → r.content_type ≡ some (codes " application/sdp")
      → 0 < r.content_length
      → media_complete (env.sdp_read (record r { content_type = some (codes "application/sdp") }))
        ≡ true
      → type_complete env r r.content_type ≡ true
  unfolding strtok
  text_complete r t l m =
      rw (t, has_sdp-sized (record r { content_type = some (codes "application/sdp") }) refl l) m

module _ (absent : Text → ℤ) (inet_addr : Text → ℕ) {R : Type 0} (env : Environment R)
    (sdp : SdpPacket) where
  said_complete : (port : ℕ) → media_complete (said port) ≡ true
  unfolding strtok
  said_complete port = refl

  own_complete :
      (r : SipPacket) (username : Text) (session_id owner_version port : ℕ)
      → let text = own_text (owner_of username session_id owner_version) port in
        IsPlain username
        → port < 2 ^ 31
        → r.content_type ≡ some (codes " application/sdp")
        → r.content_length ≡ length text
        → r.content_data ≡ some (rest_of [] (tail text))
        → type_complete (with_sdp absent inet_addr env sdp) r r.content_type ≡ true
  own_complete r username session_id owner_version port plain h t l d =
      let text = own_text (owner_of username session_id owner_version) port in
      let p : SipPacket = record r { content_type = some (codes "application/sdp") } in
      let size : length text ≡ suc (length (drop 1 text)) = refl in
      let heard : sdp_of absent inet_addr sdp p ≡ said port =
        rw (d, l)
          (own_session-said absent inet_addr sdp username session_id owner_version port plain h) in
      text_complete (with_sdp absent inet_addr env sdp) r t (omega (arith, l, size))
        (ap media_complete heard ∙ said_complete port)

  -- A packet that is read, if its content is an agent's own where it has to be.
  pub received-IsComplete :
      (p : SipPacket) (w : IsSendable p) (bytes : Text) (q : SipPacket)
      → (is_offer p ≡ true → IsOwnOffer p)
      → IsComplete (with_sdp absent inet_addr env sdp) (received p w.fields.content bytes q)
  received-IsComplete p w bytes q own =
      let basic : Basics (received p w.fields.content bytes q) =
        with_length-Basics p.content_length w.fields.content _ (
          with_type-Basics p.content_type _ (record {
            call_host = ap is_some w.fields.call_host.is;
            contact_id = ap is_some w.fields.contact_id.is;
            contact_host = ap is_some w.fields.contact_host.is;
          })) in
      record {
        call_host = basic.call_host;
        contact_id = basic.contact_id;
        contact_host = basic.contact_host;
        content =
            λ h. offered p w bytes q (own (sym (received-is_offer p w.fields.content bytes q) ∙ h));
      }
    where
      offered :
          (p : SipPacket) (w : IsSendable p) (bytes : Text) (q : SipPacket)
          → IsOwnOffer p
          → let r = received p w.fields.content bytes q in
            type_complete (with_sdp absent inet_addr env sdp) r r.content_type ≡ true
      offered p w bytes q o =
          let text = own_text (owner_of o.username o.session_id o.owner_version) o.port in
          let is = offer_text p o in
          let whole : some w.fields.content ≡ some text =
            sym w.fields.content_is ∙ rw (is.0, is.1) (body-whole _ _) in
          let kept = received-content p _ _ bytes q o.type_is is.0 in
          subst
            (λ c.
              let r = received p c bytes q in
              type_complete (with_sdp absent inet_addr env sdp) r r.content_type ≡ true)
            (sym (some-injective _ _ whole))
            (own_complete (received p text bytes q) o.username o.session_id o.owner_version o.port
              o.plain o.port_small kept.0 kept.1 kept.2)
