-- ===== src/Common/Closing.antt =====
-- src/Common.cpp: where the memos are once the destructor has emptied the queues.
use viva_voce.Prelude.{◌≡◌, ap, ◌∙◌, List, [], ◌++◌}
use viva_voce.Pool.{Memo, empty_queue}
use viva_voce.Pool.Loops.{reserve, empty_queue_lem}
use viva_voce.Common.{Common, empty_stores}

pub empty_stores_lem :
    {R : Type 0} (c : Common R)
    → let c' = empty_stores c in
      (c'.send_q.data_q ≡ [])
      × (c'.codec_q.data_q ≡ [])
      × (c'.play_q.data_q ≡ [])
      × (c'.signal_q.data_q ≡ [])
      × (reserve c'.rmg ≡ reserve c.rmg ++ c.send_q.data_q ++ c.codec_q.data_q ++ c.play_q.data_q)
      × (reserve c'.sip_rmg ≡ reserve c.sip_rmg ++ c.signal_q.data_q)
unfolding empty_stores
empty_stores_lem c =
    let sent = empty_queue_lem c.send_q c.rmg in
    let rmg1 = (empty_queue c.send_q c.rmg).2 in
    let coded = empty_queue_lem c.codec_q rmg1 in
    let rmg2 = (empty_queue c.codec_q rmg1).2 in
    let played = empty_queue_lem c.play_q rmg2 in
    let signalled = empty_queue_lem c.signal_q c.sip_rmg in
    (
      sent.1,
      coded.1,
      played.1,
      signalled.1,
      played.2
          ∙ ap (λ (l : List Memo). l ++ c.play_q.data_q)
              (coded.2 ∙ ap (λ (l : List Memo). l ++ c.codec_q.data_q) sent.2),
      signalled.2,
    )
