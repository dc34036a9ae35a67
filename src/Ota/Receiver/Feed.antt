-- ===== src/Ota/Receiver/Feed.antt =====
-- A sequence of `writeChunk` calls of src/runtime/ota_receiver.cpp on a healthy session.
use canshift_firmware.Prelude.{
  ℕ, ◌<◌, ◌≡◌, ◌≢◌, ◌⊎◌, inl, inr, refl, ap, ◌∙◌, sym, Bool, none, some, List, [], ◌∷◌, ◌++◌,
  length, arith, append_assoc, append-nil, All,
}
use canshift_firmware.Ota.Crypto.{Crypto}
use canshift_firmware.Ota.Receiver.{failed, Receiver, WriteResult, write_chunk}
use canshift_firmware.Ota.Receiver.Inv.{
  Begun, img, Healthy, Wrote, accepted, dropped, write_chunk-Wrote,
}

-- A `WRITE` command as it reaches `writeChunk`, with the answer of `esp_ota_write`.
pub record Chunk : Type 0 where
  pub offset : ℕ
  pub bytes : List ℕ
  pub write_ok : Bool

abbrev pub IsShort : Chunk → Type 0
IsShort k = length k.bytes < 2147483648

abbrev pub accepted_bytes : List ℕ → WriteResult → List ℕ
accepted_bytes bytes w = elim w.error [ none ↦ bytes | some e ↦ [] ]

not_accepted : (bytes : List ℕ) (w : WriteResult) → w.error ≢ none → accepted_bytes bytes w ≡ []
not_accepted bytes w h = ground arith

module _ {c : Crypto} where
  -- The receiver after the chunks, and the bytes of the chunks that it took.
  unfoldable pub feed : List Chunk → Receiver c → Receiver c × List ℕ
  feed [] r = (r, [])
  feed (k ∷ ks) r =
      let (r', w) = write_chunk k.offset k.bytes k.write_ok r in
      let (last, rest) = feed ks r' in (last, accepted_bytes k.bytes w ++ rest)

  -- A session that is over takes nothing more.
  pub feed_failed : (ks : List Chunk) (r : Receiver c) → r.state ≡ failed → feed ks r ≡ (r, [])
  unfolding feed write_chunk
  feed_failed [] r e = refl
  feed_failed (k ∷ ks) r e = ground (arith, feed_failed ks r e)

  -- What `feed` does from `r` on.
  abbrev pub Feeds : Begun → List Chunk → Receiver c → Type 0
  Feeds b ks r =
      (Healthy b (feed ks r).0 × (img (feed ks r).0 ≡ img r ++ (feed ks r).1))
      ⊎ ((feed ks r).0.state ≡ failed)

  feed_next :
      (b : Begun) (bytes : List ℕ) (ks : List Chunk) (r : Receiver c)
      (out : Receiver c × WriteResult)
      → Healthy b r
      → ((r' : Receiver c) → Healthy b r' → Feeds b ks r')
      → ((out.0 ≡ r) × (out.1.error ≢ none) × (out.1.written_total ≡ r.written_size))
        ⊎ Wrote b (img r) bytes out
      → (Healthy b (feed ks out.0).0
          × (img (feed ks out.0).0 ≡ img r ++ (accepted_bytes bytes out.1 ++ (feed ks out.0).1)))
        ⊎ ((feed ks out.0).0.state ≡ failed)
  feed_next b bytes ks r (r', w) v ih (inl (same, err, count)) =
      rw same (rw (not_accepted bytes w err) (ih r v))
  feed_next b bytes ks r (r', w) v ih (inr (accepted live grown probe passes good total)) =
      elim (ih r' (record { live = live; probe = probe; passes = passes })) [
        | inl (healthy, behind) ↦
            inl (healthy, ground (arith, append_assoc (img r) bytes (feed ks r').1))
        | inr over ↦ inr over
      ]
  feed_next b bytes ks r (r', w) v ih (inr (dropped over closed bad count)) =
      inr (ap (λ t. t.0.state) (feed_failed ks r' over) ∙ over)

  -- The chunks either leave the session healthy, with exactly the taken bytes behind the image, or
  -- end it.
  pub feed-Healthy :
      (b : Begun) (ks : List Chunk) (r : Receiver c) → All IsShort ks → Healthy b r → Feeds b ks r
  unfolding feed
  feed-Healthy b [] r short v = inl (v, sym (append-nil (img r)))
  feed-Healthy b (k ∷ ks) r short v =
      feed_next b k.bytes ks r (write_chunk k.offset k.bytes k.write_ok r) v
        (λ r' v'. feed-Healthy b ks r' short.1 v')
        (write_chunk-Wrote b k.offset k.bytes k.write_ok r short.0 v)
