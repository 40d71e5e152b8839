-- ===== src/Runtime/Rtlink/Stream.antt =====
-- A word stream as frames: what the receiving board gets from them.
use mathlib.Core.List.{append_assoc, append-nil}
use catseq.Prelude.{
  ℕ, suc, ◌%◌, ◌^◌, ◌≤◌, ◌<◌, ◌≡◌, refl, arith, List, [], ◌∷◌, ◌++◌, ok, err, All, map, length, ap,
  sym, ◌∙◌, Result, ltb, ◌==◌, if◌then◌else◌, Bool-cases, inl, inr, ◌↔◌, ◌≢◌,
}
use catseq.Runtime.Rtlink.{
  RtlinkFrame, RtlinkFrameError, new, encode, decode, pairs, push_frames, encode_word_stream,
  channel_max, tag_max, flag_width, channel_width, tag_width,
}
use catseq.Runtime.Rtlink.Wire.{decode-encode_frame}

abbrev pub HeaderFits : ℕ → ℕ → ℕ → Type 0
HeaderFits flag channel tag = (flag ≤ 7) × (channel ≤ channel_max) × (tag ≤ tag_max)

abbrev pub IsWord : ℕ → Type 0
IsWord w = w < 2 ^ 32

-- The payload words of the frames, in their order.
abbrev pub payload_words : List RtlinkFrame → List ℕ
payload_words [] = []
payload_words (f ∷ rest) = f.payload.0 ∷ (f.payload.1 ∷ payload_words rest)

-- A zero behind an odd number of words.
abbrev pub padding : List ℕ → List ℕ
padding words = if length words % 2 == 0 then [] else 0 ∷ []

module _ (flag channel node tag : ℕ) where
  abbrev frame_of : ℕ × ℕ → RtlinkFrame
  frame_of p = record { flag = flag; channel = channel; node = node; tag = tag; payload = p }

  abbrev pub HasHeader : RtlinkFrame → Type 0
  HasHeader f = (f.flag ≡ flag) × (f.channel ≡ channel) × (f.node ≡ node) × (f.tag ≡ tag)

  new-frame_of :
      (p : ℕ × ℕ) → HeaderFits flag channel tag → new flag channel node tag p ≡ ok (frame_of p)
  unfolding new
  new-frame_of p h = ground arith

  push_frames-map :
      (frames : List RtlinkFrame) (ps : List (ℕ × ℕ))
      → HeaderFits flag channel tag
      → push_frames flag channel node tag frames ps ≡ ok (frames ++ map frame_of ps)
  unfolding push_frames
  push_frames-map frames [] h = ap ok (sym (append-nil frames))
  push_frames-map frames (p ∷ ps) h = rw (new-frame_of p h) (
      push_frames-map (frames ++ (frame_of p ∷ [])) ps h
      ∙ ap ok (append_assoc frames (frame_of p ∷ []) (map frame_of ps)))

  payload-pairs :
      (words : List ℕ) → payload_words (map frame_of (pairs words)) ≡ words ++ padding words
  payload-pairs [] = refl
  payload-pairs (w ∷ []) = refl
  payload-pairs (w ∷ (v ∷ rest)) =
      let even : suc (suc (length rest)) % 2 ≡ length rest % 2 = omega arith in
      rw (even) (ap (λ (t : List ℕ). w ∷ (v ∷ t)) (payload-pairs rest))

  frames-HasHeader : (ps : List (ℕ × ℕ)) → All HasHeader (map frame_of ps)
  frames-HasHeader [] = tt
  frames-HasHeader (p ∷ ps) = ((refl, refl, refl, refl), frames-HasHeader ps)

  frames-decode :
      (words : List ℕ)
      → HeaderFits flag channel tag
      → node < 2 ^ 16
      → All IsWord words
      → map decode (map encode (map frame_of (pairs words))) ≡ map ok (map frame_of (pairs words))
  frames-decode [] h n a = refl
  frames-decode (w ∷ []) h n (hw, a) =
      ap (λ (t : Result RtlinkFrameError RtlinkFrame). t ∷ [])
        (decode-encode_frame (frame_of (w, 0)) (omega arith)).2
  frames-decode (w ∷ (v ∷ rest)) h n (hw, (hv, a)) =
      rw ((decode-encode_frame (frame_of (w, v)) (omega arith)).2, frames-decode rest h n a)

-- For a header that fits, a 16-bit node and 32-bit words, the word stream is encoded. Every frame
-- has that header, `decode` reads each frame back from its bytes, and their payloads in order are
-- the words, with a zero behind an odd number of them.
pub stream_delivers :
    (flag channel node tag : ℕ) (words : List ℕ)
    → HeaderFits flag channel tag
    → node < 2 ^ 16
    → All IsWord words
    → (frames : List RtlinkFrame) × (encode_word_stream flag channel node tag words ≡ ok frames)
      × All (HasHeader flag channel node tag) frames
      × (map decode (map encode frames) ≡ map ok frames)
      × (payload_words frames ≡ words ++ padding words)
unfolding encode_word_stream
stream_delivers flag channel node tag words h n a = (
  map (frame_of flag channel node tag) (pairs words),
  push_frames-map flag channel node tag [] (pairs words) h,
  frames-HasHeader flag channel node tag (pairs words),
  frames-decode flag channel node tag words h n a,
  payload-pairs flag channel node tag words,
)

new_fails :
    (flag channel node tag : ℕ) (p : ℕ × ℕ)
    → ¬ HeaderFits flag channel tag
    → (e : RtlinkFrameError) × (new flag channel node tag p ≡ err e)
unfolding new
new_fails flag channel node tag p bad = elim (Bool-cases (ltb 7 flag)) [
  | inl f ↦ (flag_width, rw f)
  | inr f ↦ elim (Bool-cases (ltb channel_max channel)) [
    | inl c ↦ (channel_width, rw (f, c))
    | inr c ↦ elim (Bool-cases (ltb tag_max tag)) [
      | inl t ↦ (tag_width, rw (f, c, t))
      | inr t ↦ absurd (bad (ground arith, ground arith, ground arith))
    ]
  ]
]

-- The framing fails exactly when there is a word to send and the header does not fit: an empty
-- stream has no frame and passes under any header.
pub stream_fails_iff :
    (flag channel node tag : ℕ) (words : List ℕ)
    → ((e : RtlinkFrameError) × (encode_word_stream flag channel node tag words ≡ err e))
      ↔ ((words ≢ []) × ¬ HeaderFits flag channel tag)
unfolding encode_word_stream push_frames
stream_fails_iff flag channel node tag words = (fails words, refused words)
  where
    fails :
        (ws : List ℕ)
        → (e : RtlinkFrameError) × (encode_word_stream flag channel node tag ws ≡ err e)
        → (ws ≢ []) × ¬ HeaderFits flag channel tag
    fails ws (e, q) = (
      λ z. cc (ap (λ (t : List ℕ). push_frames flag channel node tag [] (pairs t)) z),
      λ h. cc (push_frames-map flag channel node tag [] (pairs ws) h),
    )

    refused :
        (ws : List ℕ)
        → (ws ≢ []) × ¬ HeaderFits flag channel tag
        → (e : RtlinkFrameError) × (encode_word_stream flag channel node tag ws ≡ err e)
    refused [] (z, bad) = absurd (z refl)
    refused (w ∷ []) (z, bad) = let (e, q) = new_fails flag channel node tag (w, 0) bad in (e, rw q)
    refused (w ∷ (v ∷ rest)) (z, bad) =
        let (e, q) = new_fails flag channel node tag (w, v) bad in (e, rw q)
