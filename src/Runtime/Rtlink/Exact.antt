-- ===== src/Runtime/Rtlink/Exact.antt =====
-- What `decode` accepts, and what it reads.
use mathlib.Core.Path.{subst}
use catseq.Prelude.{
  ℕ, ◌/◌, ◌%◌, ◌^◌, ◌≤◌, ◌<◌, ◌≡◌, ◌≢◌, refl, arith, List, [], ◌∷◌, ◌++◌, ok, err, All, length,
  drop, some, true, ap, get_elem?, ==_iff, ◌⊎◌, sym, ◌∙◌, ok_inj, Bool-cases, ◌==◌, inl, inr,
}
use catseq.Prelude.Bits.{and_mask}
use catseq.Runtime.Bytes.{be_bytes, of_be_bytes, IsByte}
use catseq.Runtime.Rtlink.{
  RtlinkFrame, RtlinkFrameError, route, encode, decode_fields, decode, wrong_length,
  nonzero_padding,
}
use catseq.Runtime.Rtlink.Valid.{IsValid, header_of}
use catseq.Runtime.Rtlink.Wire.{padding, bytes_of, encode-bytes_of, decode_fields-header}

abbrev header_frame : ℕ → ℕ × ℕ → RtlinkFrame
header_frame h payload = record {
  flag = h / 2 ^ 41 % 8;
  channel = h / 2 ^ 36 % 32;
  node = h / 2 ^ 20 % 2 ^ 16;
  tag = h % 2 ^ 20;
  payload = payload;
}

head_back :
    (b0 b1 b2 b3 b4 b5 : ℕ)
    → b0 < 256
    → b1 < 256
    → b2 < 256
    → b3 < 256
    → b4 < 256
    → b5 < 256
    → drop 2 (be_bytes 8 (of_be_bytes (0 ∷ 0 ∷ b0 ∷ b1 ∷ b2 ∷ b3 ∷ b4 ∷ b5 ∷ [])))
      ≡ b0 ∷ b1 ∷ b2 ∷ b3 ∷ b4 ∷ b5 ∷ []
head_back b0 b1 b2 b3 b4 b5 h0 h1 h2 h3 h4 h5 =
    let head = of_be_bytes (0 ∷ 0 ∷ b0 ∷ b1 ∷ b2 ∷ b3 ∷ b4 ∷ b5 ∷ []) in
    let e0 : head / 256 ^ 5 % 256 ≡ b0 = omega arith in
    let e1 : head / 256 ^ 4 % 256 ≡ b1 = omega arith in
    let e2 : head / 256 ^ 3 % 256 ≡ b2 = omega arith in
    let e3 : head / 256 ^ 2 % 256 ≡ b3 = omega arith in
    let e4 : head / 256 % 256 ≡ b4 = omega arith in
    let e5 : head / 1 % 256 ≡ b5 = omega arith in cc (e0, e1, e2, e3, e4, e5)

word_of : ℕ → ℕ → ℕ → ℕ → ℕ
word_of a b c d = of_be_bytes (a ∷ b ∷ c ∷ d ∷ [])

word-lt : (a b c d : ℕ) → a < 256 → b < 256 → c < 256 → d < 256 → word_of a b c d < 2 ^ 32
unfolding word_of
word-lt a b c d ha hb hc hd = omega arith

word_back :
    (a b c d : ℕ)
    → a < 256
    → b < 256
    → c < 256
    → d < 256
    → be_bytes 4 (word_of a b c d) ≡ a ∷ b ∷ c ∷ d ∷ []
unfolding word_of
word_back a b c d ha hb hc hd =
    let w = of_be_bytes (a ∷ b ∷ c ∷ d ∷ []) in
    let e0 : w / 256 ^ 3 % 256 ≡ a = omega arith in
    let e1 : w / 256 ^ 2 % 256 ≡ b = omega arith in
    let e2 : w / 256 % 256 ≡ c = omega arith in
    let e3 : w / 1 % 256 ≡ d = omega arith in cc (e0, e1, e2, e3)

-- The frame `f` is what `decode` reads from `bytes`, it encodes to them, and `route` reads its
-- channel and node.
pub record ReadsAs (bytes : List ℕ) (f : RtlinkFrame) : Type 0 where
  pub valid : IsValid f
  pub reads : decode bytes ≡ ok f
  pub writes : encode f ≡ bytes
  pub routed : route bytes ≡ some (f.channel, f.node)

module _ (b0 b1 b2 b3 b4 b5 c0 c1 c2 c3 d0 d1 d2 d3 : ℕ) where
  abbrev fourteen : List ℕ
  fourteen = b0 ∷ b1 ∷ b2 ∷ b3 ∷ b4 ∷ b5 ∷ c0 ∷ c1 ∷ c2 ∷ c3 ∷ d0 ∷ d1 ∷ d2 ∷ d3 ∷ []

  -- A frame of 14 bytes whose padding is zero.
  read_frame : All IsByte fourteen → b0 < 16 → (f : RtlinkFrame) × ReadsAs fourteen f
  unfolding decode route bytes_of word_of
  read_frame all pad =
      let hp = word-lt c0 c1 c2 c3 (omega arith) (omega arith) (omega arith) (omega arith) in
      let hq = word-lt d0 d1 d2 d3 (omega arith) (omega arith) (omega arith) (omega arith) in
      let p = word_of c0 c1 c2 c3 in
      let q = word_of d0 d1 d2 d3 in
      let h = of_be_bytes (0 ∷ 0 ∷ b0 ∷ b1 ∷ b2 ∷ b3 ∷ b4 ∷ b5 ∷ []) in
      let v : IsValid (header_frame h (p, q)) = omega arith in
      let same : header_of (header_frame h (p, q)) ≡ h = omega arith in
      let fields : decode_fields h fourteen ≡ ok (header_frame h (p, q)) =
        rw same at (decode_fields-header (header_frame h (p, q)) fourteen v refl refl) in
      let front =
        head_back b0 b1 b2 b3 b4 b5 (omega arith) (omega arith) (omega arith) (omega arith)
          (omega arith) (omega arith) in
      let first = word_back c0 c1 c2 c3 (omega arith) (omega arith) (omega arith) (omega arith) in
      let second = word_back d0 d1 d2 d3 (omega arith) (omega arith) (omega arith) (omega arith) in
      let low : (b0 / 16 == 0) ≡ true = ground arith in
      (
        header_frame h (p, q),
        record {
          valid = v;
          reads = rw (padding b0 (omega arith), low) fields;
          writes =
              encode-bytes_of (header_frame h (p, q)) v
              ∙ ap (λ (t : ℕ). drop 2 (be_bytes 8 t) ++ (be_bytes 4 p ++ be_bytes 4 q)) same
              ∙ (λ i. front i ++ (first i ++ second i));
          routed = rw (and_mask 5 (h / 2 ^ 36), and_mask 16 (h / 2 ^ 20));
        },
      )

-- A list of 14 elements.
fourteen_of :
    (bytes : List ℕ)
    → length bytes ≡ 14
    → (P : List ℕ → Type 0)
    → ((b0 b1 b2 b3 b4 b5 c0 c1 c2 c3 d0 d1 d2 d3 : ℕ)
        → P (fourteen b0 b1 b2 b3 b4 b5 c0 c1 c2 c3 d0 d1 d2 d3))
    → P bytes
fourteen_of
      (b0
        ∷ (b1
            ∷ (b2
                ∷ (b3 ∷ (b4 ∷ (b5 ∷ (c0 ∷ (c1 ∷ (c2 ∷ (c3 ∷ (d0 ∷ (d1 ∷ (d2 ∷ (d3 ∷ []))))))))))))))
      h P f =
    f b0 b1 b2 b3 b4 b5 c0 c1 c2 c3 d0 d1 d2 d3
fourteen_of _ h P f = absurd (omega arith)

-- The three outcomes of `decode`.
abbrev pub Outcome : List ℕ → Type 0
Outcome bytes =
    ((length bytes ≢ 14) × (decode bytes ≡ err wrong_length))
    ⊎ (((b : ℕ) × (length bytes ≡ 14)
          × (get_elem? bytes 0 ≡ some b)
          × (16 ≤ b)
          × (decode bytes ≡ err nonzero_padding))
        ⊎ ((f : RtlinkFrame) × (length bytes ≡ 14) × ReadsAs bytes f))

module _ (b0 b1 b2 b3 b4 b5 c0 c1 c2 c3 d0 d1 d2 d3 : ℕ) where
  abbrev given : List ℕ
  given = fourteen b0 b1 b2 b3 b4 b5 c0 c1 c2 c3 d0 d1 d2 d3

  outcome_of_fourteen : All IsByte given → Outcome given
  unfolding decode
  outcome_of_fourteen a = elim (Bool-cases (b0 / 16 == 0)) [
    | inl low ↦
        let (f, r) = read_frame b0 b1 b2 b3 b4 b5 c0 c1 c2 c3 d0 d1 d2 d3 a (ground arith) in
        inr (inr (f, refl, r))
    | inr high ↦ inr (inl (b0, refl, refl, ground arith, rw (padding b0 (omega arith), high)))
  ]

-- Every list of bytes is refused for its length when that is not 14, else for its padding when the
-- upper half of its first byte is not zero, and else read as a frame within the ranges of its
-- fields, which encodes to the same bytes and whose channel and node are those that `route` reads.
pub decode_cases : (bytes : List ℕ) → All IsByte bytes → Outcome bytes
decode_cases bytes a = elim (Bool-cases (length bytes == 14)) [
  | inl same ↦
      fourteen_of bytes ((==_iff _ _).0 same) (λ b. All IsByte b → Outcome b) outcome_of_fourteen a
  | inr other ↦ inl (ground arith, unfold decode in ground arith)
]

pub decode-ReadsAs :
    (bytes : List ℕ) (f : RtlinkFrame) → All IsByte bytes → decode bytes ≡ ok f → ReadsAs bytes f
decode-ReadsAs bytes f a e = elim (decode_cases bytes a) [
  | inl (_, r) ↦ absurd (bad r)
  | inr (inl (_, _, _, _, r)) ↦ absurd (bad r)
  | inr (inr (g, _, r)) ↦ subst (ReadsAs bytes) (ok_inj (sym r.reads ∙ e)) r
]
  where
    bad : {x : RtlinkFrameError} → decode bytes ≡ err x → ⊥
    bad r = cc
