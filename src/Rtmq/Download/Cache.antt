-- ===== src/Rtmq/Download/Cache.antt =====
-- What the loader does to the instruction cache of a board. The machine below is the part of the
-- hardware that docs/dev/01_RTMQv2_ISA.md and docs/dev/03_RTMQv2_StdCohNode.md describe: CHI and
-- CLO write the upper 12 and the lower 20 bits of a register, and the write trigger of CLO on ICD
-- stores ICD at the address ICA, where ICF[31] is 0. No word of the loader is another instruction on
-- ICF, ICA or ICD, and those have no effect on the machine.
use mathlib.Core.List.{map-append}
use mathlib.Core.Option
use catseq.Prelude.{
  ℕ, suc, ◌+◌, ◌-◌, ◌*◌, ◌/◌, ◌%◌, ◌^◌, ◌≤◌, ◌<◌, ◌≡◌, refl, arith, List, [], ◌∷◌, ◌++◌, ok, All,
  map, length, All-append, get_elem?, Bool-cases, ◌==◌, ltb, true, if◌then◌else◌, ap, ◌∙◌, inl, inr,
}
use catseq.Rtmq.Isa.{
  Instruction, csr_high_immediate, csr_low_immediate, decode, DecodedInstruction, known,
}
use catseq.Rtmq.Isa.Encode.{encode-layout}
use catseq.Rtmq.Isa.Decode.{decode-encode}
use catseq.Rtmq.Isa.Wellformed.{IsTyped, Fits, layout, canonical}
use catseq.Rtmq.Download.{
  ica, icd, DownloadLoader, DownloadLoaderConfig, materialize_download_loader,
}
use catseq.Rtmq.Download.Listing.{
  prologue, store_words, download, launch_listing, listing, IsWord, materialize_ok,
}

-- The address of ICF.
abbrev icf : ℕ
icf = 6

pub record Cache : Type 0 where
  pub control : ℕ
  pub address : ℕ
  pub latch : ℕ
  pub memory : ℕ → ℕ

-- ICF[31], by which the DMA interface takes the place of ICA and ICD.
abbrev pub dma_bit : Cache → ℕ
dma_bit s = s.control / 2 ^ 31 % 2

abbrev with_high : ℕ → ℕ → ℕ
with_high high old = high * 2 ^ 20 + old % 2 ^ 20

abbrev with_low : ℕ → ℕ → ℕ
with_low low old = old / 2 ^ 20 * 2 ^ 20 + low

abbrev update : (ℕ → ℕ) → ℕ → ℕ → ℕ → ℕ
update memory a v i = if i == a then v else memory i

abbrev high_write : ℕ → ℕ → Cache → Cache
high_write d high s =
    if d == ica
    then record s { address = with_high high s.address }
    else if d == icd
    then record s { latch = with_high high s.latch }
    else if d == icf
    then record s { control = with_high high s.control }
    else s

abbrev low_write : ℕ → ℕ → Cache → Cache
low_write d low s =
    if d == ica
    then record s { address = with_low low s.address }
    else if d == icd
    then record s {
      latch = with_low low s.latch;
      memory =
          if dma_bit s == 0 then update s.memory s.address (with_low low s.latch) else s.memory;
    }
    else if d == icf
    then record s { control = with_low low s.control }
    else s

-- The effect of one decoded word on the cache port.
abbrev pub perform : DecodedInstruction → Cache → Cache
perform (known (csr_high_immediate d high)) s = high_write d high s
perform (known (csr_low_immediate d low flow)) s = low_write d low s
perform _ s = s

unfoldable pub run : List DecodedInstruction → Cache → Cache
run [] s = s
run (i ∷ rest) s = run rest (perform i s)

run-append : (xs ys : List DecodedInstruction) (s : Cache) → run (xs ++ ys) s ≡ run ys (run xs s)
unfolding run
run-append [] ys s = refl
run-append (x ∷ xs) ys s = run-append xs ys (perform x s)

-- A word that is decoded as the instruction it was made from.
abbrev Reads : Instruction → Type 0
Reads i = decode (layout i) ≡ known i

reads : (i : Instruction) → IsTyped i → Fits i → canonical i ≡ i → Reads i
reads i t f c = decode-encode i (layout i) t (encode-layout i t f) ∙ ap known c

decode-layouts : (xs : List Instruction) → All Reads xs → map decode (map layout xs) ≡ map known xs
decode-layouts [] a = refl
decode-layouts (x ∷ xs) (h, a) = rw (h, decode-layouts xs a)

prologue-Reads : All Reads prologue
prologue-Reads = (
  reads _ (omega arith) (omega arith) refl,
  (
    reads _ (omega arith) (omega arith) refl,
    (
      reads _ (omega arith) (omega arith) refl,
      (
        reads _ (omega arith) (omega arith) refl,
        (reads _ (omega arith) (omega arith) refl, (reads _ (omega arith) (omega arith) refl, tt)),
      ),
    ),
  ),
)

launch-Reads : (handler : ℕ) → handler < 2 ^ 32 → All Reads (launch_listing handler)
launch-Reads handler h = (
  reads _ (omega arith) (omega arith) refl,
  (
    reads _ (omega arith) (omega arith) refl,
    (
      reads _ (omega arith) (omega arith) refl,
      (
        reads _ (omega arith) (omega arith) refl,
        (reads _ (omega arith) (omega arith) refl, (reads _ (omega arith) (omega arith) refl, tt)),
      ),
    ),
  ),
)

store_words-Reads :
    (index : ℕ) (ich : List ℕ)
    → index + length ich ≤ 2 ^ 20
    → All IsWord ich
    → All Reads (store_words index ich)
unfolding store_words
store_words-Reads index [] h a = tt
store_words-Reads index (word ∷ rest) h (hw, a) = (
  reads _ (omega arith) (omega arith) refl,
  (
    reads _ (omega arith) (omega arith) refl,
    (reads _ (omega arith) (omega arith) refl, store_words-Reads (index + 1) rest (omega arith) a),
  ),
)

listing-Reads :
    (ich : List ℕ) (handler : ℕ)
    → length ich ≤ 2 ^ 20
    → All IsWord ich
    → IsWord handler
    → All Reads (listing ich handler)
listing-Reads ich handler n a h =
    All-append Reads prologue (download ich ++ launch_listing handler) prologue-Reads (
      reads _ (omega arith) (omega arith) refl,
      All-append Reads (store_words 0 ich) _ (store_words-Reads 0 ich (omega arith) a)
          (launch-Reads handler h),
    )

-- The memory after the stores of `ich` from `index` on, cell by cell.
abbrev stored : ℕ → List ℕ → (ℕ → ℕ) → ℕ → ℕ
stored index ich memory j =
    if ltb j index then memory j else Option.get_or (get_elem? ich (j - index)) (memory j)

abbrev known_all : List Instruction → List DecodedInstruction
known_all = map known

store_step :
    (index word : ℕ) (rest : List ℕ) (s : Cache)
    → dma_bit s ≡ 0
    → s.address < 2 ^ 20
    → index < 2 ^ 20
    → word < 2 ^ 32
    → run (map known (store_words index (word ∷ rest))) s
      ≡ run
          (map known (store_words (index + 1) rest))
          (record s { address = index; latch = word; memory = update s.memory index word })
unfolding run store_words
store_step index word rest s direct ha hi hw =
    let off : (dma_bit s == 0) ≡ true = ground arith in
    let a : with_low index s.address ≡ index = omega arith in
    let v : with_low (word % 2 ^ 20) (with_high (word / 2 ^ 20) s.latch) ≡ word = omega arith in
    rw (off, a, v)

stored_step :
    (index word : ℕ) (rest : List ℕ) (memory : ℕ → ℕ) (j : ℕ)
    → stored (index + 1) rest (update memory index word) j ≡ stored index (word ∷ rest) memory j
stored_step index word rest memory j = elim (Bool-cases (ltb j index)) [
  | inl below ↦ ground arith
  | inr above ↦ elim (Bool-cases (j == index)) [
    | inl here ↦ let z : j - index ≡ 0 = ground arith in rw z (ground arith)
    | inr past ↦
        let later : j - index ≡ suc (j - (index + 1)) = ground arith in rw later (ground arith)
  ]
]

run-stores :
    (index : ℕ) (ich : List ℕ) (s : Cache)
    → dma_bit s ≡ 0
    → s.address < 2 ^ 20
    → index + length ich ≤ 2 ^ 20
    → All IsWord ich
    → (j : ℕ) → (run (map known (store_words index ich)) s).memory j ≡ stored index ich s.memory j
run-stores index [] s direct ha h a j = unfold run store_words in ground arith
run-stores index (word ∷ rest) s direct ha h (hw, a) j =
    rw (store_step index word rest s direct ha (omega arith) hw) (
      run-stores (index + 1) rest _ direct (omega arith) (omega arith) a j
      ∙ stored_step index word rest s.memory j)

run-listing :
    (ich : List ℕ) (handler : ℕ) (s : Cache)
    → run (map known (listing ich handler)) s
      ≡ run (map known (store_words 0 ich)) (record s { address = with_high 0 s.address })
unfolding run
run-listing ich handler s =
    let opened : Cache = record s { address = with_high 0 s.address } in
    ap (λ (xs : List DecodedInstruction). run xs opened)
      (map-append known (store_words 0 ich) (launch_listing handler))
    ∙ run-append (map known (store_words 0 ich)) (map known (launch_listing handler)) opened

-- For an ICH program and an exception handler of 32-bit words: the words of any loader that
-- `materialize_download_loader` returns, decoded and performed on the cache of a board in any
-- state in which ICF[31] is 0, leave in its memory the ICH program from address 0 on, and every later cell as it was.
pub loader-stores-program :
    (ich : List ℕ) (config : DownloadLoaderConfig) (loader : DownloadLoader) (s : Cache)
    → All IsWord ich
    → IsWord config.exception_handler_word
    → dma_bit s ≡ 0
    → materialize_download_loader ich config ≡ ok loader
    → (j : ℕ)
    → (run (map decode loader.words) s).memory j ≡ Option.get_or (get_elem? ich j) (s.memory j)
loader-stores-program ich config loader s a h direct e j =
    let handler = config.exception_handler_word in
    let (fits, space, same) = materialize_ok ich config loader a h e in
    rw
      (
        same,
        decode-layouts (listing ich handler) (listing-Reads ich handler space a h),
        run-listing ich handler s,
      )
      (run-stores 0 ich _ direct (omega arith) (omega arith) a j ∙ ground arith)
