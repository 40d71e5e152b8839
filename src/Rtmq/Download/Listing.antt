-- ===== src/Rtmq/Download/Listing.antt =====
-- The loader as a listing of instructions, and the loader's words as their encodings.
use catseq.Prelude.{
  ℕ, ◌+◌, ◌*◌, ◌/◌, ◌%◌, ◌^◌, ◌≤◌, ◌<◌, ◌≡◌, ◌⊎◌, inl, inr, Bool-cases, ltb→lt, ltb→ge, refl, arith,
  List, [], ◌∷◌, ◌++◌, ok, err, All, map, length, length-append, length-map, ltb, ap, sym, ◌∙◌,
  ◌>>=◌, Result, ok_inj,
}
use catseq.Prelude.Bits.{and_mask}
use catseq.Prelude.Int.{pos, negsuc}
use catseq.Rtmq.Isa.{
  Instruction, csr_high_immediate, csr_low_immediate, tcs_low_immediate, atomic_mask, immediate,
  csr, continue, pause,
}
use catseq.Rtmq.Isa.Encode.{encode-layout}
use catseq.Rtmq.Isa.Wellformed.{IsTyped, Fits, layout}
use catseq.Rtmq.Download.{
  DownloadLoader, DownloadLoaderConfig, DownloadLoaderError, program_too_large, push, push_prologue,
  push_word, push_words, push_launch, build_loader, materialize_download_loader, nibble, ptr, rsm,
  exc, ehn, stk, ica, icd,
}
use mathlib.Core.List.{append_assoc, append-nil, map-append}

abbrev pub prologue : List Instruction
prologue =
    csr_low_immediate exc 1 pause
    ∷ csr_high_immediate exc 0
    ∷ csr_high_immediate rsm 0
    ∷ csr_low_immediate rsm 1 continue
    ∷ tcs_low_immediate 0 (pos 0)
    ∷ tcs_low_immediate 1 (negsuc 0)
    ∷ []

-- The cache address, then the two halves of the word.
abbrev pub store_word : ℕ → ℕ → List Instruction
store_word index word =
    csr_low_immediate ica index continue
    ∷ csr_high_immediate icd (word / 2 ^ 20)
    ∷ csr_low_immediate icd (word % 2 ^ 20) continue
    ∷ []

unfoldable pub store_words : ℕ → List ℕ → List Instruction
store_words index [] = []
store_words index (word ∷ rest) = store_word index word ++ store_words (index + 1) rest

abbrev pub download : List ℕ → List Instruction
download ich_words = csr_high_immediate ica 0 ∷ store_words 0 ich_words

abbrev pub launch_listing : ℕ → List Instruction
launch_listing handler =
    atomic_mask exc (nibble 0) (csr exc) continue
    ∷ atomic_mask ptr (nibble 2) (immediate (pos 0)) pause
    ∷ csr_high_immediate ehn (handler / 2 ^ 20)
    ∷ csr_low_immediate ehn (handler % 2 ^ 20) continue
    ∷ atomic_mask stk (nibble 2) (immediate (pos 0)) continue
    ∷ atomic_mask exc (nibble 1) (nibble 0) pause
    ∷ []

abbrev pub listing : List ℕ → ℕ → List Instruction
listing ich_words handler = prologue ++ (download ich_words ++ launch_listing handler)

-- `f` appends the words of the instructions `xs`.
record Pushes (xs : List Instruction) (f : List ℕ → Result DownloadLoaderError (List ℕ))
    : Type 0 where
  at : (words : List ℕ) → f words ≡ ok (words ++ map layout xs)

Pushes-one : {i : Instruction} → IsTyped i → Fits i → Pushes (i ∷ []) (λ words. push words i)
unfolding push
Pushes-one {i} t f = record { at = λ words. rw (encode-layout i t f) }

Pushes-append :
    {xs ys : List Instruction} {f g : List ℕ → Result DownloadLoaderError (List ℕ)}
    → Pushes xs f
    → Pushes ys g
    → Pushes (xs ++ ys) (λ words. f words >>= g)
Pushes-append {xs} {ys} p q = record {
  at = λ words.
      rw (p.at words) (q.at (words ++ map layout xs) ∙ ap ok (rw (append_assoc, map-append)));
}

Pushes-cons :
    {i : Instruction} {ys : List Instruction} {g : List ℕ → Result DownloadLoaderError (List ℕ)}
    → IsTyped i
    → Fits i
    → Pushes ys g
    → Pushes (i ∷ ys) (λ words. push words i >>= g)
Pushes-cons {i} t f q = Pushes-append {xs = i ∷ []} (Pushes-one t f) q

prologue-Pushes : Pushes prologue push_prologue
unfolding push_prologue
prologue-Pushes = Pushes-cons (omega arith) (omega arith) (
    Pushes-cons (omega arith) (omega arith) (
      Pushes-cons (omega arith) (omega arith) (
        Pushes-cons (omega arith) (omega arith)
          (Pushes-cons (omega arith) (omega arith) (Pushes-one (omega arith) (omega arith))))))

launch-Pushes :
    (handler : ℕ)
    → handler < 2 ^ 32
    → Pushes (launch_listing handler) (λ words. push_launch words handler)
unfolding push_launch
launch-Pushes handler h = rw (and_mask 20 handler) (
    Pushes-cons (omega arith) (omega arith) (
      Pushes-cons (omega arith) (omega arith) (
        Pushes-cons (omega arith) (omega arith) (
          Pushes-cons (omega arith) (omega arith)
            (Pushes-cons (omega arith) (omega arith) (Pushes-one (omega arith) (omega arith)))))))

store_word-Pushes :
    (index word : ℕ)
    → index < 2 ^ 20
    → word < 2 ^ 32
    → Pushes (store_word index word) (λ words. push_word words index word)
unfolding push_word
store_word-Pushes index word hi hw = rw (and_mask 20 word) (
    Pushes-cons (omega arith) (omega arith)
      (Pushes-cons (omega arith) (omega arith) (Pushes-one (omega arith) (omega arith))))

abbrev pub IsWord : ℕ → Type 0
IsWord w = w < 2 ^ 32

store_words-Pushes :
    (index : ℕ) (ich : List ℕ)
    → index + length ich ≤ 2 ^ 20
    → All IsWord ich
    → Pushes (store_words index ich) (λ words. push_words words index ich)
unfolding push_words store_words
store_words-Pushes index [] h a = record { at = λ words. ap ok (sym (append-nil words)) }
store_words-Pushes index (word ∷ rest) h (hw, a) =
    Pushes-append (store_word-Pushes index word (omega arith) hw)
      (store_words-Pushes (index + 1) rest (omega arith) a)

length-store_words : (index : ℕ) (ich : List ℕ) → length (store_words index ich) ≡ 3 * length ich
unfolding store_words
length-store_words index [] = refl
length-store_words index (word ∷ rest) = omega (arith, length-store_words (index + 1) rest)

abbrev pub loader_of : List ℕ → ℕ → DownloadLoader
loader_of ich handler =
    let n = length ich in
    record {
      words = map layout (listing ich handler);
      loader_prologue = (0, 6);
      ich_download = (6, 7 + 3 * n);
      launch = (7 + 3 * n, 13 + 3 * n);
    }

same_loader :
    (ich : List ℕ) (handler : ℕ) (w : List ℕ) (a b c : ℕ)
    → w ≡ map layout (listing ich handler)
    → a ≡ 7 + 3 * length ich
    → b ≡ 7 + 3 * length ich
    → c ≡ 13 + 3 * length ich
    → ◌≡◌ {A = DownloadLoader}
        (record { words = w; loader_prologue = (0, 6); ich_download = (6, a); launch = (b, c) })
        (loader_of ich handler)
same_loader ich handler w a b c e p q r = cc

-- The function after its size checks returns the listing's words, and its ranges.
build_loader-listing :
    (ich : List ℕ) (config : DownloadLoaderConfig)
    → length ich ≤ 2 ^ 20
    → All IsWord ich
    → IsWord config.exception_handler_word
    → build_loader ich config ≡ ok (loader_of ich config.exception_handler_word)
unfolding build_loader
build_loader-listing ich config fits a h =
    let stores = map layout (store_words 0 ich) in
    let launch = map layout (launch_listing config.exception_handler_word) in
    let front = map layout (prologue ++ (csr_high_immediate ica 0 ∷ [])) in
    let n : length stores ≡ 3 * length ich =
      length-map layout (store_words 0 ich) ∙ length-store_words 0 ich in
    let joined : (front ++ stores) ++ launch
        ≡ map layout (listing ich config.exception_handler_word) =
      append_assoc front stores launch
      ∙ ap (λ (t : List ℕ). front ++ t) (sym (map-append layout (store_words 0 ich) _)) in
    let open_cache : push (map layout prologue) (csr_high_immediate ica 0) ≡ ok front =
      (Pushes-one {i = csr_high_immediate ica 0} (omega arith) (omega arith)).at _ in
    let mid : length (front ++ stores) ≡ 7 + 3 * length ich = omega (arith, n) in
    let all : length ((front ++ stores) ++ launch) ≡ 13 + 3 * length ich =
      omega (arith, length-append (front ++ stores) launch, mid) in
    rw
      (
        prologue-Pushes.at [],
        open_cache,
        (store_words-Pushes 0 ich (omega arith) a).at front,
        (launch-Pushes config.exception_handler_word h).at (front ++ stores),
      )
      (ap ok (same_loader ich config.exception_handler_word _ _ _ _ joined mid mid all))

-- For a program and an exception handler of 32-bit words: a program that fits both the board's
-- capacity and the 2 ^ 20 words of the cache becomes the loader of the listing; one beyond the
-- board's capacity is refused with its size and that capacity; and one within it, but beyond 2 ^
-- 20 words, with its size and 2 ^ 20. The `expect` of `push` is never reached.
pub materialize_cases :
    (ich : List ℕ) (config : DownloadLoaderConfig)
    → All IsWord ich
    → IsWord config.exception_handler_word
    → ((length ich ≤ config.instruction_capacity_words)
        × (length ich ≤ 2 ^ 20)
        × (materialize_download_loader ich config
            ≡ ok (loader_of ich config.exception_handler_word)))
      ⊎ (((config.instruction_capacity_words < length ich)
            × (materialize_download_loader ich config
                ≡ err (program_too_large (length ich) config.instruction_capacity_words)))
          ⊎ ((length ich ≤ config.instruction_capacity_words)
              × (2 ^ 20 < length ich)
              × (materialize_download_loader ich config
                  ≡ err (program_too_large (length ich) (2 ^ 20)))))
unfolding materialize_download_loader
materialize_cases ich config a h =
    elim (Bool-cases (ltb config.instruction_capacity_words (length ich))) [
      | inl big ↦ inr (inl (ltb→lt _ _ big, ground arith))
      | inr fits ↦
          let room : length ich ≤ config.instruction_capacity_words = ltb→ge _ _ fits in
          elim (Bool-cases (ltb (2 ^ 20) (length ich))) [
            | inl far ↦
                let beyond : 2 ^ 20 < length ich = ltb→lt _ _ far in
                inr (inr (room, beyond, ground arith))
            | inr near ↦
                let space : length ich ≤ 2 ^ 20 = ltb→ge _ _ near in
                inl (room, space, ground (arith, build_loader-listing ich config space a h))
          ]
    ]

-- A loader was returned: the program fits, and the loader is that of the listing.
pub materialize_ok :
    (ich : List ℕ) (config : DownloadLoaderConfig) (loader : DownloadLoader)
    → All IsWord ich
    → IsWord config.exception_handler_word
    → materialize_download_loader ich config ≡ ok loader
    → (length ich ≤ config.instruction_capacity_words)
      × (length ich ≤ 2 ^ 20)
      × (loader ≡ loader_of ich config.exception_handler_word)
unfolding materialize_download_loader
materialize_ok ich config loader a h e =
    let fits : length ich ≤ config.instruction_capacity_words = ground arith in
    let space : length ich ≤ 2 ^ 20 = ground arith in
    let whole : materialize_download_loader ich config
        ≡ ok (loader_of ich config.exception_handler_word) =
      ground (arith, build_loader-listing ich config space a h) in
    (fits, space, ok_inj (sym e ∙ whole))
