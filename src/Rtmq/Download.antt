-- ===== src/Rtmq/Download.antt =====
-- rust/catseq-rtmq/src/download.rs: the Direct loader that writes a compiled ICH program into the
-- instruction cache of a board and launches it. A range is the pair of its start and end.
pub mod Listing
pub mod Cache
use package.catseq.Prelude.{
  ℕ, ◌+◌, ltb, length, if◌then◌else◌, Option, none, some, List, [], ◌∷◌, ◌++◌, bit_and, Result, ok,
  err, ◌>>=◌, ◌>>◌, fail_if, min,
}
use package.catseq.Prelude.Bits.{shr}
use package.catseq.Prelude.Int.{ℤ, pos, negsuc}
use package.catseq.Rtmq.Isa.{
  Instruction, csr_high_immediate, csr_low_immediate, tcs_low_immediate, atomic_mask, AtomicOperand,
  immediate, csr, FlowControl, continue, pause, CsrAddress, encode, EncodeError,
}

abbrev pub ica_address_space_words : ℕ
ica_address_space_words = 0x10_0000

abbrev pub ptr : CsrAddress
ptr = 0

abbrev pub rsm : CsrAddress
rsm = 2

abbrev pub exc : CsrAddress
exc = 3

abbrev pub ehn : CsrAddress
ehn = 4

abbrev pub stk : CsrAddress
stk = 5

abbrev pub ica : CsrAddress
ica = 7

abbrev pub icd : CsrAddress
icd = 8

pub record DownloadLoaderConfig : Type 0 where
  pub instruction_capacity_words : ℕ
  pub exception_handler_word : ℕ

pub record DownloadLoader : Type 0 where
  pub words : List ℕ
  pub loader_prologue : ℕ × ℕ
  pub ich_download : ℕ × ℕ
  pub launch : ℕ × ℕ

-- `panic` is the `expect` of `push`.
pub data DownloadLoaderError : Type 0 where
  program_too_large : ℕ → ℕ → DownloadLoaderError
  panic : DownloadLoaderError

-- The `expect` on an encoded instruction.
abbrev pub expect_word : Result EncodeError ℕ → Result DownloadLoaderError ℕ
expect_word (ok w) = ok w
expect_word (err e) = err panic

unfoldable pub push : List ℕ → Instruction → Result DownloadLoaderError (List ℕ)
push words instruction = do w ← expect_word (encode instruction); ok (words ++ (w ∷ []))

-- `const fn nibble`.
abbrev pub nibble : ℕ → AtomicOperand
nibble n = AtomicOperand.nibble n 0

-- The pushes of the first six instructions.
unfoldable pub push_prologue : List ℕ → Result DownloadLoaderError (List ℕ)
push_prologue words = do
  words ← push words (csr_low_immediate exc 1 pause)
  words ← push words (csr_high_immediate exc 0)
  words ← push words (csr_high_immediate rsm 0)
  words ← push words (csr_low_immediate rsm 1 continue)
  words ← push words (tcs_low_immediate 0 (pos 0))
  push words (tcs_low_immediate 1 (negsuc 0))

-- The three pushes of one ICH word.
unfoldable pub push_word : List ℕ → ℕ → ℕ → Result DownloadLoaderError (List ℕ)
push_word words index word = do
  words ← push words (csr_low_immediate ica index continue)
  words ← push words (csr_high_immediate icd (shr word 20))
  push words (csr_low_immediate icd (bit_and word 0x000f_ffff) continue)

-- The loop over the ICH words, from `index` on.
unfoldable pub push_words : List ℕ → ℕ → List ℕ → Result DownloadLoaderError (List ℕ)
push_words words index [] = ok words
push_words words index (word ∷ rest) =
    push_word words index word >>= λ words'. push_words words' (index + 1) rest

-- The pushes of the launch.
unfoldable pub push_launch : List ℕ → ℕ → Result DownloadLoaderError (List ℕ)
push_launch words handler = do
  words ← push words (atomic_mask exc (nibble 0) (csr exc) continue)
  words ← push words (atomic_mask ptr (nibble 2) (immediate (pos 0)) pause)
  words ← push words (csr_high_immediate ehn (shr handler 20))
  words ← push words (csr_low_immediate ehn (bit_and handler 0x000f_ffff) continue)
  words ← push words (atomic_mask stk (nibble 2) (immediate (pos 0)) continue)
  push words (atomic_mask exc (nibble 1) (nibble 0) pause)

-- The part of the function that comes after the two size checks.
unfoldable pub build_loader :
    List ℕ → DownloadLoaderConfig → Result DownloadLoaderError DownloadLoader
build_loader ich_words config = do
  words ← push_prologue []
  let loader_prologue : ℕ × ℕ = (0, length words)
  let ich_start = length words
  words ← push words (csr_high_immediate ica 0)
  words ← push_words words 0 ich_words
  let ich_download : ℕ × ℕ = (ich_start, length words)
  let launch_start = length words
  words ← push_launch words config.exception_handler_word
  let launch : ℕ × ℕ = (launch_start, length words)
  ok (record {
    words = words;
    loader_prologue = loader_prologue;
    ich_download = ich_download;
    launch = launch;
  })

unfoldable pub materialize_download_loader :
    List ℕ → DownloadLoaderConfig → Result DownloadLoaderError DownloadLoader
materialize_download_loader ich_words config = do
  fail_if (ltb config.instruction_capacity_words (length ich_words))
      (program_too_large (length ich_words) config.instruction_capacity_words)
  fail_if (ltb ica_address_space_words (length ich_words)) (
      program_too_large (length ich_words)
        (min config.instruction_capacity_words ica_address_space_words))
  build_loader ich_words config
