-- ===== src/Store/Compressed/RoundTrip.antt =====
-- A compressed file is read back.
use vector_clock_good.Common.{
  ℕ, ◌%◌, ◌^◌, ◌≤◌, ◌<◌, ◌≡◌, ◌≢◌, refl, ap, ◌∙◌, Bool, true, false, ◌||◌, none, some, [], ◌∷◌,
  ◌++◌, arith, ltb, leb, ◌==◌, length, take, drop, Bytes, ◌>>=◌, guard,
}
use vector_clock_good.Store.Compressed.{
  bytes_of, number_of, max_size, Lz4, save_compressed, load_compressed,
}

number_of-bytes_of : (n : ℕ) → n < 2 ^ 32 → number_of (bytes_of n) ≡ n
unfolding number_of bytes_of
number_of-bytes_of n h = omega arith

take-all : (s : Bytes) → take (length s) s ≡ s
take-all [] = refl
take-all (c ∷ s) = ap (λ t. c ∷ t) (take-all s)

-- The file of a text and its block.
file_of : Bytes → Bytes → Bytes
file_of raw block = bytes_of (length raw % 2 ^ 32) ++ (bytes_of (length block % 2 ^ 32) ++ block)

file_parts :
    (raw block : Bytes)
    → (take 4 (file_of raw block) ≡ bytes_of (length raw % 2 ^ 32))
      × (take 4 (drop 4 (file_of raw block)) ≡ bytes_of (length block % 2 ^ 32))
      × (drop 8 (file_of raw block) ≡ block)
      × (leb 8 (length (file_of raw block)) ≡ true)
unfolding file_of bytes_of
file_parts raw block = (refl, refl, refl, ground arith)

save_compressed_lem :
    (lz4 : Lz4) (raw block : Bytes)
    → length raw ≢ 0
    → lz4.compress raw ≡ some block
    → save_compressed lz4 true true raw ≡ some (file_of raw block)
unfolding save_compressed file_of
save_compressed_lem lz4 raw block n c = rw c (ground arith)

-- What LZ4 documents: a block is not empty, and gives its text back.
pub record IsLossless (lz4 : Lz4) : Type 0 where
  pub back :
      (raw block : Bytes)
      → lz4.compress raw ≡ some block
      → (length block ≢ 0) × (lz4.decompress block (length raw) ≡ some raw)

load_next :
    (lz4 : Lz4) (contents : Bytes) (raw_size compressed_size : ℕ)
    → leb 8 (length contents) ≡ true
    → number_of (take 4 contents) ≡ raw_size
    → number_of (take 4 (drop 4 contents)) ≡ compressed_size
    → raw_size ≤ max_size
    → compressed_size ≤ max_size
    → compressed_size ≢ 0
    → compressed_size ≤ length (drop 8 contents)
    → load_compressed lz4 true (some contents)
      ≡ lz4.decompress (take compressed_size (drop 8 contents)) raw_size
unfolding load_compressed
load_next lz4 contents raw_size compressed_size h r c a b z d =
    let room : leb compressed_size (length (drop 8 contents)) ≡ true = ground arith in
    let sizes : (ltb max_size raw_size || ltb max_size compressed_size || compressed_size == 0)
        ≡ false =
      ground arith in
    rw (h, r, c, sizes, room) refl

-- Given an LZ4 that is lossless, memory and files that can be opened: a text that is not empty and
-- that LZ4 compresses, the text and its block being of at most 500 MB, is saved to a file from which
-- it is loaded again.
pub load_compressed-save_compressed :
    (lz4 : Lz4) (raw block : Bytes)
    → IsLossless lz4
    → lz4.compress raw ≡ some block
    → length raw ≢ 0
    → length raw ≤ max_size
    → length block ≤ max_size
    → (file : Bytes) × (save_compressed lz4 true true raw ≡ some file)
      × (load_compressed lz4 true (some file) ≡ some raw)
load_compressed-save_compressed lz4 raw block l c n r b =
    let (filled, back) = l.back raw block c in
    let (first, second, rest, long) = file_parts raw block in
    let raw_mod : length raw % 2 ^ 32 ≡ length raw = omega arith in
    let block_mod : length block % 2 ^ 32 ≡ length block = omega arith in
    (
      file_of raw block,
      save_compressed_lem lz4 raw block n c,
      load_next lz4 (file_of raw block) (length raw) (length block) long
            (ap number_of first ∙ number_of-bytes_of _ (omega arith) ∙ raw_mod)
            (ap number_of second ∙ number_of-bytes_of _ (omega arith) ∙ block_mod) r b filled
            (rw rest (omega arith))
          ∙ rw (rest, take-all block) back,
    )

big_number : (a b c d : ℕ) → 32 ≤ d → ltb max_size (number_of (a ∷ (b ∷ (c ∷ (d ∷ []))))) ≡ true
unfolding number_of
big_number a b c d h = ground arith

guard-none : (b : Bool) → ◌>>=◌ {B = Bytes} (guard b) (λ u. none) ≡ none
guard-none true = refl
guard-none false = refl

-- A file whose fourth byte is at least 32, as in a file of JSON texts, is not taken for a compressed
-- one.
pub plain_refused :
    (lz4 : Lz4) (allocated : Bool) (a b c d : ℕ) (rest : Bytes)
    → 32 ≤ d
    → load_compressed lz4 allocated (some (a ∷ (b ∷ (c ∷ (d ∷ rest))))) ≡ none
unfolding load_compressed
plain_refused lz4 allocated a b c d rest h = rw (big_number a b c d h) (guard-none _)
