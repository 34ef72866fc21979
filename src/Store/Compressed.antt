-- ===== src/Store/Compressed.antt =====
-- `store_save_compressed` and `store_load_compressed`: a file of two sizes and a block of LZ4 data.
pub mod RoundTrip
use vector_clock_good.Common.{
  ℕ, ◌+◌, ◌*◌, ◌/◌, ◌%◌, ◌^◌, Bool, true, false, not, ◌||◌, Option, none, some, List, [], ◌∷◌, ◌++◌,
  ltb, leb, ◌==◌, length, get_or, take, drop, Bytes, ◌>>=◌, ◌>>◌, guard,
}

-- A uint32_t as its bytes, the lowest first.
unfoldable pub bytes_of : ℕ → Bytes
bytes_of n = n % 256 ∷ (n / 256) % 256 ∷ (n / 65536) % 256 ∷ (n / 16777216) % 256 ∷ []

unfoldable pub number_of : Bytes → ℕ
number_of s = get_or s 0 0 + 256 * get_or s 1 0 + 65536 * get_or s 2 0 + 16777216 * get_or s 3 0

abbrev pub max_size : ℕ
max_size = 524288000

-- LZ4: `compress` is what LZ4_compress_default writes, none where it answers no positive size;
-- `decompress` what LZ4_decompress_safe leaves in a buffer of a size, none where it answers less than 0.
pub record Lz4 : Type 0 where
  pub compress : Bytes → Option Bytes
  pub decompress : Bytes → ℕ → Option Bytes

-- The file that is written, or none where the source returns -1. `allocated` and `opened` say whether
-- memory is given and the file can be opened.
unfoldable pub save_compressed : Lz4 → Bool → Bool → Bytes → Option Bytes
unfolding bytes_of
save_compressed lz4 allocated opened raw = do
  guard (not (length raw == 0))
  guard allocated
  block ← lz4.compress raw
  guard opened
  some (bytes_of (length raw % 2 ^ 32) ++ (bytes_of (length block % 2 ^ 32) ++ block))

-- The contents of the buffer, or none where the source returns NULL. `file` is none if it cannot be
-- opened.
unfoldable pub load_compressed : Lz4 → Bool → Option Bytes → Option Bytes
unfolding number_of
load_compressed lz4 allocated file = do
  contents ← file
  guard (leb 8 (length contents))
  let raw_size = number_of (take 4 contents)
  let compressed_size = number_of (take 4 (drop 4 contents))
  guard (not (ltb max_size raw_size || ltb max_size compressed_size || compressed_size == 0))
  guard allocated
  guard (leb compressed_size (length (drop 8 contents)))
  lz4.decompress (take compressed_size (drop 8 contents)) raw_size
