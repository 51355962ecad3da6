-- ===== src/Tests/Decoding.antt =====
-- The decoder theorems: the alphabet with `ab`, and buffers that are long enough or too short.
use onpair.Common.{
  length, ℕ, ◌≡◌, ◌⊎◌, ◌<◌, ◌≤◌, [], ◌∷◌, arith, some, Bytes, take, replicate, write,
}
use onpair.Dictionary.Compact.{as_view}
use onpair.Decoding.{done, output_too_small, decompress_into, decompress_into_unchecked}
use onpair.Decoding.Copy.{copy_token_bytes}
use onpair.Decoding.Exact.{copy_token_bytes-copied}
use onpair.Decoding.Loops.{InRange, Decodes}
use onpair.Decoding.Fits.{
  decompress_into-Decodes, decompress_into_unchecked-Decodes, decompress_into_total,
}
use onpair.Decoding.Padded.{decompress_into_unchecked-padded}
use onpair.Tests.Data.{alphabet, alphabet_dict, alphabet-Represents, abba, abba_codes}

-- Too short for three copies of 16 bytes, and long enough for the four bytes.
abbrev buffer : Bytes
buffer = replicate 20 0

abba-InRange : InRange alphabet abba_codes
abba-InRange = (ground arith, (ground arith, (ground arith, tt)))

decompress_into_total_example :
    ((4 ≤ 20)
      × ((r : Bytes × ℕ) × (decompress_into (as_view alphabet_dict) abba_codes buffer ≡ done r)
          × (take r.1 r.0 ≡ abba)))
    ⊎ ((20 < 4) × (decompress_into (as_view alphabet_dict) abba_codes buffer ≡ output_too_small))
decompress_into_total_example =
    decompress_into_total (as_view alphabet_dict) alphabet abba_codes buffer alphabet-Represents
      abba-InRange (ground arith)

decompress_into-Decodes_example :
    Decodes alphabet 20 []
      (98 ∷ 700 ∷ [])
      (decompress_into (as_view alphabet_dict) (98 ∷ 700 ∷ []) buffer)
decompress_into-Decodes_example =
    decompress_into-Decodes (as_view alphabet_dict) alphabet alphabet-Represents (98 ∷ 700 ∷ [])
      buffer (ground arith)

decompress_into_unchecked-Decodes_example :
    Decodes alphabet 48 [] abba_codes
      (decompress_into_unchecked (as_view alphabet_dict) abba_codes (replicate 48 0))
decompress_into_unchecked-Decodes_example =
    decompress_into_unchecked-Decodes (as_view alphabet_dict) alphabet alphabet-Represents
      abba_codes (replicate 48 0) (ground arith)

copy_token_bytes-copied_example :
    copy_token_bytes (replicate 16 7) buffer 2 5 ≡ some (write buffer 2 (take 5 (replicate 16 7)))
copy_token_bytes-copied_example =
    copy_token_bytes-copied (replicate 16 7) buffer 2 5 (ground arith) (ground arith)

decompress_into_unchecked-padded_example :
    (r : Bytes × ℕ) × (decompress_into_unchecked (as_view alphabet_dict) abba_codes buffer ≡ done r)
    × (length r.0 ≡ 20)
    × (take r.1 r.0 ≡ abba)
decompress_into_unchecked-padded_example =
    decompress_into_unchecked-padded (as_view alphabet_dict) alphabet alphabet-Represents abba_codes
      buffer abba-InRange (ground arith)
