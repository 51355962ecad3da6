-- ===== src/Decoding/Copy.antt =====
-- decoding/copy.rs: the fixed-width copy, and the copy of up to 16 bytes by overlapping words.
use onpair.Common.{ℕ, ◌+◌, ◌-◌, Option, some, Bytes, leb, ◌==◌, if◌then◌else◌, load, store, ◌>>=◌}

-- The bytes behind the source pointer are the list `src`; the destination pointer is `dst + w`.
unfoldable pub copy16 : Bytes → Bytes → ℕ → Option Bytes
copy16 src dst w = do chunk ← load src 0 16; store dst w chunk

-- Two copies of `k` bytes: the first ones, and the last ones of `len`.
unfoldable pub copy_ends : ℕ → Bytes → Bytes → ℕ → ℕ → Option Bytes
copy_ends k src dst w len = do
  head ← load src 0 k
  dst' ← store dst w head
  last ← load src (len - k) k
  store dst' (w + (len - k)) last

unfoldable pub copy_nonoverlapping : Bytes → Bytes → ℕ → ℕ → Option Bytes
copy_nonoverlapping src dst w len = do chunk ← load src 0 len; store dst w chunk

unfoldable pub copy_token_bytes : Bytes → Bytes → ℕ → ℕ → Option Bytes
copy_token_bytes src dst w len =
    if len == 0
    then some dst
    else if len == 1
    then copy_nonoverlapping src dst w 1
    else if leb len 3
    then copy_ends 2 src dst w len
    else if leb len 7
    then copy_ends 4 src dst w len
    else if leb len 15
    then copy_ends 8 src dst w len
    else if len == 16
    then copy16 src dst w
    else copy_nonoverlapping src dst w len
