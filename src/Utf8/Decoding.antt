-- ===== src/Utf8/Decoding.antt =====
-- The functions of Sources/SubstrataQuickJS/cutils.c that decode a whole UTF-8 buffer: `utf8_scan`,
-- `utf8_decode_buf8` and `utf8_decode_buf16`.
-- The source buffer is the list of its `src_len` bytes. `dest` is the list of its `dest_len` entries,
-- and each function returns it with the stores made. `none` is a read past `p_end`, or fuel that ran
-- out; each round consumes a byte at least, so the length of the buffer is enough fuel.
pub mod Steps
pub mod Agree
pub mod Whole
use substrata_swift.Prelude.{ℕ, zero, suc, ◌+◌, ◌-◌, ◌*◌, ◌%◌, ◌^◌, bit_or}
use substrata_swift.Prelude.{ltb, leb, ◌==◌, if◌then◌else◌, length, set, drop}
use substrata_swift.Prelude.{Option, none, some, ◌>>=◌, List, [], ◌∷◌}
use substrata_swift.Utf8.{utf8_decode_len}
use substrata_swift.Utf8.Units.{get_hi_surrogate, get_lo_surrogate}

-- `cbits |= buf[i]` over the whole buffer.
unfoldable pub or_bytes : ℕ → List ℕ → ℕ
or_bytes cbits [] = cbits
or_bytes cbits (b ∷ buf) = or_bytes (bit_or cbits b) buf

-- One code point from `p` on: an ASCII byte as it is, and otherwise by `utf8_decode_len`.
unfoldable pub next_code : List ℕ → Option (ℕ × ℕ)
next_code [] = none
next_code (b ∷ p) = if ltb b 0x80 then some (b, 1) else utf8_decode_len (b ∷ p)

-- `UTF8_HAS_ERRORS`, `UTF8_HAS_16BIT` and `UTF8_HAS_NON_BMP1` for a code point `c` that the lead byte
-- `b` began and that took `n` bytes.
unfoldable pub scan_kind : ℕ → ℕ → ℕ → ℕ → ℕ
scan_kind kind b c n =
    if ltb b 0x80
    then kind
    else let errors = if n == 1 then bit_or kind 8 else kind in
      if ltb 0xFF c
      then if ltb 0xFFFF c then bit_or (bit_or errors 2) 4 else bit_or errors 2
      else errors

-- `len` counts one for each code point, and one more past 0xFFFF.
unfoldable pub scan_len : ℕ → ℕ → ℕ
scan_len len c = if ltb 0xFFFF c then len + 1 + 1 else len + 1

unfoldable pub scan_loop : ℕ → List ℕ → ℕ → ℕ → Option (ℕ × ℕ)
scan_loop fuel [] kind len = some (kind, len)
scan_loop zero (b ∷ p) kind len = none
scan_loop (suc fuel) (b ∷ p) kind len = do
  (c, n) ← next_code (b ∷ p)
  scan_loop fuel (drop n (b ∷ p)) (scan_kind kind b c n) (scan_len len c)

-- `kind` and `*plen`.
unfoldable pub utf8_scan : List ℕ → Option (ℕ × ℕ)
utf8_scan buf =
    if leb 0x80 (or_bytes 0 buf) then scan_loop (length buf) buf 1 0 else some (0, length buf)

-- `if (i < dest_len) dest[i] = v;`
unfoldable pub put_at : List ℕ → ℕ → ℕ → List ℕ
put_at dest i v = if ltb i (length dest) then set dest i v else dest

-- The one or two units of a code point; a store into `uint16_t` keeps sixteen bits, and none of
-- these values has more.
unfoldable pub put_units : List ℕ → ℕ → ℕ → List ℕ × ℕ
put_units dest i c =
    if ltb 0xFFFF c
    then (put_at (put_at dest i (get_hi_surrogate c)) (i + 1) (get_lo_surrogate c), i + 1 + 1)
    else (put_at dest i c, i + 1)

unfoldable pub decode16_loop : ℕ → List ℕ → ℕ → List ℕ → Option (List ℕ × ℕ)
decode16_loop fuel dest i [] = some (dest, i)
decode16_loop zero dest i (b ∷ p) = none
decode16_loop (suc fuel) dest i (b ∷ p) = do
  (c, n) ← next_code (b ∷ p)
  let (dest', i') = put_units dest i c
  decode16_loop fuel dest' i' (drop n (b ∷ p))

unfoldable pub utf8_decode_buf16 : List ℕ → List ℕ → Option (List ℕ × ℕ)
utf8_decode_buf16 dest src = decode16_loop (length src) dest 0 src

-- The loop of `utf8_decode_buf8`. A lead byte takes the byte after it, in `uint32_t` arithmetic; the
-- store into `uint8_t` keeps eight bits.
unfoldable pub decode8_loop : List ℕ → ℕ → List ℕ → Option (List ℕ × ℕ)
decode8_loop dest i [] = some (dest, i)
decode8_loop dest i (b ∷ []) = if ltb b 0xC0 then some (put_at dest i b, i + 1) else none
decode8_loop dest i (b ∷ b1 ∷ p) =
    let one = decode8_loop (put_at dest i b) (i + 1) (b1 ∷ p) in
    let c = (b * 2 ^ 6 + b1 + 2 ^ 32 - (0xC0 * 2 ^ 6 + 0x80)) % 2 ^ 32 in
    let two = decode8_loop (put_at dest i (c % 2 ^ 8)) (i + 1) p in if ltb b 0xC0 then one else two

-- The terminator: after the bytes where there is room, and otherwise over the last entry.
unfoldable pub terminate8 : List ℕ → ℕ → List ℕ
terminate8 dest i =
    if ltb i (length dest)
    then set dest i 0
    else if ltb 0 (length dest)
    then set dest (length dest - 1) 0
    else dest

unfoldable pub utf8_decode_buf8 : List ℕ → List ℕ → Option (List ℕ × ℕ)
utf8_decode_buf8 dest src = do (dest', i) ← decode8_loop dest 0 src; some (terminate8 dest' i, i)
