-- ===== src/DynBuf.antt =====
-- The dynamic buffer of Sources/SubstrataQuickJS/cutils.c: `DynBuf` and the functions `dbuf_realloc`,
-- `dbuf_write`, `dbuf_put`, `dbuf_put_self`, `dbuf_putc`, `dbuf_putstr` and `dbuf_free`.
-- `s->buf` is the list of the bytes of the allocated block, empty for `NULL`. `s->realloc_func` (with
-- `s->opaque`) is a parameter: from a block and a size to a new block, or `none` for `NULL`. A function
-- returns its result, `true` for 0 and `false` for -1, beside the buffer that it leaves; `none` is a
-- `memcpy` outside of a block. `size_t` is 64 bits wide, and its sums wrap.
pub mod Grow
pub mod Append
pub mod Runs
mod Tests
use substrata_swift.Prelude.{ℕ, ◌+◌, ◌*◌, ◌/◌, ◌%◌, ◌^◌, ltb, leb, if◌then◌else◌, Bool, true, false}
use substrata_swift.Prelude.{Option, none, some, ◌>>=◌, List, [], ◌∷◌, ◌++◌, length, take, drop}

pub record DynBuf : Type 0 where
  pub buf : List ℕ
  pub size : ℕ
  pub allocated_size : ℕ
  pub error : Bool

abbrev pub add_size : ℕ → ℕ → ℕ
add_size a b = (a + b) % 2 ^ 64

-- `dbuf_init2`: all fields zero.
unfoldable pub dbuf_init : DynBuf
dbuf_init = record { buf = []; size = 0; allocated_size = 0; error = false }

-- `memcpy(block + offset, bytes, len)`
unfoldable pub copy_in : List ℕ → ℕ → List ℕ → Option (List ℕ)
copy_in block offset bytes =
    if leb (offset + length bytes) (length block)
    then some (take offset block ++ (bytes ++ drop (offset + length bytes) block))
    else none

-- The bytes that `memcpy` reads from `block + offset`.
unfoldable pub copy_out : List ℕ → ℕ → ℕ → Option (List ℕ)
copy_out block offset len =
    if leb (offset + len) (length block) then some (take len (drop offset block)) else none

-- `size = s->allocated_size * 3 / 2; if (size > new_size) new_size = size;`
unfoldable pub grown_size : ℕ → ℕ → ℕ
grown_size allocated new_size =
    let grown = allocated * 3 % 2 ^ 64 / 2 in if ltb new_size grown then grown else new_size

-- The `memcpy` of `dbuf_write`, and the new size.
unfoldable pub write_at : DynBuf → ℕ → List ℕ → Option (Bool × DynBuf)
write_at s offset bytes = do
  block ← copy_in s.buf offset bytes
  let end = add_size offset (length bytes)
  some (true, record s { buf = block; size = if ltb s.size end then end else s.size })

-- `memcpy(s->buf + s->size, bytes, len); s->size += len;`
unfoldable pub append_at_end : DynBuf → List ℕ → Option (Bool × DynBuf)
append_at_end s bytes = do
  block ← copy_in s.buf s.size bytes
  some (true, record s { buf = block; size = add_size s.size (length bytes) })

-- A block that is not `NULL` is given back; all fields are zero afterwards, so a second call does
-- nothing. The blocks given back are the second result.
unfoldable pub dbuf_free : DynBuf → DynBuf × List (List ℕ)
dbuf_free s = (dbuf_init, if leb (length s.buf) 0 then [] else s.buf ∷ [])

module _ (realloc_func : List ℕ → ℕ → Option (List ℕ)) where
  unfoldable pub dbuf_realloc : DynBuf → ℕ → Bool × DynBuf
  unfolding grown_size
  dbuf_realloc s new_size =
      if ltb s.allocated_size new_size
      then if s.error
        then (false, s)
        else elim (realloc_func s.buf (grown_size s.allocated_size new_size)) [
          | none ↦ (false, record s { error = true })
          | some block ↦ (
            true,
            record s { buf = block; allocated_size = grown_size s.allocated_size new_size },
          )
        ]
      else (true, s)

  unfoldable pub dbuf_write : DynBuf → ℕ → List ℕ → Option (Bool × DynBuf)
  dbuf_write s offset bytes =
      let (done, s') = dbuf_realloc s (add_size offset (length bytes)) in
      if done then write_at s' offset bytes else some (false, s')

  -- The reservation that `dbuf_put` and `dbuf_put_self` begin with.
  unfoldable pub reserve : DynBuf → ℕ → Bool × DynBuf
  reserve s len =
      if ltb s.allocated_size (add_size s.size len)
      then dbuf_realloc s (add_size s.size len)
      else (true, s)

  unfoldable pub dbuf_put : DynBuf → List ℕ → Option (Bool × DynBuf)
  dbuf_put s bytes =
      let (done, s') = reserve s (length bytes) in
      if done
      then if ltb 0 (length bytes) then append_at_end s' bytes else some (true, s')
      else some (false, s')

  -- The bytes are read after the reservation, from the block that it left.
  unfoldable pub dbuf_put_self : DynBuf → ℕ → ℕ → Option (Bool × DynBuf)
  dbuf_put_self s offset len =
      let (done, s') = reserve s len in
      if done then (copy_out s'.buf offset len >>= append_at_end s') else some (false, s')

  unfoldable pub dbuf_putc : DynBuf → ℕ → Option (Bool × DynBuf)
  dbuf_putc s c = dbuf_put s (c ∷ [])

  -- `str` is the list of the bytes before its terminator, which are `strlen(str)`.
  unfoldable pub dbuf_putstr : DynBuf → List ℕ → Option (Bool × DynBuf)
  dbuf_putstr s str = dbuf_put s str
