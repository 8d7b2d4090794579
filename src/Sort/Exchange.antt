-- ===== src/Sort/Exchange.antt =====
-- The exchange functions of Sources/SubstrataQuickJS/cutils.c and their choice by `exchange_func`, on
-- the list of the bytes of memory. A word is read and stored as its bytes.
use substrata_swift.Prelude.{ℕ, zero, suc, ◌+◌, ◌/◌, ◌%◌, ◌==◌, if◌then◌else◌, bit_or}
use substrata_swift.Prelude.{List, take, drop, store}

-- `t = *ap; *ap = *bp; *bp = t;` for words of `width` bytes
unfoldable pub exchange_word : ℕ → List ℕ → ℕ → ℕ → List ℕ
exchange_word width mem a b =
    let t = take width (drop a mem) in store (store mem a (take width (drop b mem))) b t

-- The same for `count` words, the pointers moving on.
unfoldable pub exchange_words : ℕ → ℕ → List ℕ → ℕ → ℕ → List ℕ
exchange_words width zero mem a b = mem
exchange_words width (suc count) mem a b =
    exchange_words width count (exchange_word width mem a b) (a + width) (b + width)

unfoldable pub exchange_bytes : List ℕ → ℕ → ℕ → ℕ → List ℕ
exchange_bytes mem a b size = exchange_words 1 size mem a b

unfoldable pub exchange_one_byte : List ℕ → ℕ → ℕ → ℕ → List ℕ
exchange_one_byte mem a b size = exchange_word 1 mem a b

unfoldable pub exchange_int16s : List ℕ → ℕ → ℕ → ℕ → List ℕ
exchange_int16s mem a b size = exchange_words 2 (size / 2) mem a b

unfoldable pub exchange_one_int16 : List ℕ → ℕ → ℕ → ℕ → List ℕ
exchange_one_int16 mem a b size = exchange_word 2 mem a b

unfoldable pub exchange_int32s : List ℕ → ℕ → ℕ → ℕ → List ℕ
exchange_int32s mem a b size = exchange_words 4 (size / 4) mem a b

unfoldable pub exchange_one_int32 : List ℕ → ℕ → ℕ → ℕ → List ℕ
exchange_one_int32 mem a b size = exchange_word 4 mem a b

unfoldable pub exchange_int64s : List ℕ → ℕ → ℕ → ℕ → List ℕ
exchange_int64s mem a b size = exchange_words 8 (size / 8) mem a b

unfoldable pub exchange_one_int64 : List ℕ → ℕ → ℕ → ℕ → List ℕ
exchange_one_int64 mem a b size = exchange_word 8 mem a b

-- Both words are read before either is stored.
unfoldable pub exchange_int128s : List ℕ → ℕ → ℕ → ℕ → List ℕ
exchange_int128s mem a b size = exchange_words 16 (size / 16) mem a b

unfoldable pub exchange_one_int128 : List ℕ → ℕ → ℕ → ℕ → List ℕ
exchange_one_int128 mem a b size = exchange_word 16 mem a b

-- The `switch` on the low four bits of the address or the size.
unfoldable pub exchange_func : ℕ → ℕ → List ℕ → ℕ → ℕ → ℕ → List ℕ
exchange_func base size =
    let bits = bit_or base size % 16 in
    if bits == 0
    then (if size == 16 then exchange_one_int128 else exchange_int128s)
    else if bits == 8
    then (if size == 8 then exchange_one_int64 else exchange_int64s)
    else if bits % 4 == 0
    then (if size == 4 then exchange_one_int32 else exchange_int32s)
    else if bits % 2 == 0
    then (if size == 2 then exchange_one_int16 else exchange_int16s)
    else (if size == 1 then exchange_one_byte else exchange_bytes)
