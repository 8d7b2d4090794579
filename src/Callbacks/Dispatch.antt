-- ===== src/Callbacks/Dispatch.antt =====
-- A call from JavaScript reaches the closure that was exported.
use substrata_swift.Prelude.{ℕ, ◌≡◌, arith, ◌<◌, ◌^◌, some}
use substrata_swift.Callbacks.{magic_of}

pub magic_of-small : (id : ℕ) → id < 2 ^ 15 → magic_of id ≡ some id
unfolding magic_of
magic_of-small id h = ground arith
