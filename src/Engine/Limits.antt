-- ===== src/Engine/Limits.antt =====
-- `setLimits(stackSize:heapSize:)` and `loadBundle(url:completion:)` of Sources/Substrata/Engine.swift.
-- The limits of the runtime, which `JS_SetMaxStackSize` and `JS_SetMemoryLimit` set, are a pair; the file
-- system is a parameter, which gives the text of a file, or tells that it is missing or unreadable.
use substrata_swift.Prelude.{
  ℕ, ◌*◌, ◌≤◌, ◌≡◌, refl, arith, Bool, true, false, ltb, leb, if◌then◌else◌,
}
use substrata_swift.Prelude.{Option, none, some, List}

-- `max` and `min` of Swift.
abbrev max : ℕ → ℕ → ℕ
max a b = if leb a b then b else a

abbrev min : ℕ → ℕ → ℕ
min a b = if ltb b a then b else a

-- The stack size and the heap size.
unfoldable pub set_limits : Bool → ℕ → ℕ → ℕ × ℕ → ℕ × ℕ
set_limits shutting_down stack_size heap_size limits =
    let stack = max (1024 * 64) (min stack_size (1024 * 1024 * 64)) in
    let heap = max (1024 * 1024) (min heap_size (1024 * 1024 * 1024)) in
    if shutting_down then limits else (stack, heap)

-- What the constructor of `JSEngine` sets.
abbrev pub first_limits : ℕ × ℕ
first_limits = (1024 * 1024 * 5, 1024 * 1024 * 100)

-- Between 64 KB and 64 MB, and between 1 MB and 1 GB.
abbrev pub Allowed : ℕ × ℕ → Type 0
Allowed (stack, heap) =
    (65536 ≤ stack) × (stack ≤ 67108864) × (1048576 ≤ heap) × (heap ≤ 1073741824)

-- The limits of a new engine are allowed.
pub first_limits-Allowed : Allowed first_limits
first_limits-Allowed = (omega arith, omega arith, omega arith, omega arith)

-- Whatever sizes are asked for, `setLimits` keeps the limits in the allowed range; sizes in that range are
-- set as they are, unless the engine is shutting down; and a second call with the same sizes changes
-- nothing.
pub set_limits-Allowed :
    (shutting_down : Bool) (stack heap : ℕ) (limits : ℕ × ℕ)
    → Allowed limits
    → Allowed (set_limits shutting_down stack heap limits)
      × (shutting_down ≡ false
          → Allowed (stack, heap)
          → set_limits shutting_down stack heap limits ≡ (stack, heap))
      × (set_limits shutting_down stack heap (set_limits shutting_down stack heap limits)
          ≡ set_limits shutting_down stack heap limits)
unfolding set_limits
set_limits-Allowed true stack heap limits h = (h, λ up ok. cc, refl)
set_limits-Allowed false stack heap limits h =
    ((ground arith, ground arith, ground arith, ground arith), λ up ok. ground arith, refl)

-- What is at a path: no file, a file that cannot be read, or its text.
pub data File : Type 0 where
  missing : File
  unreadable : File
  readable : List ℕ → File

-- `loadBundle`: the script that is evaluated, if one is, and what the completion is told.
unfoldable pub load_bundle : Bool → File → Option (List ℕ) × Bool
load_bundle is_file_url missing = (none, false)
load_bundle is_file_url unreadable = (none, false)
load_bundle is_file_url (readable source) = (if is_file_url then some source else none, false)

-- Whether the bundle was evaluated or not, the completion is told the same.
load_bundle_told : (is_file_url : Bool) (file : File) → (load_bundle is_file_url file).1 ≡ false
unfolding load_bundle
load_bundle_told b missing = refl
load_bundle_told b unreadable = refl
load_bundle_told b (readable source) = refl
