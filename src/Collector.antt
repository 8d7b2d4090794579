-- ===== src/Collector.antt =====
-- The first two passes of the cycle collector of Sources/SubstrataQuickJS/quickjs.c, with the change
-- that the package makes: `gc_decref_child`, `gc_decref`, `gc_scan_incref_child`,
-- `gc_scan_incref_child2` and `gc_scan`.
-- An object is its address, and `children` is a parameter: what `mark_children` calls its function on,
-- which the passes do not change. A list of the runtime is the list of its objects; `link` is in one of
-- the two, and unlinking takes the object out of it. `none` is a failed assertion. Counts are far below
-- 2 ^ 31, as the references that they count take up memory.
mod Lists
mod Decref
mod Scan
mod Keeps
pub mod Run
mod Tests
use substrata_swift.Prelude.{ℕ, zero, suc, ◌+◌, ◌-◌, ◌==◌, ◌&&◌, if◌then◌else◌, Bool, true, false}
use substrata_swift.Prelude.{Option, none, some, ◌>>=◌, List, [], ◌∷◌, ◌++◌, length}

pub record Gc : Type 0 where
  pub ref_count : ℕ → ℕ
  pub mark : ℕ → Bool
  pub gc_obj_list : List ℕ
  pub tmp_obj_list : List ℕ

-- An assignment to a field of the object.
abbrev pub assign : {A : Type 0} → (ℕ → A) → ℕ → A → ℕ → A
assign f p v x = if p == x then v else f x

-- `list_del`
unfoldable pub list_del : ℕ → List ℕ → List ℕ
list_del p [] = []
list_del p (x ∷ xs) = let rest = list_del p xs in if x == p then xs else x ∷ rest

-- `list_del` and `list_add_tail` to one of the lists.
unfoldable pub to_tmp : ℕ → Gc → Gc
to_tmp p s = record s {
  gc_obj_list = list_del p s.gc_obj_list;
  tmp_obj_list = list_del p s.tmp_obj_list ++ (p ∷ []);
}

unfoldable pub to_gc : ℕ → Gc → Gc
to_gc p s = record s {
  gc_obj_list = list_del p s.gc_obj_list ++ (p ∷ []);
  tmp_obj_list = list_del p s.tmp_obj_list;
}

unfoldable pub gc_decref_child : ℕ → Gc → Gc
gc_decref_child p s =
    if s.ref_count p == 0
    then s
    else (let s' = record s { ref_count = assign s.ref_count p (s.ref_count p - 1) } in
        if s'.ref_count p == 0 && s'.mark p then to_tmp p s' else s')

unfoldable pub gc_scan_incref_child : ℕ → Gc → Gc
gc_scan_incref_child p s =
    let s' = record s { ref_count = assign s.ref_count p (s.ref_count p + 1) } in
    if s'.ref_count p == 1
    then (let moved = to_gc p s' in record moved { mark = assign moved.mark p false })
    else s'

unfoldable pub gc_scan_incref_child2 : ℕ → Gc → Gc
gc_scan_incref_child2 p s = record s { ref_count = assign s.ref_count p (s.ref_count p + 1) }

-- `mark_children`, on the list of the children.
unfoldable pub each : (ℕ → Gc → Gc) → List ℕ → Gc → Gc
each f [] s = s
each f (p ∷ ps) s = each f ps (f p s)

module _ (children : ℕ → List ℕ) where
  -- The loop of `gc_decref` over the objects from one on. Only objects that it has passed, which have a
  -- mark, leave the list meanwhile.
  unfoldable pub decref_loop : List ℕ → Gc → Option Gc
  decref_loop [] s = some s
  decref_loop (p ∷ ps) s =
      let s1 = each gc_decref_child (children p) s in
      let s2 = record s1 { mark = assign s1.mark p true } in
      let rest = decref_loop ps (if s2.ref_count p == 0 then to_tmp p s2 else s2) in
      if s.mark p then none else rest

  unfoldable pub gc_decref : Gc → Option Gc
  gc_decref s = decref_loop s.gc_obj_list (record s { tmp_obj_list = [] })

  -- The first loop of `gc_scan`. The list grows at its end while it is gone through: `passed` are the
  -- objects before the one at hand, and `gc_obj_list` those from it on. An object that was passed has a
  -- count above 0, so none of them is moved.
  unfoldable pub scan_loop : ℕ → List ℕ → Gc → Option Gc
  scan_loop zero passed s = elim s.gc_obj_list [
    | [] ↦ some (record s { gc_obj_list = passed })
    | p ∷ ps ↦ none
  ]
  scan_loop (suc n) passed s = elim s.gc_obj_list [
    | [] ↦ some (record s { gc_obj_list = passed })
    | p ∷ ps ↦
        (let s1 = record s { gc_obj_list = ps; mark = assign s.mark p false } in
          let rest = scan_loop n (passed ++ (p ∷ [])) (each gc_scan_incref_child (children p) s1) in
          if s.ref_count p == 0 then none else rest)
  ]

  -- The second loop of `gc_scan`.
  unfoldable pub restore_loop : List ℕ → Gc → Gc
  restore_loop [] s = s
  restore_loop (p ∷ ps) s = restore_loop ps (each gc_scan_incref_child2 (children p) s)

  unfoldable pub gc_scan : Gc → Option Gc
  gc_scan s = do
    s' ← scan_loop (length s.gc_obj_list + length s.tmp_obj_list) [] s
    some (restore_loop s'.tmp_obj_list s')

  -- `JS_RunGC` before `gc_free_cycles`, which frees what is in `tmp_obj_list`.
  unfoldable pub find_cycles : Gc → Option Gc
  find_cycles s = do s' ← gc_decref s; gc_scan s'
