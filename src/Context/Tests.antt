-- ===== src/Context/Tests.antt =====
-- The theorems on contexts at concrete contexts.
use substrata_swift.Prelude.{ℕ, ◌≡◌, refl, some, [], ◌∷◌}
use substrata_swift.Context.{
  Context, Call, new_context, perform, shutdown, add_function, add_getter,
}
use substrata_swift.Context.Exports.{IsValid, Export, export, export_all, Found}
use substrata_swift.Context.Exports.Kept.{new_context-IsValid, export-Found}
use substrata_swift.Prelude.{◌≢◌, true, arith}
use substrata_swift.Context.Threads.{initial, System, passed, inside, flagged, pass}
use substrata_swift.Context.Threads.{
  flag, Reach, here, next, move, is_holding, Reach-exclusive, Reach-refused,
}
use substrata_swift.Context.Threads.{Reach-freed}
use substrata_swift.Context.Shutdown.{IsShut, shutdown-IsShut, shutdown-shutdown}

abbrev Small : Type 0
Small = Context ℕ ℕ ℕ ℕ

abbrev start : Small
start = new_context 7

abbrev after_log : Small
after_log = record start { function_counter = 1; functions = (0, 42) ∷ [] }

abbrev after_more : Small
after_more = record start {
  function_counter = 2;
  functions = (0, 42) ∷ (1, 43) ∷ [];
  property_counter = 1;
  property_getters = (0, 5) ∷ [];
}

first_export : export (Export.function 42) start ≡ some (0, after_log)
unfolding export new_context add_function
first_export = refl

more_exports : export_all (Export.function 43 ∷ Export.getter 5 ∷ []) after_log ≡ some after_more
unfolding export_all export add_function new_context add_getter
more_exports = refl

export-Found_example : IsValid after_more × Found after_more (Export.function 42) 0
export-Found_example =
    export-Found start after_log after_more (Export.function 42) 0
      (Export.function 43 ∷ Export.getter 5 ∷ []) (new_context-IsValid 7) first_export more_exports

shutdown-IsShut_example :
    IsShut (shutdown after_more)
    × ((closure : Small → Small) → perform closure (shutdown after_more) ≡ shutdown after_more)
    × ((shutdown after_more).calls ≡ Call.free_context ∷ Call.clear_opaque ∷ after_more.calls)
shutdown-IsShut_example = shutdown-IsShut after_more

shutdown-shutdown_example :
    (shutdown (shutdown after_more)).calls
    ≡ Call.free_context ∷ Call.clear_opaque ∷ Call.free_context ∷ Call.clear_opaque
      ∷ after_more.calls
shutdown-shutdown_example = shutdown-shutdown after_more

abbrev flag_read : System
flag_read = record initial { phase = move initial.phase 0 passed }

abbrev flag_set : System
flag_set = record flag_read { shutting_down = true; phase = move flag_read.phase 1 flagged }

to_flag_read : Reach initial flag_read
unfolding initial
to_flag_read = next here (pass 0 refl refl refl)

to_flag_set : Reach flag_read flag_set
unfolding initial
to_flag_set = next here (flag 1 refl refl)

Reach-exclusive_example :
    ((t u : ℕ)
      → is_holding (flag_read.phase t) ≡ true
      → is_holding (flag_read.phase u) ≡ true
      → t ≡ u)
    × (flag_read.freed ≡ true → flag_read.shutting_down ≡ true)
Reach-exclusive_example = Reach-exclusive flag_read to_flag_read

Reach-refused_example : flag_set.phase 2 ≢ inside
unfolding initial
Reach-refused_example = Reach-refused flag_set flag_set 2 refl refl here

Reach-freed_example : (s : System) × Reach initial s × (s.freed ≡ true) × (s.phase 0 ≡ inside)
Reach-freed_example = Reach-freed 0 1 (ground arith)
