-- ===== src/References/Build.antt =====
-- The references that the `toJSValue` of each type makes, and those that the engine takes over.
use substrata_swift.Prelude.{ℕ, Option, none, some, ◌>>=◌, List, [], ◌∷◌}
use substrata_swift.Prelude.{◌&&◌, Bool, true, false}
use substrata_swift.Conversion.{Native, Natives, Entries}
use substrata_swift.Conversion.{JsError}
use substrata_swift.Conversion.{end, item, no_more, entry, int}
use substrata_swift.Conversion.{ns_null, text, flag, uint, double, instant, list, js_function}
use substrata_swift.Conversion.{js_error, js_class, dictionary, foreign, stray}
use substrata_swift.References.{Ledger, acquire, free_reference}

-- `toJSValue`: the reference of the new value, or `nil`.
abbrev pub Builder : Type 0
Builder = Ledger → Option (Option ℕ × Ledger)

-- A value that the engine makes, or `JS_DupValue`.
unfoldable pub new_value : Builder
unfolding acquire
new_value l = let (t, l') = acquire l in some (some t, l')

-- The reference is handed over to a call that stores the value; a value that is no object, such as
-- `JSValue.undefined`, has none.
unfoldable pub give : Option ℕ → Ledger → Option Ledger
unfolding free_reference
give none l = some l
give (some t) l = free_reference t l

-- A property of an error: a new text, which `JS_SetProperty` takes.
unfoldable pub set_field : Option (List ℕ) → Ledger → Option Ledger
unfolding new_value give
set_field none l = some l
set_field (some s) l = do (v, l') ← new_value l; give v l'

unfoldable pub set_fields : JsError → Ledger → Option Ledger
unfolding set_field
set_fields e l = set_field e.message l >>= λ l1.
    set_field e.name l1 >>= λ l2. set_field e.cause l2 >>= λ l3. set_field e.stack l3

-- An argument that gives `nil` is a null.
unfoldable pub or_null : Option ℕ → Ledger → ℕ × Ledger
unfolding acquire
or_null (some t) l = (t, l)
or_null none l = acquire l

module _ {D : Type 0} where
  unfoldable mutual
    unfolding new_value set_fields give

    pub build : Native D → Builder
    build ns_null l = new_value l
    build (text s) l = new_value l
    build (flag b) l = new_value l
    build (int n) l = new_value l
    build (uint n) l = new_value l
    build (double d) l = new_value l
    build (instant d) l = new_value l
    build (list ns) l = do (v, l1) ← new_value l; l2 ← build_items ns l1; some (v, l2)
    build (js_function r) l = new_value l
    build (js_error e) l = do (v, l1) ← new_value l; l2 ← set_fields e l1; some (v, l2)
    build (js_class r) l = new_value l
    build (dictionary es) l = do (v, l1) ← new_value l; l2 ← build_entries es l1; some (v, l2)
    build foreign l = some (none, l)
    build stray l = some (none, l)

    -- `JS_SetPropertyUint32` for each element.
    pub build_items : Natives D → Ledger → Option Ledger
    build_items end l = some l
    build_items (item n ns) l = build n l >>= λ r. give r.0 r.1 >>= λ l'. build_items ns l'

    -- `JS_SetPropertyStr` for each entry that is convertible.
    pub build_entries : Entries D → Ledger → Option Ledger
    build_entries no_more l = some l
    build_entries (entry name n es) l =
        build n l >>= λ r. give r.0 r.1 >>= λ l'. build_entries es l'

  -- `args as? [JSInternalConvertible]`
  unfoldable pub is_internal : Native D → Bool
  is_internal foreign = false
  is_internal _ = true

  unfoldable pub are_internal : List (Native D) → Bool
  unfolding is_internal
  are_internal [] = true
  are_internal (n ∷ ns) = is_internal n && are_internal ns

  -- The arguments of `JSFunction.call`.
  unfoldable pub build_args : List (Native D) → Ledger → Option (List ℕ × Ledger)
  unfolding build or_null
  build_args [] l = some ([], l)
  build_args (n ∷ ns) l = build n l >>= λ r.
      let (t, l1) = or_null r.0 r.1 in build_args ns l1 >>= λ r'. some (t ∷ r'.0, r'.1)
