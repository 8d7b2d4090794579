-- ===== src/Context/Shutdown.antt =====
-- What `JSContext.shutdown` leaves, and which of its calls reach the engine.
use substrata_swift.Prelude.{ℕ, ◌≡◌, refl, ap, ◌∙◌, true, none}
use substrata_swift.Prelude.{List, [], ◌∷◌}
use substrata_swift.Context.{
  Context, Value, Call, perform, free, free_all, free_built_ins, shutdown,
}
use substrata_swift.Context.{find_function, find_getter, find_setter, find_class, find_method, log}
use substrata_swift.Context.{drop_exports}

module _ {F G S C : Type 0} where
  -- No export is left, and the context counts as shut down.
  pub record IsShut (c : Context F G S C) : Type 0 where
    pub flag : c.shutting_down ≡ true
    pub no_function : (id : ℕ) → find_function c id ≡ none
    pub no_getter : (id : ℕ) → find_getter c id ≡ none
    pub no_setter : (id : ℕ) → find_setter c id ≡ none
    pub no_class : (id : ℕ) → find_class c id ≡ none
    pub no_method : (id : ℕ) → find_method c id ≡ none
    pub no_built_in : c.built_ins ≡ []

  free_shut : (v : Value) (c : Context F G S C) → c.shutting_down ≡ true → free v c ≡ c
  unfolding free
  free_shut v c h = rw h

  free_all_shut :
      (vs : List Value) (c : Context F G S C) → c.shutting_down ≡ true → free_all vs c ≡ c
  unfolding free_all
  free_all_shut [] c h = refl
  free_all_shut (v ∷ vs) c h = ap (free_all vs) (free_shut v c h) ∙ free_all_shut vs c h

  -- The state after `shutdown`, written out.
  abbrev shut : Context F G S C → Context F G S C
  shut c = record c {
    classes = [];
    functions = [];
    property_getters = [];
    property_setters = [];
    method_ids = [];
    built_ins = [];
    shutting_down = true;
    calls = Call.free_context ∷ Call.clear_opaque ∷ c.calls;
  }

  shutdown-shut : (c : Context F G S C) → shutdown c ≡ shut c
  unfolding shutdown free_built_ins log drop_exports free
  shutdown-shut c = rw (free_all_shut c.built_ins (record c { shutting_down = true }) refl)

  -- After `shutdown` no export is found, no closure runs any more, and of the calls that `shutdown`
  -- makes only those that clear the opaque pointer and free the context reached the engine: the global
  -- object and the built-in functions keep the references that the context holds on them.
  pub shutdown-IsShut :
      (c : Context F G S C)
      → IsShut (shutdown c)
        × ((closure : Context F G S C → Context F G S C)
            → perform closure (shutdown c) ≡ shutdown c)
        × ((shutdown c).calls ≡ Call.free_context ∷ Call.clear_opaque ∷ c.calls)
  unfolding perform find_function find_getter find_setter find_class find_method
  shutdown-IsShut c = rw (shutdown-shut c) (
    record {
      flag = refl;
      no_function = λ id. refl;
      no_getter = λ id. refl;
      no_setter = λ id. refl;
      no_class = λ id. refl;
      no_method = λ id. refl;
      no_built_in = refl;
    },
    λ closure. refl,
    refl,
  )

  -- A second `shutdown`, as that of `deinit` after one by hand, frees the context once more.
  pub shutdown-shutdown :
      (c : Context F G S C)
      → (shutdown (shutdown c)).calls
        ≡ Call.free_context ∷ Call.clear_opaque ∷ Call.free_context ∷ Call.clear_opaque ∷ c.calls
  shutdown-shutdown c =
      (shutdown-IsShut (shutdown c)).2
      ∙ ap (λ t. Call.free_context ∷ Call.clear_opaque ∷ t) (shutdown-IsShut c).2
