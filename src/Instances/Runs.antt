-- ===== src/Instances/Runs.antt =====
-- Objects and their instances while JavaScript makes further objects and calls methods.
use substrata_swift.Prelude.{
  ℕ, ◌+◌, ◌<◌, ◌≤◌, ◌≡◌, ◌⊎◌, ==_iff, refl, ap, ◌∙◌, arith, List, [], ◌∷◌,
}
use substrata_swift.Prelude.{Option, some, ◌>>=◌, true, Option-cases, inl, inr, find}
use substrata_swift.Conversion.{Floats, JsValue, Native}
use substrata_swift.Context.{Value, find_class, find_method}
use substrata_swift.Callbacks.{
  SwiftContext, Function, return_function, method_named, js_args_to_types, typed_instance_method,
}
use substrata_swift.Instances.{Objects, World, ClassInfo, ClassType, Members}
use substrata_swift.Instances.{construct_object, typed_construct, call_method, instance_of_object}
use substrata_swift.Instances.Attached.{Laws, Attached, instance_of_object-Attached}
use substrata_swift.Instances.Construct.{Plain}
use substrata_swift.Instances.Made.{constructed}
use substrata_swift.Instances.Made.{construct_object-waiting, construct_object-new}
use substrata_swift.Instances.Made.{construct_object-thrown}

-- A call of a constructor or of a method of an object.
pub data Event (D : Type 0) : Type 0 where
  construct : Value → ℕ → Option (List (JsValue D)) → Event D
  call : Value → ℕ → Option (List (JsValue D)) → Event D

-- No class exports a property of the name "__instanceAtom".
pub record ArePlain {D P : Type 0} (types : ℕ → ClassType D P) : Type 0 where
  pub init : (t : ℕ) (p : P) → Plain ((types t).init p).0.properties
  pub construct :
      (t : ℕ) (args : List (Native D)) (m : Members D P) (p : P)
      → Plain m.properties
      → Plain ((types t).construct args m p).0.0.properties

module _ (o : Objects) (f : Floats) {P : Type 0} (types : ℕ → ClassType f.Double P) (made : ℕ) where
  unfoldable pub step : Event f.Double → World o f P → Option (JsValue f.Double × World o f P)
  unfolding typed_construct call_method
  step (Event.construct this magic argv) w = typed_construct o f types made true this magic argv w
  step (Event.call this magic argv) w = call_method o f made true this magic argv w

  unfoldable pub run : List (Event f.Double) → World o f P → Option (World o f P)
  unfolding step
  run [] w = some w
  run (e ∷ es) w = step e w >>= λ r. run es r.1

module _ (o : Objects) (f : Floats) {P : Type 0} where
  -- Every instance has only plain properties, and an instance that waits is there.
  pub record IsReady (w : World o f P) : Type 0 where
    pub plain : (i : ℕ) → i < w.next_instance → Plain (w.instances i).properties
    pub waiting :
        (k i : ℕ) (info : ClassInfo)
        → find w.context.classes k ≡ some info
        → info.waiting_to_attach ≡ some i
        → i < w.next_instance

module _ (o : Objects) (class_of : Value → o.Heap → Option ℕ) (f : Floats) {P : Type 0} where
  -- Objects keep their instances, and these their members.
  pub record Keeps (w w' : World o f P) : Type 0 where
    pub ready : IsReady o f w'
    pub objects : (u j : ℕ) → Attached o class_of f P w u j → Attached o class_of f P w' u j
    pub members : (j : ℕ) → j < w.next_instance → w'.instances j ≡ w.instances j
    pub grows : w.next_instance ≤ w'.next_instance

module _ (o : Objects) (class_of : Value → o.Heap → Option ℕ) (laws : Laws o class_of) (f : Floats)
    {P : Type 0} (types : ℕ → ClassType f.Double P) (made : ℕ) where
  unchanged : (w : World o f P) → IsReady o f w → Keeps o class_of f w w
  unchanged w ready = record {
    ready = ready;
    objects = λ u j a. a;
    members = λ j l. refl;
    grows = omega arith;
  }

  programmed :
      (w : World o f P) (p : P) → IsReady o f w → Keeps o class_of f w (record w { program = p })
  programmed w p ready = record {
    ready = record { plain = ready.plain; waiting = ready.waiting };
    objects = λ u j a. record {
      class_id = a.class_id;
      info = a.info;
      tagged = a.tagged;
      known = a.known;
      old = a.old;
      made = a.made;
    };
    members = λ j l. refl;
    grows = omega arith;
  }

  chain :
      (w w1 w' : World o f P)
      → Keeps o class_of f w w1
      → Keeps o class_of f w1 w'
      → Keeps o class_of f w w'
  chain w w1 w' k k' = record {
    ready = k'.ready;
    objects = λ u j a. k'.objects u j (k.objects u j a);
    members = λ j l. k'.members j (omega (arith, l, k.grows)) ∙ k.members j l;
    grows = omega (arith, k.grows, k'.grows);
  }

  below_suc : (i n : ℕ) → i < n + 1 → (i < n) ⊎ (i ≡ n)
  below_suc i n l = ground (arith, ==_iff i n)

  -- An instance that was there, or the new one.
  grown :
      (w w' : World o f P) (m : Members f.Double P)
      → IsReady o f w
      → w'.next_instance ≡ w.next_instance + 1
      → w'.instances w.next_instance ≡ m
      → Plain m.properties
      → ((j : ℕ) → j < w.next_instance → w'.instances j ≡ w.instances j)
      → w'.context.classes ≡ w.context.classes
      → IsReady o f w'
  grown w w' m ready next new plain old classes = record {
    plain = λ i l. elim (below_suc i w.next_instance (omega (arith, l, next))) [
      | inl less ↦ rw (old i less) (ready.plain i less)
      | inr same ↦ rw (same, new) plain
    ];
    waiting = λ k i info e waits.
        let before = ready.waiting k i info (rw classes at e) waits in omega (arith, before, next);
  }

  construct_object-Keeps :
      (this k : ℕ) (args : List (Native f.Double)) (info : ClassInfo) (w w' : World o f P)
      (r : JsValue f.Double)
      → ArePlain types
      → IsReady o f w
      → find w.context.classes k ≡ some info
      → construct_object o f types made this args info w ≡ some (r, w')
      → Keeps o class_of f w w'
  construct_object-Keeps this k args info w w' r plain ready e h =
      let c = constructed f types info args w.program in
      let (m0, p0) = (types info.type_id).init w.program in
      let fit : Plain c.0.0.properties =
        plain.construct info.type_id args m0 p0 (plain.init info.type_id w.program) in
      elim (Option-cases info.waiting_to_attach) [
        | inr (i, waits) ↦
            (let there = ready.waiting k i info e waits in
              let (was, done, p, next) =
                construct_object-waiting o class_of laws f types made this i args info w w' r waits
                  there (ready.plain i there) h in
              record {
                ready = record {
                  plain = λ j l.
                      let less : j < w.next_instance = omega (arith, l, next) in
                      rw (done.members j less) (ready.plain j less);
                  waiting = λ k' i' info' e' waits'.
                      let before = ready.waiting k' i' info' (rw done.classes at e') waits' in
                      omega (arith, before, next);
                };
                objects = λ u j a. (done.others u j a).0;
                members = done.members;
                grows = omega (arith, next);
              })
        | inl waits ↦ elim (Option-cases c.0.1) [
          | inl fine ↦
              (let (was, done, new, p, next) =
                  construct_object-new o class_of laws f types made this args info w w' r waits fine
                    fit h in
                record {
                  ready = grown w w' c.0.0 ready next new fit done.members done.classes;
                  objects = λ u j a. (done.others u j a).0;
                  members = done.members;
                  grows = omega (arith, next);
                })
          | inr (description, failed) ↦
              (let (was, context, p, next, new, gone, freed, objects, members) =
                  construct_object-thrown o class_of laws f types made this args info w w' r
                    description waits failed h in
                record {
                  ready = grown w w' c.0.0 ready next new fit members (ap (λ x. x.classes) context);
                  objects = objects;
                  members = members;
                  grows = omega (arith, next);
                })
        ]
      ]

  typed_construct-Keeps :
      (this magic : ℕ) (argv : Option (List (JsValue f.Double))) (w w' : World o f P)
      (r : JsValue f.Double)
      → ArePlain types
      → IsReady o f w
      → typed_construct o f types made true this magic argv w ≡ some (r, w')
      → Keeps o class_of f w w'
  unfolding typed_construct find_class
  typed_construct-Keeps this magic argv w w' r plain ready h =
      elim (Option-cases (js_args_to_types f made argv)) [
        | inl trap ↦ cc (rw trap at h)
        | inr (args, taken) ↦ elim (Option-cases (find w.context.classes magic)) [
          | inl missing ↦
              (let same : w ≡ w' = ground (arith, rw (taken, missing) at h) in
                rw (← same) (unchanged w ready))
          | inr (info, found) ↦
              construct_object-Keeps this magic args info w w' r plain ready found
                (rw (taken, found) at h)
        ]
      ]

  call_method-Keeps :
      (this magic : ℕ) (argv : Option (List (JsValue f.Double))) (w w' : World o f P)
      (r : JsValue f.Double)
      → IsReady o f w
      → call_method o f made true this magic argv w ≡ some (r, w')
      → Keeps o class_of f w w'
  unfolding call_method
  call_method-Keeps this magic argv w w' r ready h =
      elim (Option-cases (
        typed_instance_method f made (some w.context)
          (instance_of_object o f this w >>= λ found.
            some (found >>= λ i. some (w.instances i).methods))
          magic argv w.program)) [
            | inl trap ↦ cc (rw trap at h)
            | inr ((v, p), done) ↦
                (let same : record w { program = p } ≡ w' = ground (arith, rw done at h) in
                  rw (← same) (programmed w p ready))
          ]

  run-Keeps :
      (es : List (Event f.Double)) (w w' : World o f P)
      → ArePlain types
      → IsReady o f w
      → run o f types made es w ≡ some w'
      → Keeps o class_of f w w'
  unfolding run step
  run-Keeps [] w w' plain ready h =
      let same : w ≡ w' = ground arith in rw (← same) (unchanged w ready)
  run-Keeps (Event.construct this magic argv ∷ es) w w' plain ready h =
      elim (Option-cases (typed_construct o f types made true this magic argv w)) [
        | inl trap ↦ cc (rw trap at h)
        | inr ((r, w1), done) ↦
            (let first = typed_construct-Keeps this magic argv w w1 r plain ready done in
              chain w w1 w' first (run-Keeps es w1 w' plain first.ready (rw done at h)))
      ]
  run-Keeps (Event.call this magic argv ∷ es) w w' plain ready h =
      elim (Option-cases (call_method o f made true this magic argv w)) [
        | inl trap ↦ cc (rw trap at h)
        | inr ((r, w1), done) ↦
            (let first = call_method-Keeps this magic argv w w1 r ready done in
              chain w w1 w' first (run-Keeps es w1 w' plain first.ready (rw done at h)))
      ]

  typed_instance_method-found :
      (c : SwiftContext f.Double P ClassInfo) (methods : List (List ℕ × Function f.Double P))
      (magic : ℕ) (name : List ℕ) (fn : Function f.Double P)
      (argv : Option (List (JsValue f.Double))) (args : List (Native f.Double)) (p : P)
      → find_method c magic ≡ some name
      → method_named methods name ≡ some fn
      → js_args_to_types f made argv ≡ some args
      → typed_instance_method f made (some c) (some (some methods)) magic argv p
        ≡ return_function f made (fn args p)
  unfolding typed_instance_method
  typed_instance_method-found c methods magic name fn argv args p named method taken =
      ground (arith, named, method, taken)

  -- An object that has an instance keeps it: after any further constructions and method calls, a method
  -- called on it by an identifier runs, on the arguments and the state of the program, the closure that
  -- this very instance exports under the name of the identifier.
  pub call_method-run :
      (es : List (Event f.Double)) (w w' : World o f P) (u i magic : ℕ) (name : List ℕ)
      (fn : Function f.Double P) (argv : Option (List (JsValue f.Double)))
      (args : List (Native f.Double))
      → ArePlain types
      → IsReady o f w
      → Attached o class_of f P w u i
      → run o f types made es w ≡ some w'
      → find_method w'.context magic ≡ some name
      → method_named (w.instances i).methods name ≡ some fn
      → js_args_to_types f made argv ≡ some args
      → call_method o f made true u magic argv w' ≡ (
          return_function f made (fn args w'.program) >>= λ r.
          some (r.0, record w' { program = r.1 }))
  unfolding call_method
  call_method-run es w w' u i magic name fn argv args plain ready a h named method taken =
      let kept = run-Keeps es w w' plain ready h in
      let found = instance_of_object-Attached o class_of f w' u i (kept.objects u i a) in
      let methods = (w.instances i).methods in
      rw
        (
          found,
          kept.members i a.made,
          typed_instance_method-found w'.context methods magic name fn argv args w'.program named
              method taken,
        )
        refl
