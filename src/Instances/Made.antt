-- ===== src/Instances/Made.antt =====
-- `typedConstruct` on its three ways: an instance that waits, a new one, and a `construct` that throws.
use substrata_swift.Prelude.{ℕ, ◌+◌, ◌<◌, ◌≡◌, ◌≢◌, refl, sym, ap, ◌∙◌, arith, ◌==◌, ==_iff, List}
use substrata_swift.Prelude.{Option, none, some, set_at, Bool, true, false, if◌then◌else◌}
use substrata_swift.Conversion.{Floats, JsValue, Native, instance_of}
use substrata_swift.Context.{Value}
use substrata_swift.Callbacks.{throw_error}
use substrata_swift.Instances.{instance_atom}
use substrata_swift.Instances.{Objects, World, ClassInfo, ClassType, Members}
use substrata_swift.Instances.{attach, instance_for, finish, after_construct, construct_object}
use substrata_swift.Instances.Attached.{
  Laws, Tagged, Attached, freed-Tagged, create-Tagged, mark-Tagged,
}
use substrata_swift.Instances.Construct.{Plain, finish-Attached, attach-Attached}
use substrata_swift.Instances.Construct.{created-Attached}

module _ (o : Objects) (class_of : Value → o.Heap → Option ℕ) (f : Floats) {P : Type 0} where
  -- The object is new and has the instance; every other object keeps its own, and every instance that
  -- was there before has its members.
  pub record Made (w w' : World o f P) (v i : ℕ) : Type 0 where
    pub object : Attached o class_of f P w' v i
    pub others :
        (u j : ℕ) → Attached o class_of f P w u j → Attached o class_of f P w' u j × (u ≢ v)
    pub members : (j : ℕ) → j < w.next_instance → w'.instances j ≡ w.instances j
    pub classes : w'.context.classes ≡ w.context.classes

module _ (f : Floats) {P : Type 0} (types : ℕ → ClassType f.Double P) where
  -- `init` and then `construct`: the members, the error that was thrown, and the state.
  abbrev pub constructed :
      ClassInfo → List (Native f.Double) → P → (Members f.Double P × Option (List ℕ)) × P
  constructed info args start =
      let (members, p) = (types info.type_id).init start in
      (types info.type_id).construct args members p

module _ (o : Objects) (class_of : Value → o.Heap → Option ℕ) (laws : Laws o class_of) (f : Floats)
    {P : Type 0} (types : ℕ → ClassType f.Double P) (made : ℕ) where
  -- With an instance that waits, no `init` and no `construct` runs, and the object has that instance.
  pub construct_object-waiting :
      (this i : ℕ) (args : List (Native f.Double)) (info : ClassInfo) (w w' : World o f P)
      (r : JsValue f.Double)
      → info.waiting_to_attach ≡ some i
      → i < w.next_instance
      → Plain (w.instances i).properties
      → construct_object o f types made this args info w ≡ some (r, w')
      → (r ≡ instance_of (o.create_from_ctor this info.class_id w.heap).0)
        × Made o class_of f w w' (o.create_from_ctor this info.class_id w.heap).0 i
        × (w'.program ≡ w.program)
        × (w'.next_instance ≡ w.next_instance)
  unfolding construct_object instance_for attach
  construct_object-waiting this i args info w w' r waits l plain h =
      let (v, h1) = o.create_from_ctor this info.class_id w.heap in
      let w2 = attach o f v i info (record w { heap = h1 }) in
      let done = finish-Attached o class_of laws f types made v i w2 w' r (rw waits at h) plain in
      (
        done.0,
        record {
          object = done.4 v i (
              attach-Attached o class_of laws f v i info h1 w
                (laws.created this info.class_id w.heap).0 l);
          others = λ u j a.
              let kept =
                created-Attached o class_of laws f this i u j info w (record w { heap = h1 }) a refl
                  refl refl (omega arith) in
              (done.4 u j kept.0, kept.1);
          members = λ j m. rw done.1 refl;
          classes = done.6;
        },
        done.3,
        done.5,
      )

  -- The world with the new instance, after `construct` has returned or thrown.
  abbrev begun : ClassInfo → World o f P → World o f P
  begun info w =
      let (members, p) = (types info.type_id).init w.program in
      record w {
        instances = set_at w.instances w.next_instance members;
        next_instance = w.next_instance + 1;
        program = p;
      }

  -- The new object is marked, and its instance has the members that `init` gave it.
  abbrev opened : ℕ → ClassInfo → World o f P → World o f P
  opened this info w =
      attach o f (o.create_from_ctor this info.class_id w.heap).0 w.next_instance info
        (begun info (record w { heap = (o.create_from_ctor this info.class_id w.heap).1 }))

  construct_object-after_construct :
      (this : ℕ) (args : List (Native f.Double)) (info : ClassInfo) (w : World o f P)
      → info.waiting_to_attach ≡ none
      → construct_object o f types made this args info w
        ≡ after_construct o f types made
            (o.create_from_ctor this info.class_id w.heap).0
            w.next_instance
            w.next_info
            (opened this info w)
            (constructed f types info args w.program)
  unfolding construct_object instance_for attach
  construct_object-after_construct this args info w waits =
      let (members, p) = (types info.type_id).init w.program in
      let self : set_at w.instances w.next_instance members w.next_instance ≡ members =
        ground (arith, ==_iff w.next_instance w.next_instance) in
      rw waits (
        ap
          (λ m.
            after_construct o f types made (o.create_from_ctor this info.class_id w.heap).0
              w.next_instance w.next_info (opened this info w)
              ((types info.type_id).construct args m p))
          self)

  after_construct-fine :
      (v i ptr : ℕ) (w : World o f P) (c : (Members f.Double P × Option (List ℕ)) × P)
      → c.0.1 ≡ none
      → after_construct o f types made v i ptr w c
        ≡ finish o f types made v i
            (record w { instances = set_at w.instances i c.0.0; program = c.1 })
  unfolding after_construct
  after_construct-fine v i ptr w c fine = rw fine refl

  after_construct-thrown :
      (v i ptr : ℕ) (w : World o f P) (c : (Members f.Double P × Option (List ℕ)) × P)
      (description : List ℕ)
      → c.0.1 ≡ some description
      → after_construct o f types made v i ptr w c
        ≡ some (
          throw_error f made description,
          record w {
            instances = set_at w.instances i c.0.0;
            program = c.1;
            heap = if w.context.shutting_down then w.heap else o.free_value v w.heap;
            infos = set_at w.infos ptr none;
          },
        )
  unfolding after_construct
  after_construct-thrown v i ptr w c description failed = rw failed refl

  -- What `construct` changes has no part in which instance an object has.
  changed-Attached :
      (w : World o f P) (instances : ℕ → Members f.Double P) (p : P) (u j : ℕ)
      → Attached o class_of f P w u j
      → Attached o class_of f P (record w { instances = instances; program = p }) u j
  changed-Attached w instances p u j a = record {
    class_id = a.class_id;
    info = a.info;
    tagged = a.tagged;
    known = a.known;
    old = a.old;
    made = a.made;
  }

  new_others :
      (w w' : World o f P) (this : ℕ) (info : ClassInfo) (members : Members f.Double P) (j : ℕ)
      → j < w.next_instance
      → w'.instances ≡ set_at (opened this info w).instances w.next_instance members
      → w'.instances j ≡ w.instances j
  unfolding attach
  new_others w w' this info members j l same = rw same (ground (arith, ==_iff w.next_instance j))

  either-Tagged :
      (b : Bool) (h h' : o.Heap) (u k p : ℕ)
      → Tagged o class_of h u k p
      → Tagged o class_of h' u k p
      → Tagged o class_of (if b then h else h') u k p
  either-Tagged true h h' u k p t t' = t
  either-Tagged false h h' u k p t t' = t'

  -- Without the new object the others are as they were.
  given_up :
      (w : World o f P) (this : ℕ) (info : ClassInfo) (u j : ℕ) (members : Members f.Double P)
      (p : P)
      → Attached o class_of f P w u j
      → Attached o class_of f P
          (record (opened this info w) {
            instances = set_at (opened this info w).instances w.next_instance members;
            program = p;
            heap =
                if w.context.shutting_down
                then (opened this info w).heap
                else o.free_value
                    (o.create_from_ctor this info.class_id w.heap).0
                    (opened this info w).heap;
            infos = set_at (opened this info w).infos w.next_info none;
          })
          u
          j
  unfolding attach
  given_up w this info u j members p a =
      let (v, h1) = o.create_from_ctor this info.class_id w.heap in
      let kept =
        create-Tagged o class_of laws this info.class_id u a.class_id a.info w.heap a.tagged in
      let left =
        mark-Tagged o class_of laws v u a.class_id a.info info.class_id w.next_info h1 kept.1
          kept.0 in
      let freed =
        freed-Tagged o class_of laws this info.class_id w.next_info info.class_id u a.class_id
          a.info w.heap a.tagged in
      record {
        class_id = a.class_id;
        info = a.info;
        tagged =
            either-Tagged w.context.shutting_down (opened this info w).heap
              (o.free_value v (opened this info w).heap) u a.class_id a.info left freed;
        known = ground (arith, a.known, a.old, ==_iff w.next_info a.info);
        old = omega (arith, a.old);
        made = omega (arith, a.made);
      }

  -- With none that waits, the object has a new instance, on which `construct` has run once, with the
  -- arguments.
  pub construct_object-new :
      (this : ℕ) (args : List (Native f.Double)) (info : ClassInfo) (w w' : World o f P)
      (r : JsValue f.Double)
      → info.waiting_to_attach ≡ none
      → (constructed f types info args w.program).0.1 ≡ none
      → Plain (constructed f types info args w.program).0.0.properties
      → construct_object o f types made this args info w ≡ some (r, w')
      → (r ≡ instance_of (o.create_from_ctor this info.class_id w.heap).0)
        × Made o class_of f w w' (o.create_from_ctor this info.class_id w.heap).0 w.next_instance
        × (w'.instances w.next_instance ≡ (constructed f types info args w.program).0.0)
        × (w'.program ≡ (constructed f types info args w.program).1)
        × (w'.next_instance ≡ w.next_instance + 1)
  unfolding attach
  construct_object-new this args info w w' r waits fine plain h =
      let n = w.next_instance in
      let self : (n == n) ≡ true = ground (arith, ==_iff n n) in
      let (v, h1) = o.create_from_ctor this info.class_id w.heap in
      let w1 = begun info (record w { heap = h1 }) in
      let w2 = opened this info w in
      let c = constructed f types info args w.program in
      let runs : finish o f types made v n
            (record w2 { instances = set_at w2.instances n c.0.0; program = c.1 })
          ≡ some (r, w') =
        sym (after_construct-fine v n w.next_info w2 c fine)
        ∙ sym (construct_object-after_construct this args info w waits)
        ∙ h in
      let after = record w2 { instances = set_at w2.instances n c.0.0; program = c.1 } in
      let done = finish-Attached o class_of laws f types made v n after w' r runs (rw self plain) in
      let keep = λ (u : ℕ) (j : ℕ) (a : Attached o class_of f P w2 u j).
        done.4 u j (changed-Attached w2 (set_at w2.instances n c.0.0) c.1 u j a) in
      (
        done.0,
        record {
          object = keep v n (
              attach-Attached o class_of laws f v n info h1 w1
                (laws.created this info.class_id w.heap).0 (omega arith));
          others = λ u j a.
              let kept =
                created-Attached o class_of laws f this n u j info w w1 a refl refl refl
                  (omega arith) in
              (keep u j kept.0, kept.1);
          members = λ j l. new_others w w' this info c.0.0 j l done.1;
          classes = done.6;
        },
        rw (done.1, self) refl,
        done.3,
        done.5,
      )

  -- When `construct` throws, the exception has its description, the context is as it was, the address of
  -- the instance record is given up, and the new object is freed, unless the context is shutting down:
  -- it is an object no more. No other object and no other instance has changed.
  pub construct_object-thrown :
      (this : ℕ) (args : List (Native f.Double)) (info : ClassInfo) (w w' : World o f P)
      (r : JsValue f.Double) (description : List ℕ)
      → info.waiting_to_attach ≡ none
      → (constructed f types info args w.program).0.1 ≡ some description
      → construct_object o f types made this args info w ≡ some (r, w')
      → (r ≡ throw_error f made description)
        × (w'.context ≡ w.context)
        × (w'.program ≡ (constructed f types info args w.program).1)
        × (w'.next_instance ≡ w.next_instance + 1)
        × (w'.instances w.next_instance ≡ (constructed f types info args w.program).0.0)
        × (w'.infos w.next_info ≡ none)
        × (w.context.shutting_down ≡ false
            → class_of (o.create_from_ctor this info.class_id w.heap).0 w'.heap ≡ none)
        × ((u j : ℕ) → Attached o class_of f P w u j → Attached o class_of f P w' u j)
        × ((j : ℕ) → j < w.next_instance → w'.instances j ≡ w.instances j)
  unfolding attach
  construct_object-thrown this args info w w' r description waits failed h =
      let n = w.next_instance in
      let (v, h1) = o.create_from_ctor this info.class_id w.heap in
      let w1 = begun info (record w { heap = h1 }) in
      let w2 = opened this info w in
      let c = constructed f types info args w.program in
      let after = record w2 {
        instances = set_at w2.instances n c.0.0;
        program = c.1;
        heap = if w.context.shutting_down then w2.heap else o.free_value v w2.heap;
        infos = set_at w2.infos w.next_info none;
      } in
      let runs : some (throw_error f made description, after) ≡ some (r, w') =
        sym (after_construct-thrown v n w.next_info w2 c description failed)
        ∙ sym (construct_object-after_construct this args info w waits)
        ∙ h in
      let same : (throw_error f made description ≡ r) × (after ≡ w') = ground (arith, runs) in
      rw (← same.0, ← same.1)
        (
          refl,
          refl,
          refl,
          refl,
          ground (arith, ==_iff n n),
          ground (arith, ==_iff w.next_info w.next_info),
          λ up.
              rw up (laws.freed this info.class_id w.next_info info.class_id instance_atom w.heap),
          λ u j a. given_up w this info u j c.0.0 c.1 a,
          λ j l. ground (arith, ==_iff n j),
        )
