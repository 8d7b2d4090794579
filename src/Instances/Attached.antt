-- ===== src/Instances/Attached.antt =====
-- An object of the engine and its instance, and what the engine must keep for that.
use substrata_swift.Prelude.{ℕ, ◌<◌, ◌≡◌, ◌≢◌, refl, ◌∙◌, List, [], ◌∷◌}
use substrata_swift.Prelude.{Option, none, some}
use substrata_swift.Conversion.{Floats}
use substrata_swift.Context.{Value}
use substrata_swift.Instances.{Objects, World, instance_atom, instance_of_object}
use substrata_swift.Instances.{define_all}

-- What is relied on: a new object is of the class that was asked for, and the calls on an object leave
-- the others as they are; `JS_GetOpaque` gives back what `JS_SetOpaque` was given, and
-- `JS_GetProperty` the last integer stored, also after other properties were defined; and freeing a
-- new object that holds nothing but its integer ends it, and takes no other with it.
pub record Laws (o : Objects) (class_of : Value → o.Heap → Option ℕ) : Type 0 where
  pub created :
      (t k : ℕ) (h : o.Heap)
      → (class_of (o.create_from_ctor t k h).0 (o.create_from_ctor t k h).1 ≡ some k)
        × (class_of (o.create_from_ctor t k h).0 h ≡ none)
  pub created_kept :
      (t k u j : ℕ) (name : List ℕ) (h : o.Heap)
      → class_of u h ≡ some j
      → (class_of u (o.create_from_ctor t k h).1 ≡ some j)
        × (o.get_opaque u j (o.create_from_ctor t k h).1 ≡ o.get_opaque u j h)
        × (o.get_int u name (o.create_from_ctor t k h).1 ≡ o.get_int u name h)
  pub opaque_set :
      (v k p : ℕ) (h : o.Heap)
      → class_of v h ≡ some k
      → o.get_opaque v k (o.set_opaque v p h) ≡ some p
  pub opaque_kept :
      (v u j p : ℕ) (h : o.Heap)
      → u ≢ v
      → o.get_opaque u j (o.set_opaque v p h) ≡ o.get_opaque u j h
  pub opaque_others :
      (v u p : ℕ) (name : List ℕ) (h : o.Heap)
      → (class_of u (o.set_opaque v p h) ≡ class_of u h)
        × (o.get_int u name (o.set_opaque v p h) ≡ o.get_int u name h)
  pub int_set :
      (v n : ℕ) (name : List ℕ) (h : o.Heap) → o.get_int v name (o.set_int v name n h) ≡ some n
  pub int_kept :
      (v u n : ℕ) (name other : List ℕ) (h : o.Heap)
      → u ≢ v
      → o.get_int u other (o.set_int v name n h) ≡ o.get_int u other h
  pub int_others :
      (v u j n : ℕ) (name : List ℕ) (h : o.Heap)
      → (class_of u (o.set_int v name n h) ≡ class_of u h)
        × (o.get_opaque u j (o.set_int v name n h) ≡ o.get_opaque u j h)
  pub define_others :
      (v u j g : ℕ) (s : Option ℕ) (name : List ℕ) (h : o.Heap)
      → (class_of u (o.define_property v name g s h) ≡ class_of u h)
        × (o.get_opaque u j (o.define_property v name g s h) ≡ o.get_opaque u j h)
  pub define_kept :
      (v u g : ℕ) (s : Option ℕ) (name other : List ℕ) (h : o.Heap)
      → (u ≡ v → name ≢ other)
      → o.get_int u other (o.define_property v name g s h) ≡ o.get_int u other h
  pub freed_kept :
      (t k p n u j : ℕ) (name other : List ℕ) (h : o.Heap)
      → class_of u h ≡ some j
      → let v = (o.create_from_ctor t k h).0 in
        let h' = o.set_int v name n (o.set_opaque v p (o.create_from_ctor t k h).1) in
        (class_of u (o.free_value v h') ≡ some j)
        × (o.get_opaque u j (o.free_value v h') ≡ o.get_opaque u j h')
        × (o.get_int u other (o.free_value v h') ≡ o.get_int u other h')
  pub freed :
      (t k p n : ℕ) (name : List ℕ) (h : o.Heap)
      → let v = (o.create_from_ctor t k h).0 in
        let h' = o.set_int v name n (o.set_opaque v p (o.create_from_ctor t k h).1) in
        class_of v (o.free_value v h') ≡ none

-- No property has the name "__instanceAtom".
abbrev pub Apart : List (List ℕ × ℕ × Option ℕ) → Type 0
Apart [] = Unit
Apart ((name, g, s) ∷ ds) = (name ≢ instance_atom) × Apart ds

module _ (o : Objects) (class_of : Value → o.Heap → Option ℕ) where
  -- In the heap, the object is of the class, holds the class under "__instanceAtom", and the address.
  pub record Tagged (h : o.Heap) (u k p : ℕ) : Type 0 where
    pub class : class_of u h ≡ some k
    pub opaque : o.get_opaque u k h ≡ some p
    pub atom : o.get_int u instance_atom h ≡ some k

  module _ (laws : Laws o class_of) where
    pub create-Tagged :
        (t k u j p : ℕ) (h : o.Heap)
        → Tagged h u j p
        → Tagged (o.create_from_ctor t k h).1 u j p × (u ≢ (o.create_from_ctor t k h).0)
    create-Tagged t k u j p h tag =
        let kept = laws.created_kept t k u j instance_atom h tag.class in
        (
          record { class = kept.0; opaque = kept.1 ∙ tag.opaque; atom = kept.2 ∙ tag.atom },
          λ e. cc (tag.class, (laws.created t k h).1, e),
        )

    -- Marking one object keeps the others.
    pub mark-Tagged :
        (v u j p k q : ℕ) (h : o.Heap)
        → u ≢ v
        → Tagged h u j p
        → Tagged (o.set_int v instance_atom k (o.set_opaque v q h)) u j p
    mark-Tagged v u j p k q h apart tag =
        let h' = o.set_opaque v q h in
        let first = laws.opaque_others v u q instance_atom h in
        let second = laws.int_others v u j k instance_atom h' in
        record {
          class = second.0 ∙ first.0 ∙ tag.class;
          opaque = second.1 ∙ laws.opaque_kept v u j q h apart ∙ tag.opaque;
          atom = laws.int_kept v u k instance_atom instance_atom h' apart ∙ first.1 ∙ tag.atom;
        }

    -- The marked object itself.
    pub marked-Tagged :
        (v k q : ℕ) (h : o.Heap)
        → class_of v h ≡ some k
        → Tagged (o.set_int v instance_atom k (o.set_opaque v q h)) v k q
    marked-Tagged v k q h e =
        let h' = o.set_opaque v q h in
        let first = laws.opaque_others v v q instance_atom h in
        let second = laws.int_others v v k k instance_atom h' in
        record {
          class = second.0 ∙ first.0 ∙ e;
          opaque = second.1 ∙ laws.opaque_set v k q h e;
          atom = laws.int_set v k instance_atom h';
        }

    pub define_all-Tagged :
        (ds : List (List ℕ × ℕ × Option ℕ)) (v u k p : ℕ) (h : o.Heap)
        → (u ≡ v → Apart ds)
        → Tagged h u k p
        → Tagged (define_all o v ds h) u k p
    unfolding define_all
    define_all-Tagged [] v u k p h apart tag = tag
    define_all-Tagged ((name, g, s) ∷ ds) v u k p h apart tag =
        let kept = laws.define_others v u k g s name h in
        define_all-Tagged ds v u k p (o.define_property v name g s h) (λ e. (apart e).1)
          (record {
            class = kept.0 ∙ tag.class;
            opaque = kept.1 ∙ tag.opaque;
            atom = laws.define_kept v u g s name instance_atom h (λ e. (apart e).0) ∙ tag.atom;
          })

    -- Giving up a new object keeps the others.
    pub freed-Tagged :
        (t k q n u j p : ℕ) (h : o.Heap)
        → Tagged h u j p
        → let v = (o.create_from_ctor t k h).0 in
          Tagged
            (o.free_value v
              (o.set_int v instance_atom n (o.set_opaque v q (o.create_from_ctor t k h).1)))
            u
            j
            p
    freed-Tagged t k q n u j p h tag =
        let (v, h1) = o.create_from_ctor t k h in
        let made = create-Tagged t k u j p h tag in
        let marked = mark-Tagged v u j p n q h1 made.1 made.0 in
        let kept = laws.freed_kept t k q n u j instance_atom instance_atom h tag.class in
        record { class = kept.0; opaque = kept.1 ∙ marked.opaque; atom = kept.2 ∙ marked.atom }

  module _ (f : Floats) (P : Type 0) where
    -- The object has the instance.
    pub record Attached (w : World o f P) (u i : ℕ) : Type 0 where
      pub class_id : ℕ
      pub info : ℕ
      pub tagged : Tagged w.heap u class_id info
      pub known : w.infos info ≡ some i
      pub old : info < w.next_info
      pub made : i < w.next_instance

  pub instance_of_object-Attached :
      (f : Floats) {P : Type 0} (w : World o f P) (u i : ℕ)
      → Attached f P w u i
      → instance_of_object o f u w ≡ some (some i)
  unfolding instance_of_object
  instance_of_object-Attached f w u i a = rw (a.tagged.atom, a.tagged.opaque, a.known) refl
