-- ===== src/DynBuf/Runs.antt =====
-- The use that the sources make of the error mark: a run of `dbuf_put` calls whose results are not
-- looked at, with one test of `s->error` at the end.
use mathlib.Core.List.{append_assoc, append-nil}
use substrata_swift.Prelude.{ℕ, ◌+◌, ◌^◌, ◌<◌, ◌≡◌, refl, sym, ap, ◌∙◌, arith, Bool, true, false}
use substrata_swift.Prelude.{Option, none, some, ◌>>=◌, List, [], ◌∷◌, ◌++◌, length, length-append}
use substrata_swift.DynBuf.{DynBuf, dbuf_put}
use substrata_swift.DynBuf.Grow.{IsRealloc, IsValid, contents}
use substrata_swift.DynBuf.Append.{Appended, dbuf_put-Appended}

unfoldable pub joined : List (List ℕ) → List ℕ
joined [] = []
joined (bytes ∷ more) = bytes ++ joined more

module _ (realloc_func : List ℕ → ℕ → Option (List ℕ)) where
  unfoldable pub put_all : List (List ℕ) → DynBuf → Option DynBuf
  put_all [] s = some s
  put_all (bytes ∷ more) s = do (done, s') ← dbuf_put realloc_func s bytes; put_all more s'

  -- The buffer after a run: valid, with the mark kept, and with all the bytes if it has no mark.
  pub record Ran (s s' : DynBuf) (added : List ℕ) : Type 0 where
    pub valid : IsValid s'
    pub sticky : s.error ≡ true → s'.error ≡ true
    pub all : s'.error ≡ false → contents s' ≡ contents s ++ added

  module _ (law : IsRealloc realloc_func) where
    -- From a valid buffer with a lawful `realloc` and with the total below 2^64, a run of `dbuf_put` of
    -- any length, whose results are ignored, never copies outside of a block, and if the error mark is not set at
    -- its end then every call was made: the buffer holds all the bytes in order.
    pub put_all-Ran :
        (chunks : List (List ℕ)) (s : DynBuf)
        → IsValid s
        → s.size + length (joined chunks) < 2 ^ 64
        → (s' : DynBuf) × (put_all chunks s ≡ some s') × Ran s s' (joined chunks)
    unfolding put_all joined
    put_all-Ran [] s v w =
        (s, refl, record { valid = v; sticky = λ e. e; all = λ e. sym (append-nil (contents s)) })
    put_all-Ran (bytes ∷ more) s v w =
        after (dbuf_put realloc_func s bytes) refl
          (dbuf_put-Appended realloc_func law s bytes v
            (omega (arith, length-append bytes (joined more))))
          (put_all-Ran more)
      where
        after :
            (out : Option (Bool × DynBuf))
            → dbuf_put realloc_func s bytes ≡ out
            → Appended s bytes out
            → ((t : DynBuf)
                → IsValid t
                → t.size + length (joined more) < 2 ^ 64
                → (s' : DynBuf) × (put_all more t ≡ some s') × Ran t s' (joined more))
            → (s' : DynBuf) × (put_all (bytes ∷ more) s ≡ some s')
              × Ran s s' (joined (bytes ∷ more))
        after none e a rest = absurd a
        after (some (true, t)) e a rest =
            let (s', ran, r) = rest t a.0 (omega (arith, a.2, length-append bytes (joined more))) in
            (
              s',
              rw e ran,
              record {
                valid = r.valid;
                sticky = λ m. r.sticky (a.3 m);
                all = λ m.
                    r.all m
                    ∙ ap (λ (l : List ℕ). l ++ joined more) a.1
                    ∙ append_assoc (contents s) bytes (joined more);
              },
            )
        after (some (false, t)) e a rest =
            let (s', ran, r) = rest t a.0 (omega (arith, a.2, length-append bytes (joined more))) in
            (
              s',
              rw e ran,
              record { valid = r.valid; sticky = λ m. r.sticky a.3; all = λ m. cc (r.sticky a.3) },
            )
