-- ===== src/Utf8/Encoding/Fit.antt =====
-- How much of a text the encoders of cutils.c store in a destination of a given size.
use mathlib.Core.Path.{ap₂}
use mathlib.Core.List.{append_assoc}
use substrata_swift.Prelude.{ℕ, suc, ◌+◌, ◌-◌, ◌<◌, ◌≡◌, refl, ap, ◌∙◌, sym, arith, none, some}
use substrata_swift.Prelude.{List, [], ◌∷◌, ◌++◌, length, drop, length-append, length-drop}
use substrata_swift.Prelude.{
  store-end, set-end, lt→ltb, leb, if◌then◌else◌, Bool-cases, inl, inr, true, false,
}
use substrata_swift.Utf8.{utf8_encode}
use substrata_swift.Utf8.Encode.{utf8_encode_shape, encode_one}
use substrata_swift.Utf8.Units.{flat, code_points}
use substrata_swift.Utf8.Encoding.{terminate, encode16_put, utf8_encode_buf16}
use substrata_swift.Utf8.Encoding.Laws.{text, codes_loop, encode16_loop-codes}

-- The longest prefix whose code leaves a byte for the terminator.
unfoldable pub fit : ℕ → List ℕ → List ℕ
fit room [] = []
fit room (c ∷ cs) =
    let more = c ∷ fit (room - length (utf8_encode c)) cs in
    if leb room (length (utf8_encode c)) then [] else more

pub length-text :
    (c : ℕ) (cs : List ℕ) → length (text (c ∷ cs)) ≡ length (utf8_encode c) + length (text cs)
unfolding text flat
length-text c cs = length-append (utf8_encode c) (flat utf8_encode cs)

-- A text that fits is stored whole.
pub fit_all : (room : ℕ) (cs : List ℕ) → length (text cs) < room → fit room cs ≡ cs
unfolding fit
fit_all room [] h = refl
fit_all room (c ∷ cs) h =
    ground (arith, length-text c cs, fit_all (room - length (utf8_encode c)) cs)

encode16_put_end :
    (c : ℕ) (done rest : List ℕ)
    → encode16_put c (done ++ rest) (length done) ≡ (
        if leb (length rest) (length (utf8_encode c))
        then none
        else some (
          (done ++ utf8_encode c) ++ drop (length (utf8_encode c)) rest,
          length (done ++ utf8_encode c),
        ))
unfolding encode16_put
encode16_put_end c done rest = ground (
  arith,
  utf8_encode_shape c,
  encode_one c,
  length-append done rest,
  length-append done (utf8_encode c),
  set-end done rest (length done) c,
  store-end (utf8_encode c) done rest (length done),
)

terminate_end :
    (done rest : List ℕ)
    → 0 < length rest
    → terminate (done ++ rest) (length done) ≡ done ++ (0 ∷ drop 1 rest)
unfolding terminate
terminate_end done rest h =
    rw (lt→ltb (length done) (length (done ++ rest)) (omega (arith, length-append done rest)))
      (set-end done rest (length done) 0 refl h ∙ append_assoc done (0 ∷ []) (drop 1 rest))

codes_full :
    (c : ℕ) (cs done rest : List ℕ)
    → leb (length rest) (length (utf8_encode c)) ≡ true
    → codes_loop (c ∷ cs) (done ++ rest) (length done)
      ≡ (terminate (done ++ rest) (length done), length done + length (text (c ∷ cs)))
unfolding codes_loop
codes_full c cs done rest full =
    let e : encode16_put c (done ++ rest) (length done) ≡ none =
      encode16_put_end c done rest ∙ rw full in
    rw (e, codes_loop)

codes_more :
    (c : ℕ) (cs done rest : List ℕ)
    → leb (length rest) (length (utf8_encode c)) ≡ false
    → codes_loop (c ∷ cs) (done ++ rest) (length done)
      ≡ codes_loop cs
          ((done ++ utf8_encode c) ++ drop (length (utf8_encode c)) rest)
          (length (done ++ utf8_encode c))
unfolding codes_loop
codes_more c cs done rest room =
    let e : encode16_put c (done ++ rest) (length done)
        ≡ some (
          (done ++ utf8_encode c) ++ drop (length (utf8_encode c)) rest,
          length (done ++ utf8_encode c),
        ) =
      encode16_put_end c done rest ∙ rw room in
    rw (e, codes_loop)

-- A text, the terminator, and what `rest` has after as many bytes.
abbrev pub ended : List ℕ → List ℕ → List ℕ
ended bytes rest = bytes ++ (0 ∷ drop (suc (length bytes)) rest)

ended-append :
    (xs ys rest : List ℕ) → ended (xs ++ ys) rest ≡ xs ++ ended ys (drop (length xs) rest)
ended-append [] ys rest = refl
ended-append (x ∷ xs) ys [] = ap (λ t. x ∷ t) (append_assoc xs ys (0 ∷ []))
ended-append (x ∷ xs) ys (r ∷ rest) = ap (λ t. x ∷ t) (ended-append xs ys rest)

-- From the end of what is written, the loop stores the prefix that fits and the terminator, keeps
-- the rest of `dest`, and returns the length of the whole text.
codes_loop_lem :
    (cs done rest : List ℕ)
    → 0 < length rest
    → codes_loop cs (done ++ rest) (length done)
      ≡ (done ++ ended (text (fit (length rest) cs)) rest, length done + length (text cs))
codes_loop_lem [] done rest h =
    unfold codes_loop fit text flat in
    ap₂ (λ (a : List ℕ) (b : ℕ). (a, b)) (terminate_end done rest h) (omega arith)
codes_loop_lem (c ∷ cs) done rest h =
    elim (Bool-cases (leb (length rest) (length (utf8_encode c)))) [
      | inl full ↦
          codes_full c cs done rest full
          ∙ ap (λ (a : List ℕ). (a, length done + length (text (c ∷ cs))))
              (terminate_end done rest h
                ∙ ap (λ (t : List ℕ). done ++ ended t rest) (sym (cut full)))
      | inr room ↦
          codes_more c cs done rest room
          ∙ codes_loop_lem cs (done ++ utf8_encode c) (drop (length (utf8_encode c)) rest)
              (left room)
          ∙ ap₂ (λ (a : List ℕ) (b : ℕ). (a, b)) (joined room)
              (omega (arith, length-text c cs, length-append done (utf8_encode c)))
    ]
  where
    cut : leb (length rest) (length (utf8_encode c)) ≡ true → text (fit (length rest) (c ∷ cs)) ≡ []
    cut full = unfold fit text flat in rw full

    left :
        leb (length rest) (length (utf8_encode c)) ≡ false
        → 0 < length (drop (length (utf8_encode c)) rest)
    left room = ground (arith, length-drop (length (utf8_encode c)) rest)

    joined :
        leb (length rest) (length (utf8_encode c)) ≡ false
        → (done ++ utf8_encode c)
            ++ ended
                (text (fit (length (drop (length (utf8_encode c)) rest)) cs))
                (drop (length (utf8_encode c)) rest)
          ≡ done ++ ended (text (fit (length rest) (c ∷ cs))) rest
    joined room =
        unfold fit text flat in
        rw (room, length-drop (length (utf8_encode c)) rest)
          (append_assoc done (utf8_encode c) _
            ∙ ap (λ (t : List ℕ). done ++ t) (sym (ended-append (utf8_encode c) _ rest)))

-- `utf8_encode_buf16` into any destination: the result is the length of the whole code, also when it
-- does not fit, and a destination that is not empty holds the code of the code points that fit,
-- a terminator, and behind that what it held before.
pub utf8_encode_buf16_lem :
    (dest src : List ℕ)
    → 0 < length dest
    → utf8_encode_buf16 dest src
      ≡ (ended (text (fit (length dest) (code_points src))) dest, length (text (code_points src)))
unfolding utf8_encode_buf16
utf8_encode_buf16_lem dest src h =
    encode16_loop-codes src dest 0
    ∙ codes_loop_lem (code_points src) [] dest h
    ∙ ap (λ (t : ℕ). (ended (text (fit (length dest) (code_points src))) dest, t)) (omega arith)
