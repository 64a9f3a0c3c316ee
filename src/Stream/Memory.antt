-- ===== src/Stream/Memory.antt =====
-- A stream over a buffer in memory: src/main/cpp/memBufStream.h and memBufStream.cpp, with what they
-- use of `std::streambuf`.
use spartan_launcher.Prelude.{
  ℕ, zero, suc, ◌+◌, ◌≤◌, ◌<◌, ◌≡◌, refl, sym, ap, ◌∙◌, Bool, true, false, Option, none, some, [],
  ◌∷◌, ◌++◌, append_assoc, append-nil, ltb, if◌then◌else◌, Bytes, length, set, get_or,
  length-append, arith,
}

-- The buffer, the places of the put and the get pointer in it, and the end of the get area.
pub record MemBufStream : Type 0 where
  pub buf : Bytes
  pub pptr : ℕ
  pub gptr : ℕ
  pub egptr : ℕ
  pub for_input_only : Bool

-- `memBufOStream` and `memBufIStream`; without a get area there is nothing to get.
abbrev pub mem_buf_ostream : Bytes → MemBufStream
mem_buf_ostream buf = record { buf = buf; pptr = 0; gptr = 0; egptr = 0; for_input_only = false }

abbrev pub mem_buf_istream : Bytes → MemBufStream
mem_buf_istream buf = record {
  buf = buf;
  pptr = 0;
  gptr = 0;
  egptr = length buf;
  for_input_only = true;
}

-- `sputc`; `none` where `overflow` ends the program.
unfoldable pub sputc : ℕ → MemBufStream → Option MemBufStream
sputc ch s =
    if ltb s.pptr (length s.buf)
    then some (record s { buf = set s.buf s.pptr ch; pptr = s.pptr + 1 })
    else none

-- `sbumpc`; `none` at the end.
unfoldable pub sbumpc : MemBufStream → Option ℕ × MemBufStream
sbumpc s =
    if ltb s.gptr s.egptr
    then (some (get_or s.buf s.gptr 0), record s { gptr = s.gptr + 1 })
    else (none, s)

-- `getMemBuf` and `getUtilizedMemBuf`, by the size that they give
unfoldable pub get_mem_buf : MemBufStream → ℕ
get_mem_buf s = if s.for_input_only then length s.buf else s.pptr

unfoldable pub get_utilized_mem_buf : MemBufStream → ℕ
get_utilized_mem_buf s = s.gptr

unfoldable pub reset_for_input : MemBufStream → MemBufStream
reset_for_input s = record s { gptr = 0; egptr = if s.for_input_only then length s.buf else s.pptr }

abbrev pub then_put :
    (MemBufStream → Option MemBufStream) → Option MemBufStream → Option MemBufStream
then_put f none = none
then_put f (some s) = f s

unfoldable pub put_all : Bytes → MemBufStream → Option MemBufStream
put_all [] s = some s
put_all (c ∷ text) s = then_put (put_all text) (sputc c s)

abbrev pub then_get :
    (MemBufStream → Bytes × MemBufStream) → Option ℕ × MemBufStream → Bytes × MemBufStream
then_get f (none, s) = ([], s)
then_get f (some c, s) = let r = f s in (c ∷ r.0, r.1)

-- At most that many bytes, up to the end.
unfoldable pub get_all : ℕ → MemBufStream → Bytes × MemBufStream
get_all zero s = ([], s)
get_all (suc n) s = then_get (get_all n) (sbumpc s)

abbrev filled_to : Bytes → Bytes → MemBufStream
filled_to front rest = record {
  buf = front ++ rest;
  pptr = length front;
  gptr = 0;
  egptr = 0;
  for_input_only = false;
}

set-append :
    (front : Bytes) (r : ℕ) (rest : Bytes) (c : ℕ)
    → set (front ++ r ∷ rest) (length front) c ≡ (front ++ c ∷ []) ++ rest
set-append [] r rest c = refl
set-append (f ∷ front) r rest c = ap (◌∷◌ f) (set-append front r rest c)

get_or-append :
    (front : Bytes) (c : ℕ) (rest : Bytes) → get_or (front ++ c ∷ rest) (length front) 0 ≡ c
get_or-append [] c rest = refl
get_or-append (f ∷ front) c rest = get_or-append front c rest

length-snoc : (front : Bytes) (c : ℕ) → length front + 1 ≡ length (front ++ c ∷ [])
length-snoc [] c = refl
length-snoc (f ∷ front) c = omega (arith, length-snoc front c)

sputc-filled :
    (c : ℕ) (front : Bytes) (r : ℕ) (rest : Bytes)
    → sputc c (filled_to front (r ∷ rest)) ≡ some (filled_to (front ++ c ∷ []) rest)
unfolding sputc
sputc-filled c front r rest =
    let room : ltb (length front) (length (front ++ r ∷ rest)) ≡ true =
      ground (arith, length-append front (r ∷ rest)) in
    rw (room, set-append front r rest c, length-snoc front c) refl

put_all-filled :
    (text front room rest : Bytes)
    → length text ≡ length room
    → put_all text (filled_to front (room ++ rest)) ≡ some (filled_to (front ++ text) rest)
unfolding put_all
put_all-filled [] front [] rest h = rw (append-nil front) refl
put_all-filled [] front (r ∷ room) rest h = absurd (omega arith)
put_all-filled (c ∷ text) front [] rest h = absurd (omega arith)
put_all-filled (c ∷ text) front (r ∷ room) rest h =
    ap (then_put (put_all text)) (sputc-filled c front r (room ++ rest))
    ∙ (put_all-filled text (front ++ c ∷ []) room rest (omega arith)
        ∙ ap (λ f. some (filled_to f rest)) (append_assoc front (c ∷ []) text))

abbrev reading_from : Bytes → Bytes → Bytes → MemBufStream
reading_from front text rest = record {
  buf = front ++ (text ++ rest);
  pptr = length front + length text;
  gptr = length front;
  egptr = length front + length text;
  for_input_only = false;
}

abbrev at_places : Bytes → ℕ → ℕ → MemBufStream
at_places buf end gptr = record {
  buf = buf;
  pptr = end;
  gptr = gptr;
  egptr = end;
  for_input_only = false;
}

get_all-reading :
    (n : ℕ) (front text rest : Bytes)
    → length text ≤ n
    → (get_all n (reading_from front text rest)).0 ≡ text
unfolding get_all sbumpc
get_all-reading zero front [] rest h = refl
get_all-reading zero front (c ∷ text) rest h = absurd (omega arith)
get_all-reading (suc n) front [] rest h =
    let over : ltb (length front) (length front + 0) ≡ false = ground arith in rw over refl
get_all-reading (suc n) front (c ∷ text) rest h =
    let more : ltb (length front) (length front + suc (length text)) ≡ true = ground arith in
    let next : record (reading_from front (c ∷ text) rest) { gptr = length front + 1 }
        ≡ reading_from (front ++ c ∷ []) text rest =
      ap (λ b. at_places b (length front + suc (length text)) (length front + 1))
        (sym (append_assoc front (c ∷ []) (text ++ rest)))
      ∙ (ap (λ e. at_places ((front ++ c ∷ []) ++ (text ++ rest)) e (length front + 1))
            (omega (arith, length-snoc front c))
          ∙ ap
              (at_places ((front ++ c ∷ []) ++ (text ++ rest))
                (length (front ++ c ∷ []) + length text))
              (length-snoc front c)) in
    rw (more, get_or-append front c (text ++ rest), next)
      (ap (◌∷◌ c) (get_all-reading n (front ++ c ∷ []) text rest (omega arith)))

-- A text that fits in the memory is put there whole, `getMemBuf` gives its size, and after
-- `resetForInput` it is got back, whatever the memory held, however much more is asked for.
pub get_all-put_all :
    (text room rest : Bytes) (more : ℕ)
    → length text ≡ length room
    → (s : MemBufStream) × (put_all text (mem_buf_ostream (room ++ rest)) ≡ some s)
      × (get_mem_buf s ≡ length text)
      × ((get_all (length text + more) (reset_for_input s)).0 ≡ text)
unfolding get_mem_buf reset_for_input
get_all-put_all text room rest more h = (
  filled_to text rest,
  put_all-filled text [] room rest h,
  refl,
  ap (λ e. (get_all (length text + more) (at_places (text ++ rest) e 0)).0) (omega arith)
      ∙ get_all-reading (length text + more) [] text rest (omega arith),
)

put_all-full :
    (text front buf : Bytes) → length buf < length text → put_all text (filled_to front buf) ≡ none
unfolding put_all sputc
put_all-full [] front buf h = absurd (omega arith)
put_all-full (c ∷ text) front [] h =
    let full : ltb (length front) (length (front ++ [])) ≡ false =
      ground (arith, length-append front []) in
    rw full refl
put_all-full (c ∷ text) front (r ∷ buf) h =
    ap (then_put (put_all text)) (sputc-filled c front r buf)
    ∙ put_all-full text (front ++ c ∷ []) buf (omega arith)

-- A text that is longer than the memory ends the program.
pub put_all-overflow :
    (text buf : Bytes) → length buf < length text → put_all text (mem_buf_ostream buf) ≡ none
put_all-overflow text buf h = put_all-full text [] buf h
