-- ===== src/Capture/Restored.antt =====
-- Behind a capture stdout and stderr lead to where they did.
use spartan_launcher.Prelude.{
  ◌≡◌, ◌≢◌, refl, sym, ap, ◌∙◌, true, false, ◌&&◌, Option, none, some, List, [], ◌∷◌, ◌++◌,
  append_assoc, append-nil, ◌==◌, arith, if◌then◌else◌, Bytes, All, Bool-cases, inl, inr,
}
use spartan_launcher.Capture.{
  Target, Capture, PipeRead, Calls, new_capture, start_capture, c_str, get_capture, stop_capture,
  destroyed, after_get, capture_stdout_stderr,
}

-- Every `dup2` that gives a descriptor back succeeds.
pub record GivesBack (calls : Calls) : Type 0 where
  pub stop_stdout : calls.stop_stdout ≡ true
  pub stop_stderr : calls.stop_stderr ≡ true
  pub end_stdout : calls.end_stdout ≡ true
  pub end_stderr : calls.end_stderr ≡ true

capturing : Capture
capturing = record { stdout = Target.pipe; stderr = Target.pipe; is_capturing = true }

after_get-back :
    (calls : Calls)
    → GivesBack calls
    → (text : Option Bytes) → after_get calls capturing text ≡ (text, new_capture)
unfolding stop_capture destroyed capturing
after_get-back calls g none = rw (g.end_stdout, g.end_stderr) refl
after_get-back calls g (some text) = rw (g.stop_stdout, g.stop_stderr) refl

-- Where the calls that give the descriptors back succeed, and stderr can be led into the pipe
-- once stdout is, both lead to where they did behind the capture, whatever else fails or throws;
-- and the text is what the reads give, where the start succeeds and the action returns.
pub capture_stdout_stderr-back :
    (calls : Calls)
    → GivesBack calls
    → calls.start_stderr ≡ true
    → capture_stdout_stderr calls ≡ (
      if (calls.made && calls.start_stdout) && calls.action_returns
          then get_capture [] calls.reads
          else none,
      new_capture,
    )
unfolding capture_stdout_stderr start_capture destroyed stop_capture
capture_stdout_stderr-back calls g s = elim (Bool-cases calls.made) [
  | inr m ↦ rw m refl
  | inl m ↦ elim (Bool-cases calls.start_stdout) [
    | inr o ↦ rw (m, o) refl
    | inl o ↦ elim (Bool-cases calls.action_returns) [
      | inl a ↦
          rw (m, o, s, a) (unfold capturing in after_get-back calls g (get_capture [] calls.reads))
      | inr a ↦ rw (m, o, s, a, g.end_stdout, g.end_stderr) refl
    ]
  ]
]

-- Where stderr cannot be led into the pipe, stdout stays led there, and nothing gives it back.
pub capture_stdout_stderr-lost :
    (calls : Calls)
    → calls.made ≡ true
    → calls.start_stdout ≡ true
    → calls.start_stderr ≡ false
    → capture_stdout_stderr calls ≡ (none, record new_capture { stdout = Target.pipe })
unfolding capture_stdout_stderr start_capture destroyed
capture_stdout_stderr-lost calls m o e = rw (m, o, e) refl

abbrev pub joined_bytes : List Bytes → Bytes
joined_bytes [] = []
joined_bytes (buf ∷ bufs) = buf ++ joined_bytes bufs

-- Bytes that a buffer gives whole.
abbrev pub IsText : Bytes → Type 0
IsText buf = (buf ≢ []) × All (λ b. b ≢ 0) buf

abbrev pub as_reads : List Bytes → List PipeRead → List PipeRead
as_reads [] more = more
as_reads (buf ∷ bufs) more = PipeRead.some_bytes buf ∷ as_reads bufs more

c_str-text : (buf : Bytes) → All (λ b. b ≢ 0) buf → c_str buf ≡ buf
unfolding c_str
c_str-text [] h = refl
c_str-text (b ∷ buf) h = elim (Bool-cases (b == 0)) [
  | inl e ↦ absurd (h.0 (ground arith))
  | inr e ↦ rw e (ap (◌∷◌ b) (c_str-text buf h.1))
]

get_capture-more :
    (text : Bytes) (bufs : List Bytes)
    → All IsText bufs
    → get_capture text (as_reads bufs []) ≡ some (text ++ joined_bytes bufs)
unfolding get_capture
get_capture-more text [] h = ap some (sym (append-nil text))
get_capture-more text ([] ∷ bufs) h = absurd (h.0.0 refl)
get_capture-more text ((b ∷ buf) ∷ bufs) h =
    ap (λ x. get_capture (text ++ x) (as_reads bufs [])) (c_str-text (b ∷ buf) h.0.1)
    ∙ (get_capture-more (text ++ b ∷ buf) bufs h.1
        ∙ ap some (append_assoc text (b ∷ buf) (joined_bytes bufs)))

-- A capture that nothing fails gives the text of the reads, one after the other, where none holds
-- a zero; both descriptors lead to where they did behind it.
pub capture_stdout_stderr-text :
    (calls : Calls) (bufs : List Bytes)
    → GivesBack calls
    → calls.made ≡ true
    → calls.start_stdout ≡ true
    → calls.start_stderr ≡ true
    → calls.action_returns ≡ true
    → calls.reads ≡ as_reads bufs []
    → All IsText bufs
    → capture_stdout_stderr calls ≡ (some (joined_bytes bufs), new_capture)
capture_stdout_stderr-text calls bufs g m o s a reads text =
    capture_stdout_stderr-back calls g s
    ∙ rw (m, o, a)
        (ap (λ t. (t, new_capture)) (ap (get_capture []) reads ∙ get_capture-more [] bufs text))
