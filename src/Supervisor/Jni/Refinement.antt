-- ===== src/Supervisor/Jni/Refinement.antt =====
-- The reads through JNI only add failures to the call of a method.
use spartan_launcher.Prelude.{
  ℕ, ◌+◌, ◌-◌, ◌<◌, ◌≡◌, refl, sym, ap, ◌∙◌, Bool, true, false, ◌||◌, Option, none, some, List, [],
  ◌∷◌, Bytes, length, arith, ltb, Bool-cases, Option-cases, inl, inr, subst,
}
use spartan_launcher.Text.{split_last_slash}
use spartan_launcher.Session.{MethodDescriptor}
use spartan_launcher.Pipes.{End}
use spartan_launcher.Jni.{first_null, first_null-none, first_null-found}
use spartan_launcher.Supervisor.Invoke.{Streams, JavaCall, call_by, call_on, invoke_java_method}
use spartan_launcher.Supervisor.Jni.{
  JavaRead, entry_reads, stream_reads, unless_thrown, with_streams, invoke_named, invoke_jni,
}

-- A call is another, or a failure.
abbrev pub IsOrFails : JavaCall → JavaCall → Type 0
IsOrFails (JavaCall.failed thrown) call = Unit
IsOrFails (JavaCall.called c m args ends) call = JavaCall.called c m args ends ≡ call

self-IsOrFails : (call : JavaCall) → IsOrFails call call
self-IsOrFails (JavaCall.failed thrown) = tt
self-IsOrFails (JavaCall.called c m args ends) = refl

unless_thrown-IsOrFails :
    (r : Option JavaRead) (given call : JavaCall)
    → IsOrFails given call
    → IsOrFails (unless_thrown r given) call
unless_thrown-IsOrFails none given call h = h
unless_thrown-IsOrFails (some r) given call h = tt

with_streams-IsOrFails :
    (found : ℕ → Bool) (n : ℕ) (class name : Bytes) (call : JavaCall)
    → IsOrFails (with_streams found n class name call) call
with_streams-IsOrFails found n class name (JavaCall.failed thrown) = tt
with_streams-IsOrFails found n class name (JavaCall.called c m args ends) =
    unless_thrown-IsOrFails (first_null found n (stream_reads ends class name))
      (JavaCall.called c m args ends) (JavaCall.called c m args ends) refl

-- Every read succeeds.
abbrev pub FindsAll : (ℕ → Bool) → Type 0
FindsAll found = (n : ℕ) → found n ≡ true

with_streams-all :
    (found : ℕ → Bool) (n : ℕ) (class name : Bytes) (call : JavaCall)
    → FindsAll found
    → with_streams found n class name call ≡ call
with_streams-all found n class name (JavaCall.failed thrown) all = refl
with_streams-all found n class name (JavaCall.called c m args ends) all =
    ap (λ r. unless_thrown r (JavaCall.called c m args ends))
      (first_null-none found n (stream_reads ends class name) (λ i h. all (n + i)))

-- How many reads stand before a call with one stream, by whether it has an array of arguments and
-- whether its object is made already, or none is needed; and how many more before one with three.
abbrev pub entry_count : Bool → Bool → ℕ
entry_count true true = 18
entry_count true false = 21
entry_count false true = 17
entry_count false false = 20

abbrev pub stream_count : List End → ℕ
stream_count (_ ∷ _ ∷ _) = 13
stream_count _ = 0

-- The first reads succeeded.
abbrev pub Found : (ℕ → Bool) → ℕ → Type 0
Found found n = (i : ℕ) → i < n → found i ≡ true

-- A call that was made has all of its reads behind it.
abbrev pub MadeBehind : (ℕ → Bool) → ℕ → JavaCall → Type 0
MadeBehind found n (JavaCall.failed thrown) = Unit
MadeBehind found n (JavaCall.called c m args ends) = Found found (n + stream_count ends)

length-entry_reads :
    (has_args made : Bool) (class name : Bytes)
    → length (entry_reads has_args made class name) ≡ entry_count has_args made
unfolding entry_reads
length-entry_reads true true class name = refl
length-entry_reads true false class name = refl
length-entry_reads false true class name = refl
length-entry_reads false false class name = refl

length-stream_reads :
    (ends : List End) (class name : Bytes)
    → length (stream_reads ends class name) ≡ stream_count ends
unfolding stream_reads
length-stream_reads [] class name = refl
length-stream_reads (_ ∷ []) class name = refl
length-stream_reads (_ ∷ _ ∷ _) class name = refl

Found-more :
    (found : ℕ → Bool) (n : ℕ) (reads : List JavaRead)
    → Found found n
    → first_null found n reads ≡ none
    → Found found (n + length reads)
Found-more found n reads h e i k = elim (Bool-cases (ltb i n)) [
  | inl before ↦ h i (ground (arith, before))
  | inr behind ↦
      let at : n + (i - n) ≡ i = ground (arith, behind) in
      ap found (sym at) ∙ first_null-found found n reads e (i - n) (omega (arith, at, k))
]

with_streams-MadeBehind :
    (found : ℕ → Bool) (n : ℕ) (class name : Bytes) (call : JavaCall)
    → Found found n
    → MadeBehind found n (with_streams found n class name call)
with_streams-MadeBehind found n class name (JavaCall.failed thrown) h = tt
with_streams-MadeBehind found n class name (JavaCall.called c m args ends) h =
    let reads = stream_reads ends class name in
    elim (Option-cases (first_null found n reads)) [
      | inl e ↦ rw e (
          subst (λ k. Found found (n + k)) (length-stream_reads ends class name)
            (Found-more found n reads h e))
      | inr (r, e) ↦ rw e tt
    ]

module _ (found : ℕ → Bool) (has_args made : Bool) (m : MethodDescriptor) (args : List Bytes)
    (streams : Streams) where
  named-IsOrFails :
      (split : Option (Bytes × Bytes))
      → IsOrFails
          (invoke_named found has_args made m args streams split)
          (call_on m args streams split)
  named-IsOrFails none = tt
  named-IsOrFails (some (class, name)) =
      let reads = entry_reads has_args (made || m.is_static_method) class name in
      let call = call_by m.is_static_method m.which_method class name m.descriptor args streams in
      unless_thrown-IsOrFails (first_null found 0 reads)
        (with_streams found (length reads) class name call) call
        (with_streams-IsOrFails found (length reads) class name call)

  named-all :
      FindsAll found
      → (split : Option (Bytes × Bytes))
      → invoke_named found has_args made m args streams split ≡ call_on m args streams split
  named-all all none = refl
  named-all all (some (class, name)) =
      let reads = entry_reads has_args (made || m.is_static_method) class name in
      let call = call_by m.is_static_method m.which_method class name m.descriptor args streams in
      ap (λ r. unless_thrown r (with_streams found (length reads) class name call))
        (first_null-none found 0 reads (λ i h. all (0 + i)))
      ∙ with_streams-all found (length reads) class name call all

  named-MadeBehind :
      (split : Option (Bytes × Bytes))
      → MadeBehind found
          (entry_count has_args (made || m.is_static_method))
          (invoke_named found has_args made m args streams split)
  named-MadeBehind none = tt
  named-MadeBehind (some (class, name)) =
      let has_object = made || m.is_static_method in
      let reads = entry_reads has_args has_object class name in
      let call = call_by m.is_static_method m.which_method class name m.descriptor args streams in
      elim (Option-cases (first_null found 0 reads)) [
        | inr (r, e) ↦ rw e tt
        | inl e ↦ rw e (
            subst (λ n. MadeBehind found n (with_streams found (length reads) class name call))
              (length-entry_reads has_args has_object class name)
              (with_streams-MadeBehind found (length reads) class name call
                (λ i h. ap found (omega arith) ∙ first_null-found found 0 reads e i h)))
      ]

  -- Whatever a read through JNI gives, `invoke_java_method` fails or makes the call that it would
  -- make if every read succeeded, with the same method, arguments and streams; and it makes that
  -- call, or fails with that error, where every read does succeed. A call is made only behind all
  -- of its reads: 17 for one stream, one more for an array of arguments, three more for an object
  -- that has to be made, and 13 more for two further streams, none of which gave a null pointer.
  pub invoke_jni-refines :
      IsOrFails (invoke_jni found has_args made m args streams) (invoke_java_method m args streams)
      × (FindsAll found
          → invoke_jni found has_args made m args streams ≡ invoke_java_method m args streams)
      × MadeBehind found
          (entry_count has_args (made || m.is_static_method))
          (invoke_jni found has_args made m args streams)
  unfolding invoke_jni invoke_java_method
  invoke_jni-refines = (
    named-IsOrFails (split_last_slash m.full_method_name),
    (λ all. named-all all (split_last_slash m.full_method_name)),
    named-MadeBehind (split_last_slash m.full_method_name),
  )
