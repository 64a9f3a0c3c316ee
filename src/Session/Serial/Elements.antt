-- ===== src/Session/Serial/Elements.antt =====
-- Round trips of the parts of a session's text form: descriptors and vectors.
use spartan_launcher.Prelude.{
  ℕ, ◌-◌, ◌^◌, ◌<◌, ◌≡◌, refl, Option, none, some, List, [], ◌∷◌, length, Bytes, ℤ, All, Lacks,
  arith,
}
use spartan_launcher.Session.{WhichMethod, MethodDescriptor, MethodDescriptorCmd}
use spartan_launcher.Stream.{Read, reading}
use spartan_launcher.Stream.Laws.{
  getline-append, skip_newline_lem, read_int-format_ℤ, read_bool-bit, read_size-format_ℕ, InRange,
}
use spartan_launcher.Session.Serial.{
  TypeNames, to_short, of_short, put_elements, put_vector, put_method, put_command, read_elements,
  read_some, read_vector, read_method, read_command, read_command_element,
}

-- The descriptor's number is a `short` that stands for it.
abbrev pub IsShort : WhichMethod → Type 0
IsShort w = InRange (2 ^ 15) (2 ^ 15 - 1) (to_short w) × (of_short (to_short w) ≡ w)

-- A descriptor whose texts hold no newline.
pub record IsPlainMethod (m : MethodDescriptor) : Type 0 where
  pub which : IsShort m.which_method
  pub name : Lacks b'\n' m.full_method_name
  pub descriptor : Lacks b'\n' m.descriptor

pub record IsPlainCommand (c : MethodDescriptorCmd) : Type 0 where
  pub base : IsPlainMethod c.base
  pub command : Lacks b'\n' c.command
  pub jvm_options : Lacks b'\n' c.jvm_options_command_line

-- The compiler's names hold no newline.
pub record ArePlainNames (t : TypeNames) : Type 0 where
  pub method_descriptor : Lacks b'\n' t.method_descriptor
  pub method_descriptor_cmd : Lacks b'\n' t.method_descriptor_cmd
  pub session_state : Lacks b'\n' t.session_state
  pub vector_of_commands : Lacks b'\n' t.vector_of_commands
  pub vector_of_strings : Lacks b'\n' t.vector_of_strings

-- What the target pointer holds after a vector was read: a null or empty vector leaves it alone.
abbrev pub taken : {T : Type 0} → Option (List T) → Option (List T) → Option (List T)
taken self none = self
taken self (some []) = self
taken self (some (x ∷ xs)) = some (x ∷ xs)

abbrev pub AllOf : {T : Type 0} → (T → Type 0) → Option (List T) → Type 0
AllOf P none = Unit
AllOf P (some v) = All P v

-- The elements can be counted by the `unsigned int` of the loop that reads them.
abbrev pub Countable : {T : Type 0} → Option (List T) → Type 0
Countable none = Unit
Countable (some v) = length v < 2 ^ 32

-- The elements of a vector are read back one by one, if a reader undoes its writer.
module _ {T : Type 0} (put : T → Bytes → Bytes) (delim : ℕ) (read : T → Read T) (moved : T → T)
    (P : T → Type 0)
    (back : (old x : T) (k : Bytes)
      → P x
      → read old (reading (put x (delim ∷ k))) ≡ (x, reading k)) where
  read_elements-put_elements :
      (old : T) (v : List T) (k : Bytes)
      → All P v
      → read_elements read moved (length v) old (reading (put_elements put delim v k))
        ≡ (v, reading k)
  unfolding read_elements put_elements
  read_elements-put_elements old [] k h = refl
  read_elements-put_elements old (x ∷ xs) k (hx, hxs) =
      rw (back old x _ hx, read_elements-put_elements (moved x) xs k hxs)

  pub read_vector-put_vector :
      (name : Bytes) (t : T) (self v : Option (List T)) (k : Bytes)
      → Lacks b'\n' name
      → AllOf P v
      → Countable v
      → read_vector read moved t self (reading (put_vector name put delim v k))
        ≡ (taken self v, reading k)
  unfolding read_vector read_some put_vector
  read_vector-put_vector name t self none k h a c = rw (
    getline-append b'\n' [] _ _ h,
    read_size-format_ℕ 0 0 _ (omega arith),
    skip_newline_lem (b'\n' ∷ k),
    skip_newline_lem k,
  )
  read_vector-put_vector name t self (some []) k h a c =
      unfold put_elements in
      rw (
        getline-append b'\n' [] _ _ h,
        read_size-format_ℕ 0 0 _ (omega arith),
        skip_newline_lem (b'\n' ∷ k),
        skip_newline_lem k,
      )
  read_vector-put_vector name t self (some (x ∷ xs)) k h a c = rw (
    getline-append b'\n' [] _ _ h,
    read_size-format_ℕ 0 (length (x ∷ xs)) _ (omega (arith, c)),
    skip_newline_lem _,
    read_elements-put_elements t (x ∷ xs) _ a,
    skip_newline_lem _,
  )

module _ (t : TypeNames) (names : ArePlainNames t) (stale : ℤ) where
  -- A descriptor is read back, whatever the target held.
  pub read_method-put_method :
      (old m : MethodDescriptor) (k : Bytes)
      → IsPlainMethod m
      → read_method stale old (reading (put_method t m k)) ≡ (m, reading k)
  unfolding read_method put_method
  read_method-put_method old m k p = rw (
    getline-append b'\n' [] _ _ names.method_descriptor,
    read_bool-bit old.is_static_method m.is_static_method _,
    skip_newline_lem _,
    read_int-format_ℤ (2 ^ 15) (2 ^ 15 - 1) stale (to_short m.which_method) _ p.which.0,
    skip_newline_lem _,
    getline-append b'\n' old.full_method_name m.full_method_name _ p.name,
    getline-append b'\n' old.descriptor m.descriptor k p.descriptor,
    p.which.1,
  )

  pub read_command-put_command :
      (old c : MethodDescriptorCmd) (k : Bytes)
      → IsPlainCommand c
      → read_command stale old (reading (put_command t c k)) ≡ (c, reading k)
  unfolding read_command put_command
  read_command-put_command old c k p = rw (
    getline-append b'\n' [] _ _ names.method_descriptor_cmd,
    read_method-put_method old.base c.base _ p.base,
    getline-append b'\n' old.command c.command _ p.command,
    getline-append b'\n' old.jvm_options_command_line c.jvm_options_command_line k p.jvm_options,
  )

  pub read_command_element-put_command :
      (old c : MethodDescriptorCmd) (k : Bytes)
      → IsPlainCommand c
      → read_command_element stale old (reading (put_command t c (b'\n' ∷ k))) ≡ (c, reading k)
  unfolding read_command_element
  read_command_element-put_command old c k p =
      rw (read_command-put_command old c _ p, skip_newline_lem _)
