-- ===== src/Supervisor/Jni.antt =====
-- What `invoke_java_method` of src/main/cpp/spartan.cpp reads through JNI before it calls a method
-- that has streams. A null pointer throws the number of its error, behind which nothing is called.
pub mod Refinement
use spartan_launcher.Prelude.{
  ℕ, ◌+◌, ◌-◌, ◌^◌, Bool, true, false, ◌||◌, Option, none, some, List, [], ◌∷◌, ◌++◌, ◌==◌,
  if◌then◌else◌, Bytes, codes, length,
}
use spartan_launcher.Text.{split_last_slash}
use spartan_launcher.Session.{MethodDescriptor}
use spartan_launcher.Pipes.{End}
use spartan_launcher.Jni.{first_null}
use spartan_launcher.Supervisor.Invoke.{Streams, JavaCall, call_by}

-- A read, by the number that is thrown, and the class and method that the message may name then.
pub record JavaRead : Type 0 where
  pub thrown : ℕ
  pub of_class : Bytes
  pub of_method : Bytes

abbrev pub java_read : ℕ → Bytes → Bytes → JavaRead
java_read thrown class name = record { thrown = thrown; of_class = class; of_method = name }

-- The number -1, of a field that is not found.
abbrev pub minus_one : ℕ
minus_one = 2 ^ 32 - 1

abbrev pub ctor_name : Bytes
ctor_name = codes "<init>"

abbrev pub class_loader : Bytes
class_loader = codes "java/lang/ClassLoader"

abbrev pub thread_class : Bytes
thread_class = codes "java/lang/Thread"

abbrev pub fdesc_cls_name : Bytes
fdesc_cls_name = codes "java/io/FileDescriptor"

abbrev pub prtstrm_cls_name : Bytes
prtstrm_cls_name = codes "java/io/PrintStream"

abbrev pub file_output_strm_cls_name : Bytes
file_output_strm_cls_name = codes "java/io/FileOutputStream"

abbrev pub file_input_strm_cls_name : Bytes
file_input_strm_cls_name = codes "java/io/FileInputStream"

-- The array of arguments, if there are some.
abbrev pub args_reads : Bool → Bytes → Bytes → List JavaRead
args_reads true class name = java_read 2 class name ∷ []
args_reads false class name = []

-- The object of a method that is not static, unless it was made by an earlier call: its
-- constructor, itself, and the global reference to it.
abbrev pub object_reads : Bool → Bytes → Bytes → List JavaRead
object_reads true class name = []
object_reads false class name =
    java_read 4 class ctor_name ∷ java_read 5 class name ∷ java_read 5 class name ∷ []

-- The class loader of the thread.
abbrev pub loader_reads : Bytes → List JavaRead
loader_reads name =
    java_read 3 class_loader name
    ∷ java_read 4 class_loader (codes "getSystemClassLoader")
    ∷ java_read 3 thread_class (codes "getSystemClassLoader")
    ∷ java_read 4 thread_class (codes "currentThread")
    ∷ java_read 4 thread_class (codes "setContextClassLoader")
    ∷ []

-- A file descriptor's object.
abbrev pub fdesc_reads : Bytes → Bytes → List JavaRead
fdesc_reads class name = java_read 5 fdesc_cls_name name ∷ java_read minus_one class name ∷ []

-- `make_printstream`
abbrev pub printstream_reads : Bytes → List JavaRead
printstream_reads name =
    java_read 3 prtstrm_cls_name name
    ∷ java_read 4 prtstrm_cls_name ctor_name
    ∷ java_read 3 file_output_strm_cls_name name
    ∷ java_read 4 file_output_strm_cls_name ctor_name
    ∷ java_read 5 file_output_strm_cls_name name
    ∷ java_read 5 prtstrm_cls_name name
    ∷ []

-- `make_inputstream`
abbrev pub inputstream_reads : Bytes → List JavaRead
inputstream_reads name =
    java_read 3 file_input_strm_cls_name name
    ∷ java_read 4 file_input_strm_cls_name ctor_name
    ∷ java_read 5 file_input_strm_cls_name name
    ∷ []

-- The reads up to the stream of the response. `made` tells that there is an object, or that none
-- is needed.
unfoldable pub entry_reads : Bool → Bool → Bytes → Bytes → List JavaRead
entry_reads has_args made class name =
    args_reads has_args class name
    ++ (java_read 3 class name
        ∷ java_read 4 class name
        ∷ (object_reads made class name
            ++ (loader_reads name
                ++ (java_read 3 fdesc_cls_name name
                    ∷ java_read 4 fdesc_cls_name ctor_name
                    ∷ (fdesc_reads class name ++ printstream_reads name)))))

-- Those for the two further streams of a call that has them.
unfoldable pub stream_reads : List End → Bytes → Bytes → List JavaRead
stream_reads (_ ∷ _ ∷ _) class name =
    fdesc_reads class name
    ++ (printstream_reads name ++ (fdesc_reads class name ++ inputstream_reads name))
stream_reads _ class name = []

abbrev pub unless_thrown : Option JavaRead → JavaCall → JavaCall
unless_thrown none call = call
unless_thrown (some r) call = JavaCall.failed r.thrown

abbrev pub with_streams : (ℕ → Bool) → ℕ → Bytes → Bytes → JavaCall → JavaCall
with_streams found n class name (JavaCall.called c m args ends) =
    unless_thrown (first_null found n (stream_reads ends class name))
      (JavaCall.called c m args ends)
with_streams found n class name (JavaCall.failed thrown) = JavaCall.failed thrown

abbrev pub invoke_named :
    (ℕ → Bool)
    → Bool
    → Bool
    → MethodDescriptor
    → List Bytes
    → Streams
    → Option (Bytes × Bytes)
    → JavaCall
invoke_named found has_args made m args streams none = JavaCall.failed 1
invoke_named found has_args made m args streams (some (class, name)) =
    let reads = entry_reads has_args (made || m.is_static_method) class name in
    unless_thrown (first_null found 0 reads) (
      with_streams found (length reads) class name
        (call_by m.is_static_method m.which_method class name m.descriptor args streams))

-- `invoke_java_method` with its reads; `found` tells of each in turn whether it is not null, and
-- `made` whether an earlier call made the object.
unfoldable pub invoke_jni :
    (ℕ → Bool) → Bool → Bool → MethodDescriptor → List Bytes → Streams → JavaCall
invoke_jni found has_args made m args streams =
    invoke_named found has_args made m args streams (split_last_slash m.full_method_name)

-- Whether a failure makes the launcher quit: it does in the process that the program started as.
unfoldable pub quits_launcher : ℕ → ℕ → JavaCall → Bool
quits_launcher own_pid parent_pid (JavaCall.called c m args ends) = false
quits_launcher own_pid parent_pid (JavaCall.failed thrown) = own_pid == parent_pid
