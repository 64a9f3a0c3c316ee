-- ===== src/Walk/Java.antt =====
-- The file walk of Java: `Files.fsyncDirectory` and `Files.walk_file_tree` of
-- src/main/cpp/walk-file-tree.cpp. What JNI and the visitor give is a parameter; a null pointer
-- ends the process.
use spartan_launcher.Prelude.{
  ℕ, ◌%◌, ◌^◌, Bool, Option, none, some, List, [], ◌∷◌, ◌++◌, ◌==◌, if◌then◌else◌, Bytes, codes,
}
use spartan_launcher.Jni.{first_null}
use spartan_launcher.Walk.{
  VisitResult, VisitKind, DirentType, Folder, Visit, Ended, FindFiles, normalize_depth,
  walk_file_tree,
}

-- What `fsyncDirectory` comes to: the folder's entries are on the disk, or the process ends.
pub data Synced : Type 0 where
  synced exit_failure : Synced

unfoldable pub fsync_directory : Bool → Bool → Bool → Synced
fsync_directory opendir dirfd fsync =
    if opendir
    then (if dirfd then (if fsync then synced else exit_failure) else exit_failure)
    else exit_failure

-- The errors of the reads through JNI, by the number that is thrown.
pub data JniError : Type 0 where
  no_class no_method no_object : JniError

-- A read: its error, with the class and the method that the message then names.
pub record JniRead : Type 0 where
  pub error : JniError
  pub class_name : Bytes
  pub method_name : Bytes

abbrev pub jni_read : JniError → Bytes → Bytes → JniRead
jni_read error class method = record { error = error; class_name = class; method_name = method }

abbrev pub files_class : Bytes
files_class = codes "spartan.io.Files"

abbrev pub path_class : Bytes
path_class = codes "spartan.io.Files.Path"

abbrev pub attributes_class : Bytes
attributes_class = codes "spartan.io.Files.BasicFileAttributes"

abbrev pub visitor_class : Bytes
visitor_class = codes "spartan.io.Files.WalkFileTreeVisitor"

-- The reads in their order.
unfoldable pub jni_reads : List JniRead
jni_reads =
    jni_read no_class files_class (codes "makePath")
    ∷ jni_read no_method files_class (codes "makePath")
    ∷ jni_read no_object path_class (codes "makePath")
    ∷ jni_read no_object path_class (codes "makePath")
    ∷ jni_read no_class path_class (codes "makePath")
    ∷ jni_read no_method path_class (codes "init")
    ∷ jni_read no_method files_class (codes "makeBasicFileAttributes")
    ∷ jni_read no_object attributes_class (codes "makeBasicFileAttributes")
    ∷ jni_read no_class attributes_class (codes "makeBasicFileAttributes")
    ∷ jni_read no_method attributes_class (codes "init")
    ∷ jni_read no_class visitor_class (codes "init")
    ∷ jni_read no_method visitor_class (codes "preVisitDirectory")
    ∷ jni_read no_method visitor_class (codes "visitFile")
    ∷ jni_read no_method visitor_class (codes "visitFileFailed")
    ∷ jni_read no_method visitor_class (codes "postVisitDirectory")
    ∷ []

-- The methods of the visitor that are called, and a call with its path and name.
pub data VisitorMethod : Type 0 where
  post_visit pre_visit visit_a_file : VisitorMethod

pub record JavaVisit : Type 0 where
  pub method : VisitorMethod
  pub path : Bytes
  pub name : Bytes

-- The method for a visit. The type decides first, so that a file of which `stat` failed is visited
-- as any other; a failed `stat` of a folder does not occur.
abbrev pub of_folder : VisitKind → Option VisitorMethod
of_folder VisitKind.post_visit_directory = some post_visit
of_folder VisitKind.pre_visit_directory = some pre_visit
of_folder _ = none

unfoldable pub method_of : DirentType → VisitKind → Option VisitorMethod
method_of DirentType.dt_dir kind = of_folder kind
method_of _ kind = some visit_a_file

abbrev pub call_of : Visit → Option VisitorMethod → List JavaVisit
call_of v none = []
call_of v (some method) = record { method = method; path = v.filepath; name = v.filename } ∷ []

-- The calls for some visits.
unfoldable pub calls_of : List Visit → List JavaVisit
calls_of [] = []
calls_of (v ∷ visits) = call_of v (method_of v.d_type v.kind) ++ calls_of visits

-- The cast of an answer to `VisitResult`, which is a `char`; any other number goes on as 0 does.
unfoldable pub visit_result : ℕ → VisitResult
visit_result n =
    let vr = n % 2 ^ 8 in
    if vr == 1
    then VisitResult.terminate
    else if vr == 2
    then VisitResult.skip_subtree
    else if vr == 3
    then VisitResult.skip_siblings
    else VisitResult.continue

abbrev pub by_method :
    (List JavaVisit → JavaVisit → ℕ) → List Visit → Visit → Option VisitorMethod → VisitResult
by_method visitor seen v none = VisitResult.continue
by_method visitor seen v (some method) =
    visit_result
      (visitor (calls_of seen) (record { method = method; path = v.filepath; name = v.filename }))

-- The callback, by the answers of the visitor to the calls that it has had.
unfoldable pub java_answer : (List JavaVisit → JavaVisit → ℕ) → List Visit → Visit → VisitResult
java_answer visitor seen v = by_method visitor seen v (method_of v.d_type v.kind)

-- What the walk comes to: the calls that the visitor had; or the process ends behind a null
-- pointer, or behind those calls and an exception of the walk.
pub data JavaWalk : Type 0 where
  returned : List JavaVisit → JavaWalk
  null_read : JniRead → JavaWalk
  exited : List JavaVisit → JavaWalk

abbrev pub by_end : Ended → List Visit → JavaWalk
by_end Ended.threw visits = exited (calls_of visits)
by_end _ visits = returned (calls_of visits)

abbrev pub unless_null : Option JniRead → JavaWalk → JavaWalk
unless_null none walk = walk
unless_null (some r) walk = null_read r

-- `Java_spartan_util_io_Files_walk_file_tree`; a negative depth is 0 here.
unfoldable pub java_walk_file_tree :
    (ℕ → Bool) → (List JavaVisit → JavaVisit → ℕ) → ℕ → ℕ → Bool → Bytes → Bytes → Folder → JavaWalk
java_walk_file_tree found visitor separator maxdepth follow_links start_dir basename folder =
    let ff : FindFiles = record {
      separator_char = separator % 2 ^ 8;
      maxdepth = normalize_depth maxdepth;
      follow_links = follow_links;
    } in
    let w = walk_file_tree ff (java_answer visitor) start_dir basename folder in
    unless_null (first_null found 0 jni_reads) (by_end w.ended w.visits)
