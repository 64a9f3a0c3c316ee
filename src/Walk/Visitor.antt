-- ===== src/Walk/Visitor.antt =====
-- What the visitor of Java sees of a walk.
use spartan_launcher.Prelude.{
  ℕ, ◌<◌, ◌%◌, ◌^◌, ◌≡◌, refl, ap, ◌∙◌, Bool, true, false, List, [], ◌∷◌, ◌++◌, arith, Bytes,
  length,
}
use spartan_launcher.Jni.{first_null, first_null-at, first_null-none}
use spartan_launcher.Walk.{Folder, Visit, Ended, FindFiles, normalize_depth, walk_file_tree}
use spartan_launcher.Walk.Order.{IsRun, walk_file_tree-IsRun}
use spartan_launcher.Walk.Java.{
  JniRead, jni_reads, JavaVisit, java_answer, by_end, unless_null, JavaWalk, java_walk_file_tree,
}

module _ (found : ℕ → Bool) (visitor : List JavaVisit → JavaVisit → ℕ) (separator maxdepth : ℕ)
    (follow_links : Bool) (start_dir basename : Bytes) (folder : Folder) where
  -- The first read through JNI that gives a null pointer ends the process, with a message that
  -- names its error, class and method; the visitor is not called.
  pub java_walk_file_tree-null :
      (front : List JniRead) (r : JniRead) (back : List JniRead)
      → jni_reads ≡ front ++ r ∷ back
      → ((i : ℕ) → i < length front → found i ≡ true)
      → found (length front) ≡ false
      → java_walk_file_tree found visitor separator maxdepth follow_links start_dir basename folder
        ≡ JavaWalk.null_read r
  unfolding java_walk_file_tree
  java_walk_file_tree-null front r back reads before at =
      let null =
        ap (first_null found 0) reads
        ∙ first_null-at found 0 front r back (λ i h. ap found (omega arith) ∙ before i h)
            (ap found (omega arith) ∙ at) in
      rw null refl

  -- Where every read succeeds, the visitor is called for the visits of a run by its answers, each
  -- of which the low byte decides; an exception of the walk ends the process behind its calls.
  pub java_walk_file_tree-IsRun :
      ((i : ℕ) → i < length jni_reads → found i ≡ true)
      → (visits : List Visit) × (e : Ended) × IsRun (java_answer visitor) visits [] e
        × (java_walk_file_tree found visitor separator maxdepth follow_links start_dir basename
              folder
            ≡ by_end e visits)
  unfolding java_walk_file_tree
  java_walk_file_tree-IsRun all =
      let ff : FindFiles = record {
        separator_char = separator % 2 ^ 8;
        maxdepth = normalize_depth maxdepth;
        follow_links = follow_links;
      } in
      let w = walk_file_tree ff (java_answer visitor) start_dir basename folder in
      (
        w.visits,
        w.ended,
        walk_file_tree-IsRun ff (java_answer visitor) start_dir basename folder,
        ap (λ x. unless_null x (by_end w.ended w.visits))
            (first_null-none found 0 jni_reads (λ i h. ap found (omega arith) ∙ all i h)),
      )
