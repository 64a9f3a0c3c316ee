-- ===== src/Tests/Processes.antt =====
-- Options of the JVM, and a file tree.
use spartan_launcher.Prelude.{
  ℕ, not, ◌==◌, ◌≡◌, ◌≢◌, ◌≤◌, ◌+◌, refl, Bool, true, false, Option, none, some, List, [], ◌∷◌, map,
  arith, Bytes, codes, length, All,
}
use spartan_launcher.Jvm.{consolidate_jvm_options, prefix_of}
use spartan_launcher.Jvm.Options.{firsts, consolidate_jvm_options-firsts}
use spartan_launcher.Walk.{
  VisitResult, DirentType, StatType, Folder, Dirents, Visit, FindFiles, walk_file_tree,
}
use spartan_launcher.Walk.Bounds.{walk_file_tree-depth}
use spartan_launcher.Walk.Order.{IsRun, walk_file_tree-IsRun}
use spartan_launcher.Walk.Java.{JavaVisit}

abbrev options : List Bytes
options = codes "-Xmx9m" ∷ codes "-Xmx4m" ∷ codes "-server" ∷ []

consolidate_jvm_options_example :
    consolidate_jvm_options options ≡ some (codes "-Xmx9m") ∷ some (codes "-server") ∷ []
unfolding firsts prefix_of spartan_launcher.Prelude.same_text
consolidate_jvm_options_example = consolidate_jvm_options-firsts options

abbrev finder : FindFiles
finder = record { separator_char = b'/'; maxdepth = 2; follow_links = false }

abbrev tree : Folder
tree = Folder.opened (
    Dirents.dirent (codes "lib") DirentType.dt_dir StatType.s_ifdir
      (Folder.opened (
        Dirents.dirent (codes "a.so") DirentType.dt_reg StatType.s_ifreg Folder.cannot_open
          Dirents.no_more))
      Dirents.no_more)

abbrev always : List Visit → Visit → VisitResult
always seen v = VisitResult.continue

walk_file_tree-depth_example :
    All
      (λ (v : Visit). v.depth ≤ 2)
      (walk_file_tree finder always (codes "/opt") (codes "opt") tree).visits
walk_file_tree-depth_example =
    walk_file_tree-depth finder always (codes "/opt") (codes "opt") tree (omega arith)

-- The second visit, of the folder, is answered by terminate.
abbrev stops : List Visit → Visit → VisitResult
stops [] v = VisitResult.continue
stops (_ ∷ _) v = VisitResult.terminate

walk_file_tree-IsRun_example :
    IsRun stops
      (walk_file_tree finder stops (codes "/opt") (codes "opt") tree).visits
      []
      (walk_file_tree finder stops (codes "/opt") (codes "opt") tree).ended
walk_file_tree-IsRun_example = walk_file_tree-IsRun finder stops (codes "/opt") (codes "opt") tree

abbrev found : ℕ → Bool
found n = not (n == 1)

abbrev visitor : List JavaVisit → JavaVisit → ℕ
visitor seen v = 0
