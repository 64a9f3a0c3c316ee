-- ===== src/Walk/Bounds.antt =====
-- How deep a walk goes, whatever the callback answers.
use spartan_launcher.Prelude.{
  ℕ, ◌+◌, ◌≤◌, ◌<◌, ◌≡◌, ◌≢◌, refl, ◌||◌, Option, none, some, List, [], ◌∷◌, ◌++◌, arith, ◌==◌, ltb,
  ltb→lt, Bytes, All, All-append, Bool-cases, inl, inr,
}
use spartan_launcher.Walk.{
  VisitResult, VisitKind, DirentType, StatType, Folder, Dirents, Visit, Ended, FindFiles,
  is_one_of_dots, entry_path, Action, action_of, Walked, after_file, visit, leave, enter, visit_dir,
  entry_step, goes_on, walk_folder, walk_entries, walk_entry, walk_file_tree, unless_thrown,
  first_visit,
}

module _ (ff : FindFiles) (answer : List Visit → Visit → VisitResult) where
  IsShallow : List Visit → Type 0
  IsShallow = All (λ v. v.depth ≤ ff.maxdepth)

  after_file-visits :
      (depth : ℕ) (r : VisitResult) (w : Walked)
      → (after_file ff answer depth r w).visits ≡ w.visits
  after_file-visits depth VisitResult.continue w = refl
  after_file-visits depth VisitResult.terminate w = refl
  after_file-visits depth VisitResult.skip_subtree w = refl
  after_file-visits depth VisitResult.skip_siblings w = refl
  after_file-visits depth VisitResult.throws w = refl

  visit-IsShallow :
      (v : Visit) (w : Walked)
      → v.depth ≤ ff.maxdepth
      → IsShallow w.visits
      → IsShallow (visit ff answer v w).visits
  unfolding visit IsShallow
  visit-IsShallow v w d h =
      rw (after_file-visits v.depth (answer w.visits v) (record w { visits = w.visits ++ v ∷ [] }))
        (All-append _ w.visits (v ∷ []) h (d, tt))

  leave-IsShallow :
      (v : Visit) (n : ℕ) (w : Walked)
      → v.depth ≤ ff.maxdepth
      → IsShallow w.visits
      → IsShallow (leave ff answer v n w).visits
  unfolding leave IsShallow
  leave-IsShallow v n w d h =
      elim w.ended as (λ e. IsShallow (leave ff answer v n (record w { ended = e })).visits) [
        | Ended.threw ↦ h
        | Ended.finished ↦ All-append _ w.visits (v ∷ []) h (d, tt)
        | Ended.stopped ↦ All-append _ w.visits (v ∷ []) h (d, tt)
      ]

  enter-IsShallow :
      (r : VisitResult) (pre : Visit) (visits : List Visit) (walk : Bytes → List Visit → Walked)
      (w : Walked)
      → pre.depth ≤ ff.maxdepth
      → ((p : Bytes) (vs : List Visit) → IsShallow vs → IsShallow (walk p vs).visits)
      → IsShallow visits
      → IsShallow (enter ff answer r pre visits walk w).visits
  unfolding enter
  enter-IsShallow VisitResult.terminate pre visits walk w d sub h = h
  enter-IsShallow VisitResult.skip_subtree pre visits walk w d sub h = h
  enter-IsShallow VisitResult.skip_siblings pre visits walk w d sub h = h
  enter-IsShallow VisitResult.throws pre visits walk w d sub h = h
  enter-IsShallow VisitResult.continue pre visits walk w d sub h =
      leave-IsShallow (record pre { kind = VisitKind.post_visit_directory }) w.skip_sibs
        (walk pre.filepath visits) d (sub pre.filepath visits h)

  visit_dir-IsShallow :
      (depth : ℕ) (path name : Bytes) (walk : Bytes → List Visit → Walked) (w : Walked)
      → depth ≤ ff.maxdepth
      → ((p : Bytes) (vs : List Visit) → IsShallow vs → IsShallow (walk p vs).visits)
      → IsShallow w.visits
      → IsShallow (visit_dir ff answer depth path name walk w).visits
  unfolding visit_dir IsShallow
  visit_dir-IsShallow depth path name walk w d sub h =
      let pre : Visit = record {
        filepath = path;
        filename = name;
        depth = depth;
        d_type = DirentType.dt_dir;
        kind = VisitKind.pre_visit_directory;
      } in
      enter-IsShallow (answer w.visits pre) pre (w.visits ++ pre ∷ []) walk w d sub
        (All-append (λ v. v.depth ≤ ff.maxdepth) w.visits (pre ∷ []) h (d, tt))

  walk_entry-IsShallow :
      (depth : ℕ) (name : Bytes) (t : DirentType) (a : Action) (walk : Bytes → List Visit → Walked)
      (w : Walked) (path : Option Bytes)
      → depth ≤ ff.maxdepth
      → (depth < ff.maxdepth
          → (p : Bytes) (vs : List Visit) → IsShallow vs
          → IsShallow (walk p vs).visits)
      → IsShallow w.visits
      → IsShallow (walk_entry ff answer depth name t a walk w path).visits
  unfolding walk_entry
  walk_entry-IsShallow depth name t a walk w none d sub h = h
  walk_entry-IsShallow depth name t Action.nothing walk w (some path) d sub h = h
  walk_entry-IsShallow depth name t Action.failed_stat walk w (some path) d sub h =
      visit-IsShallow _ w d h
  walk_entry-IsShallow depth name t (Action.file d_type) walk w (some path) d sub h =
      visit-IsShallow _ w d h
  walk_entry-IsShallow depth name t Action.directory walk w (some path) d sub h =
      elim (Bool-cases (ltb depth ff.maxdepth)) [
        | inl e ↦
            rw e (visit_dir-IsShallow depth path name walk w d (sub (ltb→lt depth ff.maxdepth e)) h)
        | inr e ↦ rw e h
      ]

  entry_step-IsShallow :
      (depth : ℕ) (dir name : Bytes) (t : DirentType) (st : StatType)
      (walk : Bytes → List Visit → Walked) (w : Walked)
      → depth ≤ ff.maxdepth
      → (depth < ff.maxdepth
          → (p : Bytes) (vs : List Visit) → IsShallow vs
          → IsShallow (walk p vs).visits)
      → IsShallow w.visits
      → IsShallow (entry_step ff answer depth dir name t st walk w).visits
  unfolding entry_step
  entry_step-IsShallow depth dir name t st walk w d sub h =
      elim (Bool-cases (depth == w.skip_sibs || is_one_of_dots name)) [
        | inl e ↦ rw e h
        | inr e ↦ rw e (
            walk_entry-IsShallow depth name t (action_of ff.follow_links t st) walk w
              (entry_path ff dir name) d sub h)
      ]

  mutual
    unfolding walk_folder

    walk_folder-IsShallow :
        (depth : ℕ) (dir : Bytes) (folder : Folder) (visits : List Visit)
        → depth ≤ ff.maxdepth
        → IsShallow visits
        → IsShallow (walk_folder ff answer depth dir folder visits).visits
    walk_folder-IsShallow depth dir Folder.cannot_open visits d h = h
    walk_folder-IsShallow depth dir (Folder.opened es) visits d h =
        walk_entries-IsShallow depth dir es
          (record { visits = visits; skip_sibs = 0; ended = Ended.finished }) d h

    walk_entries-IsShallow :
        (depth : ℕ) (dir : Bytes) (es : Dirents) (w : Walked)
        → depth ≤ ff.maxdepth
        → IsShallow w.visits
        → IsShallow (walk_entries ff answer depth dir es w).visits
    walk_entries-IsShallow depth dir Dirents.no_more w d h = h
    walk_entries-IsShallow depth dir (Dirents.dirent name t st folder es) w d h =
        let step =
          entry_step-IsShallow depth dir name t st
            (λ path visits. walk_folder ff answer (depth + 1) path folder visits) w d
            (λ deeper path vs sub.
              walk_folder-IsShallow (depth + 1) path folder vs (omega arith) sub)
            h in
        elim (Bool-cases (goes_on ff answer w.ended)) [
          | inl e ↦ rw e (walk_entries-IsShallow depth dir es _ d step)
          | inr e ↦ rw e h
        ]

  unless_thrown_other :
      (r : VisitResult) (thrown w : Walked)
      → r ≢ VisitResult.throws
      → unless_thrown ff answer r thrown w ≡ w
  unless_thrown_other VisitResult.continue thrown w h = refl
  unless_thrown_other VisitResult.terminate thrown w h = refl
  unless_thrown_other VisitResult.skip_subtree thrown w h = refl
  unless_thrown_other VisitResult.skip_siblings thrown w h = refl
  unless_thrown_other VisitResult.throws thrown w h = absurd (h refl)

  unless_thrown-IsShallow :
      (r : VisitResult) (thrown w : Walked)
      → IsShallow thrown.visits
      → IsShallow w.visits
      → IsShallow (unless_thrown ff answer r thrown w).visits
  unless_thrown-IsShallow VisitResult.continue thrown w ht hw = hw
  unless_thrown-IsShallow VisitResult.terminate thrown w ht hw = hw
  unless_thrown-IsShallow VisitResult.skip_subtree thrown w ht hw = hw
  unless_thrown-IsShallow VisitResult.skip_siblings thrown w ht hw = hw
  unless_thrown-IsShallow VisitResult.throws thrown w ht hw = ht

  -- Whatever the tree holds and the callback answers, no visit is deeper than the bound, if that is
  -- positive.
  pub walk_file_tree-depth :
      (start_dir basename : Bytes) (folder : Folder)
      → 0 < ff.maxdepth
      → All (λ v. v.depth ≤ ff.maxdepth) (walk_file_tree ff answer start_dir basename folder).visits
  unfolding walk_file_tree IsShallow
  walk_file_tree-depth start_dir basename folder h =
      let v = first_visit start_dir basename in
      let first : IsShallow (v ∷ []) = (omega arith, tt) in
      unless_thrown-IsShallow (answer [] v)
        (record { visits = v ∷ []; skip_sibs = 0; ended = Ended.threw })
        (walk_folder ff answer 1 start_dir folder (v ∷ [])) first
        (walk_folder-IsShallow 1 start_dir folder (v ∷ []) (omega arith) first)

  -- An answer to the first visit that is no exception changes nothing: the folder is walked, also
  -- behind an answer to terminate or to skip it.
  pub walk_file_tree_first :
      (start_dir basename : Bytes) (folder : Folder)
      → (answer [] (first_visit start_dir basename) ≢ VisitResult.throws)
      → walk_file_tree ff answer start_dir basename folder
        ≡ walk_folder ff answer 1 start_dir folder (first_visit start_dir basename ∷ [])
  unfolding walk_file_tree
  walk_file_tree_first start_dir basename folder h =
      unless_thrown_other (answer [] (first_visit start_dir basename)) _ _ h
