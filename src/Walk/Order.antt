-- ===== src/Walk/Order.antt =====
-- The order of the visits of a walk, and what follows an answer that stops it.
use spartan_launcher.Prelude.{
  ℕ, ◌+◌, ◌≡◌, ◌≢◌, ◌⊎◌, refl, sym, subst, ◌∙◌, true, ◌||◌, Option, none, some, List, [], ◌∷◌, ◌++◌,
  ◌==◌, ltb, Bytes, Bool-cases, inl, inr,
}
use spartan_launcher.Walk.{
  VisitResult, VisitKind, DirentType, StatType, Folder, Dirents, Visit, Ended, FindFiles,
  is_one_of_dots, entry_path, Action, action_of, Walked, after_file, visit, after_folder, leave,
  enter, visit_dir, entry_step, goes_on, walk_folder, walk_entries, walk_entry, walk_file_tree,
  unless_thrown, first_visit,
}

abbrev pub IsOfFile : VisitKind → Type 0
IsOfFile k = (k ≡ VisitKind.visit_file) ⊎ (k ≡ VisitKind.visit_file_failed)

-- The visit that leaves a folder, by the one that entered it.
abbrev pub left_by : Visit → Visit
left_by v = record v { kind = VisitKind.post_visit_directory }

-- How an answer changes the standing of a walk.
abbrev pub stands : Ended → VisitResult → Ended
stands Ended.threw answer = Ended.threw
stands e VisitResult.terminate = Ended.stopped
stands e VisitResult.throws = Ended.threw
stands e _ = e

-- The runs of a callback, by the visits, the folders that are entered and not left, and how the
-- walk stands: while it goes on, a file is visited, or a folder is entered or passed over by the
-- answer; a folder is left as long as there was no exception; and an exception, of an answer or of
-- the file system, leaves the folders without a visit.
pub data IsRun (answer : List Visit → Visit → VisitResult)
    : List Visit → List Visit → Ended → Type 0 where
  first : (v : Visit) → IsRun answer (v ∷ []) [] Ended.finished
  file :
      (vs st : List Visit) (v : Visit)
      → IsRun answer vs st Ended.finished
      → IsOfFile v.kind
      → IsRun answer (vs ++ v ∷ []) st (stands Ended.finished (answer vs v))
  entered :
      (vs st : List Visit) (v : Visit)
      → IsRun answer vs st Ended.finished
      → v.kind ≡ VisitKind.pre_visit_directory
      → answer vs v ≡ VisitResult.continue
      → IsRun answer (vs ++ v ∷ []) (v ∷ st) Ended.finished
  passed :
      (vs st : List Visit) (v : Visit)
      → IsRun answer vs st Ended.finished
      → v.kind ≡ VisitKind.pre_visit_directory
      → answer vs v ≢ VisitResult.continue
      → IsRun answer (vs ++ v ∷ []) st (stands Ended.finished (answer vs v))
  left :
      (vs st : List Visit) (v : Visit) (e : Ended)
      → IsRun answer vs (v ∷ st) e
      → e ≢ Ended.threw
      → IsRun answer (vs ++ left_by v ∷ []) st (stands e (answer vs (left_by v)))
  failed : (vs st : List Visit) → IsRun answer vs st Ended.finished → IsRun answer vs st Ended.threw
  unwound :
      (vs st : List Visit) (v : Visit)
      → IsRun answer vs (v ∷ st) Ended.threw
      → IsRun answer vs st Ended.threw

module _ (ff : FindFiles) (answer : List Visit → Visit → VisitResult) where
  IsRunOf : List Visit → Walked → Type 0
  IsRunOf st w = IsRun answer w.visits st w.ended

  visit-IsRun :
      (v : Visit) (st : List Visit) (w : Walked)
      → IsRun answer w.visits st Ended.finished
      → w.ended ≡ Ended.finished
      → IsOfFile v.kind
      → IsRunOf st (visit ff answer v w)
  unfolding visit IsRunOf
  visit-IsRun v st w r f k = go (answer w.visits v) (IsRun.file w.visits st v r k)
    where
      go :
          (a : VisitResult)
          → IsRun answer (w.visits ++ v ∷ []) st (stands Ended.finished a)
          → IsRunOf st (after_file ff answer v.depth a (record w { visits = w.visits ++ v ∷ [] }))
      go VisitResult.continue h = subst (IsRun answer (w.visits ++ v ∷ []) st) (sym f) h
      go VisitResult.terminate h = h
      go VisitResult.skip_subtree h = subst (IsRun answer (w.visits ++ v ∷ []) st) (sym f) h
      go VisitResult.skip_siblings h = subst (IsRun answer (w.visits ++ v ∷ []) st) (sym f) h
      go VisitResult.throws h = h

  leave-IsRun :
      (v : Visit) (n : ℕ) (st : List Visit) (w : Walked)
      → IsRunOf (v ∷ st) w
      → IsRunOf st (leave ff answer (left_by v) n w)
  unfolding leave IsRunOf
  leave-IsRun v n st w r = go w.ended r
    where
      next : (e : Ended) (a : VisitResult) → stands e a ≡ after_folder ff answer e a
      next Ended.finished VisitResult.continue = refl
      next Ended.finished VisitResult.terminate = refl
      next Ended.finished VisitResult.skip_subtree = refl
      next Ended.finished VisitResult.skip_siblings = refl
      next Ended.finished VisitResult.throws = refl
      next Ended.stopped VisitResult.continue = refl
      next Ended.stopped VisitResult.terminate = refl
      next Ended.stopped VisitResult.skip_subtree = refl
      next Ended.stopped VisitResult.skip_siblings = refl
      next Ended.stopped VisitResult.throws = refl
      next Ended.threw a = refl

      go :
          (e : Ended)
          → IsRun answer w.visits (v ∷ st) e
          → IsRunOf st (leave ff answer (left_by v) n (record w { ended = e }))
      go Ended.threw h = IsRun.unwound w.visits st v h
      go Ended.finished h =
          subst (IsRun answer (w.visits ++ left_by v ∷ []) st)
            (next Ended.finished (answer w.visits (left_by v)))
            (IsRun.left w.visits st v Ended.finished h (λ e. cc))
      go Ended.stopped h =
          subst (IsRun answer (w.visits ++ left_by v ∷ []) st)
            (next Ended.stopped (answer w.visits (left_by v)))
            (IsRun.left w.visits st v Ended.stopped h (λ e. cc))

  -- The walk behind a visit is a run, wherever the run came from.
  Walks : (Bytes → List Visit → Walked) → Type 0
  Walks walk =
      (p : Bytes) (vs st : List Visit) → IsRun answer vs st Ended.finished → IsRunOf st (walk p vs)

  enter-IsRun :
      (v : Visit) (st : List Visit) (walk : Bytes → List Visit → Walked) (w : Walked)
      → v.kind ≡ VisitKind.pre_visit_directory
      → Walks walk
      → w.ended ≡ Ended.finished
      → IsRun answer w.visits st Ended.finished
      → IsRunOf st (enter ff answer (answer w.visits v) v (w.visits ++ v ∷ []) walk w)
  unfolding enter IsRunOf Walks
  enter-IsRun v st walk w k sub f r = go (answer w.visits v) refl
    where
      skipped :
          (a : VisitResult)
          → a ≡ answer w.visits v
          → a ≢ VisitResult.continue
          → IsRun answer (w.visits ++ v ∷ []) st (stands Ended.finished a)
      skipped a e n =
          subst (λ a. IsRun answer (w.visits ++ v ∷ []) st (stands Ended.finished a)) (sym e)
            (IsRun.passed w.visits st v r k (λ c. n (e ∙ c)))

      go :
          (a : VisitResult)
          → a ≡ answer w.visits v
          → IsRunOf st (enter ff answer a v (w.visits ++ v ∷ []) walk w)
      go VisitResult.terminate e = skipped VisitResult.terminate e (λ c. cc)
      go VisitResult.skip_subtree e =
          subst (IsRun answer (w.visits ++ v ∷ []) st) (sym f)
            (skipped VisitResult.skip_subtree e (λ c. cc))
      go VisitResult.skip_siblings e =
          subst (IsRun answer (w.visits ++ v ∷ []) st) (sym f)
            (skipped VisitResult.skip_siblings e (λ c. cc))
      go VisitResult.throws e = skipped VisitResult.throws e (λ c. cc)
      go VisitResult.continue e =
          leave-IsRun v w.skip_sibs st (walk v.filepath (w.visits ++ v ∷ []))
            (sub v.filepath (w.visits ++ v ∷ []) (v ∷ st) (IsRun.entered w.visits st v r k (sym e)))

  walk_entry-IsRun :
      (depth : ℕ) (name : Bytes) (t : DirentType) (a : Action) (walk : Bytes → List Visit → Walked)
      (st : List Visit) (w : Walked) (path : Option Bytes)
      → Walks walk
      → w.ended ≡ Ended.finished
      → IsRun answer w.visits st Ended.finished
      → IsRunOf st (walk_entry ff answer depth name t a walk w path)
  unfolding walk_entry IsRunOf
  walk_entry-IsRun depth name t a walk st w none sub f r = IsRun.failed w.visits st r
  walk_entry-IsRun depth name t Action.nothing walk st w (some path) sub f r =
      subst (IsRun answer w.visits st) (sym f) r
  walk_entry-IsRun depth name t Action.failed_stat walk st w (some path) sub f r =
      visit-IsRun _ st w r f (inr refl)
  walk_entry-IsRun depth name t (Action.file d_type) walk st w (some path) sub f r =
      visit-IsRun _ st w r f (inl refl)
  walk_entry-IsRun depth name t Action.directory walk st w (some path) sub f r =
      elim (Bool-cases (ltb depth ff.maxdepth)) [
        | inl e ↦ rw e (unfold visit_dir in enter-IsRun _ st walk w refl sub f r)
        | inr e ↦ rw e (subst (IsRun answer w.visits st) (sym f) r)
      ]

  entry_step-IsRun :
      (depth : ℕ) (dir name : Bytes) (t : DirentType) (s : StatType)
      (walk : Bytes → List Visit → Walked) (st : List Visit) (w : Walked)
      → Walks walk
      → w.ended ≡ Ended.finished
      → IsRunOf st w
      → IsRunOf st (entry_step ff answer depth dir name t s walk w)
  unfolding entry_step IsRunOf
  entry_step-IsRun depth dir name t s walk st w sub f r =
      elim (Bool-cases (depth == w.skip_sibs || is_one_of_dots name)) [
        | inl e ↦ rw e r
        | inr e ↦ rw e (
            walk_entry-IsRun depth name t (action_of ff.follow_links t s) walk st w
              (entry_path ff dir name) sub f (subst (IsRun answer w.visits st) f r))
      ]

  finished_of : (e : Ended) → goes_on ff answer e ≡ true → e ≡ Ended.finished
  finished_of Ended.finished h = refl
  finished_of Ended.stopped h = cc
  finished_of Ended.threw h = cc

  mutual
    unfolding walk_folder IsRunOf Walks

    walk_folder-IsRun :
        (depth : ℕ) (dir : Bytes) (folder : Folder) (visits st : List Visit)
        → IsRun answer visits st Ended.finished
        → IsRunOf st (walk_folder ff answer depth dir folder visits)
    walk_folder-IsRun depth dir Folder.cannot_open visits st r = IsRun.failed visits st r
    walk_folder-IsRun depth dir (Folder.opened es) visits st r =
        walk_entries-IsRun depth dir es st
          (record { visits = visits; skip_sibs = 0; ended = Ended.finished }) r

    walk_entries-IsRun :
        (depth : ℕ) (dir : Bytes) (es : Dirents) (st : List Visit) (w : Walked)
        → IsRunOf st w
        → IsRunOf st (walk_entries ff answer depth dir es w)
    walk_entries-IsRun depth dir Dirents.no_more st w r = r
    walk_entries-IsRun depth dir (Dirents.dirent name t s folder es) st w r =
        elim (Bool-cases (goes_on ff answer w.ended)) [
          | inl e ↦ rw e (
              walk_entries-IsRun depth dir es st _ (
                entry_step-IsRun depth dir name t s
                  (λ path visits. walk_folder ff answer (depth + 1) path folder visits) st w
                  (λ path vs st' sub. walk_folder-IsRun (depth + 1) path folder vs st' sub)
                  (finished_of w.ended e) r))
          | inr e ↦ rw e r
        ]

  unless_thrown-IsRun :
      (r : VisitResult) (thrown w : Walked)
      → IsRunOf [] thrown
      → IsRunOf [] w
      → IsRunOf [] (unless_thrown ff answer r thrown w)
  unless_thrown-IsRun VisitResult.continue thrown w ht hw = hw
  unless_thrown-IsRun VisitResult.terminate thrown w ht hw = hw
  unless_thrown-IsRun VisitResult.skip_subtree thrown w ht hw = hw
  unless_thrown-IsRun VisitResult.skip_siblings thrown w ht hw = hw
  unless_thrown-IsRun VisitResult.throws thrown w ht hw = ht

  -- The visits of any walk are a run that leaves every folder it entered: while no answer stops it,
  -- files are visited and folders entered; each folder is left after all that was visited in it;
  -- behind an answer that stops the walk only the open folders are left, and behind an exception
  -- nothing is visited. What the first visit is answered does not count, unless it is an exception.
  pub walk_file_tree-IsRun :
      (start_dir basename : Bytes) (folder : Folder)
      → IsRun answer
          (walk_file_tree ff answer start_dir basename folder).visits
          []
          (walk_file_tree ff answer start_dir basename folder).ended
  unfolding walk_file_tree IsRunOf
  walk_file_tree-IsRun start_dir basename folder =
      let v = first_visit start_dir basename in
      let start : IsRun answer (v ∷ []) [] Ended.finished = IsRun.first v in
      unless_thrown-IsRun (answer [] v)
        (record { visits = v ∷ []; skip_sibs = 0; ended = Ended.threw })
        (walk_folder ff answer 1 start_dir folder (v ∷ [])) (IsRun.failed (v ∷ []) [] start)
        (walk_folder-IsRun 1 start_dir folder (v ∷ []) [] start)
