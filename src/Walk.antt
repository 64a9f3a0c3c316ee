-- ===== src/Walk.antt =====
-- Walking a file tree: src/main/cpp/findfiles.cpp and findfiles.h. The file system is a tree of
-- what `opendir`, `readdir` and `stat` give, and the callback answers by what it has seen.
pub mod Bounds
pub mod Order
pub mod Java
pub mod Visitor
use spartan_launcher.Prelude.{
  ℕ, ◌+◌, Bool, true, false, not, ◌&&◌, ◌||◌, Option, none, some, List, [], ◌∷◌, ◌++◌, ◌==◌, ltb,
  leb, if◌then◌else◌, Bytes, codes, length, same_text, iequal,
}
use spartan_launcher.Text.{unsnoc, path_separator}

pub data VisitResult : Type 0 where
  continue terminate skip_subtree skip_siblings throws : VisitResult

pub data VisitKind : Type 0 where
  post_visit_directory pre_visit_directory visit_file visit_file_failed : VisitKind

-- `d_type` of a directory entry; `dt_other` stands for its further values.
pub data DirentType : Type 0 where
  dt_unknown dt_dir dt_reg dt_lnk dt_other : DirentType

-- The type of a file that `stat` tells, if it does not fail.
pub data StatType : Type 0 where
  stat_failed s_ifdir s_ifreg s_ifother : StatType

-- What `opendir` makes of a path: nothing, or its entries as `readdir` gives them. The contents
-- of an entry are those behind its path.
mutual
  pub data Folder : Type 0 where
    cannot_open : Folder
    opened : Dirents → Folder

  pub data Dirents : Type 0 where
    no_more : Dirents
    dirent : Bytes → DirentType → StatType → Folder → Dirents → Dirents

-- The arguments of a call of the callback.
pub record Visit : Type 0 where
  pub filepath : Bytes
  pub filename : Bytes
  pub depth : ℕ
  pub d_type : DirentType
  pub kind : VisitKind

-- How a walk ends: to its end, stopped, or by an exception.
pub data Ended : Type 0 where
  finished stopped threw : Ended

-- `find_files`; the constructors take a depth of 0 or less as 1.
pub record FindFiles : Type 0 where
  pub separator_char : ℕ
  pub maxdepth : ℕ
  pub follow_links : Bool

unfoldable pub normalize_depth : ℕ → ℕ
normalize_depth depth = if leb depth 0 then 1 else depth

abbrev pub is_one_of_dots : Bytes → Bool
is_one_of_dots name = same_text (codes ".") name || same_text (codes "..") name

abbrev pub ends_in_separator : ℕ → Option (Bytes × ℕ) → Bool
ends_in_separator separator none = false
ends_in_separator separator (some (_, last)) = last == path_separator || last == separator

-- The path of an entry; `none` where it does not fit in the buffer.
unfoldable pub entry_path : FindFiles → Bytes → Bytes → Option Bytes
entry_path ff dir name =
    let path =
      if ends_in_separator ff.separator_char (unsnoc dir)
      then dir ++ name
      else dir ++ ff.separator_char ∷ name in
    if leb 2048 (length path) then none else some path

-- What is done with an entry.
pub data Action : Type 0 where
  failed_stat directory nothing : Action
  file : DirentType → Action

abbrev by_stat : StatType → Action
by_stat stat_failed = failed_stat
by_stat s_ifdir = directory
by_stat s_ifreg = file dt_reg
by_stat s_ifother = nothing

unfoldable pub action_of : Bool → DirentType → StatType → Action
action_of follow_links dt_unknown st = by_stat st
action_of follow_links dt_lnk st = if follow_links then by_stat st else file dt_lnk
action_of follow_links dt_dir st = directory
action_of follow_links dt_reg st = file dt_reg
action_of follow_links dt_other st = file dt_other

-- The visits so far, oldest first; the value of `skip_sibs`; and how the walk stands.
pub record Walked : Type 0 where
  pub visits : List Visit
  pub skip_sibs : ℕ
  pub ended : Ended

-- The visit of the start.
abbrev pub first_visit : Bytes → Bytes → Visit
first_visit start_dir basename = record {
  filepath = start_dir;
  filename = basename;
  depth = 0;
  d_type = dt_dir;
  kind = pre_visit_directory;
}

module _ (ff : FindFiles) (answer : List Visit → Visit → VisitResult) where
  -- What `visit_file` makes of an answer, and the branch of a failed `stat`.
  abbrev pub after_file : ℕ → VisitResult → Walked → Walked
  after_file depth terminate w = record w { ended = stopped }
  after_file depth skip_siblings w = record w { skip_sibs = depth }
  after_file depth throws w = record w { ended = threw }
  after_file depth _ w = w

  -- `visit_file`
  unfoldable pub visit : Visit → Walked → Walked
  visit v w = after_file v.depth (answer w.visits v) (record w { visits = w.visits ++ v ∷ [] })

  -- The end of `visit_dir`, when the walk of the folder is done: its result counts whatever the
  -- answer.
  abbrev pub after_folder : Ended → VisitResult → Ended
  after_folder threw answer = threw
  after_folder e terminate = stopped
  after_folder e throws = threw
  after_folder e _ = e

  -- The visit behind a folder, which an exception leaves out.
  unfoldable pub leave : Visit → ℕ → Walked → Walked
  leave v skip_sibs w = elim w.ended [
    | threw ↦ record w { skip_sibs = skip_sibs }
    | finished ↦ record {
      visits = w.visits ++ v ∷ [];
      skip_sibs = skip_sibs;
      ended = after_folder finished (answer w.visits v);
    }
    | stopped ↦ record {
      visits = w.visits ++ v ∷ [];
      skip_sibs = skip_sibs;
      ended = after_folder stopped (answer w.visits v);
    }
  ]

  -- What `visit_dir` makes of the first answer; `visits` holds that visit.
  unfoldable pub enter :
      VisitResult → Visit → List Visit → (Bytes → List Visit → Walked) → Walked → Walked
  enter terminate pre visits walk w = record w { visits = visits; ended = stopped }
  enter skip_subtree pre visits walk w = record w { visits = visits }
  enter skip_siblings pre visits walk w = record w { visits = visits; skip_sibs = pre.depth }
  enter throws pre visits walk w = record w { visits = visits; ended = threw }
  enter continue pre visits walk w =
      leave (record pre { kind = post_visit_directory }) w.skip_sibs (walk pre.filepath visits)

  -- `visit_dir`, with the walk of the folder behind it.
  unfoldable pub visit_dir : ℕ → Bytes → Bytes → (Bytes → List Visit → Walked) → Walked → Walked
  visit_dir depth path name walk w =
      let pre : Visit = record {
        filepath = path;
        filename = name;
        depth = depth;
        d_type = dt_dir;
        kind = pre_visit_directory;
      } in
      enter (answer w.visits pre) pre (w.visits ++ pre ∷ []) walk w

  abbrev pub visit_as : ℕ → Bytes → Bytes → DirentType → VisitKind → Walked → Walked
  visit_as depth path name d_type kind w =
      visit
        (record { filepath = path; filename = name; depth = depth; d_type = d_type; kind = kind }) w

  -- The choice between the branches of the loop's body.
  unfoldable pub walk_entry :
      ℕ
      → Bytes
      → DirentType
      → Action
      → (Bytes → List Visit → Walked)
      → Walked
      → Option Bytes
      → Walked
  walk_entry depth name t action walk w none = record w { ended = threw }
  walk_entry depth name t nothing walk w (some path) = w
  walk_entry depth name t failed_stat walk w (some path) =
      visit_as depth path name t visit_file_failed w
  walk_entry depth name t (file d_type) walk w (some path) =
      visit_as depth path name d_type visit_file w
  walk_entry depth name t directory walk w (some path) =
      if ltb depth ff.maxdepth then visit_dir depth path name walk w else w

  -- One round of the loop over the entries.
  unfoldable pub entry_step :
      ℕ → Bytes → Bytes → DirentType → StatType → (Bytes → List Visit → Walked) → Walked → Walked
  entry_step depth dir name t st walk w =
      if depth == w.skip_sibs || is_one_of_dots name
      then w
      else walk_entry depth name t (action_of ff.follow_links t st) walk w (entry_path ff dir name)

  abbrev pub goes_on : Ended → Bool
  goes_on finished = true
  goes_on stopped = false
  goes_on threw = false

  unfoldable mutual
    -- `walk_file_tree` of a folder that was visited.
    pub walk_folder : ℕ → Bytes → Folder → List Visit → Walked
    walk_folder depth dir cannot_open visits = record {
      visits = visits;
      skip_sibs = 0;
      ended = threw;
    }
    walk_folder depth dir (opened es) visits =
        walk_entries depth dir es (record { visits = visits; skip_sibs = 0; ended = finished })

    -- The loop over the entries.
    pub walk_entries : ℕ → Bytes → Dirents → Walked → Walked
    walk_entries depth dir no_more w = w
    walk_entries depth dir (dirent name t st folder es) w =
        let rest = walk_entries depth dir es (
          entry_step depth dir name t st (λ path visits. walk_folder (depth + 1) path folder visits)
            w) in
        if goes_on w.ended then rest else w

  abbrev pub unless_thrown : VisitResult → Walked → Walked → Walked
  unless_thrown throws thrown w = thrown
  unless_thrown _ thrown w = w

  -- `walk_file_tree` from the start; only an exception of the first answer counts.
  unfoldable pub walk_file_tree : Bytes → Bytes → Folder → Walked
  walk_file_tree start_dir basename folder =
      let v = first_visit start_dir basename in
      unless_thrown (answer [] v) (record { visits = v ∷ []; skip_sibs = 0; ended = threw })
        (walk_folder 1 start_dir folder (v ∷ []))

-- The callback that `findfiles` makes of its own.
unfoldable pub findfiles_answer : (Bytes → Bytes → Bool) → List Visit → Visit → VisitResult
findfiles_answer callback seen v = elim v.d_type [
  | dt_dir ↦ continue
  | dt_reg ↦ if callback v.filepath v.filename then terminate else continue
  | dt_unknown ↦ throws
  | dt_lnk ↦ throws
  | dt_other ↦ throws
]

-- `MAXDEPTH`
abbrev pub unlimited : ℕ
unlimited = 2147483647

unfoldable pub findfiles : (Bytes → Bytes → Bool) → Bytes → Bytes → Folder → Walked
findfiles callback =
    walk_file_tree
      (record { separator_char = path_separator; maxdepth = unlimited; follow_links = true })
      (findfiles_answer callback)

abbrev pub path_of : DirentType → Bytes → Bytes → Bytes
path_of dt_reg old path = path
path_of _ old path = old

-- The path of the last file visited.
abbrev pub last_file : Bytes → List Visit → Bytes
last_file old [] = old
last_file old (v ∷ vs) = last_file (path_of v.d_type old v.filepath) vs

abbrev pub jvmlib_name : Bytes
jvmlib_name = codes "libjvm.so"

-- `determine_jvmlib_path` of src/main/cpp/createjvm.cpp: the callback keeps the path at which it
-- stops the walk.
unfoldable pub determine_jvmlib_path : Bytes → Bytes → Folder → Bytes
determine_jvmlib_path java_home basename folder =
    let w = findfiles (λ path name. iequal name jvmlib_name) java_home basename folder in
    elim w.ended [ finished ↦ jvmlib_name | threw ↦ jvmlib_name | stopped ↦ last_file [] w.visits ]
