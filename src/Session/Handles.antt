-- ===== src/Session/Handles.antt =====
-- `sessionState`'s copy and move operations of src/main/cpp/session-state.cpp: the information
-- part is copied, the three handles (loaded library, JVM, environment) are moved.
use spartan_launcher.Prelude.{ℕ, Option, none, some, List, [], ◌∷◌, ◌++◌}
use spartan_launcher.Session.{SessionState}

-- What a unique pointer's deleter does when it lets go of a handle.
pub data Cleanup : Type 0 where
  close_libjvm cleanup_jvm cleanup_jnienv : ℕ → Cleanup

pub record FullSession : Type 0 where
  pub info : SessionState
  pub libjvm_sp : Option ℕ
  pub jvm_sp : Option ℕ
  pub env_sp : Option ℕ

-- `clone_info_part`: a copy of the information part only.
unfoldable pub clone_info_part : FullSession → FullSession → FullSession
clone_info_part self ss = record self { info = ss.info }

-- Assigning to a unique pointer deletes what it held.
abbrev pub let_go : (ℕ → Cleanup) → Option ℕ → List Cleanup
let_go deleter none = []
let_go deleter (some h) = deleter h ∷ []

-- `operator=(sessionState &&)`: the target, the source left behind, and the deleters called.
unfoldable pub move_assign : FullSession → FullSession → FullSession × FullSession × List Cleanup
unfolding clone_info_part
move_assign self ss = (
  record (clone_info_part self ss) {
    libjvm_sp = ss.libjvm_sp;
    jvm_sp = ss.jvm_sp;
    env_sp = ss.env_sp;
  },
  record ss { libjvm_sp = none; jvm_sp = none; env_sp = none },
  let_go close_libjvm self.libjvm_sp
      ++ (let_go cleanup_jvm self.jvm_sp ++ let_go cleanup_jnienv self.env_sp),
)
