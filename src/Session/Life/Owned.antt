-- ===== src/Session/Life/Owned.antt =====
-- Who lets go of the JVM.
use spartan_launcher.Prelude.{
  ℕ, ◌≡◌, refl, sym, subst, true, false, Option, none, some, [], ◌∷◌, Bytes, arith,
}
use spartan_launcher.Session.Handles.{close_libjvm, cleanup_jvm, cleanup_jnienv, FullSession}
use spartan_launcher.Session.Life.{
  Runtime, create_jvm, Step, jvm_made, in_library, session_create_jvm, destroy_session, released,
  for_action, prepare_action, hand_over, end_of_supervisor,
}

-- A session that has the library, and no JVM.
pub record HasLibrary (ss : FullSession) (h : ℕ) : Type 0 where
  pub libjvm : ss.libjvm_sp ≡ some h
  pub no_jvm : ss.jvm_sp ≡ none
  pub no_env : ss.env_sp ≡ none

-- What preparing an action left: where the JVM was made nothing deletes it later, nor the library;
-- else the session is as it was.
abbrev pub IsPrepared : FullSession → Step → Type 0
IsPrepared ss p =
    (p.cleanups ≡ [])
    × (p.failed ≡ false → destroy_session p.session ≡ [])
    × (p.failed ≡ true → p.session ≡ ss)

jvm_made-IsPrepared :
    (ss : FullSession) (made : Option (ℕ × ℕ))
    → ss.jvm_sp ≡ none
    → ss.env_sp ≡ none
    → IsPrepared ss (released (jvm_made ss made))
unfolding destroy_session
jvm_made-IsPrepared ss none j e = (refl, (λ h. ground (arith, h)), (λ h. refl))
jvm_made-IsPrepared ss (some (jvmp, envp)) j e =
    (rw (j, e) refl, (λ h. refl), (λ h. ground (arith, h)))

-- A process that makes a JVM for an action never destroys it, and never closes the library: the
-- handles are released before the action runs. Where the JVM cannot be made the session is as it
-- was, and nothing was deleted.
pub prepare_action-IsPrepared :
    (rt : Runtime) (optns : Bytes) (ss : FullSession) (h : ℕ)
    → HasLibrary ss h
    → IsPrepared ss (prepare_action rt optns ss)
unfolding prepare_action session_create_jvm
prepare_action-IsPrepared rt optns ss h own =
    subst (λ o. IsPrepared ss (for_action rt optns ss o)) (sym own.no_jvm)
      (subst (λ o. IsPrepared ss (released (in_library rt ss optns o))) (sym own.libjvm)
        (jvm_made-IsPrepared ss (create_jvm rt h optns) own.no_jvm own.no_env))

-- The supervisor lets go of what it made once each: of the environment when it hands the JVM over,
-- and at its end of the JVM, and of the library last.
pub end_of_supervisor_lem :
    (rt : Runtime) (optns : Bytes) (ss shm_session : FullSession) (h jvmp envp : ℕ)
    → HasLibrary ss h
    → create_jvm rt h optns ≡ some (jvmp, envp)
    → shm_session.libjvm_sp ≡ none
    → shm_session.jvm_sp ≡ none
    → shm_session.env_sp ≡ none
    → end_of_supervisor (hand_over (session_create_jvm rt ss optns).session shm_session)
      ≡ cleanup_jnienv envp ∷ cleanup_jvm jvmp ∷ close_libjvm h ∷ []
unfolding end_of_supervisor hand_over session_create_jvm destroy_session
end_of_supervisor_lem rt optns ss shm_session h jvmp envp own made l j e =
    rw (own.libjvm, made, l, j, e) refl
