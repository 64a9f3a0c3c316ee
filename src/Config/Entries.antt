-- ===== src/Config/Entries.antt =====
-- The entry points that the constructor of `sessionState` leaves in a session.
use spartan_launcher.Prelude.{
  ℕ, ◌≡◌, ◌≢◌, ◌⊎◌, refl, subst, Bool, true, false, not, ◌&&◌, Option, none, some, List, [], ◌∷◌,
  ◌++◌, arith, Bytes, codes, is_empty, iequal, replace, replace-Lacks, Lacks, All-append, inl, inr,
  Bool-cases,
}
use spartan_launcher.Session.{WhichMethod, MethodDescriptor, SessionState, no_name}
use spartan_launcher.Text.{split_last_slash, path_concat}
use spartan_launcher.Config.{
  Settings, status_type, shutdown_type, notify_type, completion_type, command_type, main_type,
  named_entry, supervisor_setting, child_setting, handle_setting, handle_settings, Parsed,
  process_config, class_of, class_or_base, default_entry, complete_entries, Started, check_settings,
  after_config, new_settings, new_session_state,
}

-- A descriptor that names a method, by a name with no dot, with the given type.
pub record IsEntry (descriptor : Bytes) (is_static : Bool) (which : WhichMethod)
    (m : MethodDescriptor) : Type 0 where
  pub named : no_name m ≡ false
  pub no_dot : Lacks b'.' m.full_method_name
  pub descriptor_is : m.descriptor ≡ descriptor
  pub static_is : m.is_static_method ≡ is_static
  pub which_is : m.which_method ≡ which

-- A descriptor that names no method, or such a one.
abbrev pub MayBe : Bytes → Bool → WhichMethod → MethodDescriptor → Type 0
MayBe descriptor is_static which m = (no_name m ≡ true) ⊎ IsEntry descriptor is_static which m

-- What the settings leave: each entry point is named rightly, or not at all.
abbrev pub Settled : SessionState → Type 0
Settled ss =
    MayBe main_type true WhichMethod.main ss.spartan_main_entry_point
    × MayBe status_type false WhichMethod.get_status ss.spartan_get_status_entry_point
    × MayBe shutdown_type false WhichMethod.supervisor_shutdown
        ss.spartan_supervisor_shutdown_entry_point
    × MayBe notify_type false WhichMethod.child_notify ss.spartan_child_notify_entry_point
    × MayBe completion_type false WhichMethod.child_completion_notify
        ss.spartan_child_completion_notify_entry_point
    × MayBe command_type false WhichMethod.supervisor_do_cmd ss.spartan_supervisor_entry_point
    × MayBe command_type true WhichMethod.child_do_cmd ss.spartan_child_processor_entry_point

pub record MayBeEntries (ss : SessionState) : Type 0 where
  pub all : Settled ss

-- What the constructor leaves: every entry point but the main one is named.
abbrev pub HasEntries : SessionState → Type 0
HasEntries ss =
    MayBe main_type true WhichMethod.main ss.spartan_main_entry_point
    × IsEntry status_type false WhichMethod.get_status ss.spartan_get_status_entry_point
    × IsEntry shutdown_type false WhichMethod.supervisor_shutdown
        ss.spartan_supervisor_shutdown_entry_point
    × IsEntry notify_type false WhichMethod.child_notify ss.spartan_child_notify_entry_point
    × IsEntry completion_type false WhichMethod.child_completion_notify
        ss.spartan_child_completion_notify_entry_point
    × IsEntry command_type false WhichMethod.supervisor_do_cmd ss.spartan_supervisor_entry_point
    × IsEntry command_type true WhichMethod.child_do_cmd ss.spartan_child_processor_entry_point

is_empty-append : (c : ℕ) (s t : Bytes) → is_empty (replace b'.' b'/' (c ∷ s) ++ t) ≡ false
unfolding replace
is_empty-append c s t = refl

named_entry-MayBe :
    (old : MethodDescriptor) (text suffix descriptor : Bytes) (is_static : Bool)
    (which : WhichMethod)
    → Lacks b'.' suffix
    → MayBe descriptor is_static which old
    → MayBe descriptor is_static which (named_entry old text suffix descriptor is_static which)
unfolding named_entry
named_entry-MayBe old [] suffix descriptor is_static which h m = m
named_entry-MayBe old (c ∷ s) suffix descriptor is_static which h m = inr (record {
  named = is_empty-append c s suffix;
  no_dot =
      All-append (λ x. x ≢ b'.') (replace b'.' b'/' (c ∷ s)) suffix
        (replace-Lacks b'.' b'/' (c ∷ s) (ground arith)) h;
  descriptor_is = refl;
  static_is = refl;
  which_is = refl;
})

supervisor_setting-MayBeEntries :
    (ss : SessionState) (name text : Bytes)
    → MayBeEntries ss
    → MayBeEntries (supervisor_setting ss name text)
unfolding supervisor_setting
supervisor_setting-MayBeEntries ss name text h =
    elim (Bool-cases (iequal name (codes "MainEntryPoint"))) [
      | inl e ↦ rw e (record {
        all = (
          named_entry-MayBe ss.spartan_main_entry_point text (codes "/main") main_type true
              WhichMethod.main (ground arith) h.all.0,
          h.all.1,
          h.all.2,
          h.all.3,
          h.all.4,
          h.all.5,
          h.all.6,
        );
      })
      | inr e ↦ rw e (elim (Bool-cases (iequal name (codes "GetStatusEntryPoint"))) [
        | inl e ↦ rw e (record {
          all = (
            h.all.0,
            named_entry-MayBe ss.spartan_get_status_entry_point text [] status_type false
                WhichMethod.get_status tt h.all.1,
            h.all.2,
            h.all.3,
            h.all.4,
            h.all.5,
            h.all.6,
          );
        })
        | inr e ↦ rw e (elim (Bool-cases (iequal name (codes "SupervisorShutdownEntryPoint"))) [
          | inl e ↦ rw e (record {
            all = (
              h.all.0,
              h.all.1,
              named_entry-MayBe ss.spartan_supervisor_shutdown_entry_point text [] shutdown_type
                  false WhichMethod.supervisor_shutdown tt h.all.2,
              h.all.3,
              h.all.4,
              h.all.5,
              h.all.6,
            );
          })
          | inr e ↦ rw e (elim (Bool-cases (iequal name (codes "ChildNotifyEntryPoint"))) [
            | inl e ↦ rw e (record {
              all = (
                h.all.0,
                h.all.1,
                h.all.2,
                named_entry-MayBe ss.spartan_child_notify_entry_point text [] notify_type false
                    WhichMethod.child_notify tt h.all.3,
                h.all.4,
                h.all.5,
                h.all.6,
              );
            })
            | inr e ↦
                rw e (elim (Bool-cases (iequal name (codes "ChildCompletionNotifyEntryPoint"))) [
                  | inl e ↦ rw e (record {
                    all = (
                      h.all.0,
                      h.all.1,
                      h.all.2,
                      h.all.3,
                      named_entry-MayBe ss.spartan_child_completion_notify_entry_point text []
                          completion_type false WhichMethod.child_completion_notify tt h.all.4,
                      h.all.5,
                      h.all.6,
                    );
                  })
                  | inr e ↦ rw e (elim (Bool-cases (iequal name (codes "SupervisorEntryPoint"))) [
                    | inl e ↦ rw e h
                    | inr e ↦ rw e (h)
                  ])
                ])
          ])
        ])
      ])
    ]

child_setting-MayBeEntries :
    (ss : SessionState) (name text : Bytes)
    → MayBeEntries ss
    → MayBeEntries (child_setting ss name text)
unfolding child_setting
child_setting-MayBeEntries ss name text h =
    elim (Bool-cases (iequal name (codes "ChildProcessMaxCount"))) [
      | inl e ↦ rw e (record { all = h.all })
      | inr e ↦ rw e (elim (Bool-cases (iequal name (codes "ChildProcessorEntryPoint"))) [
        | inl e ↦ rw e (record {
          all = (
            h.all.0,
            h.all.1,
            h.all.2,
            h.all.3,
            h.all.4,
            h.all.5,
            named_entry-MayBe ss.spartan_child_processor_entry_point text [] command_type true
                WhichMethod.child_do_cmd tt h.all.6,
          );
        })
        | inr e ↦ rw e (elim (Bool-cases (iequal name (codes "ChildProcessorCommands"))) [
          | inl e ↦ rw e (record { all = h.all })
          | inr e ↦ rw e (h)
        ])
      ])
    ]

handle_setting-MayBeEntries :
    (prepend : Bytes → Bytes) (st : Settings) (section name text : Bytes)
    → MayBeEntries st.session
    → MayBeEntries (handle_setting prepend st section name text).session
unfolding handle_setting
handle_setting-MayBeEntries prepend st section name text h =
    elim (Bool-cases (iequal section (codes "JvmSettings"))) [
      | inl e ↦ rw e (elim (Bool-cases (iequal name (codes "CommandLineArgs"))) [
        | inl e ↦ rw e h
        | inr e ↦ rw e (h)
      ])
      | inr e ↦ rw e (elim (Bool-cases (iequal section (codes "SupervisorProcessSettings"))) [
        | inl e ↦ rw e (supervisor_setting-MayBeEntries st.session name text h)
        | inr e ↦ rw e (elim (Bool-cases (iequal section (codes "ChildProcessSettings"))) [
          | inl e ↦ rw e (child_setting-MayBeEntries st.session name text h)
          | inr e ↦ rw e (elim (Bool-cases (iequal section (codes "LoggingSettings"))) [
            | inl e ↦ rw e (elim (Bool-cases (iequal name (codes "LoggingLevel"))) [
              | inl e ↦ rw e (record { all = h.all })
              | inr e ↦ rw e (h)
            ])
            | inr e ↦ rw e (h)
          ])
        ])
      ])
    ]

handle_settings-MayBeEntries :
    (prepend : Bytes → Bytes) (st : Settings) (settings : List (Bytes × Bytes × Bytes))
    → MayBeEntries st.session
    → MayBeEntries (handle_settings prepend st settings).session
unfolding handle_settings
handle_settings-MayBeEntries prepend st [] h = h
handle_settings-MayBeEntries prepend st ((section, name, text) ∷ more) h =
    handle_settings-MayBeEntries prepend (handle_setting prepend st section name text) more
      (handle_setting-MayBeEntries prepend st section name text h)

class_or_base-Lacks : (o : Option (Bytes × Bytes)) → Lacks b'.' (class_or_base o)
class_or_base-Lacks none = ground arith
class_or_base-Lacks (some ([], name)) = ground arith
class_or_base-Lacks (some (c ∷ s, name)) = replace-Lacks b'.' b'/' (c ∷ s) (ground arith)

class_of-Lacks : (m : MethodDescriptor) → Lacks b'.' (class_of m)
unfolding class_of
class_of-Lacks m = class_or_base-Lacks (split_last_slash m.full_method_name)

is_empty_back : (s t : Bytes) → is_empty t ≡ false → is_empty (s ++ t) ≡ false
is_empty_back [] t h = h
is_empty_back (c ∷ s) t h = refl

default_entry-IsEntry :
    (old : MethodDescriptor) (class suffix descriptor : Bytes) (is_static : Bool)
    (which : WhichMethod)
    → Lacks b'.' class
    → Lacks b'.' suffix
    → is_empty suffix ≡ false
    → MayBe descriptor is_static which old
    → IsEntry descriptor is_static which (default_entry old class suffix descriptor is_static which)
unfolding default_entry
default_entry-IsEntry old class suffix descriptor is_static which hc hs ne (inl e) = rw e (record {
  named = is_empty_back class suffix ne;
  no_dot = All-append (λ x. x ≢ b'.') class suffix hc hs;
  descriptor_is = refl;
  static_is = refl;
  which_is = refl;
})
default_entry-IsEntry old class suffix descriptor is_static which hc hs ne (inr e) = rw e.named e

complete_entries-HasEntries :
    (ss : SessionState) → MayBeEntries ss → HasEntries (complete_entries ss)
unfolding complete_entries
complete_entries-HasEntries ss h =
    let hc = class_of-Lacks ss.spartan_main_entry_point in
    (
      h.all.0,
      default_entry-IsEntry _ _ _ _ _ _ hc (ground arith) refl h.all.1,
      default_entry-IsEntry _ _ _ _ _ _ hc (ground arith) refl h.all.2,
      default_entry-IsEntry _ _ _ _ _ _ hc (ground arith) refl h.all.3,
      default_entry-IsEntry _ _ _ _ _ _ hc (ground arith) refl h.all.4,
      default_entry-IsEntry _ _ _ _ _ _ hc (ground arith) refl h.all.5,
      default_entry-IsEntry _ _ _ _ _ _ hc (ground arith) refl h.all.6,
    )

-- The property of the session of a constructor that does not throw.
abbrev Starts : (SessionState → Type 0) → Started → Type 0
Starts P (Started.init_exception what) = Unit
Starts P (Started.started st) = P st.session

check_settings-HasEntries :
    (cfg_file : Bytes) (st : Settings)
    → MayBeEntries st.session
    → Starts HasEntries (check_settings cfg_file st)
unfolding check_settings
check_settings-HasEntries cfg_file st h =
    elim (Bool-cases (
      not (no_name st.session.spartan_child_processor_entry_point)
      && is_empty st.session.spartan_child_processor_commands)) [
        | inl e ↦ rw e tt
        | inr e ↦ rw e (complete_entries-HasEntries st.session h)
      ]

process_config-HasEntries :
    (is_regular : Bytes → Bool) (ini_parse : Bytes → Parsed) (prepend : Bytes → Bytes)
    (st : Settings) (name dir file : Bytes)
    → MayBeEntries st.session
    → Starts HasEntries
        (after_config file name (process_config is_regular ini_parse prepend st dir file))
unfolding process_config after_config
process_config-HasEntries is_regular ini_parse prepend st name dir file h =
    elim (Bool-cases (is_regular (path_concat dir file))) [
      | inr e ↦ rw e tt
      | inl e ↦ rw e (elim (Bool-cases (ini_parse (path_concat dir file)).failed) [
        | inl f ↦ rw f tt
        | inr f ↦ rw f (
            check_settings-HasEntries file _ (
              handle_settings-MayBeEntries prepend st (ini_parse (path_concat dir file)).settings
                h))
      ])
    ]

-- Whatever config.ini holds, a session that the constructor gives names every entry point but the
-- main one, each by a name with no dot and with the type, the staticness and the role that belong
-- to it; the main one is named so, or not at all.
pub new_session_state-HasEntries :
    (is_regular : Bytes → Bool) (ini_parse : Bytes → Parsed) (prepend : Bytes → Bytes)
    (exception_name cfg_dir cfg_file jvmlib_path : Bytes) (st : Settings)
    → new_session_state is_regular ini_parse prepend exception_name cfg_dir cfg_file jvmlib_path
      ≡ Started.started st
    → HasEntries st.session
unfolding new_session_state
new_session_state-HasEntries is_regular ini_parse prepend exception_name cfg_dir cfg_file
      jvmlib_path st e =
    subst (Starts HasEntries) e (
      process_config-HasEntries is_regular ini_parse prepend (new_settings jvmlib_path)
        exception_name cfg_dir cfg_file
        (record { all = (inl refl, inl refl, inl refl, inl refl, inl refl, inl refl, inl refl) }))
