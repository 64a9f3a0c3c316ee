-- ===== src/Dispatch/Laws.antt =====
-- The commands of a session, and where its entry points stand.
use spartan_launcher.Prelude.{
  ◌+◌, ◌≡◌, refl, sym, ap, ◌∙◌, Bool, true, false, not, Option, none, some, List, [], ◌∷◌, ◌++◌,
  arith, if◌then◌else◌, Bytes, is_empty, istarts_with, starts_with-append, lower, to_lower, length,
  Bool-cases, Option-cases, inl, inr,
}
use mathlib.Core.Option.{some-injective}
use spartan_launcher.Session.{MethodDescriptor, SessionState, no_name}
use spartan_launcher.Text.{strtok}
use spartan_launcher.Text.Fields.{fields, strtok-fields, tokens-fields, str_split-fields}
use spartan_launcher.Dispatch.{
  MethInfo, full_name, DispatchInfo, entry_points_class, reclass, main_entry_method,
  apply_cmd_dsp_info, process_initial, first_and_more, and_annotated, configured_commands,
  annotated_commands, child_processor_commands, keep_main,
}

-- No command at all is given by a text that holds commas only.
abbrev pub some_fields : Bool → List Bytes → Option (List Bytes)
some_fields nothing [] = if nothing then some [] else none
some_fields nothing (t ∷ ts) = some (t ∷ ts)

first_and_more-fields :
    (s : Bytes) → first_and_more (strtok b',' s) ≡ some_fields false (fields b',' [] s)
first_and_more-fields s = elim (Option-cases (strtok b',' s)) [
  | inl e ↦ rw (strtok-fields b',' s, e) refl
  | inr ((t, rest), e) ↦
      rw (strtok-fields b',' s, e)
        (ap (λ x. some (t ∷ x)) (tokens-fields (length rest + 1) b',' rest (omega arith)))
]

configured_commands-fields :
    (s : Bytes) → configured_commands s ≡ some_fields (is_empty s) (fields b',' [] (lower s))
unfolding configured_commands lower
configured_commands-fields [] = unfold fields in refl
configured_commands-fields (c ∷ s) = first_and_more-fields (lower (c ∷ s))

-- The commands of the child processor are those that config.ini lists between commas and those
-- that annotations name, all in lowercase. There is no result, which is a string made of a null
-- pointer, just where config.ini gives a text that is not empty and holds commas only.
pub child_processor_commands-fields :
    (ss : SessionState)
    → child_processor_commands ss
      ≡ and_annotated (annotated_commands ss.sp_spartan_child_processor_commands) (
          some_fields
            (is_empty ss.spartan_child_processor_commands)
            (fields b',' [] (lower ss.spartan_child_processor_commands)))
unfolding child_processor_commands
child_processor_commands-fields ss =
    rw (configured_commands-fields ss.spartan_child_processor_commands) refl

keep_main_lem :
    (saved : MethodDescriptor) (o : Option SessionState) (r : SessionState)
    → no_name saved ≡ false
    → keep_main saved o ≡ some r
    → r.spartan_main_entry_point ≡ saved
keep_main_lem saved none r h e = absurd cc
keep_main_lem saved (some ss) r h e =
    let chosen =
      λ (b : Bool). if not b then record ss { spartan_main_entry_point = saved } else ss in
    ap (λ (x : SessionState). x.spartan_main_entry_point)
      (sym (some-injective (chosen (no_name saved)) r e) ∙ ap chosen h)

-- The main entry point of config.ini is kept, whatever the annotations say.
pub process_initial_main :
    (info : DispatchInfo) (ss r : SessionState)
    → no_name ss.spartan_main_entry_point ≡ false
    → process_initial info ss ≡ some r
    → r.spartan_main_entry_point ≡ ss.spartan_main_entry_point
unfolding process_initial
process_initial_main info ss r h e =
    keep_main_lem ss.spartan_main_entry_point (apply_cmd_dsp_info info ss) r h e

map-append : (a b : Bytes) → lower (a ++ b) ≡ lower a ++ lower b
unfolding lower
map-append [] b = refl
map-append (c ∷ a) b = ap (◌∷◌ (to_lower c)) (map-append a b)

istarts_with-append : (a b : Bytes) → istarts_with (a ++ b) a ≡ true
unfolding istarts_with
istarts_with-append a b = rw (map-append a b) (starts_with-append (lower a) (lower b))

-- The name has a part between slashes.
abbrev pub HasPart : MethodDescriptor → Type 0
HasPart m = is_empty (fields b'/' [] m.full_method_name) ≡ false

abbrev pub StandsIn : Bytes → MethodDescriptor → Type 0
StandsIn class m = istarts_with m.full_method_name class ≡ true

reclass-StandsIn :
    (class : Bytes) (m : MethodDescriptor) → HasPart m → StandsIn class (reclass class m)
unfolding reclass
reclass-StandsIn class m h = elim (Bool-cases (istarts_with m.full_method_name class)) [
  | inl e ↦ rw e e
  | inr e ↦ rw (e, str_split-fields m.full_method_name b'/', h) (istarts_with-append class _)
]

-- With a main entry point that an annotation names, the five other entry points stand in its
-- class, up to case, if each of them has a name.
pub main_entry_method-StandsIn :
    (ss : SessionState) (m : MethInfo)
    → HasPart ss.spartan_get_status_entry_point
    → HasPart ss.spartan_supervisor_shutdown_entry_point
    → HasPart ss.spartan_child_notify_entry_point
    → HasPart ss.spartan_child_completion_notify_entry_point
    → HasPart ss.spartan_supervisor_entry_point
    → (r : SessionState) × (main_entry_method ss (some m) ≡ some r)
      × (r.spartan_main_entry_point.full_method_name ≡ full_name m)
      × StandsIn (entry_points_class (full_name m)) r.spartan_get_status_entry_point
      × StandsIn (entry_points_class (full_name m)) r.spartan_supervisor_shutdown_entry_point
      × StandsIn (entry_points_class (full_name m)) r.spartan_child_notify_entry_point
      × StandsIn (entry_points_class (full_name m)) r.spartan_child_completion_notify_entry_point
      × StandsIn (entry_points_class (full_name m)) r.spartan_supervisor_entry_point
unfolding main_entry_method
main_entry_method-StandsIn ss m a b c d e =
    let class = entry_points_class (full_name m) in
    (
      _,
      refl,
      refl,
      reclass-StandsIn class ss.spartan_get_status_entry_point a,
      reclass-StandsIn class ss.spartan_supervisor_shutdown_entry_point b,
      reclass-StandsIn class ss.spartan_child_notify_entry_point c,
      reclass-StandsIn class ss.spartan_child_completion_notify_entry_point d,
      reclass-StandsIn class ss.spartan_supervisor_entry_point e,
    )
