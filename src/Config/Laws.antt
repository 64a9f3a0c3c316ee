-- ===== src/Config/Laws.antt =====
-- The handler of config.ini's settings.
use spartan_launcher.Prelude.{
  ◌-◌, ◌^◌, ◌≡◌, refl, sym, ◌∙◌, arith, Bytes, codes, iequal, lower, lower_idem, same_text, ℤ, pos,
  negsuc, Option-cases, inl, inr,
}
use spartan_launcher.Stream.Laws.{InRange}
use spartan_launcher.Config.{
  Settings, handle_setting, supervisor_setting, child_setting, max_count_of, stoi, to_short_int,
}

iequal-lower : (a b : Bytes) → iequal (lower a) b ≡ iequal a b
unfolding iequal
iequal-lower a b = rw (lower_idem a) refl

-- The handler takes sections and names in any case.
pub handle_setting-lower :
    (prepend : Bytes → Bytes) (st : Settings) (section name text : Bytes)
    → handle_setting prepend st (lower section) (lower name) text
      ≡ handle_setting prepend st section name text
unfolding handle_setting supervisor_setting child_setting
handle_setting-lower prepend st section name text = simp iequal-lower

ignored :
    (prepend : Bytes → Bytes) (st : Settings) (text : Bytes)
    → handle_setting prepend st
        (codes "supervisorprocesssettings")
        (codes "supervisorentrypoint")
        text
      ≡ st
unfolding handle_setting supervisor_setting iequal lower same_text
ignored prepend st text = refl

-- The setting SupervisorEntryPoint changes nothing, in any spelling of its case, whatever its value.
pub handle_setting_ignored :
    (prepend : Bytes → Bytes) (st : Settings) (section name text : Bytes)
    → lower section ≡ codes "supervisorprocesssettings"
    → lower name ≡ codes "supervisorentrypoint"
    → handle_setting prepend st section name text ≡ st
handle_setting_ignored prepend st section name text hs hn =
    sym (handle_setting-lower prepend st section name text) ∙ rw (hs, hn) (ignored prepend st text)

to_short_int-InRange : (z : ℤ) → InRange (2 ^ 15) (2 ^ 15 - 1) (to_short_int z)
unfolding to_short_int
to_short_int-InRange (pos n) = ground arith
to_short_int-InRange (negsuc n) = ground arith

-- Whatever the value of ChildProcessMaxCount, the count is a `short`.
pub max_count_of-InRange : (text : Bytes) → InRange (2 ^ 15) (2 ^ 15 - 1) (max_count_of text)
unfolding max_count_of
max_count_of-InRange text = elim (Option-cases (stoi text)) [
  | inl e ↦ rw e (omega arith)
  | inr (z, e) ↦ rw e (to_short_int-InRange z)
]
