-- ===== src/Command/Laws.antt =====
-- The choice of an operation and the rounds of the state machine.
use spartan_launcher.Prelude.{
  ◌≡◌, ◌≢◌, refl, ap, ◌∙◌, false, none, some, List, [], ◌∷◌, ◌++◌, arith, Bytes, codes, is_empty,
  iequal, lower, same_text, istarts_with, starts_with, Bool-cases, Option-cases, inl, inr,
}
use spartan_launcher.Text.{field}
use spartan_launcher.Message.{is_pipe_option}
use spartan_launcher.Command.{
  Operation, Chosen, nothing_chosen, is_none_yet, option_of, choose_option, choose_word, choose_arg,
  choose, Services, run_command, round, rounds, forkable_main_entry,
}

choose_option_kept :
    (s : Chosen) (arg optn : Bytes) → is_none_yet s.operation ≡ false → choose_option s arg optn ≡ s
unfolding choose_option
choose_option_kept s arg optn h = rw h (ground arith)

choose_word_kept :
    (s : Chosen) (optn : Bytes)
    → is_none_yet s.operation ≡ false
    → is_empty s.command ≡ false
    → choose_word s optn ≡ s
unfolding choose_word
choose_word_kept s optn h k = rw (h, k) (ground arith)

choose_arg_kept :
    (s : Chosen) (arg : Bytes)
    → is_none_yet s.operation ≡ false
    → is_empty s.command ≡ false
    → choose_arg s arg ≡ s
unfolding choose_arg
choose_arg_kept s arg h k = elim (Option-cases (option_of arg)) [
  | inl e ↦ rw (choose_arg, e) (choose_word_kept s arg h k)
  | inr (optn, e) ↦ rw (choose_arg, e) (choose_option_kept s arg optn h)
]

choose_kept :
    (s : Chosen) (args : List Bytes)
    → is_none_yet s.operation ≡ false
    → is_empty s.command ≡ false
    → choose s args ≡ s
unfolding choose
choose_kept s [] h k = refl
choose_kept s (arg ∷ args) h k = rw (choose_arg_kept s arg h k) (choose_kept s args h k)

-- What the loop has when it read a pipe option and a command.
abbrev piped : Bytes → Bytes → Chosen
piped name word = record {
  operation = Operation.invoked_command;
  pipe_option = codes "-pipe=" ++ name;
  command = word;
}

choose_arg_pipe :
    (name : Bytes) → choose_arg nothing_chosen (codes "-pipe=" ++ name) ≡ piped name []
unfolding choose_arg choose_option iequal lower same_text is_pipe_option istarts_with starts_with
choose_arg_pipe name = refl

choose_arg_word :
    (name word : Bytes)
    → option_of word ≡ none
    → iequal word (codes "status") ≡ false
    → iequal word (codes "stop") ≡ false
    → choose_arg (piped name []) word ≡ piped name word
unfolding choose_arg choose_word
choose_arg_word name word w st sp = rw (choose_arg, w) (rw (choose_word, st, sp) refl)

choose-piped :
    (name word : Bytes) (args : List Bytes)
    → option_of word ≡ none
    → is_empty word ≡ false
    → iequal word (codes "status") ≡ false
    → iequal word (codes "stop") ≡ false
    → choose nothing_chosen ((codes "-pipe=" ++ name) ∷ word ∷ args) ≡ piped name word
unfolding choose
choose-piped name word args w n st sp =
    rw (choose_arg_pipe name, choose_arg_word name word w st sp)
      (choose_kept (piped name word) args refl n)

field_pipe : (name : Bytes) → (field b'=' (codes "-pipe=" ++ name)).1 ≡ name
unfolding field
field_pipe name = refl

module _ (sv : Services) where
  rounds-piped :
      (name word : Bytes)
      → is_empty word ≡ false
      → rounds sv 2 (piped name word) Operation.invoked_command [] ≡ some (run_command sv word name)
  unfolding rounds round
  rounds-piped name word n =
      rw (rounds, round, n) (ap (λ x. some (run_command sv word x)) (field_pipe name))

  -- A pipe option and then a word run that word as a command that answers on the option's socket,
  -- whatever arguments follow; unless the word is an option, empty, or names status or stop.
  pub forkable_main_entry_pipe :
      (name word : Bytes) (args : List Bytes)
      → option_of word ≡ none
      → is_empty word ≡ false
      → iequal word (codes "status") ≡ false
      → iequal word (codes "stop") ≡ false
      → forkable_main_entry sv ((codes "-pipe=" ++ name) ∷ word ∷ args)
        ≡ some (run_command sv word name)
  unfolding forkable_main_entry
  forkable_main_entry_pipe name word args w n st sp =
      ap (λ s. rounds sv 2 s s.operation []) (choose-piped name word args w n st sp)
      ∙ rounds-piped name word n

  rounds_end : (s : Chosen) (op : Operation) (socket : Bytes) → rounds sv 2 s op socket ≢ none
  unfolding rounds round
  rounds_end s Operation.none_yet socket = λ e. cc
  rounds_end s Operation.service socket = λ e. cc
  rounds_end s Operation.status socket = λ e. cc
  rounds_end s Operation.stop socket = λ e. cc
  rounds_end s Operation.command socket = λ e. cc
  rounds_end s Operation.invoked_command socket = elim (Bool-cases (is_empty s.command)) [
    | inl e ↦ rw (rounds, round, e) (λ x. cc)
    | inr e ↦ rw (rounds, round, e) (λ x. cc)
  ]

  -- The state machine always ends within its two rounds.
  pub forkable_main_entry_ends : (args : List Bytes) → forkable_main_entry sv args ≢ none
  unfolding forkable_main_entry
  forkable_main_entry_ends [] = λ e. cc
  forkable_main_entry_ends (arg ∷ args) =
      let s = choose nothing_chosen (arg ∷ args) in rounds_end s s.operation []
