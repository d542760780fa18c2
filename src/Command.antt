-- ===== src/Command.antt =====
-- CommandExecute.hpp of the server that executes commands.
use linux_advance.Base.{
  ◌≡◌, ◌≢◌, ◌↔◌, sym, subst, Bool, true, false, Option, none, some, List, [], ◌∷◌, ◌++◌, inl, inr,
  ◌⊎◌, is_empty, if◌then◌else◌, arith, Option-cases,
}
use linux_advance.Base.Text.{Text, codes, find?, c_str}
use linux_advance.Base.Text.Find.{find?_sound, find?-ne-none}

-- The words of CheckCommand.
abbrev pub words : List Text
words =
    codes "kill"
    ∷ codes "rm"
    ∷ codes "dd"
    ∷ codes "top"
    ∷ codes "reboot"
    ∷ codes "shutdown"
    ∷ codes "mv"
    ∷ codes "cp"
    ∷ codes "halt"
    ∷ codes "unlink"
    ∷ codes "exit"
    ∷ codes "chmod"
    ∷ []

unfoldable check_words : List Text → Text → Bool
check_words [] command = true
check_words (e ∷ es) command = elim (find? e command) [
  | none ↦ check_words es command
  | some n ↦ false
]

-- CheckCommand
unfoldable pub check_command : Text → Bool
unfolding check_words
check_command command = check_words words command

-- What fgets reads, appended as C strings.
unfoldable pub read_all : List Text → Text
read_all [] = []
read_all (b ∷ bs) = c_str b ++ read_all bs

-- What OnCommand answers behind ::popen, which gives what fgets reads from the command's output, or no
-- process.
unfoldable pub answer_of : Option (List Text) → Text
answer_of none = codes "popen error!"
answer_of (some buffs) =
    let response = read_all buffs in if is_empty response then codes "not command" else response

-- OnCommand: the answer, and the commands that ::popen is called with. `popen` is the system's.
unfoldable pub on_command : (Text → Option (List Text)) → Text → Text × List Text
on_command popen command =
    if check_command command
    then (answer_of (popen (c_str command)), c_str command ∷ [])
    else (codes "bad man!", [])

-- A word stands in the command.
abbrev pub Contains : Text → Text → Type 0
Contains command w = (pre : Text) × (post : Text) × (command ≡ pre ++ (w ++ post))

-- One of the words stands in it.
abbrev pub ContainsOne : List Text → Text → Type 0
ContainsOne [] command = ⊥
ContainsOne (w ∷ ws) command = Contains command w ⊎ ContainsOne ws command

check_words_sound : (ws : List Text) (c : Text) → check_words ws c ≡ false → ContainsOne ws c
unfolding check_words
check_words_sound [] c h = cc
check_words_sound (w ∷ ws) c h = elim (Option-cases (find? w c)) [
  | inl e ↦ inr (check_words_sound ws c (ground (arith, e)))
  | inr (n, e) ↦ let (pre, post, eq, l) = find?_sound w c n e in inl (pre, post, eq)
]

found_word : (w c : Text) → Contains c w → find? w c ≢ none
found_word w c (pre, post, e) = subst (λ t. find? w t ≢ none) (sym e) (find?-ne-none pre w post)

check_words_complete : (ws : List Text) (c : Text) → ContainsOne ws c → check_words ws c ≡ false
unfolding check_words
check_words_complete [] c h = absurd h
check_words_complete (w ∷ ws) c (inl k) = elim (Option-cases (find? w c)) [
  | inl e ↦ absurd (found_word w c k e)
  | inr (n, e) ↦ ground (arith, e)
]
check_words_complete (w ∷ ws) c (inr k) = ground (arith, check_words_complete ws c k)

-- CheckCommand refuses a command if and only if one of its words stands in the command, anywhere.
pub check_command-eq-false_iff :
    (command : Text) → (check_command command ≡ false) ↔ ContainsOne words command
unfolding check_command
check_command-eq-false_iff command =
    (check_words_sound words command, check_words_complete words command)
