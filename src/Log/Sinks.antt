-- ===== src/Log/Sinks.antt =====
-- Log.hpp: where messages go. LockGuard holds the mutex while a message is written, so the messages of
-- several threads are whole, in the order in which the threads get the mutex.
use linux_advance.Base.{
  ◌≡◌, refl, sym, ◌∙◌, Bool, true, false, List, [], ◌∷◌, ◌++◌, append-nil, append_assoc,
}
use linux_advance.Base.Text.{Text}

-- isSave, what the screen has shown, and log.txt.
pub record Sinks : Type 0 where
  pub is_save : Bool
  pub screen : Text
  pub file : Text

-- SaveToFile, with whether log.txt opens.
unfoldable pub save_to_file : Bool → Text → Sinks → Sinks
save_to_file false message s = s
save_to_file true message s = record s { file = s.file ++ message }

-- The end of LogMessage.
unfoldable pub write_message : Bool → Bool → Text → Sinks → Sinks
write_message false opens message s = record s { screen = s.screen ++ message }
write_message true opens message s = save_to_file opens message s

-- EnableScreen, EnableFile, and LOG with a message.
pub data Event : Type 0 where
  enable_screen enable_file : Event
  logs : Bool → Text → Event

unfoldable pub happen : Event → Sinks → Sinks
happen enable_screen s = record s { is_save = false }
happen enable_file s = record s { is_save = true }
happen (logs opens message) s = write_message s.is_save opens message s

unfoldable pub run : List Event → Sinks → Sinks
run [] s = s
run (e ∷ es) s = run es (happen e s)

-- The messages for the screen, and the messages that log.txt opened for.
abbrev later : Event → Bool → Bool
later enable_screen b = false
later enable_file b = true
later (logs opens message) b = b

abbrev to_screen : Event → Bool → Text
to_screen (logs opens message) false = message
to_screen (logs opens message) true = []
to_screen enable_screen b = []
to_screen enable_file b = []

abbrev to_file : Event → Bool → Text
to_file (logs true message) true = message
to_file (logs false message) true = []
to_file (logs opens message) false = []
to_file enable_screen b = []
to_file enable_file b = []

unfoldable pub all_to : (Event → Bool → Text) → List Event → Bool → Text
all_to part [] b = []
all_to part (e ∷ es) b = part e b ++ all_to part es (later e b)

-- A step appends a message to one sink, or none.
happen_lem :
    (e : Event) (is_save : Bool) (screen file : Text)
    → happen e (record { is_save = is_save; screen = screen; file = file }) ≡ record {
      is_save = later e is_save;
      screen = screen ++ to_screen e is_save;
      file = file ++ to_file e is_save;
    }
unfolding happen write_message save_to_file
happen_lem enable_screen b screen file = simp append-nil refl
happen_lem enable_file b screen file = simp append-nil refl
happen_lem (logs opens message) false screen file = simp append-nil refl
happen_lem (logs false message) true screen file = simp append-nil refl
happen_lem (logs true message) true screen file = simp append-nil refl

-- From any sinks: the screen and log.txt get, behind what they had, exactly the messages that were
-- written to them, in order and whole.
pub run-sinks :
    (es : List Event) (s : Sinks)
    → ((run es s).screen ≡ s.screen ++ all_to to_screen es s.is_save)
      × ((run es s).file ≡ s.file ++ all_to to_file es s.is_save)
unfolding run all_to
run-sinks [] s = (sym (append-nil s.screen), sym (append-nil s.file))
run-sinks (e ∷ es) s =
    let one = happen_lem e s.is_save s.screen s.file in
    let (screen, file) = run-sinks es (happen e s) in
    (
      screen ∙ rw one (append_assoc s.screen (to_screen e s.is_save) _),
      file ∙ rw one (append_assoc s.file (to_file e s.is_save) _),
    )
