-- ===== src/Log.antt =====
-- Log.hpp: the lines of the log.
pub mod Sinks
use linux_advance.Base.{ℕ, ◌+◌, Option, none, some, [], ◌∷◌, ◌++◌, take}
use linux_advance.Base.Text.{Text, codes, c_str}
use linux_advance.Base.Text.Decimal.{to_string}

pub data Level : Type 0 where
  debug info warning error fatal : Level
  other : ℕ → Level

-- LevelToString, on the values of the enumeration and any other int.
unfoldable pub level_to_string : Level → Text
level_to_string debug = codes "Debug"
level_to_string info = codes "Info"
level_to_string warning = codes "Warning"
level_to_string error = codes "Error"
level_to_string fatal = codes "Fatal"
level_to_string (other n) = codes "Unknow"

-- A struct tm, of a year from 1900 on.
pub record Tm : Type 0 where
  pub sec : ℕ
  pub min : ℕ
  pub hour : ℕ
  pub mday : ℕ
  pub mon : ℕ
  pub year : ℕ
  pub wday : ℕ

-- GetTimeString, on what localtime gives.
unfoldable pub time_string : Option Tm → Text
time_string none = codes "None"
time_string (some t) =
    to_string (t.year + 1900)
    ++ (b'-'
        ∷ (to_string (t.mon + 1)
            ++ (b'-'
                ∷ (to_string t.mday
                    ++ (b' '
                        ∷ (to_string t.hour
                            ++ (b':' ∷ (to_string t.min ++ (b':' ∷ to_string t.sec)))))))))

abbrev bracketed : Text → Text
bracketed t = b'[' ∷ (t ++ b']' ∷ [])

-- Where a message comes from.
pub record Origin : Type 0 where
  pub filename : Text
  pub line : ℕ
  pub pid : ℕ

-- LogMessage: `formatted` is what the format and its arguments print; vsnprintf keeps 1023 bytes of it.
unfoldable pub log_message : Origin → Option Tm → Level → Text → Text
log_message o now level formatted =
    bracketed (time_string now)
    ++ (bracketed (level_to_string level)
        ++ (bracketed (codes "pid:" ++ to_string o.pid)
            ++ (bracketed o.filename
                ++ (bracketed (to_string o.line)
                    ++ (b' ' ∷ (c_str (take 1023 formatted) ++ 10 ∷ []))))))
