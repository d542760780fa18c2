-- ===== src/Http/Cookies.antt =====
-- The cookies of HttpService: ExpireTimeUseRFC1123 and the functions that prove what a cookie does.
use linux_advance.Base.{ℕ, ◌+◌, List, [], ◌∷◌, ◌++◌, get_elem?, if◌then◌else◌, ltb}
use linux_advance.Base.Monad.{Result, ok, undefined, or_fault, ◌>>=◌}
use linux_advance.Base.Text.{Text, codes}
use linux_advance.Base.Text.Decimal.{to_string}
use linux_advance.Log.{Tm}

abbrev months : List Text
months =
    codes "Jan"
    ∷ codes "Feb"
    ∷ codes "Mar"
    ∷ codes "Apr"
    ∷ codes "May"
    ∷ codes "Jun"
    ∷ codes "Jul"
    ∷ codes "Aug"
    ∷ codes "Sep"
    ∷ codes "Oct"
    ∷ codes "Nov"
    ∷ codes "Dec"
    ∷ []

-- GetMonName: a month that is none is read out of bounds.
unfoldable pub get_mon_name : ℕ → Result Text
get_mon_name month = or_fault undefined (get_elem? months month)

abbrev weekdays : List Text
weekdays =
    codes "Sun"
    ∷ codes "Mon"
    ∷ codes "Tue"
    ∷ codes "Wed"
    ∷ codes "Thu"
    ∷ codes "Fri"
    ∷ codes "Sat"
    ∷ []

-- GetWeekname
unfoldable pub get_weekname : ℕ → Result Text
get_weekname day = or_fault undefined (get_elem? weekdays day)

-- "%02d"
unfoldable pub two_digits : ℕ → Text
two_digits n = if ltb n 10 then b'0' ∷ to_string n else to_string n

-- ExpireTimeUseRFC1123: `gmtime` gives the parts of a time in seconds.
unfoldable pub expire_time : (ℕ → Tm) → ℕ → ℕ → Result Text
expire_time gmtime now t =
    let tm = gmtime (now + t) in
    (do
      week ← get_weekname tm.wday
      month ← get_mon_name tm.mon
      ok (
          week
          ++ (codes ", "
              ++ (two_digits tm.mday
                  ++ (b' '
                      ∷ (month
                          ++ (b' '
                              ∷ (to_string (tm.year + 1900)
                                  ++ (b' '
                                      ∷ (two_digits tm.hour
                                          ++ (b':'
                                              ∷ (two_digits tm.min
                                                  ++ (b':'
                                                      ∷ (two_digits tm.sec
                                                          ++ codes " UTC"))))))))))))))

-- ProveCookieWrite
abbrev pub prove_cookie_write : Text
prove_cookie_write = codes "username=xp;"

-- ProveCookieTimeOut
unfoldable pub prove_cookie_time_out : (ℕ → Tm) → ℕ → Result Text
prove_cookie_time_out gmtime now = do
  expires ← expire_time gmtime now 2
  ok (codes "username=xp; expires=" ++ (expires ++ codes ";"))

-- ProvePath
abbrev pub prove_path : Text
prove_path = codes "username=xp; path=/a/b;"
