-- ===== src/Shared/Dates.antt =====
-- frontend/src/shared/utils/date.ts: the text of a last visit. The clock, the parsing of the
-- timestamp and the two locale formats are parameters; times are milliseconds.
use nothingapp.Common.{
  ℕ, ◌-◌, ◌/◌, ◌%◌, ◌==◌, ◌&&◌, ◌||◌, not, Option, none, some, [], ◌++◌, Str, codes, show, is_empty,
  leb, ltb, if◌then◌else◌,
}

abbrev pub last_seen_prefix : Str
last_seen_prefix = codes "был(а) в сети"

-- The plural of "минута".
unfoldable pub plural_minutes : ℕ → Str
plural_minutes n =
    let mod10 = n % 10 in
    let mod100 = n % 100 in
    if mod10 == 1 && not (mod100 == 11)
    then codes "минуту"
    else if leb 2 mod10 && leb mod10 4 && (ltb mod100 12 || ltb 14 mod100)
    then codes "минуты"
    else codes "минут"

-- What the browser's dates give: the epoch time of a text (none is `NaN`, or a time that is not
-- positive), the start of today, and the formats of a time and of a date.
pub record Clock : Type 0 where
  pub parse : Str → Option ℕ
  pub now : ℕ
  pub start_of_today : ℕ
  pub time_of : ℕ → Str
  pub date_of : ℕ → Str

-- `Math.floor((now - ts) / 60000)`, where a time in the future counts as no minute.
abbrev pub minutes_since : Clock → ℕ → ℕ
minutes_since c ts = (c.now - ts) / 60000

abbrev pub format_at : Clock → ℕ → Str
format_at c ts =
    let minutes = minutes_since c ts in
    if ltb minutes 1
    then last_seen_prefix ++ codes " только что"
    else if ltb minutes 60
    then last_seen_prefix
      ++ codes " "
      ++ show minutes
      ++ codes " "
      ++ plural_minutes minutes
      ++ codes " назад"
    else if leb c.start_of_today ts
    then last_seen_prefix ++ codes " сегодня в " ++ c.time_of ts
    else if leb (c.start_of_today - 86400000) ts
    then last_seen_prefix ++ codes " вчера в " ++ c.time_of ts
    else last_seen_prefix ++ codes " " ++ c.date_of ts

unfoldable pub format_last_seen : Clock → Option Str → Str
format_last_seen c none = []
format_last_seen c (some iso) =
    if is_empty iso
    then []
    else elim (c.parse iso) [ none ↦ [] | some ts ↦ if ts == 0 then [] else format_at c ts ]
