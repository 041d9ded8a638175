-- ===== src/Time/Tests.antt =====
-- Concrete times, and the theorems at concrete inputs.
use huicpp.Base.{◌≡◌, ◌↔◌, refl, arith, [], ◌∷◌, false, some}
use huicpp.Base.Options.{◌>>=◌}
use huicpp.Time.{Tm}
use huicpp.Time.LogFile.{day, tenmin, Strategy, need_rollback, get_file_name}
use huicpp.Time.LogFile.Periods.{IsTm}
use huicpp.Time.LogFile.Names.{need_rollback-get_file_name}
use huicpp.Time.LogFile.Writing.{Message, init_log, write_all}
use huicpp.Time.LogFile.Writing.Disk.{empty_disk, disk_system}
use huicpp.Time.LogFile.Writing.Backups.{IsBounded, write_all-IsBounded}
use huicpp.Time.Parse.{
  from_str, get_now, default_format, from_str_loop, literal, directive, peek, advance, no_time,
  take_digits, width_of, read_value, atoi, set_field, store,
}
use huicpp.Time.Parse.RoundTrip.{parsed, from_str-get_now}

-- The 5th of March 2022, 14:07:09 and 14:52:00.
abbrev afternoon : Tm
afternoon = record { tm_year = 122; tm_mon = 2; tm_mday = 5; tm_hour = 14; tm_min = 7; tm_sec = 9 }

abbrev before_three : Tm
before_three = record afternoon { tm_min = 52; tm_sec = 0 }

afternoon-IsTm : IsTm afternoon
afternoon-IsTm = record {
  year = omega arith;
  mon = omega arith;
  mday = omega arith;
  hours = omega arith;
  minutes = omega arith;
}

before_three-IsTm : IsTm before_three
before_three-IsTm = record {
  year = omega arith;
  mon = omega arith;
  mday = omega arith;
  hours = omega arith;
  minutes = omega arith;
}

-- "a_2022_03_05_14_00.log"
file_name_run :
    get_file_name tenmin (97 ∷ []) [] afternoon
    ≡ 97 ∷ 95 ∷ 50 ∷ 48 ∷ 50 ∷ 50 ∷ 95 ∷ 48 ∷ 51 ∷ 95 ∷ 48 ∷ 53 ∷ 95 ∷ 49 ∷ 52 ∷ 95 ∷ 48 ∷ 48 ∷ 46
      ∷ 108 ∷ 111 ∷ 103 ∷ []
unfolding get_file_name
file_name_run = refl

need_rollback-get_file_name_example :
    (need_rollback tenmin afternoon before_three ≡ false)
    ↔ (get_file_name tenmin (97 ∷ []) [] afternoon ≡ get_file_name tenmin (97 ∷ []) [] before_three)
need_rollback-get_file_name_example =
    need_rollback-get_file_name tenmin (97 ∷ []) [] afternoon before_three (omega arith)
      afternoon-IsTm before_three-IsTm

-- Two messages, each written when it was made, to the log "a", which rolls over every ten minutes.
abbrev ten_minutes : Strategy
ten_minutes = record { value = tenmin; mt_time = afternoon; filename = 97 ∷ [] }

abbrev early : Message
early = record { mt = afternoon; now = afternoon; text = 49 ∷ [] }

abbrev late : Message
late = record { mt = before_three; now = before_three; text = 50 ∷ [] }

-- The same messages to a log by the day.
write_all-IsBounded_example : IsBounded (
    write_all disk_system (early ∷ late ∷ []) (
      init_log disk_system afternoon (record {
        roll_strategy = record ten_minutes { value = day };
        backup_logs = [];
        disk = empty_disk;
      })))
write_all-IsBounded_example =
    write_all-IsBounded (record ten_minutes { value = day }) afternoon (early ∷ late ∷ []) refl

from_str-get_now_example :
    from_str (λ t. t) (get_now afternoon) (some default_format) no_time ≡ some (parsed afternoon)
from_str-get_now_example =
    from_str-get_now (λ t. t) no_time afternoon
      (record {
        year = omega arith;
        mon = omega arith;
        mday = omega arith;
        hours = omega arith;
        minutes = omega arith;
        seconds = omega arith;
      })

-- A text that ends before the format leaves the time as it was.
short_text : from_str (λ t. t) (50 ∷ []) (some (37 ∷ 89 ∷ 37 ∷ 109 ∷ [])) no_time ≡ some no_time
unfolding from_str from_str_loop literal directive peek advance take_digits width_of read_value atoi
    set_field store ◌>>=◌
short_text = refl
