-- ===== src/FileTime/Tests.antt =====
-- The first day of 2024, and 150 nanoseconds before the epoch.
use go_adldap.Base.{◌≡◌, ◌-◌, ◌^◌, arith, some}
use go_adldap.FileTime.{file_time_to_time, time_to_file_time}
use go_adldap.FileTime.RoundTrip.{file_time_to_time-time_to_file_time}

file_time_to_time-time_to_file_time_example :
    file_time_to_time (time_to_file_time 1704067200000000000) ≡ some (some 1704067200000000000)
file_time_to_time-time_to_file_time_example =
    file_time_to_time-time_to_file_time 1704067200000000000 (omega arith)

before_epoch : file_time_to_time (time_to_file_time (2 ^ 64 - 150)) ≡ some (some (2 ^ 64 - 100))
before_epoch = file_time_to_time-time_to_file_time (2 ^ 64 - 150) (omega arith)
