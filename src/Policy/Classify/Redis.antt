-- ===== src/Policy/Classify/Redis.antt =====
-- `ClassifyRedis`.
use tracepoint.Base.{Bool, true, false, ◌++◌, List, [], ◌∷◌, Option, none, some, if◌then◌else◌, any}
use tracepoint.Base.Text.{Text, codes, ◌==◌, contains, upper, equal_fold, trim_space}
use tracepoint.Policy.Classify.{Classification, Op, read, write, plain_read}
use tracepoint.Policy.Classify.Tables.{
  redis_reads, redis_dangerous, redis_dangerous_sub, redis_blocking, redis_writes,
}

unfoldable pub known_redis_write : Text → Bool
known_redis_write cmd = contains redis_writes cmd

unfoldable pub dangerous_subs : Text → List (Text × List Text) → Option (List Text)
dangerous_subs cmd [] = none
dangerous_subs cmd ((k, v) ∷ m) = if k == cmd then some v else dangerous_subs cmd m

abbrev result : Op → Text → Text → Bool → Classification
result o d b c = record { op = o; dangerous = d; blocking = b; certain = c }

-- `c.Blocking`
unfoldable pub blocking_of : Text → Text
blocking_of cmd = if contains redis_blocking cmd then cmd else []

-- A command with no dangerous subcommands.
unfoldable pub by_command : Text → Classification
by_command cmd =
    if contains redis_reads cmd
    then result read [] (blocking_of cmd) true
    else if known_redis_write cmd
    then result write [] (blocking_of cmd) true
    else result write [] (blocking_of cmd) false

by_subcommand : Text → Text → Option (List Text) → Classification
by_subcommand cmd sub none = by_command cmd
by_subcommand cmd sub (some subs) =
    if contains subs sub
    then result write (cmd ++ 32 ∷ sub) (blocking_of cmd) true
    else result read [] (blocking_of cmd) true

unfoldable pub classify_command : Text → Text → List Text → Classification
unfolding by_subcommand
classify_command cmd sub rest =
    if cmd == codes "SORT"
    then (if any (λ a. equal_fold a (codes "STORE")) rest
        then result write [] (blocking_of cmd) true
        else result read [] (blocking_of cmd) true)
    else if contains redis_dangerous cmd
    then result write cmd (blocking_of cmd) true
    else by_subcommand cmd sub (dangerous_subs cmd redis_dangerous_sub)

abbrev first_word : List Text → Text
first_word [] = []
first_word (a ∷ _) = upper (trim_space a)

unfoldable pub classify_redis : List Text → Classification
classify_redis [] = plain_read
classify_redis (a ∷ rest) = classify_command (upper (trim_space a)) (first_word rest) rest
