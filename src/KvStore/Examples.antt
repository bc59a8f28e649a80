-- ===== src/KvStore/Examples.antt =====
-- The theorems on the store at a run of three operations.
use kv_store_project.Prelude.{
  ◌≡◌, ◌≢◌, true, [], ◌∷◌, none, some, List, All, ◌+◌, ◌<◌, ◌^◌, length, arith,
}
use kv_store_project.Prelude.Text.{Bytes, codes}
use kv_store_project.Prelude.Map
use kv_store_project.Wal.{open_wal}
use kv_store_project.Wal.Recovery.{Fits}
use kv_store_project.Wal.Lost.{cut_short}
use kv_store_project.KvStore.Lost.{construct_lost}
use kv_store_project.KvStore.{KvStore, construct, put, put_command}
use kv_store_project.KvStore.Recovery.{
  Op, writes, removes, IsGood, run, construct-run, construct-put_equals, fresh-IsDurable,
}

abbrev ops : List Op
ops = writes (codes "a") (codes "1") ∷ writes (codes "b") (codes "x=y z") ∷ removes (codes "a") ∷ []

nonempty : codes "a" ≢ []
nonempty = λ h. absurd (cc h)

abbrev fresh : KvStore
fresh = construct none

ops-IsGood : All IsGood ops
ops-IsGood = (
  ((λ h. absurd (cc h), (ground arith, tt)), omega arith),
  (
    ((λ h. absurd (cc h), (ground arith, tt)), omega arith),
    ((λ h. absurd (cc h), omega arith), tt),
  ),
)

fresh-room : fresh.write_ahead_log.last_index + length ops < 2 ^ 64
unfolding construct open_wal
fresh-room = omega arith

construct-run_example : construct (run ops fresh).write_ahead_log.file ≡ run ops fresh
construct-run_example = construct-run ops fresh fresh-IsDurable ops-IsGood fresh-room

abbrev command : Bytes
command = put_command (codes "a") (codes "1")

fresh-Fits : (k : Bytes) → length k < 100 → Fits fresh.write_ahead_log k
unfolding construct open_wal
fresh-Fits k h = record { index = omega arith; size = omega arith }

-- The write of a long value, of which a crash leaves the header and five bytes
abbrev long_command : Bytes
long_command = put_command (codes "a") (codes "a value that is longer than the record behind it")

abbrev torn_file : Bytes
torn_file = cut_short 5 long_command fresh.write_ahead_log

-- The write that comes after the restart
abbrev ops_short : List Op
ops_short = writes (codes "b") (codes "2") ∷ []

later : Fits fresh.write_ahead_log long_command
later = fresh-Fits long_command (omega arith)

construct_lost_example :
    (construct (run ops_short (construct (some torn_file))).write_ahead_log.file).mp ≡ fresh.mp
construct_lost_example =
    construct_lost fresh long_command ops_short 5 fresh-IsDurable later (omega arith)

construct-put_equals_example :
    (construct (put true (codes "a=b") (codes "1") fresh).write_ahead_log.file).mp
    ≡ Map.insert (codes "a") (codes "b=1") fresh.mp
construct-put_equals_example =
    construct-put_equals fresh (codes "a") (codes "b") (codes "1") fresh-IsDurable
      (fresh-Fits (put_command (codes "a=b") (codes "1")) (omega arith)) nonempty (ground arith, tt)
