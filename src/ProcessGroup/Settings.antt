-- ===== src/ProcessGroup/Settings.antt =====
-- src/process_group_api.cpp: the configuration that `connect_process_group` reads from the environment.
use comm_workshop_final.Prelude.{
  ℕ, ◌*◌, ◌-◌, ◌^◌, ◌≤◌, ◌<◌, ◌≡◌, Bool, true, false, not, ◌||◌, Option, none, some, if◌then◌else◌,
  ◌==◌, ltb,
}
use comm_workshop_final.Prelude.Int.{ℤ, pos, negsuc}
use comm_workshop_final.Pieces.{Config}
use comm_workshop_final.ProcessGroup.{ModeText, parse_transfer_mode_environment}

-- What `strtol` makes of a text: whether it sets `errno`, whether it reads anything, whether it reads
-- all, and the number.
pub record Parsed : Type 0 where
  pub sets_errno : Bool
  pub reads_some : Bool
  pub reads_all : Bool
  pub value : ℤ

-- `std::numeric_limits<int>::max()`
abbrev pub int_max : ℕ
int_max = 2 ^ 31 - 1

-- A number in range.
in_range : ℤ → Option ℕ
in_range (negsuc n) = none
in_range (pos n) = if n == 0 || ltb int_max n then none else some n

-- An unset or empty variable is `none`; an exception is `none` too.
unfoldable pub parse_positive_environment_int : Option Parsed → ℕ → Option ℕ
unfolding in_range
parse_positive_environment_int none default_value = some default_value
parse_positive_environment_int (some p) default_value =
    if p.sets_errno || not p.reads_some || not p.reads_all then none else in_range p.value

-- The `try` block that fills `collective_config`.
unfoldable pub collective_config : Option Parsed → Option Parsed → ModeText → Option Config
unfolding parse_positive_environment_int parse_transfer_mode_environment
collective_config piece_bytes inflight mode =
    elim (parse_positive_environment_int piece_bytes (64 * 1024)) [
      | none ↦ none
      | some bytes ↦ elim (parse_positive_environment_int inflight 4) [
        | none ↦ none
        | some requests ↦ elim (parse_transfer_mode_environment mode) [
          | none ↦ none
          | some transfer_mode ↦ some (record {
            pipeline_piece_bytes = bytes;
            max_inflight = requests;
            transfer_mode = transfer_mode;
          })
        ]
      ]
    ]

-- The number that a variable stands for.
abbrev pub Accepts : Option Parsed → ℕ → ℕ → Type 0
Accepts none default_value n = default_value ≡ n
Accepts (some p) default_value n =
    (p.sets_errno ≡ false)
    × (p.reads_some ≡ true)
    × (p.reads_all ≡ true)
    × (p.value ≡ pos n)
    × (0 < n)
    × (n ≤ int_max)
