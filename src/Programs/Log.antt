-- ===== src/Programs/Log.antt =====
-- src/LogSetup.cpp: which messages the log writes.
use Prim.Native.String.{String}
use text.Mathlib.Text as Text
use mini_plex.Base.{
  ℕ, ◌*◌, ◌%◌, ◌^◌, ◌≡◌, refl, inl, inr, Bool, true, false, not, ◌&&◌, ◌⊎◌, ◌==◌, leb, ltb,
  if◌then◌else◌, Bool-cases, arith,
}
use mini_plex.Programs.{Spdlog, Logger, SetupError, setup_logs}

-- The library accepts the name of a level: it has one, or it is that of no messages.
abbrev pub is_known : Spdlog → String → Bool
is_known lib arg = not (lib.from_str arg == lib.off && not (Text.◌==◌ arg "off"))

-- The library writes a message of a level to a sink if neither the logger nor the sink filters it.
abbrev pub writes_to : ℕ → ℕ → ℕ → Bool
writes_to logger_level sink_level message_level =
    leb logger_level message_level && leb sink_level message_level

-- What a result of `setup_logs` says of messages.
unfoldable pub WritesAll : ℕ → ℕ → SetupError ⊎ Logger → Type 0
WritesAll file_level console_level (inl e) = Unit
WritesAll file_level console_level (inr log) =
    (level : ℕ)
    → (writes_to log.level log.file_level level ≡ leb file_level level)
      × (writes_to log.level log.console_level level ≡ leb console_level level)

abbrev pub is_set_up : SetupError ⊎ Logger → Bool
is_set_up (inl e) = false
is_set_up (inr log) = true

smaller_level :
    (f c level : ℕ)
    → (writes_to (if ltb f c then f else c) f level ≡ leb f level)
      × (writes_to (if ltb f c then f else c) c level ≡ leb c level)
smaller_level f c level = (ground arith, ground arith)

-- The logs are set up exactly when both names of levels are known and the rotating file can be made of
-- its name, its size in bytes, which wraps at 64 bits, and the number of files. Then each sink writes
-- exactly those of the messages that it gets which have its level or a graver one, and the logger's
-- own level filters none of these. What a full queue drops is left out.
pub setup_logs-WritesAll :
    (lib : Spdlog) (name file_arg console_arg log_file : String) (size num : ℕ)
    → let r = setup_logs lib name file_arg console_arg log_file size num in
      (is_set_up r ≡ (
        is_known lib file_arg
        && is_known lib console_arg
        && lib.rotates log_file (size * 1024 % 2 ^ 64) num))
      × WritesAll (lib.from_str file_arg) (lib.from_str console_arg) r
unfolding setup_logs WritesAll
setup_logs-WritesAll lib name file_arg console_arg log_file size num =
    let f = lib.from_str file_arg in
    let c = lib.from_str console_arg in
    elim (Bool-cases (f == lib.off && not (Text.◌==◌ file_arg "off"))) [
      | inl a ↦ rw a (refl, tt)
      | inr a ↦ elim (Bool-cases (c == lib.off && not (Text.◌==◌ console_arg "off"))) [
        | inl b ↦ rw (a, b) (refl, tt)
        | inr b ↦ elim (Bool-cases (lib.rotates log_file (size * 1024 % 2 ^ 64) num)) [
          | inl d ↦ rw (a, b, d) (refl, λ level. smaller_level f c level)
          | inr d ↦ rw (a, b, d) (refl, tt)
        ]
      ]
    ]
